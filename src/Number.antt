-- ===== src/Number.antt =====
-- The arithmetic of Python's floats that the program uses, as an interface. The model is over any
-- type of numbers with these operations; NaN and the infinities are left out, so that `a > b` is
-- `lt b a` and `a >= b` is `le b a`. A theorem that needs a law of the order or of the rounding
-- names it by `IsOrdered` or `IsRounded`.
mod Defs
pub mod Order
pub mod Fixed
pub use Defs.*
