-- ===== src/Number/Fixed.antt =====
-- Numbers that meet the laws: integers in units of a millionth, with quotients rounded towards
-- zero. They serve the runs of the model at concrete inputs.
mod Laws
pub use Laws.{fixed-IsOrdered, fixed-IsRounded}
pub use Defs.{ℤ, pos, negsuc}
unfoldable pub use Defs.{fixed_number, pow_ℤ}
mod Defs
