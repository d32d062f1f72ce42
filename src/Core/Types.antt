-- ===== src/Core/Types.antt =====
-- core/types.py: the enumerations and records that the program passes around, over a type `A` of
-- floats. An exchange id and a symbol is a text.
pub mod Config
pub mod Market
use auto_trader_claude.Base.{String, Bool, true, false, Option}

pub data Mode : Type 0 where
  paper live : Mode

pub data VenueLeg : Type 0 where
  spot futures : VenueLeg

pub data Side : Type 0 where
  buy sell : Side

pub data PositionStatus : Type 0 where
  opened naked_spot naked_perp closed : PositionStatus

abbrev pub mode_text : Mode → String
mode_text paper = "paper"
mode_text live = "live"

abbrev pub leg_text : VenueLeg → String
leg_text spot = "spot"
leg_text futures = "futures"

abbrev pub side_text : Side → String
side_text buy = "buy"
side_text sell = "sell"

-- `PositionStatus(...).value`
abbrev pub status_text : PositionStatus → String
status_text opened = "open"
status_text naked_spot = "naked_spot"
status_text naked_perp = "naked_perp"
status_text closed = "closed"

abbrev pub is_open : PositionStatus → Bool
is_open opened = true
is_open _ = false

abbrev pub is_naked : PositionStatus → Bool
is_naked naked_spot = true
is_naked naked_perp = true
is_naked _ = false

abbrev pub same_mode : Mode → Mode → Bool
same_mode paper paper = true
same_mode live live = true
same_mode _ _ = false

abbrev pub same_leg : VenueLeg → VenueLeg → Bool
same_leg spot spot = true
same_leg futures futures = true
same_leg _ _ = false

-- What a gateway returns after placing one leg.
pub record FillResult (A : Type 0) : Type 0 where
  pub symbol : String
  pub venue_leg : VenueLeg
  pub side : Side
  pub qty : A
  pub avg_price : A
  pub fee_quote : A
  pub accepted : Bool
  pub error : Option String
  pub client_order_id : String
