-- ===== src/State/Session.antt =====
-- The open SQLAlchemy session: the rows of each table in the order of their ids, which is the order
-- in which a query without ORDER BY reads them. Rows are never deleted, so the next id is one more
-- than the number of rows. `now` is what the clock shows; it stands still while one cycle runs.
use auto_trader_claude.Base.{ℕ, List, [], ◌∷◌, Option, none, some, ◌==◌, if◌then◌else◌}
use auto_trader_claude.State.Models.{
  StrategyConfig, StrategyConfigPerStrategy, ModeState, VenueState, Position, Trade, BotEvent,
  RejectedCandidate, BalanceSnapshot, CapitalFlow,
}

pub record Session (A : Type 0) : Type 0 where
  pub now : ℕ
  pub strategy_config : Option (StrategyConfig A)
  pub per_strategy : List (StrategyConfigPerStrategy A)
  pub mode_states : List ModeState
  pub venue_states : List VenueState
  pub positions : List (Position A)
  pub trades : List (Trade A)
  pub bot_events : List BotEvent
  pub rejected_candidates : List (RejectedCandidate A)
  pub balance_snapshots : List (BalanceSnapshot A)
  pub capital_flows : List (CapitalFlow A)

module _ {A : Type 0} where
  -- The mapped object of a row, which every query hands out again.
  unfoldable pub find_position : ℕ → List (Position A) → Option (Position A)
  find_position i [] = none
  find_position i (p ∷ ps) = if p.id == i then some p else find_position i ps

  -- An attribute write and its flush.
  unfoldable pub update_position :
      ℕ → (Position A → Position A) → List (Position A) → List (Position A)
  update_position i f [] = []
  update_position i f (p ∷ ps) = if p.id == i then f p ∷ ps else p ∷ update_position i f ps
