-- ===== src/State/Repository.antt =====
-- state/repository.py: the rows that a cycle reads and writes.
pub mod Config
pub mod Queries
use Prim.Native.Nat.{ℕ, suc}
use auto_trader_claude.Base.{
  String, Bool, true, ◌&&◌, List, [], ◌∷◌, ◌++◌, Option, none, some, length, keep, str_eq,
}
use auto_trader_claude.Core.Types.{Mode, same_mode}
use auto_trader_claude.Core.Lifecycle.{is_currently_exposed}
use auto_trader_claude.State.Models.{Position, Trade, Level, BotEvent, RejectedCandidate}
use auto_trader_claude.State.Session.{Session}

abbrev pub on_exchange : Option String → String → Bool
on_exchange none exchange = true
on_exchange (some wanted) exchange = str_eq exchange wanted

module _ {A : Type 0} where
  -- `OPEN_STATUSES_SQL` holds the statuses of `is_currently_exposed`.
  abbrev pub selected : Mode → Option String → Position A → Bool
  selected mode exchange p =
      (same_mode p.mode mode && is_currently_exposed p.status) && on_exchange exchange p.exchange

  unfoldable pub positions_currently_exposed : Mode → Option String → Session A → List (Position A)
  positions_currently_exposed mode exchange s = keep (selected mode exchange) s.positions

  -- A position whose `id` the flush assigns.
  unfoldable pub insert_position : Position A → Session A → Position A × Session A
  insert_position pos s =
      let row = record pos { id = suc (length s.positions) } in
      (row, record s { positions = s.positions ++ (row ∷ []) })

  unfoldable pub insert_trade : Trade A → Session A → Session A
  insert_trade trade s =
      let row = record trade { id = suc (length s.trades); ts = s.now } in
      record s { trades = s.trades ++ (row ∷ []) }

  unfoldable pub log_event : Mode → String → Level → String → Bool → Session A → Session A
  log_event mode exchange level message requires_action s =
      let row : BotEvent = record {
        id = suc (length s.bot_events);
        mode = mode;
        exchange = exchange;
        level = level;
        message = message;
        ts = s.now;
        requires_action = requires_action;
      } in
      record s { bot_events = s.bot_events ++ (row ∷ []) }

  unfoldable pub insert_rejection : Mode → String → String → String → A → Session A → Session A
  insert_rejection mode exchange symbol reason funding_rate s =
      let row : RejectedCandidate A = record {
        id = suc (length s.rejected_candidates);
        mode = mode;
        exchange = exchange;
        symbol = symbol;
        reason = reason;
        funding_rate = funding_rate;
        ts = s.now;
      } in
      record s { rejected_candidates = s.rejected_candidates ++ (row ∷ []) }
