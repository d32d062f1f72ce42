-- ===== src/State/Repository/Queries.antt =====
-- state/repository.py: the queries of the diagnostics over a window of hours. Times are numbers of
-- microseconds. `ORDER BY ts DESC` leaves rows of one time in the order of the table.
pub mod Counts
use Prim.Native.Nat.{ℕ, zero, suc, ◌+◌, ◌-◌, ◌*◌}
use auto_trader_claude.Base.{
  str_eq, String, ◌<>◌, has, before, strip, contains, Bool, true, ◌&&◌, List, [], ◌∷◌, map, keep,
  Option, none, some, Dict, get_or, insert, ltb, leb, if◌then◌else◌,
}
use auto_trader_claude.Core.Types.{Mode, mode_text, same_mode, status_text}
use auto_trader_claude.State.Models.{
  Position, Trade, Level, info, warn, error, BotEvent, RejectedCandidate, VenueState,
}
use auto_trader_claude.State.Session.{Session}

abbrev pub cutoff : ℕ → ℕ → ℕ
cutoff now hours = now - hours * 3600000000

module _ {X : Type 0} where
  abbrev pub take : ℕ → List X → List X
  take zero xs = []
  take (suc k) [] = []
  take (suc k) (x ∷ xs) = x ∷ take k xs

  abbrev pub place : (X → ℕ) → X → List X → List X
  place ts x [] = x ∷ []
  place ts x (y ∷ ys) =
      let rest = place ts x ys in if leb (ts y) (ts x) then x ∷ y ∷ ys else y ∷ rest

  -- `ORDER BY ts DESC`
  abbrev pub newest_first : (X → ℕ) → List X → List X
  newest_first ts [] = []
  newest_first ts (x ∷ xs) = place ts x (newest_first ts xs)

-- `d[k] = d.get(k, 0) + 1`
abbrev pub count : String → Dict ℕ → Dict ℕ
count k [] = (k, 1) ∷ []
count k ((j, v) ∷ d) = if str_eq j k then (j, suc v) ∷ d else (j, v) ∷ count k d

abbrev pub level_text : Level → String
level_text info = "INFO"
level_text warn = "WARN"
level_text error = "ERROR"

abbrev pub of_level : Option (List String) → BotEvent → Bool
of_level none e = true
of_level (some levels) e = contains (level_text e.level) levels

-- info, warn and error
abbrev pub bump : Level → ℕ × ℕ × ℕ → ℕ × ℕ × ℕ
bump info (i, w, x) = (suc i, w, x)
bump warn (i, w, x) = (i, suc w, x)
bump error (i, w, x) = (i, w, suc x)

abbrev pub tally : List BotEvent → ℕ × ℕ × ℕ
tally [] = (0, 0, 0)
tally (e ∷ events) = bump e.level (tally events)

-- the text up to the first colon, or else up to the first paren
abbrev pub category : String → String
category reason =
    strip (
      if has 58 reason
      then before 58 reason
      else if has 40 reason
      then before 40 reason
      else reason)

-- `grouped.setdefault(bucket, {})[cat] += 1`
abbrev pub count_in : String → String → Dict (Dict ℕ) → Dict (Dict ℕ)
count_in bucket cat [] = (bucket, count cat []) ∷ []
count_in bucket cat ((b, d) ∷ grouped) =
    if str_eq b bucket then (b, count cat d) ∷ grouped else (b, d) ∷ count_in bucket cat grouped

module _ {A : Type 0} where
  abbrev pub of_mode : Option Mode → Position A → Bool
  of_mode none p = true
  of_mode (some mode) p = same_mode p.mode mode

  abbrev pub count_statuses : List (Position A) → Dict ℕ → Dict ℕ
  count_statuses [] result = result
  count_statuses (p ∷ ps) result = count_statuses ps (count (status_text p.status) result)

  unfoldable pub positions_by_status : Option Mode → Session A → Dict ℕ
  positions_by_status mode s = count_statuses (keep (of_mode mode) s.positions) []

  abbrev pub events_since : ℕ → Session A → List BotEvent
  events_since hours s = keep (λ (e : BotEvent). leb (cutoff s.now hours) e.ts) s.bot_events

  unfoldable pub recent_events : ℕ → Option (List String) → ℕ → Session A → List BotEvent
  recent_events hours levels limit s =
      take limit
        (newest_first (λ (e : BotEvent). e.ts) (keep (of_level levels) (events_since hours s)))

  unfoldable pub event_counts_in_window : ℕ → Session A → ℕ × ℕ × ℕ
  event_counts_in_window hours s = tally (events_since hours s)

  unfoldable pub recent_trades : ℕ → ℕ → Session A → List (Trade A)
  recent_trades hours limit s = take limit (
      newest_first (λ (t : Trade A). t.ts)
        (keep (λ (t : Trade A). leb (cutoff s.now hours) t.ts) s.trades))

  abbrev pub group : List (RejectedCandidate A) → ℕ × Dict (Dict ℕ) → ℕ × Dict (Dict ℕ)
  group [] result = result
  group (r ∷ rows) (total, grouped) =
      group rows
        (suc total, count_in (r.exchange <> "/" <> mode_text r.mode) (category r.reason) grouped)

  abbrev pub rejections_since : ℕ → Session A → List (RejectedCandidate A)
  rejections_since hours s =
      keep (λ (r : RejectedCandidate A). leb (cutoff s.now hours) r.ts) s.rejected_candidates

  unfoldable pub rejections_grouped : ℕ → Session A → ℕ × Dict (Dict ℕ)
  rejections_grouped hours s = group (rejections_since hours s) (0, [])

  unfoldable pub active_exchange_ids : Session A → List String
  active_exchange_ids s =
      map (λ (v : VenueState). v.exchange_id) (keep (λ (v : VenueState). v.active) s.venue_states)
