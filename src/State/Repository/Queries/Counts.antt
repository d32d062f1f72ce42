-- ===== src/State/Repository/Queries/Counts.antt =====
-- state/repository.py: the counts against the rows that they count.
use Prim.Native.Nat.{ℕ, suc, ◌+◌}
use auto_trader_claude.Base.{
  ◌≡◌, ◌∙◌, ap, String, str_eq, Bool-cases, inl, inr, List, [], ◌∷◌, keep, length, Option, Dict,
  arith, ◌<>◌,
}
use auto_trader_claude.Core.Types.{Mode, mode_text, status_text}
use auto_trader_claude.State.Models.{
  Position, RejectedCandidate, BotEvent, Level, info, warn, error,
}
use auto_trader_claude.State.Session.{Session}
use auto_trader_claude.State.Repository.Queries.{
  count, count_in, category, group, rejections_since, rejections_grouped, events_since, tally, bump,
  event_counts_in_window, count_statuses, of_mode, positions_by_status,
}

abbrev pub sum : Dict ℕ → ℕ
sum [] = 0
sum ((k, v) ∷ d) = v + sum d

abbrev pub sum_all : Dict (Dict ℕ) → ℕ
sum_all [] = 0
sum_all ((b, d) ∷ grouped) = sum d + sum_all grouped

sum-count : (k : String) (d : Dict ℕ) → sum (count k d) ≡ suc (sum d)
sum-count k [] = omega arith
sum-count k ((j, v) ∷ d) = elim (Bool-cases (str_eq j k)) [
  | inl e ↦ rw e (omega arith)
  | inr e ↦ rw e (omega (arith, sum-count k d))
]

sum_all-count_in :
    (b k : String) (grouped : Dict (Dict ℕ))
    → sum_all (count_in b k grouped) ≡ suc (sum_all grouped)
sum_all-count_in b k [] = omega arith
sum_all-count_in b k ((c, d) ∷ grouped) = elim (Bool-cases (str_eq c b)) [
  | inl e ↦ rw e (omega (arith, sum-count k d))
  | inr e ↦ rw e (omega (arith, sum_all-count_in b k grouped))
]

module _ {A : Type 0} where
  group-total :
      (rows : List (RejectedCandidate A)) (total : ℕ) (grouped : Dict (Dict ℕ))
      → ((group rows (total, grouped)).0 ≡ total + length rows)
        × (sum_all (group rows (total, grouped)).1 ≡ sum_all grouped + length rows)
  group-total [] total grouped = (omega arith, omega arith)
  group-total (r ∷ rows) total grouped =
      let bucket = r.exchange <> "/" <> mode_text r.mode in
      let (p, q) = group-total rows (suc total) (count_in bucket (category r.reason) grouped) in
      (omega (arith, p), omega (arith, q, sum_all-count_in bucket (category r.reason) grouped))

  statuses-sum :
      (ps : List (Position A)) (d : Dict ℕ) → sum (count_statuses ps d) ≡ sum d + length ps
  statuses-sum [] d = omega arith
  statuses-sum (p ∷ ps) d =
      omega (
        arith,
        statuses-sum ps (count (status_text p.status) d),
        sum-count (status_text p.status) d,
      )

abbrev pub total : ℕ × ℕ × ℕ → ℕ
total (i, w, x) = i + w + x

bump-total : (l : Level) (t : ℕ × ℕ × ℕ) → total (bump l t) ≡ suc (total t)
bump-total info (i, w, x) = omega arith
bump-total warn (i, w, x) = omega arith
bump-total error (i, w, x) = omega arith

tally-total : (events : List BotEvent) → total (tally events) ≡ length events
tally-total [] = omega arith
tally-total (e ∷ events) = bump-total e.level (tally events) ∙ ap suc (tally-total events)

module _ {A : Type 0} where
  -- No row is lost or counted twice: over any window, the total of rejections, and the sum over all
  -- venues, modes and categories, are the number of rejections in the window; the counts of events
  -- by level add up to the events in it; and the counts by status to the positions of the mode.
  pub counts-IsComplete :
      (hours : ℕ) (mode : Option Mode) (s : Session A)
      → ((rejections_grouped hours s).0 ≡ length (rejections_since hours s))
        × (sum_all (rejections_grouped hours s).1 ≡ length (rejections_since hours s))
        × (total (event_counts_in_window hours s) ≡ length (events_since hours s))
        × (sum (positions_by_status mode s) ≡ length (keep (of_mode mode) s.positions))
  unfolding rejections_grouped event_counts_in_window positions_by_status
  counts-IsComplete hours mode s =
      let (p, q) = group-total (rejections_since hours s) 0 [] in
      (
        omega (arith, p),
        omega (arith, q),
        tally-total (events_since hours s),
        omega (arith, statuses-sum (keep (of_mode mode) s.positions) []),
      )
