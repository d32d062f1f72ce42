-- ===== src/Diagnostics/Snapshot/Report.antt =====
-- diagnostics/endpoint.py: `build_snapshot` as a whole.
use Prim.Native.Nat.{ℕ, zero, suc, ◌≤◌}
use auto_trader_claude.Base.{◌≡◌, refl, List, [], ◌∷◌, length, none, Option-cases, inl, inr, arith}
use auto_trader_claude.Number.{Number}
use auto_trader_claude.State.Session.{Session}
use auto_trader_claude.State.Repository.Queries.{
  rejections_since, take, rejections_grouped, recent_events, recent_trades, event_counts_in_window,
}
use auto_trader_claude.State.Repository.Queries.Counts.{counts-IsComplete}
use auto_trader_claude.State.Repository.Config.{get_or_create_strategy_config}
use auto_trader_claude.Loop.World.{Host}
use auto_trader_claude.Diagnostics.Snapshot.{clamp, Wallet, Snapshot, build_snapshot}
use auto_trader_claude.Diagnostics.Snapshot.Rows.{IsSorted, sort_positions-IsSorted}

clamp_bounds : (hours : ℕ) → (1 ≤ clamp hours) × (clamp hours ≤ 168)
unfolding clamp
clamp_bounds hours = (ground arith, ground arith)

length-take : {X : Type 0} (k : ℕ) (xs : List X) → length (take k xs) ≤ k
length-take zero xs = omega arith
length-take (suc k) [] = omega arith
length-take (suc k) (x ∷ xs) = omega (arith, length-take k xs)

module _ {A : Type 0} ⦃n : Number A⦄ where
  -- The window is between an hour and a week; the positions are sorted by status; the total of
  -- rejections counts those in the window; and at most fifty events and trades are listed.
  pub record IsReport (s : Session A) (r : Snapshot A) : Type 0 where
    pub window : (1 ≤ r.window_hours) × (r.window_hours ≤ 168)
    pub positions : IsSorted s.now s.positions r.positions
    pub rejections : r.rejections_total ≡ length (rejections_since r.window_hours s)
    pub events : length r.events ≤ 50
    pub trades : length r.trades ≤ 50

module _ {A : Type 0} ⦃n : Number A⦄ ⦃host : Host⦄ where
  IsReport-holds :
      (hours : ℕ) (ws : List (Wallet A)) (s : Session A) → IsReport s (build_snapshot hours ws s).0
  unfolding build_snapshot recent_events recent_trades
  IsReport-holds hours ws s = record {
    window = clamp_bounds hours;
    positions = sort_positions-IsSorted s.now s.positions;
    rejections = (counts-IsComplete (clamp hours) none s).0;
    events = length-take 50 _;
    trades = length-take 50 _;
  }

  asked_again :
      (hours : ℕ) (ws : List (Wallet A)) (s : Session A)
      → build_snapshot hours ws (build_snapshot hours ws s).1 ≡ build_snapshot hours ws s
  unfolding build_snapshot get_or_create_strategy_config event_counts_in_window rejections_grouped
      recent_events recent_trades
  asked_again hours ws s = elim (Option-cases s.strategy_config) [
    | inl e ↦ simp (e, get_or_create_strategy_config) refl
    | inr (cfg, e) ↦ simp (e, get_or_create_strategy_config) refl
  ]

  -- The report has a window between an hour and a week, one row for each open and each naked
  -- position, the number of positions under each status, the total of the rejections in the window,
  -- and at most fifty events and trades; and asking for it again at once gives the same report and
  -- leaves the same tables.
  pub build_snapshot-IsReport :
      (hours : ℕ) (ws : List (Wallet A)) (s : Session A)
      → IsReport s (build_snapshot hours ws s).0
        × (build_snapshot hours ws (build_snapshot hours ws s).1 ≡ build_snapshot hours ws s)
  build_snapshot-IsReport hours ws s = (IsReport-holds hours ws s, asked_again hours ws s)
