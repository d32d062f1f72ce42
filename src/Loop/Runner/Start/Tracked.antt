-- ===== src/Loop/Runner/Start/Tracked.antt =====
-- loop/runner.py: which threads `stop_runner` reaches, behind any start of the runner.
use auto_trader_claude.Base.{
  Outcome-cases, ℕ, ◌≡◌, ◌⊎◌, inl, inr, Bool, true, false, List, [], ◌∷◌, ◌++◌, map, some, All,
  if◌then◌else◌, Outcome, ok, raised, Action, pure, gets, run_outcome, done, for_each, continue,
  ◌>>=◌,
}
use auto_trader_claude.Core.Settings.{get_gateway}
use auto_trader_claude.State.Session.{Session}
use auto_trader_claude.State.Database.{Database, Process, session_scope, settle}
use auto_trader_claude.Loop.Runner.{passed_over, write_store, fetch_store}
use auto_trader_claude.Loop.Runner.Start.{WorkerHandle, Adapter, Runtime}

abbrev pub IsIn : ℕ → List ℕ → Type 0
IsIn i [] = ⊥
IsIn i (x ∷ xs) = (x ≡ i) ⊎ IsIn i xs

pub IsIn-left : (i : ℕ) (xs ys : List ℕ) → IsIn i xs → IsIn i (xs ++ ys)
IsIn-left i [] ys h = absurd h
IsIn-left i (x ∷ xs) ys (inl e) = inl e
IsIn-left i (x ∷ xs) ys (inr h) = inr (IsIn-left i xs ys h)

pub IsIn-right : (i : ℕ) (xs ys : List ℕ) → IsIn i ys → IsIn i (xs ++ ys)
IsIn-right i [] ys h = h
IsIn-right i (x ∷ xs) ys h = inr (IsIn-right i xs ys h)

pub All-weaken :
    {X : Type 0} (P Q : X → Type 0) (xs : List X) → ((x : X) → P x → Q x) → All P xs → All Q xs
All-weaken P Q [] f h = tt
All-weaken P Q (x ∷ xs) f (p, h) = (f x p, All-weaken P Q xs f h)

abbrev event_of : WorkerHandle → ℕ
event_of w = w.stop_event

module _ {A G : Type 0} where
  -- the stop events that `stop_runner` sets, or has set
  abbrev pub reached : Runtime A G → List ℕ
  reached rt = map (λ (w : WorkerHandle). w.stop_event) rt.workers ++ rt.set

  abbrev pub HasGateway : Runtime A G → WorkerHandle → Type 0
  HasGateway rt w = (gw : Adapter A G) × (get_gateway w.mode w.exchange_id rt.registry ≡ some gw)

  pub record Tracked (rt : Runtime A G) : Type 0 where
    pub threads : All (λ i. IsIn i (reached rt)) rt.started
    pub gateways : All (HasGateway rt) rt.workers

  -- Whether `m` returns or raises, no started thread is lost.
  pub record Tracking {X : Type 0} (m : Action (Process A (Runtime A G)) X) : Type 0 where
    pub at : (p : Process A (Runtime A G)) → Tracked p.outside → Tracked (m p).1.outside

module _ {A G X : Type 0} where
  pub Tracking-pure : (x : X) → Tracking {A = A} {G = G} (pure x)
  unfolding pure
  Tracking-pure x = record { at = λ p h. h }

  pub Tracking-gets : (f : Process A (Runtime A G) → X) → Tracking (gets f)
  unfolding gets
  Tracking-gets f = record { at = λ p h. h }

  pub Tracking-run_outcome : (r : Outcome X) → Tracking {A = A} {G = G} (run_outcome r)
  unfolding run_outcome
  Tracking-run_outcome r = record { at = λ p h. h }

  pub Tracking-fetch : (f : Session A → X × Session A) → Tracking {A = A} {G = G} (fetch_store f)
  unfolding fetch_store
  Tracking-fetch f = record { at = λ p h. h }

  pub Tracking-if :
      (b : Bool) (m k : Action (Process A (Runtime A G)) X)
      → Tracking m
      → Tracking k
      → Tracking (if b then m else k)
  Tracking-if true m k p q = p
  Tracking-if false m k p q = q

  settle-Tracked :
      ⦃db : Database A⦄ (s : Session A) (r : Outcome X) (p : Process A (Runtime A G))
      → Tracked p.outside
      → Tracked (settle s (r, p)).1.outside
  settle-Tracked s (raised e) p h = h
  settle-Tracked ⦃db = db⦄ s (ok x) p h = elim (Outcome-cases (db.commit p.store)) [
    | inl (y, c) ↦ rw (c, settle) h
    | inr (e, c) ↦ rw (c, settle) h
  ]

  pub Tracking-scope :
      ⦃db : Database A⦄ (now : ℕ) (m : Action (Process A (Runtime A G)) X)
      → Tracking m
      → Tracking (session_scope now m)
  unfolding session_scope
  Tracking-scope now m k = record {
    at = λ p h.
        settle-Tracked p.store _ _ (k.at (record p { store = record (p.store) { now = now } }) h);
  }

module _ {A G : Type 0} where
  pub Tracking-done : Tracking {A = A} {G = G} done
  unfolding done
  Tracking-done = record { at = λ p h. h }

  pub Tracking-write : (f : Session A → Session A) → Tracking {A = A} {G = G} (write_store f)
  unfolding write_store
  Tracking-write f = record { at = λ p h. h }

  pub Tracking-passed_over :
      (m : Action (Process A (Runtime A G)) (Unit {0})) → Tracking m → Tracking (passed_over m)
  Tracking-passed_over m k = record { at = λ p h. k.at p h }

module _ {A G X Y : Type 0} where
  continue-Tracked :
      (r : Outcome X) (f : X → Action (Process A (Runtime A G)) Y) (p : Process A (Runtime A G))
      → Tracked p.outside
      → ((x : X) → Tracking (f x))
      → Tracked (continue r f p).1.outside
  continue-Tracked (ok x) f p h k = (k x).at p h
  continue-Tracked (raised e) f p h k = h

  pub Tracking-bind :
      (m : Action (Process A (Runtime A G)) X) (f : X → Action (Process A (Runtime A G)) Y)
      → Tracking m
      → ((x : X) → Tracking (f x))
      → Tracking (m >>= f)
  unfolding ◌>>=◌
  Tracking-bind m f h k = record { at = λ p t. continue-Tracked (m p).0 f (m p).1 (h.at p t) k }

module _ {A G X : Type 0} where
  pub Tracking-for_each :
      (xs : List X) (body : X → Action (Process A (Runtime A G)) (Unit {0}))
      → ((x : X) → Tracking (body x))
      → Tracking (for_each xs body)
  unfolding for_each
  Tracking-for_each [] body h = Tracking-done
  Tracking-for_each (x ∷ xs) body h =
      Tracking-bind (body x) (λ _. for_each xs body) (h x) (λ _. Tracking-for_each xs body h)
