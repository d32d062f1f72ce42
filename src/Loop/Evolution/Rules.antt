-- ===== src/Loop/Evolution/Rules.antt =====
-- One rule for each way in which the loop's code is built.
use auto_trader_claude.Base.{
  ℕ, ◌≡◌, refl, String, Bool, true, false, if◌then◌else◌, List, [], ◌∷◌, Option, none, some,
  Outcome, ok, raised, Exn, Action, pure, raise, run_outcome, done, for_each, continue, ◌>>=◌,
  arith,
}
use auto_trader_claude.Core.Types.{Mode}
use auto_trader_claude.State.Models.{Position, Trade, Level, ModeState}
use auto_trader_claude.State.Session.{Session}
use auto_trader_claude.State.Repository.{insert_position, insert_trade, log_event, insert_rejection}
use auto_trader_claude.State.Repository.Config.{find_mode_state, get_or_create_mode_state}
use auto_trader_claude.Loop.World.{
  World, call, query, write, fetch, add_action, add_rejection, assign, if_found, with_position,
}
use auto_trader_claude.Loop.Evolution.Rows.{
  Row, update_position-Rows, append-Rows, Evolves, Evolves-refl, Evolves-trans, evolve_positions,
  evolve_trades, evolve_events, evolve_rejections, evolve_settings,
}

-- Whatever `m` does, and whether it returns or raises, the session evolves.
pub record Evolving {A G X : Type 0} (m : Action (World A G) X) : Type 0 where
  pub at : (w : World A G) → Evolves w.session (m w).1.session

module _ {A : Type 0} where
  found-Evolves :
      (mode : Mode) (s : Session A) (o : Option ModeState)
      → find_mode_state mode s.mode_states ≡ o
      → Evolves s (get_or_create_mode_state mode s).1
  unfolding get_or_create_mode_state
  found-Evolves mode s none e = rw (e, get_or_create_mode_state) (evolve_settings s _ _ _ _ _)
  found-Evolves mode s (some row) e = rw (e, get_or_create_mode_state) (Evolves-refl s)

  pub mode_state-Evolves :
      (mode : Mode) (s : Session A) → Evolves s (get_or_create_mode_state mode s).1
  mode_state-Evolves mode s = found-Evolves mode s (find_mode_state mode s.mode_states) refl

module _ {A G X : Type 0} where
  pub Evolving-pure : (x : X) → Evolving {A = A} {G = G} (pure x)
  unfolding pure
  Evolving-pure x = record { at = λ w. Evolves-refl w.session }

  pub Evolving-raise : (e : Exn) → Evolving {A = A} {G = G} {X = X} (raise e)
  unfolding raise
  Evolving-raise e = record { at = λ w. Evolves-refl w.session }

  pub Evolving-run_outcome : (r : Outcome X) → Evolving {A = A} {G = G} (run_outcome r)
  unfolding run_outcome
  Evolving-run_outcome r = record { at = λ w. Evolves-refl w.session }

  pub Evolving-call : (m : Action G X) → Evolving {A = A} (call m)
  unfolding call
  Evolving-call m = record { at = λ w. Evolves-refl w.session }

  pub Evolving-query : (f : Session A → X) → Evolving {G = G} (query f)
  unfolding query
  Evolving-query f = record { at = λ w. Evolves-refl w.session }

  pub Evolving-if :
      (b : Bool) (m k : Action (World A G) X)
      → Evolving m
      → Evolving k
      → Evolving (if b then m else k)
  Evolving-if true m k p q = p
  Evolving-if false m k p q = q

module _ {A G : Type 0} where
  pub Evolving-done : Evolving {A = A} {G = G} done
  unfolding done
  Evolving-done = record { at = λ w. Evolves-refl w.session }

  pub Evolving-add_action : (text : String) → Evolving {A = A} {G = G} (add_action text)
  unfolding add_action
  Evolving-add_action text = record { at = λ w. Evolves-refl w.session }

  pub Evolving-add_rejection : (text : String) → Evolving {A = A} {G = G} (add_rejection text)
  unfolding add_rejection
  Evolving-add_rejection text = record { at = λ w. Evolves-refl w.session }

module _ {A G X Y : Type 0} where
  continue-Evolves :
      (s : Session A) (r : Outcome X) (f : X → Action (World A G) Y) (w : World A G)
      → Evolves s w.session
      → ((x : X) → Evolving (f x))
      → Evolves s (continue r f w).1.session
  continue-Evolves s (ok x) f w h k = Evolves-trans _ _ _ h ((k x).at w)
  continue-Evolves s (raised e) f w h k = h

  pub Evolving-bind :
      (m : Action (World A G) X) (f : X → Action (World A G) Y)
      → Evolving m
      → ((x : X) → Evolving (f x))
      → Evolving (m >>= f)
  unfolding ◌>>=◌
  Evolving-bind m f p q = record {
    at = λ w. continue-Evolves w.session (m w).0 f (m w).1 (p.at w) q;
  }

module _ {A G X : Type 0} where
  pub Evolving-for_each :
      (xs : List X) (body : X → Action (World A G) (Unit {0}))
      → ((x : X) → Evolving (body x))
      → Evolving (for_each xs body)
  unfolding for_each
  Evolving-for_each [] body h = Evolving-done
  Evolving-for_each (x ∷ xs) body h =
      Evolving-bind (body x) (λ _. for_each xs body) (h x) (λ _. Evolving-for_each xs body h)

module _ {A G : Type 0} where
  if_found-Evolving :
      (o : Option (Position A)) (body : Position A → Action (World A G) (Unit {0}))
      → ((p : Position A) → Evolving (body p))
      → Evolving (if_found o body)
  if_found-Evolving none body h = Evolving-done
  if_found-Evolving (some p) body h = h p

  pub Evolving-with_position :
      (body : Position A → Action (World A G) (Unit {0})) (pos : Position A)
      → ((p : Position A) → Evolving (body p))
      → Evolving (with_position body pos)
  unfolding with_position
  Evolving-with_position body pos h =
      Evolving-bind _ _ (Evolving-query _) (λ o. if_found-Evolving o body h)

  -- an assignment that moves every row as the state machine allows
  pub Evolving-assign :
      (i : ℕ) (f : Position A → Position A)
      → ((p : Position A) → Row p (f p))
      → Evolving {G = G} (assign i f)
  unfolding assign
  Evolving-assign i f h = record {
    at = λ w.
        evolve_positions w.session _ (update_position-Rows 0 i f w.session.positions (λ p _. h p));
  }

  pub Evolving-insert_trade : (t : Trade A) → Evolving {G = G} (write (insert_trade t))
  unfolding write insert_trade
  Evolving-insert_trade t = record { at = λ w. evolve_trades w.session _ }

  pub Evolving-log_event :
      (mode : Mode) (exchange : String) (level : Level) (message : String) (b : Bool)
      → Evolving {A = A} {G = G} (write (log_event mode exchange level message b))
  unfolding write log_event
  Evolving-log_event mode exchange level message b = record { at = λ w. evolve_events w.session _ }

  pub Evolving-insert_rejection :
      (mode : Mode) (exchange symbol reason : String) (rate : A)
      → Evolving {G = G} (write (insert_rejection mode exchange symbol reason rate))
  unfolding write insert_rejection
  Evolving-insert_rejection mode exchange symbol reason rate = record {
    at = λ w. evolve_rejections w.session _;
  }

  pub Evolving-insert_position : (p : Position A) → Evolving {G = G} (fetch (insert_position p))
  unfolding fetch insert_position
  Evolving-insert_position p = record {
    at = λ w. evolve_positions w.session _ (append-Rows 0 w.session.positions _ (omega arith));
  }

  pub Evolving-mode_state :
      (mode : Mode) → Evolving {A = A} {G = G} (fetch (get_or_create_mode_state mode))
  unfolding fetch
  Evolving-mode_state mode = record { at = λ w. mode_state-Evolves mode w.session }

pub ruleset evolution = (
  Evolving-pure, Evolving-raise, Evolving-run_outcome, Evolving-call, Evolving-query, Evolving-if,
  Evolving-done, Evolving-add_action, Evolving-add_rejection, Evolving-bind, Evolving-for_each,
  Evolving-with_position, Evolving-insert_trade, Evolving-log_event, Evolving-insert_rejection,
  Evolving-insert_position, Evolving-mode_state,
)
