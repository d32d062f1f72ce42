-- ===== src/Loop/Capacity/Rules.antt =====
-- One rule for each way in which phase C's code is built: which rows of positions it adds.
use auto_trader_claude.Base.{
  ◌≡◌, refl, sym, ◌∙◌, subst, ℕ, ◌⊎◌, inl, inr, String, Bool, true, false, if◌then◌else◌, List, [],
  ◌∷◌, ◌++◌, Outcome, ok, raised, Exn, Action, raise, run_outcome, continue, ◌>>=◌,
}
use auto_trader_claude.Core.Types.{Mode, VenueLeg, Side, FillResult}
use auto_trader_claude.State.Models.{Position, Level}
use auto_trader_claude.State.Session.{Session}
use auto_trader_claude.State.Repository.{insert_position, insert_trade, log_event, insert_rejection}
use auto_trader_claude.Gateways.Venue.{Gateway}
use auto_trader_claude.Loop.World.{World, call, query, write, fetch, add_action, add_rejection}
use auto_trader_claude.Loop.Cycle.Marks.{record_trade, record_event}

-- The rows stay, and at most one is added behind them.
abbrev pub AtMostOne : {A : Type 0} → List (Position A) → List (Position A) → Type 0
AtMostOne {A = A} ps qs = (qs ≡ ps) ⊎ ((row : Position A) × (qs ≡ ps ++ (row ∷ [])))

pub record Keeping {A G X : Type 0} (m : Action (World A G) X) : Type 0 where
  pub at : (w : World A G) → (m w).1.session.positions ≡ w.session.positions

pub record Adding {A G X : Type 0} (m : Action (World A G) X) : Type 0 where
  pub at : (w : World A G) → AtMostOne w.session.positions (m w).1.session.positions

module _ {A G X Y : Type 0} where
  continue-Keeping :
      (r : Outcome X) (f : X → Action (World A G) Y) (w : World A G)
      → ((x : X) → Keeping (f x))
      → (continue r f w).1.session.positions ≡ w.session.positions
  continue-Keeping (ok x) f w h = (h x).at w
  continue-Keeping (raised e) f w h = refl

  pub Keeping-bind :
      (m : Action (World A G) X) (f : X → Action (World A G) Y)
      → Keeping m
      → ((x : X) → Keeping (f x))
      → Keeping (m >>= f)
  unfolding ◌>>=◌
  Keeping-bind m f p h = record { at = λ w. continue-Keeping (m w).0 f (m w).1 h ∙ p.at w }

  continue-Adding :
      (ps : List (Position A)) (r : Outcome X) (f : X → Action (World A G) Y) (w : World A G)
      → w.session.positions ≡ ps
      → ((x : X) → Adding (f x))
      → AtMostOne ps (continue r f w).1.session.positions
  continue-Adding ps (ok x) f w e h =
      subst (λ qs. AtMostOne qs (f x w).1.session.positions) e ((h x).at w)
  continue-Adding ps (raised x) f w e h = inl e

  pub Adding-bind :
      (m : Action (World A G) X) (f : X → Action (World A G) Y)
      → Keeping m
      → ((x : X) → Adding (f x))
      → Adding (m >>= f)
  unfolding ◌>>=◌
  Adding-bind m f p h = record {
    at = λ w. continue-Adding w.session.positions (m w).0 f (m w).1 (p.at w) h;
  }

  pub Adding-first :
      (m : Action (World A G) X) (f : X → Action (World A G) Y)
      → Adding m
      → ((x : X) → Keeping (f x))
      → Adding (m >>= f)
  unfolding ◌>>=◌
  Adding-first m f p h = record {
    at = λ w.
        subst (AtMostOne w.session.positions) (sym (continue-Keeping (m w).0 f (m w).1 h)) (p.at w);
  }

module _ {A G X : Type 0} where
  pub Adding-keep : (m : Action (World A G) X) → Keeping m → Adding m
  Adding-keep m h = record { at = λ w. inl (h.at w) }

  pub Adding-if :
      (b : Bool) (m k : Action (World A G) X) → Adding m → Adding k → Adding (if b then m else k)
  Adding-if true m k p q = p
  Adding-if false m k p q = q

  pub Keeping-raise : (e : Exn) → Keeping {A = A} {G = G} {X = X} (raise e)
  unfolding raise
  Keeping-raise e = record { at = λ w. refl }

  pub Keeping-run_outcome : (r : Outcome X) → Keeping {A = A} {G = G} (run_outcome r)
  unfolding run_outcome
  Keeping-run_outcome r = record { at = λ w. refl }

  pub Keeping-call : (m : Action G X) → Keeping {A = A} (call m)
  unfolding call
  Keeping-call m = record { at = λ w. refl }

  pub Keeping-query : (f : Session A → X) → Keeping {G = G} (query f)
  unfolding query
  Keeping-query f = record { at = λ w. refl }

module _ {A G : Type 0} where
  pub Keeping-add_action : (text : String) → Keeping {A = A} {G = G} (add_action text)
  unfolding add_action
  Keeping-add_action text = record { at = λ w. refl }

  pub Keeping-add_rejection : (text : String) → Keeping {A = A} {G = G} (add_rejection text)
  unfolding add_rejection
  Keeping-add_rejection text = record { at = λ w. refl }

  pub Keeping-insert_rejection :
      (mode : Mode) (exchange symbol reason : String) (rate : A)
      → Keeping {G = G} (write (insert_rejection mode exchange symbol reason rate))
  unfolding write insert_rejection
  Keeping-insert_rejection mode exchange symbol reason rate = record { at = λ w. refl }

  pub Adding-insert_position : (p : Position A) → Adding {G = G} (fetch (insert_position p))
  unfolding fetch insert_position
  Adding-insert_position p = record { at = λ w. inr (_, refl) }

module _ {A G : Type 0} ⦃gateway : Gateway A G⦄ where
  pub Keeping-record_trade :
      (mode : Mode) (trade_type : String) (i : ℕ) (symbol : String) (venue : VenueLeg) (side : Side)
      (fill : FillResult A)
      → Keeping {G = G} (record_trade mode trade_type i symbol venue side fill)
  unfolding record_trade write insert_trade
  Keeping-record_trade mode trade_type i symbol venue side fill = record { at = λ w. refl }

  pub Keeping-record_event :
      (mode : Mode) (level : Level) (message : String) (b : Bool)
      → Keeping {A = A} {G = G} (record_event mode level message b)
  unfolding record_event write log_event
  Keeping-record_event mode level message b = record { at = λ w. refl }

pub ruleset keeping = (
  Keeping-bind, Keeping-raise, Keeping-run_outcome, Keeping-call, Keeping-query, Keeping-add_action,
  Keeping-add_rejection, Keeping-insert_rejection, Keeping-record_trade, Keeping-record_event,
)

pub ruleset adding = (keeping, Adding-bind, Adding-if, Adding-keep)
