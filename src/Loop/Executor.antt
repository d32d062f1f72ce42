-- ===== src/Loop/Executor.antt =====
-- loop/executor.py: both legs of an entry, the classification of what filled, and the rollback.
-- Two threads place the legs. `LegTiming` says which order reaches the venue first, and which
-- answer misses the timeout of `as_completed`. Leaving the `with` block waits for both threads, and
-- a running future cannot be cancelled, so an order whose answer is late takes effect too.
pub mod Answers
pub mod Outcomes
pub mod Raised
use auto_trader_claude.Base.{
  String, ◌<>◌, truthy, Bool, true, false, not, ◌&&◌, ◌||◌, if◌then◌else◌, Option, none, some, List,
  [], ◌∷◌, Outcome, ok, raised, Exn, Action, pure, ◌>>=◌,
}
use auto_trader_claude.Number.{Number, nought}
use auto_trader_claude.Core.Types.{VenueLeg, spot, futures, Side, buy, sell, FillResult}
use auto_trader_claude.Gateways.Venue.{Gateway}

pub data EntryOutcome : Type 0 where
  success rejected single_leg_orphan_recovered single_leg_orphan_naked : EntryOutcome

pub record EntryResult (A : Type 0) : Type 0 where
  pub outcome : EntryOutcome
  pub spot_fill : Option (FillResult A)
  pub perp_fill : Option (FillResult A)
  pub rollback_fill : Option (FillResult A)
  pub reason : String

pub record LegTiming : Type 0 where
  pub perp_first : Bool
  pub spot_late : Bool
  pub perp_late : Bool

-- the dict `fills`
pub record Fills (A : Type 0) : Type 0 where
  pub spot_fill : Option (FillResult A)
  pub perp_fill : Option (FillResult A)

module _ {A : Type 0} ⦃n : Number A⦄ where
  abbrev pub failed_fill : String → VenueLeg → Side → String → String → FillResult A
  failed_fill symbol leg side error coid = record {
    symbol = symbol;
    venue_leg = leg;
    side = side;
    qty = nought;
    avg_price = nought;
    fee_quote = nought;
    accepted = false;
    error = some error;
    client_order_id = coid;
  }

  abbrev pub caught : FillResult A → Outcome (FillResult A) → FillResult A
  caught fallback (ok fill) = fill
  caught fallback (raised exc) = record fallback {
    error = some ("exception:" <> exc.kind <> ":" <> exc.message);
  }

abbrev joined : List String → List String → String
joined (s ∷ _) (p ∷ _) = "fok_rejected:" <> s <> "+" <> p
joined (s ∷ _) [] = "fok_rejected:" <> s
joined [] (p ∷ _) = "fok_rejected:" <> p
joined [] [] = "fok_rejected:unknown"

module _ {A : Type 0} where
  abbrev no_fills : Fills A
  no_fills = record { spot_fill = none; perp_fill = none }

  -- `fills[r.venue_leg] = r`
  abbrev store_fill : VenueLeg → FillResult A → Fills A → Fills A
  store_fill spot r fills = record fills { spot_fill = some r }
  store_fill futures r fills = record fills { perp_fill = some r }

  abbrev arrive : Bool → FillResult A → Fills A → Fills A
  arrive late r fills = if late then fills else store_fill r.venue_leg r fills

  abbrev or_fill : Option (FillResult A) → FillResult A → Option (FillResult A)
  or_fill none r = some r
  or_fill (some f) r = some f

  abbrev pub leg_accepted : Option (FillResult A) → Bool
  leg_accepted none = false
  leg_accepted (some f) = f.accepted

  abbrev leg_error : String → Option (FillResult A) → List String
  leg_error label none = []
  leg_error label (some f) = elim f.error [
    | none ↦ []
    | some text ↦ if truthy text then (label <> text) ∷ [] else []
  ]

  -- `_combine_reasons`
  unfoldable pub combine_reasons : Option (FillResult A) → Option (FillResult A) → String
  combine_reasons s p = joined (leg_error "spot:" s) (leg_error "perp:" p)

abbrev pub opposite : Side → Side
opposite buy = sell
opposite sell = buy

module _ {A : Type 0} ⦃n : Number A⦄ where
  -- the loop over `as_completed`, and the timeout branch
  unfoldable pub collect :
      LegTiming → String → String → String → String → FillResult A × FillResult A → Fills A
  collect timing spot_symbol perp_symbol spot_coid perp_coid (s, p) =
      let arrived =
        if timing.perp_first
        then arrive timing.spot_late s (arrive timing.perp_late p no_fills)
        else arrive timing.perp_late p (arrive timing.spot_late s no_fills) in
      if timing.spot_late || timing.perp_late
      then record {
        spot_fill =
            or_fill arrived.spot_fill (failed_fill spot_symbol spot buy "leg_timeout" spot_coid);
        perp_fill =
            or_fill arrived.perp_fill
              (failed_fill perp_symbol futures sell "leg_timeout" perp_coid);
      }
      else arrived

  abbrev entry_result : EntryOutcome → Fills A → Option (FillResult A) → String → EntryResult A
  entry_result outcome fills rollback reason = record {
    outcome = outcome;
    spot_fill = fills.spot_fill;
    perp_fill = fills.perp_fill;
    rollback_fill = rollback;
    reason = reason;
  }

  abbrev rolled_back : Fills A → FillResult A → EntryResult A
  rolled_back fills rollback =
      if rollback.accepted
      then entry_result single_leg_orphan_recovered fills (some rollback)
          "single_leg_orphan_rolled_back"
      else entry_result single_leg_orphan_naked fills (some rollback)
          "single_leg_orphan_rollback_failed"

module _ {A G : Type 0} ⦃n : Number A⦄ ⦃gateway : Gateway A G⦄ where
  -- `_place`
  unfoldable pub place : String → VenueLeg → Side → A → String → Action G (FillResult A)
  place symbol leg side qty coid g =
      let (r, g') = gateway.place_market_fok symbol leg side qty coid g in
      (ok (caught (failed_fill symbol leg side "" coid) r), g')

  -- the two threads
  unfoldable pub place_both :
      LegTiming → String → String → A → String → String → Action G (FillResult A × FillResult A)
  unfolding place
  place_both timing spot_symbol perp_symbol qty spot_coid perp_coid =
      let spot_leg = place spot_symbol spot buy qty spot_coid in
      let perp_leg = place perp_symbol futures sell qty perp_coid in
      if timing.perp_first
      then (do p ← perp_leg; s ← spot_leg; pure (s, p))
      else (do s ← spot_leg; p ← perp_leg; pure (s, p))

  -- the same-cycle rollback of the one leg that filled, with no handler around it
  unfoldable pub roll_back : Fills A → FillResult A → Action G (EntryResult A)
  roll_back fills filled = do
    rollback ←
        gateway.place_market_fok filled.symbol filled.venue_leg (opposite filled.side) filled.qty
          ("r-" <> filled.client_order_id)
    pure (rolled_back fills rollback)

  -- the classification by which fills landed
  unfoldable pub classify :
      Fills A → Option (FillResult A) → Option (FillResult A) → Action G (EntryResult A)
  unfolding combine_reasons roll_back
  classify fills (some s) (some p) =
      if s.accepted && p.accepted
      then pure (entry_result success fills none "")
      else if not s.accepted && not p.accepted
      then pure (entry_result rejected fills none (combine_reasons (some s) (some p)))
      else roll_back fills (if s.accepted then s else p)
  classify fills (some s) none =
      if not s.accepted
      then pure (entry_result rejected fills none (combine_reasons (some s) none))
      else roll_back fills s
  classify fills none (some p) =
      if not p.accepted
      then pure (entry_result rejected fills none (combine_reasons none (some p)))
      else roll_back fills p
  classify fills none none =
      pure (entry_result rejected fills none (combine_reasons {A = A} none none))

  unfoldable pub parallel_market_fok_entry :
      LegTiming → String → String → A → String → String → Action G (EntryResult A)
  unfolding place_both collect classify
  parallel_market_fok_entry timing spot_symbol perp_symbol qty spot_coid perp_coid = do
    placed ← place_both timing spot_symbol perp_symbol qty spot_coid perp_coid
    let fills = collect timing spot_symbol perp_symbol spot_coid perp_coid placed
    classify fills fills.spot_fill fills.perp_fill
