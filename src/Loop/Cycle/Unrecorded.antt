-- ===== src/Loop/Cycle/Unrecorded.antt =====
-- loop/cycle.py: an entry whose rollback raises.
use auto_trader_claude.Base.{◌≡◌, refl, ap, String, true, ok, raised, Exn, ◌>>=◌}
use auto_trader_claude.Number.{Number}
use auto_trader_claude.Core.Types.{Mode, spot, futures, buy, sell, FillResult}
use auto_trader_claude.Core.Types.Market.{ScanCandidate}
use auto_trader_claude.Gateways.Venue.{Gateway}
use auto_trader_claude.Loop.World.{Host, World, call}
use auto_trader_claude.Loop.Idempotency.{client_order_id}
use auto_trader_claude.Loop.Executor.{LegTiming}
use auto_trader_claude.Loop.Executor.Outcomes.{differ}
use auto_trader_claude.Loop.Executor.Answers.{counts, entry_raises_one}
use auto_trader_claude.Loop.Cycle.Entries.{place_entry}
use auto_trader_claude.Loop.Cycle.Recorded.{entry_of, answers_of}

module _ {A G : Type 0} ⦃n : Number A⦄ ⦃host : Host⦄ ⦃gateway : Gateway A G⦄ where
  -- Where both answers of the venue name the legs of their orders and the executor raises: exactly
  -- one leg of the two has an answer that is in time and accepts its order, while the other leg has
  -- an answer that refuses it, or a late one, behind which its order may have taken effect; and the
  -- placement of the entry raises the same exception with every table and the result as they were.
  pub place_entry_raises :
      (mode : Mode) (trade_type cycle_id : String) (timing : LegTiming) (c : ScanCandidate A)
      (qty : A) (w : World A G) (s p : FillResult A) (exc : Exn) (g : G)
      → (answers_of cycle_id timing c qty w.venue).0 ≡ ok (s, p)
      → s.venue_leg ≡ spot
      → p.venue_leg ≡ futures
      → entry_of cycle_id timing c qty w.venue ≡ (raised exc, g)
      → (differ (counts timing.spot_late s) (counts timing.perp_late p) ≡ true)
        × (place_entry mode trade_type cycle_id timing c qty w
            ≡ (raised exc, record w { venue = g }))
  unfolding place_entry call ◌>>=◌
  place_entry_raises mode trade_type cycle_id timing c qty w s p exc g answers ns np h = (
    entry_raises_one timing c.spot_symbol c.perp_symbol qty
        (client_order_id cycle_id c.spot_symbol spot buy)
        (client_order_id cycle_id c.perp_symbol futures sell) w.venue s p ns np answers exc
        (ap (λ x. x.0) h),
    rw h refl,
  )
