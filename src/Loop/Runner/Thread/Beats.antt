-- ===== src/Loop/Runner/Thread/Beats.antt =====
-- loop/runner.py: how often `_heartbeat_if_due` logs.
use Prim.Native.Nat.{◌-◌}
use auto_trader_claude.Base.{
  length-append, none, Option, Outcome-cases, ℕ, suc, ◌≡◌, refl, ◌∙◌, ap, String, true, false, inl,
  inr, length, some, Outcome, ok, raised, leb, arith,
}
use auto_trader_claude.Core.Types.{Mode}
use auto_trader_claude.Core.Keyed.{key_or, find-put_key}
use auto_trader_claude.State.Models.{info}
use auto_trader_claude.State.Repository.{log_event}
use auto_trader_claude.State.Database.{Database, Process, session_scope, settle}
use auto_trader_claude.Loop.Runner.{write_store, Session, Worker, interval}
use auto_trader_claude.Loop.Runner.Thread.{heartbeat_if_due, stamp_heartbeat, log_quietly}

module _ {A V X : Type 0} ⦃db : Database A⦄ where
  settle-outside :
      (s : Session A) (r : Outcome X) (p : Process A V) → (settle s (r, p)).1.outside ≡ p.outside
  settle-outside s (raised e) p = refl
  settle-outside s (ok x) p = elim (Outcome-cases (db.commit p.store)) [
    | inl (y, c) ↦ rw (c, settle) refl
    | inr (e, c) ↦ rw (c, settle) refl
  ]

module _ {A G : Type 0} ⦃db : Database A⦄ (mode : Mode) (exchange : String) where
  abbrev pub stamp : Process A (Worker G) → ℕ
  stamp p = key_or (mode, exchange) 0 p.outside.last_heartbeat

  -- the tables with the event of a heartbeat
  abbrev pub beating : ℕ → Process A (Worker G) → Session A
  beating now p =
      log_event mode exchange info "loop heartbeat" false (record (p.store) { now = now })

  beating-length :
      (now : ℕ) (p : Process A (Worker G))
      → length (beating now p).bot_events ≡ suc (length p.store.bot_events)
  unfolding log_event
  beating-length now p = length-append p.store.bot_events _ ∙ omega arith

  not_due :
      (now : ℕ) (p : Process A (Worker G))
      → leb interval (now - stamp p) ≡ false
      → heartbeat_if_due mode exchange now p ≡ (ok tt, p)
  unfolding heartbeat_if_due
  not_due now p e = rw e refl

  logged-outside :
      (now : ℕ) (p : Process A (Worker G))
      → (log_quietly now mode exchange info "loop heartbeat" p).1.outside ≡ p.outside
  unfolding session_scope write_store
  logged-outside now p = settle-outside p.store (ok tt) (record p { store = beating now p })

  logged-events :
      (now : ℕ) (p : Process A (Worker G))
      → db.commit (beating now p) ≡ ok tt
      → (log_quietly now mode exchange info "loop heartbeat" p).1.store ≡ beating now p
  unfolding session_scope write_store
  logged-events now p c = rw (c, settle) refl

  due :
      (now : ℕ) (p : Process A (Worker G))
      → leb interval (now - stamp p) ≡ true
      → (heartbeat_if_due mode exchange now p).1
        ≡ (log_quietly now mode exchange info "loop heartbeat"
            (stamp_heartbeat mode exchange now p)).1
  unfolding heartbeat_if_due
  due now p e = rw e refl

  due-stamp :
      (now : ℕ) (p : Process A (Worker G))
      → leb interval (now - stamp p) ≡ true
      → stamp (heartbeat_if_due mode exchange now p).1 ≡ now
  due-stamp now p e =
      ap stamp (due now p e)
      ∙ ap (λ (w : Worker G). key_or (mode, exchange) 0 w.last_heartbeat)
          (logged-outside now (stamp_heartbeat mode exchange now p))
      ∙ ap (λ (o : Option ℕ). elim o [ none ↦ 0 | some v ↦ v ])
          (find-put_key (mode, exchange) now p.outside.last_heartbeat)

  -- A heartbeat that is due, with a commit that goes through, adds one event to the table; and up to
  -- an hour later a further call changes nothing.
  pub heartbeat_if_due-once :
      (now later : ℕ) (p : Process A (Worker G))
      → leb interval (now - stamp p) ≡ true
      → db.commit (beating now (stamp_heartbeat mode exchange now p)) ≡ ok tt
      → leb interval (later - now) ≡ false
      → (length (heartbeat_if_due mode exchange now p).1.store.bot_events
          ≡ suc (length p.store.bot_events))
        × (heartbeat_if_due mode exchange later (heartbeat_if_due mode exchange now p).1
            ≡ (ok tt, (heartbeat_if_due mode exchange now p).1))
  heartbeat_if_due-once now later p e c soon = (
    ap (λ q. length q.store.bot_events) (due now p e)
        ∙ ap (λ s. length s.bot_events) (logged-events now (stamp_heartbeat mode exchange now p) c)
        ∙ beating-length now p,
    not_due later _ (ap (λ t. leb interval (later - t)) (due-stamp now p e) ∙ soon),
  )
