-- ===== src/Loop/Runner/Account/Locked.antt =====
-- loop/runner.py: what `_assert_account_id` lets through.
use auto_trader_claude.Base.{
  Outcome-cases, pure, Action, ◌>>=◌, str_eq_sound, ℕ, ◌≡◌, refl, ◌∙◌, sym, ap, String, str_eq,
  truthy, true, false, Bool-cases, inl, inr, Outcome, ok, raised, Exn,
}
use auto_trader_claude.Loop.Runner.Atomic.{raise_to}
use auto_trader_claude.State.Database.{settle, Database, Process, session_scope}
use auto_trader_claude.State.Repository.Config.{get_venue_state}
use auto_trader_claude.Gateways.Venue.{Gateway}
use auto_trader_claude.Loop.World.{Host}
use auto_trader_claude.Loop.Runner.Account.{
  expected_of, call_outside, query_store, normalised, compare_ids, compare_answer, read_locked,
  assert_account_id, account_id_mismatch,
}

refusing : (e : Exn) → raise_to e ≡ ok tt → ⊥
refusing e k = cc

module _ ⦃host : Host⦄ where
  compare_ids-same :
      (x expected actual : String)
      → truthy actual ≡ true
      → truthy expected ≡ true
      → compare_ids x expected actual ≡ ok tt
      → actual ≡ expected
  compare_ids-same x expected actual a e h = elim (Bool-cases (str_eq actual expected)) [
    | inl s ↦ str_eq_sound actual expected s
    | inr s ↦ absurd (refusing _ (sym (differing s) ∙ h))
  ]
    where
      differing :
          str_eq actual expected ≡ false
          → compare_ids x expected actual ≡ raised (account_id_mismatch x expected actual)
      differing s = rw (a, e, s) refl

module _ {A G : Type 0} ⦃db : Database A⦄ ⦃gateway : Gateway A G⦄ ⦃host : Host⦄ where
  opened : ℕ → Process A G → Process A G
  opened now p = record p { store = record (p.store) { now = now } }

  not_committed :
      (now : ℕ) (p : Process A G) (e : Exn)
      → db.commit (opened now p).store ≡ raised e
      → (assert_account_id now p).0 ≡ raised e
  unfolding assert_account_id session_scope query_store ◌>>=◌ opened
  not_committed now p e c = rw (c, settle) refl

  expected-locked : (x : String) → truthy x ≡ true → expected_of ⦃gateway = gateway⦄ x ≡ pure x
  expected-locked x l = rw (l, expected_of) refl

  -- behind the scope that reads the locked id
  abbrev judged : String → Action (Process A G) String → Action (Process A G) (Unit {0})
  judged x m = m >>= λ expected p.
      compare_answer gateway.exchange_id expected (call_outside gateway.actual_account_id p)

  judged-locked :
      (x answer : String) (g : G) (p : Process A G)
      → truthy x ≡ true
      → gateway.actual_account_id p.outside ≡ (ok answer, g)
      → (judged x (expected_of x) p).0 ≡ compare_ids gateway.exchange_id x (normalised answer)
  unfolding call_outside ◌>>=◌ pure
  judged-locked x answer g p l a =
      ap (λ (m : Action (Process A G) String). (judged x m p).0) (expected-locked x l)
      ∙ ap
          (λ (r : Outcome String × G).
            (compare_answer gateway.exchange_id x (r.0, record p { outside = r.1 })).0)
          a

  committed :
      (now : ℕ) (p : Process A G) (u : Unit {0}) (answer : String) (g : G)
      → db.commit (opened now p).store ≡ ok u
      → truthy (read_locked gateway.exchange_id p.store) ≡ true
      → gateway.actual_account_id p.outside ≡ (ok answer, g)
      → (assert_account_id now p).0
        ≡ compare_ids gateway.exchange_id
            (read_locked gateway.exchange_id p.store)
            (normalised answer)
  unfolding assert_account_id session_scope query_store ◌>>=◌ opened get_venue_state
  committed now p u answer g c l a =
      scope_read
      ∙ judged-locked (read_locked gateway.exchange_id p.store) answer g (opened now p) l a
    where
      scope_read :
          (assert_account_id now p).0
          ≡ (judged
              (read_locked gateway.exchange_id p.store)
              (expected_of (read_locked gateway.exchange_id p.store))
              (opened now p)).0
      scope_read = rw (c, settle) refl

  -- Where `_assert_account_id` returns, the row of the venue locks an id, and the venue answers
  -- with one: both are the same up to case and the white space around them. The id that the
  -- environment expects is not asked for then.
  pub assert_account_id-locked :
      (now : ℕ) (p q : Process A G) (answer : String) (g : G)
      → assert_account_id now p ≡ (ok tt, q)
      → truthy (read_locked gateway.exchange_id p.store) ≡ true
      → gateway.actual_account_id p.outside ≡ (ok answer, g)
      → truthy (normalised answer) ≡ true
      → normalised answer ≡ read_locked gateway.exchange_id p.store
  assert_account_id-locked now p q answer g h l a t =
      elim (Outcome-cases (db.commit (opened now p).store)) [
        | inr (e, c) ↦ absurd (refusing e (sym (not_committed now p e c) ∙ ap (λ r. r.0) h))
        | inl (u, c) ↦
            compare_ids-same gateway.exchange_id _ _ t l
              (sym (committed now p u answer g c l a) ∙ ap (λ r. r.0) h)
      ]
