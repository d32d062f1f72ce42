-- ===== src/Loop/Runner/Ingested.antt =====
-- loop/runner.py: which capital flows `_ingest_capital_flows` inserts, and when the flush fails.
use Prim.Native.Nat.{◌+◌}
use mathlib.Core.Bool.{true≢false}
use mathlib.Core.List.{append-nil}
use auto_trader_claude.Base.{
  contains-merged, List-cases, ℕ, suc, ◌≡◌, refl, ◌∙◌, sym, ap, String, truthy, true, false, not,
  Bool-cases, inl, inr, List, [], ◌∷◌, ◌++◌, keep, contains, length, length-append, all_distinct,
  ltb, ok, raised, length-map, map-append, contains-keep, keep-agree, keep-none, distinct-append,
  arith,
}
use mathlib.Core.List.{append_assoc}
use auto_trader_claude.Core.Types.{Mode}
use auto_trader_claude.State.Models.{CapitalFlow}
use auto_trader_claude.State.Database.{Database, Process}
use auto_trader_claude.Gateways.Venue.{FlowRecord}
use auto_trader_claude.Loop.Runner.{Worker}
use auto_trader_claude.Loop.Runner.Flows.{flow_ids, record_ids, add_flows, flush_flows, ingest_rows}

module _ {A : Type 0} where
  -- the ids of a batch that the table does not have
  abbrev pub fresh_ids : List (FlowRecord A) → List (CapitalFlow A) → List String
  fresh_ids rows flows = keep (λ i. not (contains i (flow_ids flows))) (record_ids rows)

  flow_ids-snoc :
      (flows : List (CapitalFlow A)) (f : CapitalFlow A)
      → flow_ids (flows ++ (f ∷ [])) ≡ flow_ids flows ++ (f.external_id ∷ [])
  flow_ids-snoc flows f = map-append _ flows (f ∷ [])

  add_flows-ids :
      (mode : Mode) (exchange : String) (ids : List String) (rows : List (FlowRecord A))
      (flows : List (CapitalFlow A))
      → flow_ids (add_flows mode exchange ids rows flows)
        ≡ flow_ids flows ++ keep (λ i. not (contains i ids)) (record_ids rows)
  add_flows-ids mode exchange ids [] flows = sym (append-nil (flow_ids flows))
  add_flows-ids mode exchange ids (r ∷ rows) flows = elim (Bool-cases (truthy r.external_id)) [
    | inr e ↦ rw e (add_flows-ids mode exchange ids rows flows)
    | inl e ↦ elim (Bool-cases (contains r.external_id ids)) [
      | inl c ↦ rw (e, c) (add_flows-ids mode exchange ids rows flows)
      | inr c ↦
          rw (e, c)
            (add_flows-ids mode exchange ids rows _
              ∙ ap (λ l. l ++ keep (λ i. not (contains i ids)) (record_ids rows))
                  (flow_ids-snoc flows _)
              ∙ append_assoc (flow_ids flows) _ _)
    ]
  ]

  -- `existing_ids` holds the ids of the batch that the table has
  fresh_ids-existing :
      (rows : List (FlowRecord A)) (flows : List (CapitalFlow A))
      → keep
          (λ i. not (contains i (keep (λ j. contains j (record_ids rows)) (flow_ids flows))))
          (record_ids rows)
        ≡ fresh_ids rows flows
  fresh_ids-existing rows flows = keep-agree _ _ (record_ids rows) (λ i m.
      ap not (contains-keep i (λ j. contains j (record_ids rows)) (flow_ids flows) ∙ rw m refl))

  inserted-ids :
      (mode : Mode) (exchange : String) (rows : List (FlowRecord A)) (flows : List (CapitalFlow A))
      → flow_ids (
          add_flows mode exchange
            (keep (λ j. contains j (record_ids rows)) (flow_ids flows))
            rows
            flows)
        ≡ flow_ids flows ++ fresh_ids rows flows
  inserted-ids mode exchange rows flows =
      add_flows-ids mode exchange _ rows flows
      ∙ ap (λ l. flow_ids flows ++ l) (fresh_ids-existing rows flows)

  fresh-Distinct :
      (rows : List (FlowRecord A)) (flows : List (CapitalFlow A))
      → all_distinct (flow_ids flows) ≡ true
      → all_distinct (flow_ids flows ++ fresh_ids rows flows) ≡ all_distinct (fresh_ids rows flows)
  fresh-Distinct rows flows d =
      distinct-append (flow_ids flows) (fresh_ids rows flows)
        (λ i m. contains-keep i _ (record_ids rows) ∙ rw m refl)
      ∙ rw d refl

  added-length :
      (mode : Mode) (exchange : String) (rows : List (FlowRecord A)) (flows : List (CapitalFlow A))
      → length (
          add_flows mode exchange
            (keep (λ j. contains j (record_ids rows)) (flow_ids flows))
            rows
            flows)
        ≡ length flows + length (fresh_ids rows flows)
  added-length mode exchange rows flows =
      sym (length-map _ _)
      ∙ ap length (inserted-ids mode exchange rows flows)
      ∙ length-append (flow_ids flows) (fresh_ids rows flows)
      ∙ ap (λ k. k + length (fresh_ids rows flows)) (length-map _ flows)

module _ {A : Type 0} where
  none_fresh :
      (rows : List (FlowRecord A)) (flows later : List (CapitalFlow A))
      → flow_ids later ≡ flow_ids flows ++ fresh_ids rows flows
      → fresh_ids rows later ≡ []
  none_fresh rows flows later e = keep-none _ (record_ids rows) (λ i m.
      ap (λ l. not (contains i l)) e
      ∙ ap not (contains-merged i (flow_ids flows) (record_ids rows) m))

longer : (a b k : ℕ) → b ≡ a + suc k → ltb a b ≡ true
longer a b k e = ground (arith, e)

as_long : (a b : ℕ) → b ≡ a + 0 → ltb a b ≡ false
as_long a b e = ground (arith, e)

module _ {A G : Type 0} ⦃db : Database A⦄ (mode : Mode) (exchange : String)
    (rows : List (FlowRecord A)) (p : Process A (Worker G)) where
  -- the process with the table that the loop over the batch leaves
  abbrev pub inserted : Process A (Worker G)
  inserted = record p {
    store = record (p.store) {
      capital_flows =
          add_flows mode exchange
            (keep (λ j. contains j (record_ids rows)) (flow_ids p.store.capital_flows)) rows
            p.store.capital_flows;
    };
  }

  is_longer :
      (k : ℕ)
      → length (fresh_ids rows p.store.capital_flows) ≡ suc k
      → ltb (length p.store.capital_flows) (length inserted.store.capital_flows) ≡ true
  is_longer k e = longer _ _ k (
      added-length mode exchange rows p.store.capital_flows
      ∙ ap (λ l. length p.store.capital_flows + l) e)

  flushed :
      (x : String) (xs : List String)
      → fresh_ids rows p.store.capital_flows ≡ x ∷ xs
      → ingest_rows mode exchange rows p ≡ flush_flows inserted.store.capital_flows p
  flushed x xs e = rw (is_longer (length xs) (ap length e)) refl

  nothing_new :
      fresh_ids rows p.store.capital_flows ≡ [] → ingest_rows mode exchange rows p ≡ (ok tt, p)
  nothing_new e =
      rw
        (as_long _ _ (
          added-length mode exchange rows p.store.capital_flows
          ∙ ap (λ l. length p.store.capital_flows + length l) e))
        refl

  inserted_ids :
      flow_ids inserted.store.capital_flows
      ≡ flow_ids p.store.capital_flows ++ fresh_ids rows p.store.capital_flows
  inserted_ids = inserted-ids mode exchange rows p.store.capital_flows

  -- Over a table with distinct external ids, a batch whose new ids are not distinct makes the flush
  -- raise, and no row of it is inserted.
  pub ingest_rows-refused :
      all_distinct (flow_ids p.store.capital_flows) ≡ true
      → all_distinct (fresh_ids rows p.store.capital_flows) ≡ false
      → ingest_rows mode exchange rows p ≡ (raised db.integrity_error, p)
  ingest_rows-refused d e = elim (List-cases (fresh_ids rows p.store.capital_flows)) [
    | inl none_new ↦ absurd (true≢false (ap all_distinct (sym none_new) ∙ e))
    | inr (x, xs, some_new) ↦
        flushed x xs some_new ∙ rw (ap all_distinct inserted_ids ∙ fresh-Distinct rows _ d ∙ e) refl
  ]

  ingested :
      all_distinct (flow_ids p.store.capital_flows) ≡ true
      → all_distinct (fresh_ids rows p.store.capital_flows) ≡ true
      → (q : Process A (Worker G)) × (ingest_rows mode exchange rows p ≡ (ok tt, q))
        × (flow_ids q.store.capital_flows
            ≡ flow_ids p.store.capital_flows ++ fresh_ids rows p.store.capital_flows)
  ingested d e = elim (List-cases (fresh_ids rows p.store.capital_flows)) [
    | inl none_new ↦ (
      p,
      nothing_new none_new,
      sym (append-nil _) ∙ ap (λ l. flow_ids p.store.capital_flows ++ l) (sym none_new),
    )
    | inr (x, xs, some_new) ↦ (
      inserted,
      flushed x xs some_new ∙ rw (ap all_distinct inserted_ids ∙ fresh-Distinct rows _ d ∙ e) refl,
      inserted_ids,
    )
  ]

module _ {A G : Type 0} ⦃db : Database A⦄ (mode : Mode) (exchange : String)
    (rows : List (FlowRecord A)) where
  -- Over a table with distinct external ids, and a batch whose new ids are distinct:
  -- `_ingest_capital_flows` raises nothing, and adds exactly the batch's non-empty ids that the
  -- table lacks, in their order, behind those it has; and the same batch again changes nothing.
  pub ingest_rows-inserts :
      (p : Process A (Worker G))
      → all_distinct (flow_ids p.store.capital_flows) ≡ true
      → all_distinct (fresh_ids rows p.store.capital_flows) ≡ true
      → (q : Process A (Worker G)) × (ingest_rows mode exchange rows p ≡ (ok tt, q))
        × (flow_ids q.store.capital_flows
            ≡ flow_ids p.store.capital_flows ++ fresh_ids rows p.store.capital_flows)
        × (ingest_rows mode exchange rows q ≡ (ok tt, q))
  ingest_rows-inserts p d e =
      let (q, done, ids) = ingested mode exchange rows p d e in
      (
        q,
        done,
        ids,
        nothing_new mode exchange rows q
            (none_fresh rows p.store.capital_flows q.store.capital_flows ids),
      )
