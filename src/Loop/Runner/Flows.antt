-- ===== src/Loop/Runner/Flows.antt =====
-- loop/runner.py: `_ingest_capital_flows`.
use Prim.Native.Nat.{◌-◌}
use auto_trader_claude.Base.{
  ℕ, suc, String, truthy, Bool, not, ◌&&◌, List, [], ◌∷◌, ◌++◌, map, keep, contains, length,
  all_distinct, ltb, if◌then◌else◌, Outcome, ok, raised, Action,
}
use auto_trader_claude.Core.Types.{Mode}
use auto_trader_claude.Core.Keyed.{key_or, put_key}
use auto_trader_claude.State.Models.{CapitalFlow}
use auto_trader_claude.State.Database.{Database, Process}
use auto_trader_claude.Gateways.Venue.{FlowRecord, Gateway}
use auto_trader_claude.Loop.Runner.{Worker, interval, with_venue}

module _ {A : Type 0} where
  abbrev pub flow_ids : List (CapitalFlow A) → List String
  flow_ids flows = map (λ (f : CapitalFlow A). f.external_id) flows

  abbrev pub record_ids : List (FlowRecord A) → List String
  record_ids rows = keep truthy (map (λ (r : FlowRecord A). r.external_id) rows)

  abbrev pub new_flow : Mode → String → ℕ → FlowRecord A → CapitalFlow A
  new_flow mode exchange id r = record {
    id = id;
    mode = mode;
    exchange = exchange;
    ts = r.ts;
    amount_usdt = r.amount_usdt;
    flow_type = r.flow_type;
    note = r.note;
    detected_by = "auto";
    external_id = r.external_id;
    kind = r.flow_type;
  }

  -- `if not ext_id or ext_id in existing_ids: continue`
  abbrev pub is_new : List String → FlowRecord A → Bool
  is_new existing_ids r = truthy r.external_id && not (contains r.external_id existing_ids)

  abbrev pub add_flows :
      Mode
      → String
      → List String
      → List (FlowRecord A)
      → List (CapitalFlow A)
      → List (CapitalFlow A)
  add_flows mode exchange existing_ids [] flows = flows
  add_flows mode exchange existing_ids (r ∷ rows) flows =
      if is_new existing_ids r
      then add_flows mode exchange existing_ids rows
          (flows ++ (new_flow mode exchange (suc (length flows)) r ∷ []))
      else add_flows mode exchange existing_ids rows flows

module _ {A G : Type 0} ⦃db : Database A⦄ where
  -- `session.flush()` of rows of the table, with its UniqueConstraint("external_id")
  abbrev pub flush_flows :
      List (CapitalFlow A) → Process A (Worker G) → Outcome (Unit {0}) × Process A (Worker G)
  flush_flows flows p =
      if all_distinct (flow_ids flows)
      then (ok tt, record p { store = record (p.store) { capital_flows = flows } })
      else (raised db.integrity_error, p)

  -- behind the answer of the venue
  abbrev pub ingest_rows :
      Mode → String → List (FlowRecord A) → Action (Process A (Worker G)) (Unit {0})
  ingest_rows mode exchange rows p =
      let flows = p.store.capital_flows in
      let existing_ids = keep (λ i. contains i (record_ids rows)) (flow_ids flows) in
      let flows' = add_flows mode exchange existing_ids rows flows in
      if ltb (length flows) (length flows') then flush_flows flows' p else (ok tt, p)

  abbrev pub stamp_ingest : Mode → String → ℕ → Process A (Worker G) → Process A (Worker G)
  stamp_ingest mode exchange now p = record p {
    outside = record (p.outside) {
      last_capital_flow_ingest = put_key (mode, exchange) now p.outside.last_capital_flow_ingest;
    };
  }

  abbrev pub ingest_answer :
      Mode
      → String
      → ℕ
      → Outcome (List (FlowRecord A)) × G
      → Action (Process A (Worker G)) (Unit {0})
  ingest_answer mode exchange now (raised e, g) p = (ok tt, with_venue g p)
  ingest_answer mode exchange now (ok [], g) p =
      (ok tt, stamp_ingest mode exchange now (with_venue g p))
  ingest_answer mode exchange now (ok (r ∷ rows), g) p =
      ingest_rows mode exchange (r ∷ rows) (stamp_ingest mode exchange now (with_venue g p))

  unfoldable pub ingest_capital_flows :
      ⦃gateway : Gateway A G⦄ → Mode → ℕ → Action (Process A (Worker G)) (Unit {0})
  ingest_capital_flows ⦃gateway = gateway⦄ mode now p =
      let last = key_or (mode, gateway.exchange_id) 0 p.outside.last_capital_flow_ingest in
      if ltb (now - last) interval
      then (ok tt, p)
      else ingest_answer mode gateway.exchange_id now
          (gateway.list_capital_flow_records p.outside.venue) p
