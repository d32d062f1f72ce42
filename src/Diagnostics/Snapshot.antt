-- ===== src/Diagnostics/Snapshot.antt =====
-- diagnostics/endpoint.py: `build_snapshot`, before its rows are written out as JSON. Texts are not
-- cut to a length, and a time keeps its number of microseconds.
pub mod Rows
pub mod Report
use Prim.Native.Nat.{ℕ, ◌-◌, ◌*◌, ◌/◌}
use auto_trader_claude.Base.{
  str_eq, String, ltb, ◌==◌, List, [], ◌∷◌, length, Option, none, some, Dict, lookup, if◌then◌else◌,
  Outcome,
}
use auto_trader_claude.Number.{Number, literal, quotient}
use auto_trader_claude.Core.Types.{
  PositionStatus, opened, naked_spot, naked_perp, closed, status_text,
}
use auto_trader_claude.State.Models.{Position, Trade, BotEvent}
use auto_trader_claude.State.Session.{Session}
use auto_trader_claude.State.Repository.Queries.{
  count, newest_first, recent_events, event_counts_in_window, recent_trades, rejections_grouped,
}
use auto_trader_claude.State.Repository.Config.{get_or_create_strategy_config}
use auto_trader_claude.Gateways.Venue.{Balances}
use auto_trader_claude.Loop.World.{Host}
use auto_trader_claude.Diagnostics.Anomalies.{
  Anomaly, NakedRow, OpenRow, Findings, detect_anomalies,
}

-- `_clamp`; the hours of a request are not negative here
unfoldable pub clamp : ℕ → ℕ
clamp hours = if ltb hours 1 then 1 else if ltb 168 hours then 168 else hours

unfoldable pub approx_cycles_in_window : ℕ → ℕ → ℕ
approx_cycles_in_window hours loop_seconds =
    if loop_seconds == 0 then 0 else hours * 3600 / loop_seconds

module _ {A : Type 0} ⦃n : Number A⦄ where
  abbrev pub age_hours : ℕ → ℕ → A
  age_hours opened_at now = quotient (literal (now - opened_at)) (literal 3600000000)

  abbrev pub age_minutes : ℕ → ℕ → A
  age_minutes opened_at now = quotient (literal (now - opened_at)) (literal 60000000)

  abbrev pub seconds_since : ℕ → List BotEvent → Option A
  seconds_since now [] = none
  seconds_since now (e ∷ events) = some (quotient (literal (now - e.ts)) (literal 1000000))

-- the rows of the report
pub record OpenReport (A : Type 0) : Type 0 where
  pub position : Position A
  pub age : A

pub record NakedReport (A : Type 0) : Type 0 where
  pub position : Position A
  pub leg_entry_price : A
  pub notional_est : A
  pub age : A

-- what the loop over the positions fills
pub record Sorted (A : Type 0) : Type 0 where
  pub by_status : Dict ℕ
  pub open_reports : List (OpenReport A)
  pub naked_reports : List (NakedReport A)

module _ {A : Type 0} ⦃n : Number A⦄ where
  abbrev pub naked_report : ℕ → Position A → A → NakedReport A
  naked_report now p leg_price = record {
    position = p;
    leg_entry_price = leg_price;
    notional_est = n.mul p.quantity leg_price;
    age = age_minutes p.opened_at now;
  }

  -- the body of the loop; the rows are gathered from the last position on
  abbrev pub file : ℕ → Position A → PositionStatus → Sorted A → Sorted A
  file now p opened r = record r {
    open_reports = record { position = p; age = age_hours p.opened_at now } ∷ r.open_reports;
  }
  file now p naked_spot r = record r {
    naked_reports = naked_report now p p.spot_entry_price ∷ r.naked_reports;
  }
  file now p naked_perp r = record r {
    naked_reports = naked_report now p p.perp_entry_price ∷ r.naked_reports;
  }
  file now p closed r = r

  abbrev counted : PositionStatus → Sorted A → Sorted A
  counted status r = record r { by_status = count (status_text status) r.by_status }

  unfoldable pub sort_positions : ℕ → List (Position A) → Sorted A
  sort_positions now [] = record {
    by_status = ("open", 0) ∷ ("naked_spot", 0) ∷ ("naked_perp", 0) ∷ ("closed", 0) ∷ [];
    open_reports = [];
    naked_reports = [];
  }
  sort_positions now (p ∷ ps) =
      let rest = sort_positions now ps in counted p.status (file now p p.status rest)

  abbrev naked_rows : List (NakedReport A) → List (NakedRow A)
  naked_rows [] = []
  naked_rows (r ∷ rows) =
      record { status = r.position.status; symbol = r.position.symbol; age_minutes = r.age }
      ∷ naked_rows rows

  abbrev open_rows : List (OpenReport A) → List OpenRow
  open_rows [] = []
  open_rows (r ∷ rows) =
      record { symbol = r.position.symbol; last_close_error = r.position.last_close_error }
      ∷ open_rows rows

-- What one gateway answers for an asset, under its venue's id.
pub record Wallet (A : Type 0) : Type 0 where
  pub exchange_id : String
  pub usdt : Outcome (Balances A)
  pub usdc : Outcome (Balances A)

module _ {A : Type 0} where
  abbrev bucket_or_empty : Option (Dict (Outcome (Balances A))) → Dict (Outcome (Balances A))
  bucket_or_empty none = []
  bucket_or_empty (some bucket) = bucket

  abbrev put_wallet :
      String
      → Dict (Outcome (Balances A))
      → Dict (Dict (Outcome (Balances A)))
      → Dict (Dict (Outcome (Balances A)))
  put_wallet x bucket [] = (x, bucket) ∷ []
  put_wallet x bucket ((y, old) ∷ out) =
      if str_eq y x then (y, bucket) ∷ out else (y, old) ∷ put_wallet x bucket out

  -- `bucket[asset] = answer`
  abbrev put_answer :
      String → Outcome (Balances A) → Dict (Outcome (Balances A)) → Dict (Outcome (Balances A))
  put_answer asset answer [] = (asset, answer) ∷ []
  put_answer asset answer ((b, old) ∷ bucket) =
      if str_eq b asset then (b, answer) ∷ bucket else (b, old) ∷ put_answer asset answer bucket

  -- `_collect_wallets`, over the registered gateways
  unfoldable pub collect_wallets :
      List (Wallet A) → Dict (Dict (Outcome (Balances A))) → Dict (Dict (Outcome (Balances A)))
  collect_wallets [] out = out
  collect_wallets (w ∷ ws) out =
      let bucket = bucket_or_empty (lookup w.exchange_id out) in
      collect_wallets ws
        (put_wallet w.exchange_id (put_answer "USDC" w.usdc (put_answer "USDT" w.usdt bucket)) out)

pub record Snapshot (A : Type 0) : Type 0 where
  pub generated_at : ℕ
  pub window_hours : ℕ
  pub seconds_since_last_event : Option A
  pub error_count : ℕ
  pub warn_count : ℕ
  pub positions : Sorted A
  pub wallets : Dict (Dict (Outcome (Balances A)))
  pub grouped : Dict (Dict ℕ)
  pub rejections_total : ℕ
  pub events : List BotEvent
  pub trades : List (Trade A)
  pub anomalies : List Anomaly

module _ {A : Type 0} ⦃n : Number A⦄ ⦃host : Host⦄ where
  unfoldable pub build_snapshot : ℕ → List (Wallet A) → Session A → Snapshot A × Session A
  build_snapshot hours_raw gateways s =
      let hours = clamp hours_raw in
      let (total, grouped) = rejections_grouped hours s in
      let (infos, warns, errors) = event_counts_in_window hours s in
      let sorted = sort_positions s.now s.positions in
      let trades = recent_trades hours 50 s in
      let seconds = seconds_since s.now (newest_first (λ (e : BotEvent). e.ts) s.bot_events) in
      let (cfg, s') = get_or_create_strategy_config s in
      let found : Findings A = record {
        seconds_since_last_event = seconds;
        naked = naked_rows sorted.naked_reports;
        open_rows = open_rows sorted.open_reports;
        recent_trades_count = length trades;
        rejections_total = total;
      } in
      (
        record {
          generated_at = s.now;
          window_hours = hours;
          seconds_since_last_event = seconds;
          error_count = errors;
          warn_count = warns;
          positions = sorted;
          wallets = collect_wallets gateways [];
          grouped = grouped;
          rejections_total = total;
          events = recent_events hours (some ("WARN" ∷ "ERROR" ∷ [])) 50 s;
          trades = trades;
          anomalies =
              detect_anomalies found errors (approx_cycles_in_window hours cfg.loop_seconds)
                cfg.cycle_error_rate_threshold;
        },
        s',
      )
