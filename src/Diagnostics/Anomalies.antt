-- ===== src/Diagnostics/Anomalies.antt =====
-- diagnostics/anomalies.py: `detect_anomalies`, over the fields of the snapshot that it reads.
use auto_trader_claude.Base.{
  ℕ, String, ◌<>◌, truthy, ltb, ◌==◌, ◌&&◌, List, [], ◌∷◌, ◌++◌, Option, none, some, if◌then◌else◌,
}
use auto_trader_claude.Number.{Number, literal, quotient, lt, show}
use auto_trader_claude.Core.Types.{PositionStatus, naked_spot}
use auto_trader_claude.Loop.World.{Host}

pub data Severity : Type 0 where
  critical warning : Severity

pub record Anomaly : Type 0 where
  pub severity : Severity
  pub rule : String
  pub detail : String

-- the entries of `positions.naked` and `positions.open`
pub record NakedRow (A : Type 0) : Type 0 where
  pub status : PositionStatus
  pub symbol : String
  pub age_minutes : A

pub record OpenRow : Type 0 where
  pub symbol : String
  pub last_close_error : String

pub record Findings (A : Type 0) : Type 0 where
  pub seconds_since_last_event : Option A
  pub naked : List (NakedRow A)
  pub open_rows : List OpenRow
  pub recent_trades_count : ℕ
  pub rejections_total : ℕ

abbrev stale_rule : PositionStatus → String
stale_rule naked_spot = "stale_naked_spot"
stale_rule _ = "stale_naked_perp"

abbrev pub no_trades : ⦃host : Host⦄ → ℕ → ℕ → List Anomaly
no_trades ⦃host = host⦄ trades rejections =
    if (trades == 0) && ltb 20 rejections
    then record {
      severity = warning;
      rule = "no_trades_despite_scans";
      detail = "rejections=" <> host.str_ℕ rejections <> ", trades=0";
    }
      ∷ []
    else []

abbrev pub error_burst : ⦃host : Host⦄ → ℕ → List Anomaly
error_burst ⦃host = host⦄ error_count =
    if ltb 20 error_count
    then record {
      severity = warning;
      rule = "error_burst";
      detail = "error_count=" <> host.str_ℕ error_count;
    }
      ∷ []
    else []

abbrev pub close_blocked : List OpenRow → List Anomaly
close_blocked [] = []
close_blocked (r ∷ rows) =
    let rest = close_blocked rows in
    if truthy r.last_close_error
    then record {
      severity = warning;
      rule = "close_blocked";
      detail = r.symbol <> ": " <> r.last_close_error;
    }
      ∷ rest
    else rest

module _ {A : Type 0} ⦃n : Number A⦄ where
  abbrev pub error_rate : ℕ → ℕ → A
  error_rate error_count cycles = quotient (literal error_count) (literal cycles)

module _ {A : Type 0} ⦃n : Number A⦄ ⦃host : Host⦄ where
  abbrev seconds_text : Option A → String
  seconds_text none = "None"
  seconds_text (some sec) = show sec

  abbrev silence : Option A → List Anomaly
  silence sec =
      record {
        severity = critical;
        rule = "no_recent_events";
        detail = "seconds_since_last_event=" <> seconds_text sec;
      }
      ∷ []

  abbrev pub no_recent_events : Option A → List Anomaly
  no_recent_events none = silence none
  no_recent_events (some sec) = if lt (literal 3600) sec then silence (some sec) else []

  abbrev pub stale_naked : List (NakedRow A) → List Anomaly
  stale_naked [] = []
  stale_naked (r ∷ rows) =
      let rest = stale_naked rows in
      if lt (literal 60) r.age_minutes
      then record {
        severity = warning;
        rule = stale_rule r.status;
        detail = r.symbol <> " age=" <> n.format 0 r.age_minutes <> "min";
      }
        ∷ rest
      else rest

  abbrev pub error_rate_high : ℕ → ℕ → A → List Anomaly
  error_rate_high error_count cycles threshold =
      let rate = error_rate error_count cycles in
      if ltb 0 cycles && lt threshold rate
      then record {
        severity = critical;
        rule = "cycle_error_rate_high";
        detail = "rate=" <> n.format 3 rate <> " threshold=" <> n.format 3 threshold;
      }
        ∷ []
      else []

  unfoldable pub detect_anomalies : Findings A → ℕ → ℕ → A → List Anomaly
  detect_anomalies snapshot error_count cycles threshold =
      no_recent_events snapshot.seconds_since_last_event
      ++ stale_naked snapshot.naked
      ++ no_trades snapshot.recent_trades_count snapshot.rejections_total
      ++ error_burst error_count
      ++ close_blocked snapshot.open_rows
      ++ error_rate_high error_count cycles threshold
