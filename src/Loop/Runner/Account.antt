-- ===== src/Loop/Runner/Account.antt =====
-- loop/runner.py: `_assert_account_id`, the check of the account before a live worker starts. The
-- state beside the database is the venue's.
pub mod Locked
use auto_trader_claude.Base.{
  ℕ, String, str_eq, ◌<>◌, strip, lower, truthy, not, Option, none, some, if◌then◌else◌, Outcome,
  ok, raised, Exn, Action, pure, raise, run_outcome, done, ◌>>=◌,
}
use auto_trader_claude.State.Models.{VenueState}
use auto_trader_claude.State.Session.{Session}
use auto_trader_claude.State.Repository.Config.{get_venue_state}
use auto_trader_claude.State.Database.{Database, Process, session_scope}
use auto_trader_claude.Gateways.Venue.{Gateway}
use auto_trader_claude.Loop.World.{Host}
use auto_trader_claude.Loop.Runner.{query_store, call_outside}

-- `s.strip().lower()`
abbrev pub normalised : String → String
normalised s = lower (strip s)

abbrev pub locked_id : Option VenueState → String
locked_id none = ""
locked_id (some row) = normalised row.expected_account_id

module _ ⦃host : Host⦄ where
  abbrev pub account_id_mismatch : String → String → String → Exn
  account_id_mismatch exchange expected actual = record {
    kind = "AccountIdMismatch";
    message =
        exchange
        <> ": expected account "
        <> host.quote expected
        <> " but venue reports "
        <> host.quote actual
        <> " — refusing to start. Fix via /safety "
        <> "(or unset the venue_state.expected_account_id to re-detect).";
  }

  abbrev pub compare_ids : String → String → String → Outcome (Unit {0})
  compare_ids exchange expected actual =
      if not (truthy actual)
      then ok tt
      else if not (truthy expected)
      then ok tt
      else if not (str_eq actual expected)
      then raised (account_id_mismatch exchange expected actual)
      else ok tt

  -- the venue's answer, behind the `try` around the probe
  abbrev pub compare_answer :
      {S : Type 0} → String → String → Outcome String × S → Outcome (Unit {0}) × S
  compare_answer exchange expected (raised e, s) = (ok tt, s)
  compare_answer exchange expected (ok actual, s) =
      (compare_ids exchange expected (normalised actual), s)

abbrev pub read_locked : {A : Type 0} → String → Session A → String
read_locked exchange s = locked_id (get_venue_state exchange s)

module _ {A G : Type 0} ⦃db : Database A⦄ ⦃gateway : Gateway A G⦄ where
  abbrev pub expected_of : String → Action (Process A G) String
  expected_of expected_db =
      if truthy expected_db
      then pure expected_db
      else (do configured ← call_outside gateway.expected_account_id; pure (normalised configured))

  unfoldable pub assert_account_id : ⦃host : Host⦄ → ℕ → Action (Process A G) (Unit {0})
  assert_account_id now = do
    expected_db ← session_scope now (query_store (read_locked gateway.exchange_id))
    expected ← expected_of expected_db
    λ p. compare_answer gateway.exchange_id expected (call_outside gateway.actual_account_id p)
