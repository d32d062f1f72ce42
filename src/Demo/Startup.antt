-- ===== src/Demo/Startup.antt =====
-- Boot and shutdown on concrete inputs: paper gateways under every id, and no thread that fails.
use auto_trader_claude.Base.{
  ◌≡◌, refl, String, strip, lower, false, List, [], ◌∷◌, ◌++◌, ok, All, ◌>>=◌,
}
use auto_trader_claude.Number.Fixed.{ℤ, fixed_number}
use auto_trader_claude.Core.Settings.{load_env}
use auto_trader_claude.State.Models.{VenueState}
use auto_trader_claude.State.Repository.Config.{get_venue_state}
use auto_trader_claude.State.Database.{Process, seed_venue_defaults, session_scope}
use auto_trader_claude.State.Database.Seeded.{venue_ids, seed_venue_defaults-Seeded}
use auto_trader_claude.Gateways.Paper.{Paper, account_id}
use auto_trader_claude.Gateways.Paper.Orders.{paper_gateway}
use auto_trader_claude.Loop.Runner.{query_store, call_outside}
use auto_trader_claude.Loop.Runner.Activate.{activate}
use auto_trader_claude.Loop.Runner.Activate.Twice.{Obeys, activate-Obeys}
use auto_trader_claude.Loop.Runner.Account.{normalised, read_locked, assert_account_id}
use auto_trader_claude.Loop.Runner.Account.Locked.{assert_account_id-locked}
use auto_trader_claude.Loop.Runner.Start.{Adapter, Makers, Runtime, start_runner, stop_runner}
use auto_trader_claude.Loop.Runner.Start.Tracked.{IsIn, Tracked}
use auto_trader_claude.Loop.Runner.Start.Stopped.{start_runner-Tracked}
use auto_trader_claude.Demo.{demo_host, demo_gateway, venue, fresh}
use auto_trader_claude.Demo.Runner.{demo_database}

abbrev adapter : String → Adapter ℤ (Paper ℤ)
adapter x = record { calls = paper_gateway x; state = venue }

instance abbrev demo_makers : Makers ℤ (Paper ℤ)
demo_makers = record {
  in_memory = adapter;
  binance = λ key secret account. ok (adapter "binance");
  kucoin = λ key secret passphrase account. ok (adapter "kucoin");
  hyperliquid = λ wallet key account. ok (adapter "hyperliquid");
  start_thread = λ mode x. ok tt;
}

abbrev off : Process ℤ (Runtime ℤ (Paper ℤ))
off = record {
  store = fresh;
  outside = record { workers = []; registry = []; events = 0; started = []; set = [] };
}

abbrev environ : List (String × String)
environ = ("BINANCE_API_KEY", "k") ∷ ("BINANCE_API_SECRET", "s") ∷ []

start_runner-Tracked_example :
    Tracked (start_runner environ 9 off).1.outside
    × All
        (λ i. IsIn i (stop_runner (start_runner environ 9 off).1.outside).set)
        (start_runner environ 9 off).1.outside.started
start_runner-Tracked_example =
    start_runner-Tracked environ 9 off (record { threads = tt; gateways = tt })

abbrev row : String → VenueState
row x = record {
  exchange_id = x;
  active = false;
  expected_account_id = "Paper-Account ";
  notes = "";
}

activate-Obeys_example :
    let env = load_env environ in
    let rows = row "binance" ∷ row "kucoin" ∷ [] in
    All (Obeys ("binance" ∷ [])) (activate ("binance" ∷ []) env rows).1
    × (activate ("binance" ∷ []) env (activate ("binance" ∷ []) env rows).1
        ≡ activate ("binance" ∷ []) env rows)
activate-Obeys_example =
    activate-Obeys ("binance" ∷ []) (load_env environ) (row "binance" ∷ row "kucoin" ∷ [])

abbrev locked : Process ℤ (Paper ℤ)
locked = record { store = record fresh { venue_states = row "binance" ∷ [] }; outside = venue }

checked-ok : assert_account_id 9 locked ≡ (ok tt, (assert_account_id 9 locked).1)
unfolding assert_account_id session_scope query_store call_outside ◌>>=◌ get_venue_state strip lower
    account_id
checked-ok = refl

assert_account_id-locked_example : normalised "paper-account" ≡ read_locked "binance" locked.store
unfolding get_venue_state strip lower account_id
assert_account_id-locked_example =
    assert_account_id-locked 9 locked (assert_account_id 9 locked).1 "paper-account" venue
      checked-ok refl refl refl

seed_venue_defaults-Seeded_example :
    let rows = row "kucoin" ∷ [] in
    ((more : List VenueState) × (seed_venue_defaults rows ≡ rows ++ more))
    × (venue_ids (seed_venue_defaults rows) ≡ "kucoin" ∷ "binance" ∷ "hyperliquid" ∷ [])
    × (seed_venue_defaults (seed_venue_defaults rows) ≡ seed_venue_defaults rows)
seed_venue_defaults-Seeded_example = seed_venue_defaults-Seeded (row "kucoin" ∷ [])
