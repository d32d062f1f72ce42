-- ===== src/Gateways/Paper.antt =====
-- gateways/paper.py: `InMemoryGateway`, a venue whose books, rates and balances are fixtures.
pub mod Orders
pub mod Placed
pub mod Solvent
use auto_trader_claude.Base.{
  String, ◌<>◌, Bool, List, [], ◌∷◌, map, Option, none, some, Dict, lookup, get_or, contains,
  str_eq, ◌&&◌, if◌then◌else◌, Outcome, ok, raised, Exn, Action,
}
use auto_trader_claude.Number.{Number, decimal, nought}
use auto_trader_claude.Core.Types.Market.{BookSnapshot, FundingInfo, FeeInfo, WalletBalance}
use auto_trader_claude.Gateways.Venue.{Balances, FlowRecord}

pub record Paper (A : Type 0) : Type 0 where
  pub slippage_bps : A
  pub fee_bps : A
  pub account_id : String
  pub track_wallet_drawdown : Bool
  pub books : Dict (BookSnapshot A)
  pub funding : Dict (FundingInfo A)
  pub fees : List (String × String × FeeInfo A)
  pub spot_balances : Dict (WalletBalance A)
  pub futures_balances : Dict (WalletBalance A)
  pub lots : Dict A
  pub open_perps : List (String × A)
  pub seen_client_order_ids : List String
  pub capital_flow_records : List (FlowRecord A)

abbrev key_error : String → Exn
key_error text = record { kind = "KeyError"; message = text }

-- `d[key]`, or the error of a missing fixture
abbrev or_key_error : {V : Type 0} → String → Option V → Outcome V
or_key_error text none = raised (key_error text)
or_key_error text (some v) = ok v

module _ {A : Type 0} ⦃n : Number A⦄ where
  unfoldable pub lot_step : String → Action (Paper A) A
  lot_step symbol g = (ok (get_or symbol (decimal 1 3) g.lots), g)

  unfoldable pub fetch_funding_rates : Action (Paper A) (List (FundingInfo A))
  fetch_funding_rates g = (ok (map (λ (_, f). f) g.funding), g)

  unfoldable pub fetch_predicted_funding : String → Action (Paper A) (FundingInfo A)
  fetch_predicted_funding perp_symbol g = (
    or_key_error ("'No funding fixture for " <> perp_symbol <> "'") (lookup perp_symbol g.funding),
    g,
  )

  unfoldable pub snapshot_book : String → Action (Paper A) (BookSnapshot A)
  snapshot_book symbol g =
      (or_key_error ("'No book fixture for " <> symbol <> "'") (lookup symbol g.books), g)

  abbrev fee_or : FeeInfo A → String → String → List (String × String × FeeInfo A) → FeeInfo A
  fee_or default s p [] = default
  fee_or default s p ((s', p', f) ∷ fees) =
      if str_eq s' s && str_eq p' p then f else fee_or default s p fees

  unfoldable pub fetch_fees : String → String → Action (Paper A) (FeeInfo A)
  fetch_fees spot_symbol perp_symbol g =
      let flat : FeeInfo A = record { spot_fee_bps = g.fee_bps; perp_fee_bps = g.fee_bps } in
      (ok (fee_or flat spot_symbol perp_symbol g.fees), g)

  abbrev pub empty_wallet : WalletBalance A
  empty_wallet = record { free = nought; total = nought }

  unfoldable pub fetch_balance : String → Action (Paper A) (Balances A)
  fetch_balance asset g = (
    ok (record {
      spot = get_or asset empty_wallet g.spot_balances;
      futures = get_or asset empty_wallet g.futures_balances;
    }),
    g,
  )

module _ {A : Type 0} where
  unfoldable pub list_open_perp_positions : Action (Paper A) (List (String × A))
  list_open_perp_positions g = (ok g.open_perps, g)

  unfoldable pub list_capital_flow_records : Action (Paper A) (List (FlowRecord A))
  list_capital_flow_records g = (ok g.capital_flow_records, g)

  -- `expected_account_id` and `actual_account_id` return one field
  unfoldable pub account_id : Action (Paper A) String
  account_id g = (ok g.account_id, g)
