-- ===== src/Loop/Cycle/Scan.antt =====
-- loop/cycle.py: `_tier1_scan` and the choice of a candidate.
use auto_trader_claude.Base.{
  String, has, before, after, if◌then◌else◌, List, [], ◌∷◌, keep, contains, not, Outcome, ok,
  Option, none, some,
}
use auto_trader_claude.Base.Outcomes.{◌>>=◌}
use auto_trader_claude.Number.{Number, ◌+◌, ◌-◌, ◌*◌, lt, literal, nought, quotient, divide}
use auto_trader_claude.Core.Types.Config.{MergedConfig}
use auto_trader_claude.Core.Types.Market.{FundingInfo, ScanCandidate}

-- `sym.split(":")[0]`, and the two sides of its slash
abbrev pub spot_symbol_of : String → String
spot_symbol_of symbol = before b':' symbol

abbrev pub base_of : String → String
base_of spot_sym = before b'/' spot_sym

abbrev pub quote_of : String → String
quote_of spot_sym = if has b'/' spot_sym then before b'/' (after b'/' spot_sym) else "USDT"

module _ {A : Type 0} ⦃n : Number A⦄ where
  -- the net APY at zero basis and about 5 bps of fees on each leg
  unfoldable pub approx_net_apy : FundingInfo A → Outcome A
  approx_net_apy fr = do
    let f_w = fr.predicted_rate * literal 10000
    let rt_fees = literal 2 * (literal 5 + literal 5) + nought
    let per_w = f_w - rt_fees
    periods ← divide (literal 24 * literal 365) fr.interval_hours
    grown ← n.pow (literal 1 + quotient per_w (literal 10000)) periods
    ok (grown - literal 1)

  abbrev pub candidate_of : FundingInfo A → A → ScanCandidate A
  candidate_of fr net_apy = record {
    symbol = fr.symbol;
    spot_symbol = spot_symbol_of fr.symbol;
    perp_symbol = fr.symbol;
    base_asset = base_of (spot_symbol_of fr.symbol);
    quote_currency = quote_of (spot_symbol_of fr.symbol);
    spot_quote_currency = quote_of (spot_symbol_of fr.symbol);
    predicted_funding_rate = fr.predicted_rate;
    funding_interval_hours = fr.interval_hours;
    approx_net_apy = net_apy;
  }

  abbrev consider : A → FundingInfo A → A → List (ScanCandidate A) → List (ScanCandidate A)
  consider threshold fr net_apy rest =
      if lt net_apy threshold then rest else candidate_of fr net_apy ∷ rest

  -- `_tier1_scan`, on what `fetch_funding_rates` returned
  unfoldable pub tier1_scan :
      MergedConfig A → List (FundingInfo A) → Outcome (List (ScanCandidate A))
  unfolding approx_net_apy
  tier1_scan config [] = ok []
  tier1_scan config (fr ∷ rates) = do
    net_apy ← approx_net_apy fr
    rest ← tier1_scan config rates
    ok (consider config.entry_min_net_apy fr net_apy rest)

  -- `candidates.sort(key=…, reverse=True)`, which keeps the order of equal keys
  unfoldable pub insert_candidate :
      ScanCandidate A → List (ScanCandidate A) → List (ScanCandidate A)
  insert_candidate c [] = c ∷ []
  insert_candidate c (d ∷ ds) =
      if lt c.approx_net_apy d.approx_net_apy then d ∷ insert_candidate c ds else c ∷ d ∷ ds

  unfoldable pub sort_candidates : List (ScanCandidate A) → List (ScanCandidate A)
  unfolding insert_candidate
  sort_candidates [] = []
  sort_candidates (c ∷ cs) = insert_candidate c (sort_candidates cs)

  -- the candidates whose base asset is not held
  unfoldable pub not_held : List String → List (ScanCandidate A) → List (ScanCandidate A)
  not_held held_bases = keep (λ c. not (contains c.base_asset held_bases))

  abbrev pub first : List (ScanCandidate A) → Option (ScanCandidate A)
  first [] = none
  first (c ∷ _) = some c
