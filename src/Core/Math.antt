-- ===== src/Core/Math.antt =====
-- core/math.py: the gate arithmetic. A division by zero and a power that overflows raise.
pub mod Gate
use auto_trader_claude.Base.{Bool, ◌||◌, if◌then◌else◌, Outcome, ok}
use auto_trader_claude.Base.Outcomes.{◌>>=◌}
use auto_trader_claude.Number.{
  Number, ◌+◌, ◌-◌, ◌*◌, lt, le, literal, nought, neg, abs, quotient, divide,
}
use auto_trader_claude.Core.Types.Market.{GateInputs, GateResult}

module _ {A : Type 0} ⦃n : Number A⦄ where
  unfoldable pub periods_per_year : A → Outcome A
  periods_per_year funding_interval_hours = divide (literal 24 * literal 365) funding_interval_hours

  unfoldable pub apy_compound : A → A → Outcome A
  unfolding periods_per_year
  apy_compound per_window_bps funding_interval_hours = do
    periods ← periods_per_year funding_interval_hours
    grown ← n.pow (literal 1 + quotient per_window_bps (literal 10000)) periods
    ok (grown - literal 1)

  unfoldable pub basis_bps : A → A → A
  basis_bps perp_price spot_price =
      if le spot_price nought
      then nought
      else quotient (perp_price - spot_price) spot_price * literal 10000

  unfoldable pub worst_adverse_swing_bps : A → A → A
  worst_adverse_swing_bps entry_basis_bps m = m * abs entry_basis_bps

  unfoldable pub basis_rt_signed_bps : A → A → A
  unfolding worst_adverse_swing_bps
  basis_rt_signed_bps entry_basis_bps m = neg (worst_adverse_swing_bps entry_basis_bps m)

  unfoldable pub fees_rt_bps : A → A → A → A
  fees_rt_bps spot_fee_bps perp_fee_bps swap_basis_bps =
      let base = literal 2 * (spot_fee_bps + perp_fee_bps) in
      if lt nought swap_basis_bps then base + literal 2 * (spot_fee_bps + swap_basis_bps) else base

  unfoldable pub evaluate_gate : GateInputs A → Outcome (GateResult A)
  unfolding basis_rt_signed_bps fees_rt_bps apy_compound
  evaluate_gate g = do
    let f_w = g.funding_rate * literal 10000
    let basis_signed = basis_rt_signed_bps g.entry_basis_bps g.exit_basis_buffer_multiple
    let rt_fees = fees_rt_bps g.spot_fee_bps g.perp_fee_bps g.swap_basis_bps
    let net_per_window = f_w + basis_signed - rt_fees
    net_apy ← apy_compound net_per_window g.funding_interval_hours
    ok (record {
      net_apy = net_apy;
      net_per_window_bps = net_per_window;
      fees_rt_bps = rt_fees;
      basis_rt_signed_bps = basis_signed;
      funding_per_window_bps = f_w;
    })

  -- The arguments are the live funding rate, its interval, the live basis, the two fees and the
  -- buffer multiple.
  unfoldable pub forward_net_apy_for_exit : A → A → A → A → A → A → Outcome A
  unfolding evaluate_gate
  forward_net_apy_for_exit rate interval basis spot_fee perp_fee multiple = do
    gate ← evaluate_gate (record {
      funding_rate = rate;
      funding_interval_hours = interval;
      entry_basis_bps = basis;
      spot_fee_bps = spot_fee;
      perp_fee_bps = perp_fee;
      swap_basis_bps = nought;
      exit_basis_buffer_multiple = multiple;
    })
    ok gate.net_apy

  unfoldable pub basis_dislocation_triggered : A → A → A → Bool
  basis_dislocation_triggered entry_basis_bps_value live_basis_bps_value threshold_bps =
      lt threshold_bps (live_basis_bps_value - entry_basis_bps_value)

  unfoldable pub unrealized_pnl_fraction : A → A → A → A → A → Outcome A
  unrealized_pnl_fraction quantity spot_entry_price perp_entry_price spot_mark perp_mark =
      if le quantity nought || le spot_entry_price nought
      then ok nought
      else let spot_pnl = quantity * (spot_mark - spot_entry_price) in
        let perp_pnl = quantity * (perp_entry_price - perp_mark) in
        divide (spot_pnl + perp_pnl) (quantity * spot_entry_price)
