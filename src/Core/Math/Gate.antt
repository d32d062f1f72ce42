-- ===== src/Core/Math/Gate.antt =====
-- core/math.py: what the result of the gate is made of.
use auto_trader_claude.Base.{◌≡◌, refl, subst, ok, arith, Bool-cases, inl, inr}
use auto_trader_claude.Base.Outcomes.{>>=-eq-ok}
use auto_trader_claude.Number.{Number, ◌+◌, ◌-◌, ◌*◌, lt, literal, nought, abs}
use auto_trader_claude.Number.Order.{IsOrdered, ◌≼◌, abs_nonneg, add_nonneg}
use auto_trader_claude.Core.Types.Market.{GateInputs, GateResult}
use auto_trader_claude.Core.Math.{basis_rt_signed_bps, fees_rt_bps, evaluate_gate, apy_compound}

module _ {A : Type 0} ⦃n : Number A⦄ where
  pub record IsConservative (g : GateInputs A) (r : GateResult A) : Type 0 where
    pub funding_exact : r.funding_per_window_bps ≡ g.funding_rate * literal 10000
    pub basis_charged : r.basis_rt_signed_bps ≼ nought
    pub fees_charged : nought ≼ r.fees_rt_bps
    pub net_le_funding : r.net_per_window_bps ≼ r.funding_per_window_bps
    pub apy_of_net : apy_compound r.net_per_window_bps g.funding_interval_hours ≡ ok r.net_apy

  abbrev net_of : GateInputs A → A
  net_of g =
      g.funding_rate * literal 10000
      + basis_rt_signed_bps g.entry_basis_bps g.exit_basis_buffer_multiple
      - fees_rt_bps g.spot_fee_bps g.perp_fee_bps g.swap_basis_bps

  -- the result of the gate once the yield is known
  abbrev gate_of : GateInputs A → A → GateResult A
  gate_of g net_apy = record {
    net_apy = net_apy;
    net_per_window_bps = net_of g;
    fees_rt_bps = fees_rt_bps g.spot_fee_bps g.perp_fee_bps g.swap_basis_bps;
    basis_rt_signed_bps = basis_rt_signed_bps g.entry_basis_bps g.exit_basis_buffer_multiple;
    funding_per_window_bps = g.funding_rate * literal 10000;
  }

  module _ (laws : IsOrdered A) where
    open laws use {le_trans, mul_nonneg, neg_nonpos, add_le, sub_le, of_ℕ_nonneg}

    basis_nonpos : (basis m : A) → nought ≼ m → basis_rt_signed_bps basis m ≼ nought
    unfolding basis_rt_signed_bps
    basis_nonpos basis m h =
        neg_nonpos (m * abs basis) (mul_nonneg m (abs basis) h (abs_nonneg laws basis))

    twice_nonneg : (a b : A) → nought ≼ a → nought ≼ b → nought ≼ literal 2 * (a + b)
    twice_nonneg a b p q = mul_nonneg (literal 2) (a + b) (of_ℕ_nonneg 2) (add_nonneg laws a b p q)

    fees_nonneg :
        (spot perp swap : A)
        → nought ≼ spot
        → nought ≼ perp
        → nought ≼ swap
        → nought ≼ fees_rt_bps spot perp swap
    unfolding fees_rt_bps
    fees_nonneg spot perp swap p q r =
        let base = literal 2 * (spot + perp) in
        let extra = literal 2 * (spot + swap) in
        let base_nonneg = twice_nonneg spot perp p q in
        let sum_nonneg = add_nonneg laws base extra base_nonneg (twice_nonneg spot swap p r) in
        elim (Bool-cases (lt nought swap)) [
          | inl e ↦ grind (arith, e, sum_nonneg)
          | inr e ↦ grind (arith, e, base_nonneg)
        ]

    gate_of-IsConservative :
        (g : GateInputs A) (net_apy : A)
        → nought ≼ g.exit_basis_buffer_multiple
        → nought ≼ g.spot_fee_bps
        → nought ≼ g.perp_fee_bps
        → nought ≼ g.swap_basis_bps
        → apy_compound (net_of g) g.funding_interval_hours ≡ ok net_apy
        → IsConservative g (gate_of g net_apy)
    gate_of-IsConservative g net_apy hm hs hp hw e =
        let f_w = g.funding_rate * literal 10000 in
        let basis = basis_rt_signed_bps g.entry_basis_bps g.exit_basis_buffer_multiple in
        let fees = fees_rt_bps g.spot_fee_bps g.perp_fee_bps g.swap_basis_bps in
        let charged = basis_nonpos g.entry_basis_bps g.exit_basis_buffer_multiple hm in
        let paid = fees_nonneg g.spot_fee_bps g.perp_fee_bps g.swap_basis_bps hs hp hw in
        record {
          funding_exact = refl;
          basis_charged = charged;
          fees_charged = paid;
          net_le_funding =
              le_trans (f_w + basis - fees) (f_w + basis) f_w (sub_le (f_w + basis) fees paid)
                (add_le f_w basis charged);
          apy_of_net = e;
        }

    -- Where the buffer multiple and the fees are not negative and the gate gives a result, the
    -- result reports the funding of one window in basis points, a basis change that is never a gain,
    -- fees that are never a rebate, a net amount that is at most the funding, and the yearly yield
    -- that this net amount compounds to.
    pub evaluate_gate-IsConservative :
        (g : GateInputs A) (r : GateResult A)
        → nought ≼ g.exit_basis_buffer_multiple
        → nought ≼ g.spot_fee_bps
        → nought ≼ g.perp_fee_bps
        → nought ≼ g.swap_basis_bps
        → evaluate_gate g ≡ ok r
        → IsConservative g r
    unfolding evaluate_gate
    evaluate_gate-IsConservative g r hm hs hp hw h =
        let net_apy_of = apy_compound (net_of g) g.funding_interval_hours in
        let (net_apy, e, e') = >>=-eq-ok net_apy_of (λ a. ok (gate_of g a)) h in
        let same : gate_of g net_apy ≡ r = cc in
        subst (IsConservative g) same (gate_of-IsConservative g net_apy hm hs hp hw e)
