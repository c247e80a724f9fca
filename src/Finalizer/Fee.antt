-- ===== src/Finalizer/Fee.antt =====
-- The fee of a finalizer: its caps, and the principal that it never touches.
use parly_relayer.Prelude.{◌≡◌, ◌↔◌, arith}
use parly_relayer.Prelude.Int.{ℤ, pos, ◌-ℤ◌, ◌≤ℤ◌}
use parly_relayer.Finalizer.{
  FeeRequest, granted, validate_finalizer_fee, compute_capped_finalizer_fee,
}

-- A fee is granted exactly if it is the one requested, not negative, within the fee cap and within
-- the budget, and what is left of the observed amount covers the required principal.
pub validate_finalizer_fee_iff :
    (args : FeeRequest) (fee : ℤ)
    → (validate_finalizer_fee args ≡ granted fee) ↔ (
        (fee ≡ args.requested_fee)
        × (pos 0 ≤ℤ fee)
        × (fee ≤ℤ args.max_finalizer_fee)
        × (fee ≤ℤ args.settlement_fee_budget)
        × (args.required_principal ≤ℤ args.observed_amount -ℤ fee))
unfolding validate_finalizer_fee
validate_finalizer_fee_iff args fee = (λ h. ground arith, λ h. ground arith)

-- A computed fee that is granted is not above the estimated gas cost, the fee cap or the budget, and
-- it leaves the required principal.
pub compute_capped_finalizer_fee_bounds :
    (estimate fee : ℤ) (args : FeeRequest)
    → compute_capped_finalizer_fee estimate args ≡ granted fee
    → (fee ≤ℤ estimate)
      × (fee ≤ℤ args.max_finalizer_fee)
      × (fee ≤ℤ args.settlement_fee_budget)
      × (args.required_principal ≤ℤ args.observed_amount -ℤ fee)
unfolding compute_capped_finalizer_fee validate_finalizer_fee
compute_capped_finalizer_fee_bounds estimate fee args h = ground arith
