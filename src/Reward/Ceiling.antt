-- ===== src/Reward/Ceiling.antt =====
-- The ceilings of a source reward.
use parly_relayer.Prelude.{ℕ, ◌≤◌, ◌≡◌, ok, arith, >>=-eq-ok}
use parly_relayer.Prelude.Int.{ℤ, pos, ◌≤ℤ◌}
use parly_relayer.Reward.{
  RelayRewardPolicyV4, cost_covering_relay_reward, validate_policy, quote_source_reward_v4,
}

validate_policy-maxima :
    (policy : RelayRewardPolicyV4)
    → validate_policy policy ≡ ok tt
    → (policy.single_source_maximum ≤ℤ pos 5000) × (policy.batch_source_maximum ≤ℤ pos 10000)
unfolding validate_policy
validate_policy-maxima policy e = ground arith

-- A quoted source reward is the cost of the source transaction, it is for one to ten recipients,
-- and it is at most 5000 microdollars for one recipient and at most 10000 for several, whatever the
-- policy.
pub quote_source_reward_v4_bounds :
    (gas price n : ℤ) (policy : RelayRewardPolicyV4) (r : ℕ)
    → quote_source_reward_v4 gas price n policy ≡ ok r
    → (cost_covering_relay_reward gas price ≡ ok r)
      × (pos 1 ≤ℤ n)
      × (n ≤ℤ pos 10)
      × (n ≡ pos 1 → r ≤ 5000)
      × (r ≤ 10000)
unfolding quote_source_reward_v4
quote_source_reward_v4_bounds gas price n policy r e =
    let (_, valid, e') = >>=-eq-ok (validate_policy policy) _ e in
    let maxima = validate_policy-maxima policy valid in
    (ground arith, ground arith, ground arith, λ one. ground arith, ground arith)
