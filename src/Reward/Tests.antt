-- ===== src/Reward/Tests.antt =====
-- Tests of the reward functions, and the reward theorems at a payout with three recipients.
use parly_relayer.Prelude.{ℕ, ◌*◌, ◌+◌, ◌≤◌, ◌<◌, ◌≡◌, refl, ok, err, List, [], ◌∷◌, arith}
use parly_relayer.Prelude.Int.{ℤ, pos, ◌-ℤ◌, ◌≤ℤ◌}
use parly_relayer.Reward.{
  divisor, RelayRewardPolicyV4, RelayChildGasV4, ChildQuote, cost_not_positive, quote_too_low,
  cost_covering_relay_reward, require_cost_covered_relay_reward, quote_source_reward_v4,
  quote_child, quote_children, quote_cross_chain_rewards_v4, validate_policy, source_allocation,
  submission_reimbursement,
}
use parly_relayer.Reward.Cost.{
  cost_covering_relay_reward_least, require_cost_covered_relay_reward_iff,
}
use parly_relayer.Reward.Shares.{
  allocated, allocated-quote_cross_chain_rewards_v4, AllCovered,
  quote_cross_chain_rewards_v4-AllCovered,
}
use parly_relayer.Reward.Ceiling.{quote_source_reward_v4_bounds}

rewards : Unit {0}
unfolding cost_covering_relay_reward require_cost_covered_relay_reward quote_source_reward_v4
    quote_child quote_children quote_cross_chain_rewards_v4 validate_policy source_allocation
    submission_reimbursement ◌-ℤ◌
rewards = tt

abbrev price : ℤ
price = pos 20000000000

abbrev policy : RelayRewardPolicyV4
policy = record {
  single_source_maximum = pos 5000;
  batch_source_maximum = pos 10000;
  child_maximum = pos 20000;
  child_quote = pos 20000;
}

abbrev child : RelayChildGasV4
child = record {
  acceptance = pos 1000;
  confirmation = pos 1000;
  submission = pos 1000;
  completion = pos 5000;
}

abbrev quote : ℕ → ℕ → ℕ → ChildQuote
quote index share delivery = record {
  source_executor_fee_allocation = share;
  source_group_reward = 1100;
  source_recipient_count = 3;
  source_recipient_index = index;
  submission_reimbursement = 66;
  delivery_success_fee = pos delivery;
  max_operator_fee = pos 20000;
  total_reward = pos 20000;
}

abbrev three : List RelayChildGasV4
three = child ∷ child ∷ child ∷ []

abbrev quotes : List ChildQuote
quotes = quote 0 367 19567 ∷ quote 1 367 19567 ∷ quote 2 366 19568 ∷ []

quoted : quote_cross_chain_rewards_v4 (pos 50000) price three policy ≡ ok (1100, quotes)
unfolding rewards
quoted = refl

free_gas : cost_covering_relay_reward (pos 0) price ≡ err cost_not_positive
unfolding rewards
free_gas = refl

dear_completion :
    quote_cross_chain_rewards_v4
      (pos 50000)
      price
      (record child { completion = pos 1000000 } ∷ [])
      policy
    ≡ err quote_too_low
unfolding rewards
dear_completion = refl

cost_covering_relay_reward_least_example :
    (0 < 50000)
    × (0 < 20000000000)
    × (50000 * 20000000000 * 110 ≤ 1100 * divisor)
    × (1100 * divisor < 50000 * 20000000000 * 110 + divisor)
unfolding rewards
cost_covering_relay_reward_least_example =
    cost_covering_relay_reward_least (pos 50000) price 1100 refl

require_cost_covered_relay_reward_iff_example :
    require_cost_covered_relay_reward (pos 1100) (pos 50000) price ≡ ok tt
require_cost_covered_relay_reward_iff_example =
    (require_cost_covered_relay_reward_iff (pos 1100) (pos 50000) price).1 (omega arith)

allocated-quote_cross_chain_rewards_v4_example : allocated quotes ≡ 1100
allocated-quote_cross_chain_rewards_v4_example =
    allocated-quote_cross_chain_rewards_v4 (pos 50000) price three policy 1100 quotes quoted

quote_cross_chain_rewards_v4-AllCovered_example : AllCovered price three quotes
quote_cross_chain_rewards_v4-AllCovered_example =
    quote_cross_chain_rewards_v4-AllCovered (pos 50000) price three policy 1100 quotes quoted

quote_source_reward_v4_bounds_example :
    (cost_covering_relay_reward (pos 50000) price ≡ ok 1100)
    × (pos 1 ≤ℤ pos 3)
    × (pos 3 ≤ℤ pos 10)
    × (pos 3 ≡ pos 1 → 1100 ≤ 5000)
    × (1100 ≤ 10000)
unfolding rewards
quote_source_reward_v4_bounds_example =
    quote_source_reward_v4_bounds (pos 50000) price (pos 3) policy 1100 refl
