-- ===== src/Reward.antt =====
-- apps/relayer/src/phase3/relay-reward.ts and relay-reward-v4.ts: what a relayer must be paid for
-- the gas of a transaction, and how the source reward of a payout is shared between its children.
-- A `bigint` that a test may find negative is an integer; what a passed test leaves positive is a
-- natural number. Counts of recipients are integers: the source refuses all other numbers.
pub mod Cost
pub mod Shares
pub mod Ceiling
mod Tests
use parly_relayer.Prelude.{
  ℕ, suc, ◌+◌, ◌-◌, ◌*◌, ◌/◌, ◌%◌, Bool, ◌||◌, List, [], ◌∷◌, Result, ok, err, ◌>>=◌, ◌>>◌, guard,
  ltb, ◌==◌, not, if◌then◌else◌, length,
}
use parly_relayer.Prelude.Int.{ℤ, pos, pos_part, ◌-ℤ◌, ltb_ℤ, leb_ℤ}

pub data RewardError : Type 0 where
  cost_not_positive reward_too_low above_maximum above_ceiling bad_recipient_count : RewardError
  source_above_ceiling quote_too_low : RewardError

-- `100n * 1_000_000_000_000n`
abbrev pub divisor : ℕ
divisor = 100000000000000

pub cost_covering_relay_reward : ℤ → ℤ → Result RewardError ℕ
cost_covering_relay_reward gas_units gas_price =
    if leb_ℤ gas_units (pos 0) || leb_ℤ gas_price (pos 0)
    then err cost_not_positive
    else ok ((pos_part gas_units * pos_part gas_price * 110 + divisor - 1) / divisor)

pub require_cost_covered_relay_reward : ℤ → ℤ → ℤ → Result RewardError (Unit {0})
require_cost_covered_relay_reward reward gas_units gas_price = do
  cost ← cost_covering_relay_reward gas_units gas_price
  guard (not (ltb_ℤ reward (pos cost))) reward_too_low

pub record RelayRewardPolicyV4 : Type 0 where
  pub single_source_maximum : ℤ
  pub batch_source_maximum : ℤ
  pub child_maximum : ℤ
  pub child_quote : ℤ

pub record RelayChildGasV4 : Type 0 where
  pub acceptance : ℤ
  pub confirmation : ℤ
  pub submission : ℤ
  pub completion : ℤ

-- One round of the loop of `validatePolicy`.
within_maximum : ℤ → ℕ → Result RewardError (Unit {0})
within_maximum value maximum =
    guard (not (ltb_ℤ value (pos 0) || ltb_ℤ (pos maximum) value)) above_maximum

pub validate_policy : RelayRewardPolicyV4 → Result RewardError (Unit {0})
unfolding within_maximum
validate_policy policy = do
  within_maximum policy.single_source_maximum 5000
  within_maximum policy.batch_source_maximum 10000
  within_maximum policy.child_maximum 20000
  within_maximum policy.child_quote 20000
  guard (leb_ℤ policy.child_quote policy.child_maximum) above_ceiling

source_maximum : ℤ → RelayRewardPolicyV4 → ℤ
source_maximum (pos n) policy =
    if n == 1 then policy.single_source_maximum else policy.batch_source_maximum
source_maximum _ policy = policy.batch_source_maximum

pub quote_source_reward_v4 : ℤ → ℤ → ℤ → RelayRewardPolicyV4 → Result RewardError ℕ
unfolding source_maximum
quote_source_reward_v4 gas_units gas_price recipient_count policy = do
  validate_policy policy
  guard (not (ltb_ℤ recipient_count (pos 1) || ltb_ℤ (pos 10) recipient_count)) bad_recipient_count
  reward ← cost_covering_relay_reward gas_units gas_price
  guard (not (ltb_ℤ (source_maximum recipient_count policy) (pos reward))) source_above_ceiling
  ok reward

pub record ChildQuote : Type 0 where
  pub source_executor_fee_allocation : ℕ
  pub source_group_reward : ℕ
  pub source_recipient_count : ℕ
  pub source_recipient_index : ℕ
  pub submission_reimbursement : ℕ
  pub delivery_success_fee : ℤ
  pub max_operator_fee : ℤ
  pub total_reward : ℤ

pub source_allocation : ℕ → ℕ → ℕ → ℕ
source_allocation source_reward count index =
    source_reward / count + (if ltb index (source_reward % count) then 1 else 0)

-- The sum that the source writes as one expression; its three costs are computed in this order.
pub submission_reimbursement : RelayChildGasV4 → ℤ → Result RewardError ℕ
submission_reimbursement gas gas_price = do
  a ← cost_covering_relay_reward gas.acceptance gas_price
  b ← cost_covering_relay_reward gas.confirmation gas_price
  c ← cost_covering_relay_reward gas.submission gas_price
  ok (a + b + c)

-- The callback of `children.map`.
pub quote_child :
    ℕ → ℕ → ℤ → RelayRewardPolicyV4 → ℕ → RelayChildGasV4 → Result RewardError ChildQuote
quote_child source_reward count gas_price policy index gas = do
  reimbursement ← submission_reimbursement gas gas_price
  minimum_delivery ← cost_covering_relay_reward gas.completion gas_price
  let allocation = source_allocation source_reward count index
  guard (not (ltb_ℤ policy.child_quote (pos (allocation + reimbursement + minimum_delivery))))
      quote_too_low
  ok (record {
    source_executor_fee_allocation = allocation;
    source_group_reward = source_reward;
    source_recipient_count = count;
    source_recipient_index = index;
    submission_reimbursement = reimbursement;
    delivery_success_fee = policy.child_quote -ℤ pos allocation -ℤ pos reimbursement;
    max_operator_fee = policy.child_maximum;
    total_reward = policy.child_quote;
  })

pub quote_children :
    ℕ
    → ℕ
    → ℤ
    → RelayRewardPolicyV4
    → ℕ
    → List RelayChildGasV4
    → Result RewardError (List ChildQuote)
quote_children source_reward count gas_price policy index [] = ok []
quote_children source_reward count gas_price policy index (gas ∷ rest) = do
  quote ← quote_child source_reward count gas_price policy index gas
  quotes ← quote_children source_reward count gas_price policy (suc index) rest
  ok (quote ∷ quotes)

pub quote_cross_chain_rewards_v4 :
    ℤ → ℤ → List RelayChildGasV4 → RelayRewardPolicyV4 → Result RewardError (ℕ × List ChildQuote)
quote_cross_chain_rewards_v4 source_gas_units gas_price children policy = do
  source_reward ← quote_source_reward_v4 source_gas_units gas_price (pos (length children)) policy
  quotes ← quote_children source_reward (length children) gas_price policy 0 children
  ok (source_reward, quotes)
