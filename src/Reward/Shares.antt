-- ===== src/Reward/Shares.antt =====
-- How the source reward is shared: nothing is lost, and no child is promised more than its quote.
use Prim.Native.Nat.{min}
use parly_relayer.Prelude.{
  ℕ, suc, ◌+◌, ◌*◌, ◌/◌, ◌%◌, ◌≤◌, ◌<◌, ◌≡◌, List, [], ◌∷◌, ok, arith, not, true, guard,
  guard-eq-ok, >>=-eq-ok, length,
}
use parly_relayer.Prelude.Int.{ℤ, pos, negsuc, ltb_ℤ, ◌-ℤ◌, pos_part, ◌≤ℤ◌}
use parly_relayer.Reward.{
  quote_too_low, RelayRewardPolicyV4, RelayChildGasV4, ChildQuote, source_allocation,
  submission_reimbursement, cost_covering_relay_reward, quote_child, quote_children,
  quote_source_reward_v4, quote_cross_chain_rewards_v4, validate_policy, divisor,
}
use parly_relayer.Reward.Cost.{cost_covering_relay_reward_least}

abbrev pub allocated : List ChildQuote → ℕ
allocated [] = 0
allocated (q ∷ qs) = q.source_executor_fee_allocation + allocated qs

quote_child-allocation :
    (r n : ℕ) (price : ℤ) (policy : RelayRewardPolicyV4) (i : ℕ) (gas : RelayChildGasV4)
    (q : ChildQuote)
    → quote_child r n price policy i gas ≡ ok q
    → q.source_executor_fee_allocation ≡ source_allocation r n i
unfolding quote_child
quote_child-allocation r n price policy i gas q e = ground arith

-- The shares from `i` on: the quotient for each, and one more for each index below the remainder.
allocated-quote_children :
    (r n : ℕ) (price : ℤ) (policy : RelayRewardPolicyV4) (i : ℕ) (cs : List RelayChildGasV4)
    (qs : List ChildQuote)
    → quote_children r n price policy i cs ≡ ok qs
    → allocated qs + min (r % n) i ≡ length cs * (r / n) + min (r % n) (i + length cs)
unfolding quote_children source_allocation
allocated-quote_children r n price policy i [] qs e = ground arith
allocated-quote_children r n price policy i (c ∷ cs) qs e =
    let (q, here, e') = >>=-eq-ok (quote_child r n price policy i c) _ e in
    let (rest, later, last) = >>=-eq-ok (quote_children r n price policy (suc i) cs) _ e' in
    ground (
      arith,
      quote_child-allocation r n price policy i c q here,
      allocated-quote_children r n price policy (suc i) cs rest later,
    )

quote_source_reward_v4-count :
    (gas price n : ℤ) (policy : RelayRewardPolicyV4) (r : ℕ)
    → quote_source_reward_v4 gas price n policy ≡ ok r
    → (pos 1 ≤ℤ n) × (n ≤ℤ pos 10)
unfolding quote_source_reward_v4
quote_source_reward_v4-count gas price n policy r e =
    let (_, _, e') = >>=-eq-ok (validate_policy policy) _ e in ground arith

quote_cross_chain-eq-ok :
    (gas price : ℤ) (cs : List RelayChildGasV4) (policy : RelayRewardPolicyV4) (r : ℕ)
    (qs : List ChildQuote)
    → quote_cross_chain_rewards_v4 gas price cs policy ≡ ok (r, qs)
    → (quote_source_reward_v4 gas price (pos (length cs)) policy ≡ ok r)
      × (quote_children r (length cs) price policy 0 cs ≡ ok qs)
unfolding quote_cross_chain_rewards_v4
quote_cross_chain-eq-ok gas price cs policy r qs e =
    let (r', source, e') =
      >>=-eq-ok (quote_source_reward_v4 gas price (pos (length cs)) policy) _ e in
    let (qs', children, e'') = >>=-eq-ok (quote_children r' (length cs) price policy 0 cs) _ e' in
    (cc, cc)

-- The shares of the source reward that the children of a payout carry add up to the source reward
-- that was quoted, whatever the number of children.
pub allocated-quote_cross_chain_rewards_v4 :
    (gas price : ℤ) (cs : List RelayChildGasV4) (policy : RelayRewardPolicyV4) (r : ℕ)
    (qs : List ChildQuote)
    → quote_cross_chain_rewards_v4 gas price cs policy ≡ ok (r, qs)
    → allocated qs ≡ r
allocated-quote_cross_chain_rewards_v4 gas price cs policy r qs e =
    let (source, children) = quote_cross_chain-eq-ok gas price cs policy r qs e in
    let counted = quote_source_reward_v4-count gas price (pos (length cs)) policy r source in
    grind (arith, allocated-quote_children r (length cs) price policy 0 cs qs children, counted)

-- The least number of microdollars whose worth is at least 110% of gas times price, both positive.
abbrev pub IsLeastCost : ℤ → ℤ → ℕ → Type 0
IsLeastCost gas price cost =
    (0 < pos_part gas)
    × (0 < pos_part price)
    × (pos_part gas * pos_part price * 110 ≤ cost * divisor)
    × (cost * divisor < pos_part gas * pos_part price * 110 + divisor)

-- What a child's quote must satisfy, given the gas of its four transactions.
pub record IsCovered (price : ℤ) (gas : RelayChildGasV4) (q : ChildQuote) : Type 0 where
  pub acceptance : ℕ
  pub acceptance_cost : IsLeastCost gas.acceptance price acceptance
  pub confirmation : ℕ
  pub confirmation_cost : IsLeastCost gas.confirmation price confirmation
  pub submission : ℕ
  pub submission_cost : IsLeastCost gas.submission price submission
  pub reimbursed : q.submission_reimbursement ≡ acceptance + confirmation + submission
  pub delivery : ℕ
  pub delivery_cost : IsLeastCost gas.completion price delivery
  pub delivered : pos delivery ≤ℤ q.delivery_success_fee
  pub split :
      pos_part q.total_reward
      ≡ q.source_executor_fee_allocation
        + q.submission_reimbursement
        + pos_part q.delivery_success_fee
  pub ceiling : q.total_reward ≤ℤ q.max_operator_fee

abbrev pub AllCovered : ℤ → List RelayChildGasV4 → List ChildQuote → Type 0
AllCovered price [] [] = Unit
AllCovered price (gas ∷ cs) (q ∷ qs) = IsCovered price gas q × AllCovered price cs qs
AllCovered price _ _ = ⊥

-- What is left of a quote that covers two parts and a minimum.
rest_bounds :
    (t : ℤ) (a s m : ℕ)
    → not (ltb_ℤ t (pos (a + s + m))) ≡ true
    → (pos m ≤ℤ t -ℤ pos a -ℤ pos s) × (pos_part t ≡ a + s + pos_part (t -ℤ pos a -ℤ pos s))
unfolding ◌-ℤ◌
rest_bounds (pos t) a s m h = ground arith
rest_bounds (negsuc t) a s m h = ground arith

quote_child-IsCovered :
    (r n : ℕ) (price : ℤ) (policy : RelayRewardPolicyV4) (i : ℕ) (gas : RelayChildGasV4)
    (q : ChildQuote)
    → policy.child_quote ≤ℤ policy.child_maximum
    → quote_child r n price policy i gas ≡ ok q
    → IsCovered price gas q
unfolding quote_child submission_reimbursement
quote_child-IsCovered r n price policy i gas q h e =
    let (s, paid, e') = >>=-eq-ok (submission_reimbursement gas price) _ e in
    let (a, accepts, paid') = >>=-eq-ok (cost_covering_relay_reward gas.acceptance price) _ paid in
    let (b, confirms, paid'') =
      >>=-eq-ok (cost_covering_relay_reward gas.confirmation price) _ paid' in
    let (c, submits, sum) = >>=-eq-ok (cost_covering_relay_reward gas.submission price) _ paid'' in
    let (m, cost, e'') = >>=-eq-ok (cost_covering_relay_reward gas.completion price) _ e' in
    let (_, passed, same) = >>=-eq-ok (guard _ quote_too_low) _ e'' in
    let bounds =
      rest_bounds policy.child_quote (source_allocation r n i) s m (guard-eq-ok _ _ passed) in
    record {
      acceptance = a;
      acceptance_cost = cost_covering_relay_reward_least gas.acceptance price a accepts;
      confirmation = b;
      confirmation_cost = cost_covering_relay_reward_least gas.confirmation price b confirms;
      submission = c;
      submission_cost = cost_covering_relay_reward_least gas.submission price c submits;
      reimbursed = ground arith;
      delivery = m;
      delivery_cost = cost_covering_relay_reward_least gas.completion price m cost;
      delivered = ground arith;
      split = ground arith;
      ceiling = ground arith;
    }

quote_children-AllCovered :
    (r n : ℕ) (price : ℤ) (policy : RelayRewardPolicyV4) (i : ℕ) (cs : List RelayChildGasV4)
    (qs : List ChildQuote)
    → policy.child_quote ≤ℤ policy.child_maximum
    → quote_children r n price policy i cs ≡ ok qs
    → AllCovered price cs qs
unfolding quote_children
quote_children-AllCovered r n price policy i [] [] h e = tt
quote_children-AllCovered r n price policy i [] (q ∷ qs) h e = cc
quote_children-AllCovered r n price policy i (c ∷ cs) [] h e =
    let (q, here, e') = >>=-eq-ok (quote_child r n price policy i c) _ e in
    let (rest, later, last) = >>=-eq-ok (quote_children r n price policy (suc i) cs) _ e' in cc
quote_children-AllCovered r n price policy i (c ∷ cs) (q ∷ qs) h e =
    let (q', here, e') = >>=-eq-ok (quote_child r n price policy i c) _ e in
    let (rest, later, last) = >>=-eq-ok (quote_children r n price policy (suc i) cs) _ e' in
    (
      quote_child-IsCovered r n price policy i c q h (ground arith),
      quote_children-AllCovered r n price policy (suc i) cs qs h (ground arith),
    )

validate_policy-ceiling :
    (policy : RelayRewardPolicyV4)
    → validate_policy policy ≡ ok tt
    → policy.child_quote ≤ℤ policy.child_maximum
unfolding validate_policy
validate_policy-ceiling policy e = ground arith

-- If a payout is quoted, then each child's quote covers the costs of its own transactions: the
-- reimbursement is the sum of the least costs of acceptance, confirmation and submission, the
-- delivery fee is at least that of completion, the three parts of the total add up to it, and it is
-- within the ceiling. A least cost is the smallest number of microdollars whose worth is at least 110%
-- of gas times price, both of which are positive.
pub quote_cross_chain_rewards_v4-AllCovered :
    (gas price : ℤ) (cs : List RelayChildGasV4) (policy : RelayRewardPolicyV4) (r : ℕ)
    (qs : List ChildQuote)
    → quote_cross_chain_rewards_v4 gas price cs policy ≡ ok (r, qs)
    → AllCovered price cs qs
unfolding quote_source_reward_v4
quote_cross_chain_rewards_v4-AllCovered gas price cs policy r qs e =
    let (source, children) = quote_cross_chain-eq-ok gas price cs policy r qs e in
    let (_, valid, _) = >>=-eq-ok (validate_policy policy) _ source in
    quote_children-AllCovered r (length cs) price policy 0 cs qs
      (validate_policy-ceiling policy valid) children
