-- ===== src/Reward/Cost.antt =====
-- What `costCoveringRelayReward` promises: the least reward that covers the gas with its margin.
use parly_relayer.Prelude.{ℕ, ◌+◌, ◌*◌, ◌≤◌, ◌<◌, ◌≡◌, ◌↔◌, ok, arith}
use parly_relayer.Prelude.Int.{ℤ, pos, negsuc, pos_part}
use parly_relayer.Reward.{divisor, cost_covering_relay_reward, require_cost_covered_relay_reward}

-- A quoted cost is that of positive gas at a positive price, and it is the least number of
-- microdollars whose worth in attodollars is at least 110% of gas times price.
pub cost_covering_relay_reward_least :
    (gas price : ℤ) (cost : ℕ)
    → cost_covering_relay_reward gas price ≡ ok cost
    → (0 < pos_part gas)
      × (0 < pos_part price)
      × (pos_part gas * pos_part price * 110 ≤ cost * divisor)
      × (cost * divisor < pos_part gas * pos_part price * 110 + divisor)
unfolding cost_covering_relay_reward
cost_covering_relay_reward_least gas price cost e = ground arith

mul_pos : (a b : ℕ) → 0 < a → 0 < b → 0 < a * b
mul_pos a b h k = grind arith

covered_of :
    (reward gas price : ℤ)
    → (0 < pos_part gas)
      × (0 < pos_part price)
      × (pos_part gas * pos_part price * 110 ≤ pos_part reward * divisor)
    → require_cost_covered_relay_reward reward gas price ≡ ok tt
unfolding require_cost_covered_relay_reward cost_covering_relay_reward
covered_of (negsuc r) gas price h = ground (arith, mul_pos (pos_part gas) (pos_part price))
covered_of (pos r) gas price h = ground arith

-- A signed reward is accepted exactly if gas and price are positive and the reward is worth at
-- least 110% of gas times price.
pub require_cost_covered_relay_reward_iff :
    (reward gas price : ℤ)
    → (require_cost_covered_relay_reward reward gas price ≡ ok tt) ↔ (
        (0 < pos_part gas)
        × (0 < pos_part price)
        × (pos_part gas * pos_part price * 110 ≤ pos_part reward * divisor))
unfolding require_cost_covered_relay_reward cost_covering_relay_reward
require_cost_covered_relay_reward_iff reward gas price =
    (λ h. ground arith, covered_of reward gas price)
