-- ===== src/Fargate/Scaling/Settles.antt =====
-- Where the capacity settles under the step policies of utils.py.
use services_modulith_infra.Base.{ℕ, suc, ◌+◌, ◌≤◌, ◌≡◌, ◌⊎◌, All}
use services_modulith_infra.Cdk.{Cdk, ScalingInterval}
use services_modulith_infra.Fargate.Scaling.{lag_steps, lag_to_zero_steps}
use services_modulith_infra.Fargate.Scaling.Steps.{
  Scaler, IsDocumented, IsOutside, Policy, Capacity, after,
}

-- The tasks are within the limits; and they are as many as can be, or half the rounds more than at first,
-- or, when an evaluation was in a cooldown of at most two periods, half of the rounds before it.
abbrev Grown : (min max period first rounds tasks since : ℕ) → Type 0
Grown min max period first rounds tasks since =
    (min ≤ tasks)
    × (tasks ≤ max)
    × ((tasks ≡ max)
        ⊎ ((first + first + rounds ≤ tasks + tasks)
            ⊎ ((first + first + rounds ≤ suc (tasks + tasks)) × (period ≤ since))))

abbrev Shrunk : (min max period first rounds tasks since : ℕ) → Type 0
Shrunk min max period first rounds tasks since =
    (min ≤ tasks)
    × (tasks ≤ max)
    × ((tasks ≡ min)
        ⊎ ((tasks + tasks + rounds ≤ first + first)
            ⊎ ((tasks + tasks + rounds ≤ suc (first + first)) × (period ≤ since))))

module _ (scaler : Scaler) (documented : IsDocumented scaler) (p : Policy) (metric : ℕ)
    (two : p.cooldown ≤ p.period + p.period) (c : Capacity) (low : p.min ≤ c.tasks)
    (high : c.tasks ≤ p.max) where
  abbrev later : ℕ → Capacity
  later rounds = after scaler p metric rounds c

  -- The metric is beyond a bound of every other step.
  abbrev Apart : ScalingInterval → Type 0
  Apart s = All (λ other. (other ≡ s) ⊎ IsOutside p.steps metric other) p.steps

module _ (cdk : Cdk) where
  abbrev lag_policy : Policy
  lag_policy = record { min = 2; max = 10; period = 60; cooldown = 120; steps = lag_steps cdk }

  abbrev zero_policy : Policy
  zero_policy = record {
    min = 0;
    max = 10;
    period = 60;
    cooldown = 120;
    steps = lag_to_zero_steps cdk;
  }
