-- ===== src/Fargate/Scaling/Steps.antt =====
-- What Application Auto Scaling does with the steps of a policy, as its documentation has it. The
-- service itself is a parameter: it gives the next number of tasks for a value of the metric.
use services_modulith_infra.Base.{
  ℕ, zero, suc, ◌+◌, ◌-◌, ◌<◌, ◌≤◌, ◌≡◌, ◌⊎◌, Option, none, some, List, [], ◌∷◌, All, In, ltb,
  if◌then◌else◌,
}
use services_modulith_infra.Base.Int.{ℤ, pos, negsuc}
use services_modulith_infra.Cdk.{Handle, ScalingInterval, StepScaling, Call}
use services_modulith_infra.Cdk.Log.{collect}

-- The nearer of two upper bounds, where the second one counts when it is above the lower bound.
abbrev nearer : (lower : ℕ) → Option ℕ → Option ℕ → Option ℕ
nearer lower bound none = bound
nearer lower none (some other) = if ltb lower other then some other else none
nearer lower (some bound) (some other) =
    if ltb lower other then (if ltb other bound then some other else some bound) else some bound

-- The least lower bound of a step above the given one.
abbrev next_lower : (lower : ℕ) → List ScalingInterval → Option ℕ
next_lower lower [] = none
next_lower lower (s ∷ steps) = nearer lower (next_lower lower steps) s.lower

-- A bound that is left out is derived from the neighbouring steps.
abbrev pub upper_of : List ScalingInterval → Option ℕ → Option ℕ → Option ℕ
upper_of steps lower (some upper) = some upper
upper_of steps none none = none
upper_of steps (some lower) none = next_lower lower steps

abbrev pub IsAbove : ℕ → Option ℕ → Type 0
IsAbove metric none = Unit
IsAbove metric (some lower) = lower < metric

abbrev pub IsBelow : ℕ → Option ℕ → Type 0
IsBelow metric none = Unit
IsBelow metric (some upper) = metric < upper

-- The metric is between the bounds of the step.
abbrev pub IsInside : List ScalingInterval → ScalingInterval → ℕ → Type 0
IsInside steps s metric = IsAbove metric s.lower × IsBelow metric (upper_of steps s.lower s.upper)

abbrev pub IsUnder : ℕ → Option ℕ → Type 0
IsUnder metric none = ⊥
IsUnder metric (some lower) = metric < lower

abbrev pub IsOver : ℕ → Option ℕ → Type 0
IsOver metric none = ⊥
IsOver metric (some upper) = upper < metric

-- The metric is beyond a bound of the step.
abbrev pub IsOutside : List ScalingInterval → ℕ → ScalingInterval → Type 0
IsOutside steps metric s = IsUnder metric s.lower ⊎ IsOver metric (upper_of steps s.lower s.upper)

abbrev pub clamp : (min max n : ℕ) → ℕ
clamp min max n = if ltb n min then min else if ltb max n then max else n

-- The adjustment CHANGE_IN_CAPACITY, within the limits.
abbrev pub adjusted : (min max : ℕ) → ℤ → (capacity : ℕ) → ℕ
adjusted min max (pos n) capacity = clamp min max (capacity + n)
adjusted min max (negsuc n) capacity = clamp min max (capacity - suc n)

-- A step policy with its limits: times are in seconds.
pub record Policy : Type 0 where
  pub min : ℕ
  pub max : ℕ
  pub period : ℕ
  pub cooldown : ℕ
  pub steps : List ScalingInterval

-- The number of tasks, and the time since it was adjusted.
pub record Capacity : Type 0 where
  pub tasks : ℕ
  pub since : ℕ

-- Strictly from `old` towards `target`, and not beyond it.
abbrev IsTowards : (old target new : ℕ) → Type 0
IsTowards old target new = ((old < new) × (new ≤ target)) ⊎ ((target ≤ new) × (new < old))

-- An evaluation either reaches the target, or it is in the cooldown; then it leaves the tasks, and the
-- time goes on, or goes a part of the way.
abbrev pub Moves : (cooldown waited old target new since : ℕ) → Type 0
Moves cooldown waited old target new since =
    (new ≡ target)
    ⊎ ((waited < cooldown) × (((new ≡ old) × (since ≡ waited)) ⊎ IsTowards old target new))

-- An evaluation of the metric, which comes each period.
pub record Scaler : Type 0 where
  pub next : Policy → (metric : ℕ) → Capacity → Capacity

-- A step adjusts the capacity while the metric is between its bounds and beyond a bound of each other
-- step, unless the last adjustment is in its cooldown. While the metric is beyond a bound of each step the
-- capacity stays. What happens at a bound is left open.
pub record IsDocumented (scaler : Scaler) : Type 0 where
  pub adjusts :
      (p : Policy) (metric : ℕ) (c : Capacity) (s : ScalingInterval)
      → In s p.steps
      → IsInside p.steps s metric
      → All (λ other. (other ≡ s) ⊎ IsOutside p.steps metric other) p.steps
      → Moves p.cooldown
          (c.since + p.period)
          c.tasks
          (adjusted p.min p.max s.change c.tasks)
          (scaler.next p metric c).tasks
          (scaler.next p metric c).since
  pub rests :
      (p : Policy) (metric : ℕ) (c : Capacity)
      → All (IsOutside p.steps metric) p.steps
      → (scaler.next p metric c).tasks ≡ c.tasks

-- The capacity after some evaluations of the policy while the metric stays.
abbrev pub after : Scaler → Policy → (metric rounds : ℕ) → Capacity → Capacity
after scaler p metric zero c = c
after scaler p metric (suc rounds) c = scaler.next p metric (after scaler p metric rounds c)

abbrev limits_of : Call → Option (Handle × ℕ × ℕ)
limits_of (Call.auto_scale_task_count service min max) = some (service, min, max)
limits_of _ = none

abbrev limits : List Call → List (Handle × ℕ × ℕ)
limits = collect limits_of

abbrev policy_of : Call → Option (Handle × StepScaling)
policy_of (Call.scale_on_metric target id s) = some (target, s)
policy_of _ = none

abbrev policies : List Call → List (Handle × StepScaling)
policies = collect policy_of

abbrev runs_of :
    Scaler → List (Handle × ℕ × ℕ) → List (Handle × StepScaling) → ℕ → ℕ → Capacity → Option ℕ
runs_of scaler ((service, min, max) ∷ []) ((target, s) ∷ []) metric rounds c =
    some
      (after scaler
        (record {
          min = min;
          max = max;
          period = s.metric.period;
          cooldown = s.cooldown;
          steps = s.scaling_steps;
        })
        metric rounds c).tasks
runs_of scaler _ _ metric rounds c = none

-- The number of tasks after some evaluations of the one step policy that the calls declare, within the
-- limits that they declare.
abbrev pub tasks_after : Scaler → List Call → (metric rounds : ℕ) → Capacity → Option ℕ
tasks_after scaler calls metric rounds c =
    runs_of scaler (limits calls) (policies calls) metric rounds c
