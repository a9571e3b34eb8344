-- ===== src/Fargate/Scaling/Examples.antt =====
-- A scaler that takes the first step whose bounds the metric is between.
use services_modulith_infra.Base.{
  ◌+◌, ℕ, Bool, true, ◌&&◌, Option, none, some, List, [], ◌∷◌, ltb, if◌then◌else◌,
}
use services_modulith_infra.Base.Int.{ℤ}
use services_modulith_infra.Cdk.{ScalingInterval}
use services_modulith_infra.Fargate.Scaling.Steps.{Scaler, upper_of, adjusted, Policy, Capacity}

abbrev is_above : ℕ → Option ℕ → Bool
is_above metric none = true
is_above metric (some lower) = ltb lower metric

abbrev is_below : ℕ → Option ℕ → Bool
is_below metric none = true
is_below metric (some upper) = ltb metric upper

abbrev is_inside : List ScalingInterval → ℕ → ScalingInterval → Bool
is_inside steps metric s =
    is_above metric s.lower && is_below metric (upper_of steps s.lower s.upper)

abbrev first_inside : List ScalingInterval → (metric : ℕ) → List ScalingInterval → Option ℤ
first_inside steps metric [] = none
first_inside steps metric (s ∷ rest) =
    let later = first_inside steps metric rest in
    if is_inside steps metric s then some s.change else later

abbrev changed_to : Policy → Capacity → Option ℤ → Capacity
changed_to p c none = record { tasks = c.tasks; since = c.since + p.period }
changed_to p c (some change) =
    if ltb (c.since + p.period) p.cooldown
    then record { tasks = c.tasks; since = c.since + p.period }
    else record { tasks = adjusted p.min p.max change c.tasks; since = 0 }

-- It does nothing in the cooldown.
abbrev small : Scaler
small = record { next = λ p metric c. changed_to p c (first_inside p.steps metric p.steps) }

abbrev few : Capacity
few = record { tasks = 2; since = 0 }

abbrev asleep : Capacity
asleep = record { tasks = 0; since = 0 }
