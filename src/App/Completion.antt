-- ===== src/App/Completion.antt =====
-- What can be done from any point of a deployment: two deployments have a common continuation.
use services_modulith_infra.Base.{
  String, List, ◌∷◌, All, All-of_In, In, inl, inr, subst, In-dec, String-discrete, In-reverse, sym,
  Option,
}
use mathlib.Core.List.{List-discrete}
use services_modulith_infra.Cdk.{Handle, Cdk, Call}
use services_modulith_infra.Cdk.Log.{stacks}
use services_modulith_infra.App.{app}
use services_modulith_infra.App.Deployment.{Reachable, start, next, Deploys, deploy}
use services_modulith_infra.App.Order.{Reachable-stacks}

-- The deployment goes on, with stacks that are not yet deployed.
pub data Continues (cs : List Call) (done : List Handle) : List Handle → Type 0 where
  stop : Continues cs done done
  more :
      {later : List Handle} (s : Handle)
      → Continues cs done later
      → (¬ In s later)
      → Deploys cs later (s ∷ later)
      → Continues cs done (s ∷ later)

-- A deployment can go on until it has the stacks of another one.
catches_up :
    (cs : List Call) (done : List Handle) {other : List Handle}
    → Reachable cs other
    → (later : List Handle) × Continues cs done later × ((x : Handle) → In x other → In x later)
catches_up cs done start = (done, stop, λ x h. absurd h)
catches_up cs done (next r (deploy other s m ready)) =
    let (later, c, has) = catches_up cs done r in
    elim (In-dec (List-discrete String-discrete) s later) [
      | yes h ↦
          (later, c, λ x k. elim k [ inl e ↦ subst (λ y. In y later) (sym e) h | inr k ↦ has x k ])
      | no n ↦ (
        s ∷ later,
        more s c n (deploy later s m (λ o e. has o (ready o e))),
        λ x k. elim k [ inl e ↦ inl e | inr k ↦ inr (has x k) ],
      )
    ]

Continues-Reachable :
    (cs : List Call) {done later : List Handle}
    → Continues cs done later
    → Reachable cs done
    → Reachable cs later
Continues-Reachable cs stop r = r
Continues-Reachable cs (more s c new step) r = next (Continues-Reachable cs c r) step

Reachable-listed :
    (cs : List Call) (x : Handle) {done : List Handle}
    → Reachable cs done
    → In x done
    → In x (stacks cs)
Reachable-listed cs x start h = absurd h
Reachable-listed cs x (next r (deploy done s m ready)) (inl e) =
    subst (λ y. In y (stacks cs)) (sym e) m
Reachable-listed cs x (next r (deploy done s m ready)) (inr h) = Reachable-listed cs x r h

-- Whatever stacks are deployed, in any order that the declared dependencies admit, the deployment
-- can go on until every stack of the application is deployed, with stacks that are not yet deployed.
-- So no order leads to a dead end.
pub Reachable-Continues :
    (cdk : Cdk) (variable : Option String) (done : List Handle)
    → let calls = (app cdk variable).calls in
      Reachable calls done
      → (later : List Handle) × Reachable calls later
        × Continues calls done later
        × All (λ s. In s later) (stacks calls)
        × All (λ s. In s (stacks calls)) later
Reachable-Continues cdk variable done r =
    let calls = (app cdk variable).calls in
    let (later, c, has) = catches_up calls done (Reachable-stacks cdk variable) in
    let reached = Continues-Reachable calls c r in
    (
      later,
      reached,
      c,
      All-of_In (λ s. In s later) (stacks calls) (λ s m. has s (In-reverse s (stacks calls) m)),
      All-of_In (λ s. In s (stacks calls)) later (λ s m. Reachable-listed calls s reached m),
    )
