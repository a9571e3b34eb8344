-- ===== src/App/Deployment.antt =====
-- A deployment of the stacks that a log declares: a stack is deployed when each of the stacks that
-- it depends on is. The order is otherwise free.
use services_modulith_infra.Base.{List, [], ◌∷◌, In, inl, inr, subst}
use services_modulith_infra.Cdk.{Handle, Call}
use services_modulith_infra.Cdk.Log.{stacks, dependencies}

pub data Deploys (cs : List Call) : List Handle → List Handle → Type 0 where
  deploy :
      (done : List Handle) (s : Handle)
      → In s (stacks cs)
      → ((other : Handle) → In (s, other) (dependencies cs) → In other done)
      → Deploys cs done (s ∷ done)

-- The stacks deployed so far, the last one first.
pub data Reachable (cs : List Call) : List Handle → Type 0 where
  start : Reachable cs []
  next : {done after : List Handle} → Reachable cs done → Deploys cs done after → Reachable cs after

Deploys-keeps :
    (cs : List Call) (other : Handle) {done after : List Handle}
    → Deploys cs done after
    → In other done
    → In other after
Deploys-keeps cs other (deploy done s m ready) h = inr h

-- In every deployment, what a deployed stack depends on is deployed.
pub Reachable-closed :
    (cs : List Call) (s other : Handle) {done : List Handle}
    → Reachable cs done
    → In s done
    → In (s, other) (dependencies cs)
    → In other done
Reachable-closed cs s other start h e = absurd h
Reachable-closed cs s other (next r (deploy done t m ready)) (inl same) e =
    inr (ready other (subst (λ x. In (x, other) (dependencies cs)) same e))
Reachable-closed cs s other (next r (deploy done t m ready)) (inr h) e =
    inr (Reachable-closed cs s other r h e)
