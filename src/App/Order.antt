-- ===== src/App/Order.antt =====
-- The order of the stacks: what app.py declares, and which deployments it admits.
use services_modulith_infra.Base.{
  String, ◌≡◌, refl, Bool, true, false, Option, List, [], ◌∷◌, ◌++◌, map, reverse, All, In, Before,
  ◌==◌, ◌^^◌, if◌then◌else◌, arith,
}
use services_modulith_infra.Cdk.{Handle, Cdk, Call}
use services_modulith_infra.App.{app, getenv_or}
use services_modulith_infra.Cdk.Log.{created, stacks, dependencies}
use services_modulith_infra.App.Names.{Segment, render_path, differ_all-not_In}
use services_modulith_infra.App.Symbols.{
  render_edge, listed-In, ready-In, all_before, all_before-Before, has_edge, has_edge-In,
  is_schedule,
}
use services_modulith_infra.App.Inventory.{path_of, inventory, created-app}
use services_modulith_infra.App.Deployment.{Reachable, start, next, deploy, Reachable-closed}

abbrev edge : String → String → List Segment × List Segment
edge a b = (path_of a, path_of b)

abbrev pub edges : Bool → List (List Segment × List Segment)
edges dev =
    edge "-AiModelStack" "-VpcStack"
    ∷ edge "-QdrantStack" "-VpcStack"
    ∷ edge "-ZipkinStack" "-VpcStack"
    ∷ edge "-RedisClusterStack" "-VpcStack"
    ∷ ((if dev then edge "-RedisInsightStack" "-RedisClusterStack" ∷ [] else [])
        ++ (edge "-DocDB -DocumentDBStack" "-DocumentDBSubnetGroup -DocumentDBStack"
            ∷ edge "-DocumentDBStack" "-VpcStack"
            ∷ edge "-PostgresDBStack" "-VpcStack"
            ∷ edge "-PostgresConfigStack" "-PostgresDBStack"
            ∷ edge "-RagService -EcsFargateStack" "-McpService -EcsFargateStack"
            ∷ edge "-EcommService -EcsFargateStack" "-McpService -EcsFargateStack"
            ∷ edge "-EcommService -EcsFargateStack" "-RagService -EcsFargateStack"
            ∷ edge "-EcsFargateStack" "-VpcStack"
            ∷ edge "-EcsFargateStack" "-RedisClusterStack"
            ∷ edge "-EcsFargateStack" "-DocumentDBStack"
            ∷ edge "-EcsFargateStack" "-PostgresDBStack"
            ∷ edge "-EcsFargateStack" "-AiModelStack"
            ∷ edge "-EcsFargateStack" "-QdrantStack"
            ∷ []))

pub dependencies-app :
    (cdk : Cdk) (variable : Option String) (dev : Bool)
    → (getenv_or variable "prod" == "dev") ≡ dev
    → dependencies (app cdk variable).calls
      ≡ map (render_edge (getenv_or variable "prod")) (edges dev)
unfolding app
dependencies-app cdk variable true e = rw e (rw e refl)
dependencies-app cdk variable false e = rw e (rw e refl)

abbrev order : Bool → List (List Segment)
order dev = map path_of (
    "-VpcStack"
    ∷ "-AiModelStack"
    ∷ "-QdrantStack"
    ∷ "-ZipkinStack"
    ∷ "-RedisClusterStack"
    ∷ ((if dev then "-RedisInsightStack" ∷ [] else [])
        ++ ("-DocumentDBStack" ∷ "-PostgresDBStack" ∷ "-PostgresConfigStack" ∷ "-EcsFargateStack"
            ∷ [])))

stacks-app :
    (cdk : Cdk) (variable : Option String) (dev : Bool)
    → (getenv_or variable "prod" == "dev") ≡ dev
    → stacks (app cdk variable).calls ≡ map (render_path (getenv_or variable "prod")) (order dev)
unfolding app
stacks-app cdk variable true e = rw e (rw e refl)
stacks-app cdk variable false e = rw e (rw e refl)

abbrev pub profile : Option String → String
profile variable = getenv_or variable "prod"

all_before-edges : (dev : Bool) → all_before (inventory dev) (edges dev) ≡ true
all_before-edges true = refl
all_before-edges false = refl

-- Under every value of ENVIRONMENT, the second end of every declared dependency is created before
-- the first, so that the declared dependencies have no cycle.
pub dependencies-Before :
    (cdk : Cdk) (variable : Option String)
    → let calls = (app cdk variable).calls in
      All (λ e. Before e.1 e.0 (created calls)) (dependencies calls)
dependencies-Before cdk variable =
    let dev = profile variable == "dev" in
    rw (created-app cdk variable dev refl, dependencies-app cdk variable dev refl)
      (all_before-Before (profile variable) (inventory dev) (edges dev) (all_before-edges dev))

module _ (cdk : Cdk) (variable : Option String) where
  needs :
      (a b : String)
      → ((dev : Bool) → has_edge (path_of a) (path_of b) (edges dev) ≡ true)
      → {done : List Handle} → Reachable (app cdk variable).calls done
      → In (render_path (profile variable) (path_of a)) done
      → In (render_path (profile variable) (path_of b)) done
  needs a b h r m =
      let dev = profile variable == "dev" in
      Reachable-closed (app cdk variable).calls _ _ r m (
        rw (dependencies-app cdk variable dev refl)
          (has_edge-In (profile variable) (path_of a) (path_of b) (edges dev) (h dev)))

pub both : (P : Bool → Type 0) → P true → P false → (b : Bool) → P b
both P t f true = t
both P t f false = f

-- In every deployment, when the ECS stack is deployed, so are the stacks of the network, the cache,
-- the documents, the relational database, the model and the vector store.
pub ecs-needs :
    (cdk : Cdk) (variable : Option String) (done : List Handle)
    → Reachable (app cdk variable).calls done
    → In ((profile variable ^^ "-EcsFargateStack") ∷ []) done
    → In ((profile variable ^^ "-VpcStack") ∷ []) done
      × In ((profile variable ^^ "-RedisClusterStack") ∷ []) done
      × In ((profile variable ^^ "-DocumentDBStack") ∷ []) done
      × In ((profile variable ^^ "-PostgresDBStack") ∷ []) done
      × In ((profile variable ^^ "-AiModelStack") ∷ []) done
      × In ((profile variable ^^ "-QdrantStack") ∷ []) done
ecs-needs cdk variable done r m = (
  needs cdk variable "-EcsFargateStack" "-VpcStack" (both _ refl refl) r m,
  needs cdk variable "-EcsFargateStack" "-RedisClusterStack" (both _ refl refl) r m,
  needs cdk variable "-EcsFargateStack" "-DocumentDBStack" (both _ refl refl) r m,
  needs cdk variable "-EcsFargateStack" "-PostgresDBStack" (both _ refl refl) r m,
  needs cdk variable "-EcsFargateStack" "-AiModelStack" (both _ refl refl) r m,
  needs cdk variable "-EcsFargateStack" "-QdrantStack" (both _ refl refl) r m,
)

is_schedule-Reachable :
    (cs : List Call) (p : String) (all_stacks : List (List Segment))
    (es : List (List Segment × List Segment)) (done : List (List Segment))
    → stacks cs ≡ map (render_path p) all_stacks
    → dependencies cs ≡ map (render_edge p) es
    → is_schedule all_stacks es done ≡ true
    → Reachable cs (map (render_path p) done)
is_schedule-Reachable cs p all_stacks es [] es_stacks es_edges h = start
is_schedule-Reachable cs p all_stacks es (s ∷ done) es_stacks es_edges h =
    next (is_schedule-Reachable cs p all_stacks es done es_stacks es_edges (ground arith)) (
      deploy _ _ (rw es_stacks (listed-In p s all_stacks (ground arith)))
        (rw es_edges (ready-In p s done es (ground arith))))

pub schedule-Reachable :
    (cdk : Cdk) (variable : Option String) (done : Bool → List (List Segment))
    → ((dev : Bool) → is_schedule (order dev) (edges dev) (done dev) ≡ true)
    → Reachable
        (app cdk variable).calls
        (map (render_path (profile variable)) (done (profile variable == "dev")))
schedule-Reachable cdk variable done h =
    let dev = profile variable == "dev" in
    is_schedule-Reachable (app cdk variable).calls (profile variable) (order dev) (edges dev)
      (done dev) (stacks-app cdk variable dev refl) (dependencies-app cdk variable dev refl) (h dev)

reverse-order :
    (p : String) (dev : Bool)
    → reverse (map (render_path p) (order dev)) ≡ map (render_path p) (reverse (order dev))
reverse-order p true = refl
reverse-order p false = refl

-- The stacks can be deployed in the order in which app.py creates them, all of them.
pub Reachable-stacks :
    (cdk : Cdk) (variable : Option String)
    → Reachable (app cdk variable).calls (reverse (stacks (app cdk variable).calls))
Reachable-stacks cdk variable =
    let dev = profile variable == "dev" in
    rw (stacks-app cdk variable dev refl, reverse-order (profile variable) dev)
      (schedule-Reachable cdk variable (λ d. reverse (order d)) (both _ refl refl))

-- The ECS stack deployed after all that it is told of, and before the stack that makes the
-- databases.
abbrev early_schedule : List (List Segment)
early_schedule = map path_of (
    "-EcsFargateStack" ∷ "-PostgresDBStack" ∷ "-DocumentDBStack" ∷ "-RedisClusterStack"
    ∷ "-ZipkinStack" ∷ "-QdrantStack" ∷ "-AiModelStack" ∷ "-VpcStack" ∷ [])

config_is_late :
    (p : String) → ¬ In ((p ^^ "-PostgresConfigStack") ∷ []) (map (render_path p) early_schedule)
config_is_late p = differ_all-not_In p (path_of "-PostgresConfigStack") early_schedule refl

-- The stack that makes the databases need not be deployed before the ECS stack: under every value
-- of ENVIRONMENT a deployment has the ECS stack, all the stacks whose values it is handed, and not
-- the stack that makes the databases.
pub ecs-before-config :
    (cdk : Cdk) (variable : Option String)
    → (done : List Handle) × Reachable (app cdk variable).calls done
      × In ((profile variable ^^ "-EcsFargateStack") ∷ []) done
      × In ((profile variable ^^ "-ZipkinStack") ∷ []) done
      × ¬ In ((profile variable ^^ "-PostgresConfigStack") ∷ []) done
ecs-before-config cdk variable = (
  map (render_path (profile variable)) early_schedule,
  schedule-Reachable cdk variable (λ _. early_schedule) (both _ refl refl),
  listed-In (profile variable) (path_of "-EcsFargateStack") early_schedule refl,
  listed-In (profile variable) (path_of "-ZipkinStack") early_schedule refl,
  config_is_late (profile variable),
)
