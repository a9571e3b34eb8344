-- ===== src/App/Examples.antt =====
-- The theorems on app.py, at runs over a sample of what aws_cdk returns.
use services_modulith_infra.Base.{
  List, map, ◌==◌, ◌≡◌, ◌⊎◌, refl, true, inl, none, some, [], ◌∷◌, ◌++◌, all, reverse, All, In,
}
use services_modulith_infra.Cdk.{ok, Call}
use services_modulith_infra.Cdk.Log.{created, stacks, dependencies, open_ports, tasks, containers}
use services_modulith_infra.Cdk.Sample.{sample}
use services_modulith_infra.App.{app}
use services_modulith_infra.App.Inventory.{path_of, dev_only, created-IsUnique}
use services_modulith_infra.App.Deployment.{Reachable}
use services_modulith_infra.App.Order.{
  ecs-needs, Reachable-stacks, schedule-Reachable, both, ecs-before-config,
}
use services_modulith_infra.App.Names.{Segment, render_path, IsUnique}
use services_modulith_infra.App.Symbols.{Edge, render_edge}
use services_modulith_infra.App.Profiles.{profiles_agree}
use services_modulith_infra.App.Completion.{Continues, Reachable-Continues}
use services_modulith_infra.App.Kinds.{events, WellTyped}
use services_modulith_infra.App.Kinds.Typed.{events-WellTyped}
use services_modulith_infra.App.Secrets.{IsToldName, UsesRelational, UsesDocuments}
use services_modulith_infra.App.Secrets.Databases.{containers-databases}
use services_modulith_infra.App.Secrets.Registry.{CanPull, containers-CanPull}
use services_modulith_infra.App.Endpoints.{IsServed, containers-IsServed}
use services_modulith_infra.App.Backends.{IsToldOf, ServesCache, ServesModel, containers-IsToldOf}
use services_modulith_infra.App.Certificates.{parts, HasCertificate, containers-certificates}
use services_modulith_infra.App.Database.{requests, Reaches, requests-Reach}
use services_modulith_infra.App.Heap.{heaps, memories, Fits, ecomm_task, heaps-app}
use services_modulith_infra.App.Exposure.{
  open_ports-app, is_fargate_size, tasks-app, ecs_of, last_call, app-returns, public_balancers,
}

ecs-needs_example :
    let done = reverse (stacks (app sample none).calls) in
    In ("prod-VpcStack" ∷ []) done
    × In ("prod-RedisClusterStack" ∷ []) done
    × In ("prod-DocumentDBStack" ∷ []) done
    × In ("prod-PostgresDBStack" ∷ []) done
    × In ("prod-AiModelStack" ∷ []) done
    × In ("prod-QdrantStack" ∷ []) done
unfolding app
ecs-needs_example =
    ecs-needs sample none (reverse (stacks (app sample none).calls)) (Reachable-stacks sample none)
      (inl refl)

created-IsUnique_example : IsUnique (created (app sample (some "dev")).calls)
created-IsUnique_example = created-IsUnique sample (some "dev")

ecs-before-config_example :
    (done : _) × Reachable (app sample none).calls done
    × In ("prod-EcsFargateStack" ∷ []) done
    × In ("prod-ZipkinStack" ∷ []) done
    × ¬ In ("prod-PostgresConfigStack" ∷ []) done
ecs-before-config_example = ecs-before-config sample none

open_ports-app_example :
    let calls = (app sample (some "dev")).calls in
    (open_ports calls ≡ 6379 ∷ 5540 ∷ 5432 ∷ 1025 ∷ [])
    × (public_balancers calls
        ≡ ("dev-RagService" ∷ "dev-RagService" ∷ "dev-EcsFargateStack" ∷ [], "HTTP")
          ∷ ("MongoExpressService" ∷ "MongoExpress" ∷ "dev-EcsFargateStack" ∷ [], "HTTP")
          ∷ ("MailService" ∷ "dev-MailService" ∷ "dev-EcsFargateStack" ∷ [], "HTTP")
          ∷ [])
open_ports-app_example = open_ports-app sample (some "dev")

tasks-app_example : all is_fargate_size (tasks (app sample none).calls) ≡ true
tasks-app_example = tasks-app sample none

app-returns_example :
    ((app sample none).result ≡ ok (ecs_of sample "prod"))
    × (last_call (app sample none).calls ≡ some Call.synth)
app-returns_example = app-returns sample none

heaps-app_example :
    let calls = (app sample (some "dev")).calls in
    All (λ h. Fits calls h ⊎ (h.0 ≡ ecomm_task "dev")) (heaps calls)
    × In (ecomm_task "dev", 3200) (heaps calls)
    × In (ecomm_task "dev", 2048) (memories calls)
heaps-app_example = heaps-app sample (some "dev")

containers-certificates_example :
    let calls = (app sample (some "dev")).calls in All (HasCertificate calls) (parts calls)
containers-certificates_example = containers-certificates sample (some "dev")

requests-Reach_example :
    let calls = (app sample (some "dev")).calls in
    All (λ r. Reaches sample calls r.0 r.1) (requests calls)
requests-Reach_example = requests-Reach sample (some "dev")

-- The network alone is deployed.
network_first : Reachable (app sample none).calls (("prod-VpcStack" ∷ []) ∷ [])
network_first = schedule-Reachable sample none (λ _. path_of "-VpcStack" ∷ []) (both _ refl refl)

Reachable-Continues_example :
    let calls = (app sample none).calls in
    (later : _) × Reachable calls later
    × Continues calls (("prod-VpcStack" ∷ []) ∷ []) later
    × All (λ s. In s later) (stacks calls)
    × All (λ s. In s (stacks calls)) later
Reachable-Continues_example = Reachable-Continues sample none _ network_first

events-WellTyped_example : WellTyped [] (events sample (app sample (some "dev")).calls)
events-WellTyped_example = events-WellTyped sample (some "dev")

containers-databases_example :
    let calls = (app sample none).calls in
    All (IsToldName (UsesRelational sample calls) "POSTGRES_DB_SECRET_NAME") (parts calls)
    × All (IsToldName (UsesDocuments sample calls) "DOCUMENTDB_SECRET_NAME") (parts calls)
containers-databases_example = containers-databases sample none

containers-CanPull_example :
    let calls = (app sample (some "dev")).calls in All (CanPull sample calls) (parts calls)
containers-CanPull_example = containers-CanPull sample (some "dev")

containers-IsServed_example :
    let calls = (app sample none).calls in
    All (IsServed sample calls "QDRANT_HOST" "QDRANT_PORT") (containers calls)
    × All (IsServed sample calls "ZIPKIN_HOST" "ZIPKIN_PORT") (containers calls)
containers-IsServed_example = containers-IsServed sample none

containers-IsToldOf_example :
    let calls = (app sample (some "dev")).calls in
    All (IsToldOf (ServesCache sample calls) "REDIS_HOST" "REDIS_PORT") (containers calls)
    × All (IsToldOf (ServesModel sample calls) "MODEL_IP" "MODEL_DNS") (containers calls)
containers-IsToldOf_example = containers-IsToldOf sample (some "dev")

profiles_agree_example :
    let one = (app sample (some "staging")).calls in
    let other = (app sample none).calls in
    (template : List (List Segment)) × (ends : List Edge) × (created one
      ≡ map (render_path "staging") template)
    × (dependencies one ≡ map (render_edge "staging") ends)
    × All (λ h. In (render_path "prod" h) (created other)) template
    × All (λ e. In (render_edge "prod" e) (dependencies other)) ends
    × (((("prod" == "dev") ≡ true)
          × All
              (λ h.
                In (render_path "prod" h) (created other)
                × ¬ In (render_path "staging" h) (created one))
              dev_only
          × All (λ h. In h (map (render_path "prod") (template ++ dev_only))) (created other))
        ⊎ ((created other ≡ map (render_path "prod") template)
            × (dependencies other ≡ map (render_edge "prod") ends)))
profiles_agree_example = profiles_agree sample (some "staging") none refl
