-- ===== src/App/Exposure.antt =====
-- What the application lets in, the sizes of its tasks, and how the run of app.py ends.
use Prim.Native.Nat.{◌%◌}
use services_modulith_infra.Base.{
  ℕ, String, Bool, true, ◌&&◌, ◌||◌, ◌≡◌, refl, inl, inr, Bool-cases, Option, none, some, List, [],
  ◌∷◌, ◌++◌, all, eqb, leb, ◌==◌, ◌^^◌, if◌then◌else◌,
}
use services_modulith_infra.Cdk.{Handle, Cdk, TaskDefinition, Resource, Call, ok}
use services_modulith_infra.Fargate.{EcsFargateStack}
use services_modulith_infra.App.{app, getenv_or}
use services_modulith_infra.Cdk.Log.{collect, open_ports, tasks}

abbrev public_balancer_of : Call → Option (Handle × String)
public_balancer_of (Call.create scope id (Resource.load_balanced_service s)) =
    if s.public_load_balancer then some (id ∷ scope, s.protocol) else none
public_balancer_of _ = none

-- The services whose load balancers are public, with the balancers' protocols.
abbrev pub public_balancers : List Call → List (Handle × String)
public_balancers = collect public_balancer_of

-- The ports that rules of the application open to every IPv4 address are those of the cache, the
-- relational database and the mail interface, and under the profile dev that of the cache's inspection
-- tool. The services with a public load balancer, each for HTTP, are those of the retrieval and of the
-- mail, and under dev that of Mongo Express.
pub open_ports-app :
    (cdk : Cdk) (variable : Option String)
    → let calls = (app cdk variable).calls in
      let p = getenv_or variable "prod" in
      let ecs : Handle = (p ^^ "-EcsFargateStack") ∷ [] in
      (open_ports calls
        ≡ (if p == "dev" then 6379 ∷ 5540 ∷ 5432 ∷ 1025 ∷ [] else 6379 ∷ 5432 ∷ 1025 ∷ []))
      × (public_balancers calls
          ≡ ((p ^^ "-RagService") ∷ (p ^^ "-RagService") ∷ ecs, "HTTP")
            ∷ ((if p == "dev"
                  then ("MongoExpressService" ∷ "MongoExpress" ∷ ecs, "HTTP") ∷ []
                  else [])
                ++ (("MailService" ∷ (p ^^ "-MailService") ∷ ecs, "HTTP") ∷ [])))
unfolding app
open_ports-app cdk variable = elim (Bool-cases (getenv_or variable "prod" == "dev")) [
  | inl e ↦ (rw e (rw e refl), rw e refl)
  | inr e ↦ (rw e (rw e refl), rw e refl)
]

-- The sizes that Fargate documents: a number of CPU units and the memory, in MiB, that goes with it.
abbrev memory_between : ℕ → ℕ → ℕ → Bool
memory_between low high m = leb low m && leb m high && eqb (m % 1024) 0

abbrev pub is_fargate_size : TaskDefinition → Bool
is_fargate_size t =
    (eqb t.cpu 256 && (eqb t.memory_limit_mib 512 || memory_between 1024 2048 t.memory_limit_mib))
    || (eqb t.cpu 512 && memory_between 1024 4096 t.memory_limit_mib)
    || (eqb t.cpu 1024 && memory_between 2048 8192 t.memory_limit_mib)
    || (eqb t.cpu 2048 && memory_between 4096 16384 t.memory_limit_mib)
    || (eqb t.cpu 4096 && memory_between 8192 30720 t.memory_limit_mib)

-- Every task definition of the application has a size that Fargate documents.
pub tasks-app :
    (cdk : Cdk) (variable : Option String)
    → all is_fargate_size (tasks (app cdk variable).calls) ≡ true
unfolding app
tasks-app cdk variable = elim (Bool-cases (getenv_or variable "prod" == "dev")) [
  | inl e ↦ rw e refl
  | inr e ↦ rw e refl
]

-- The ECS stack that app.py ends with, under a profile.
abbrev pub ecs_of : Cdk → String → EcsFargateStack
ecs_of cdk p =
    let ecs : Handle = (p ^^ "-EcsFargateStack") ∷ [] in
    let docs : Handle = (p ^^ "-DocumentDBStack") ∷ [] in
    record {
      stack = ecs;
      docdb_info =
          ("secret-name", cdk.attr ((p ^^ "-DocumentDBSecret") ∷ docs) "secret_name")
          ∷ (
            "documentdb_sg_id",
            cdk.attr ((p ^^ "-DocumentDBSecurityGroup") ∷ docs) "security_group_id",
          )
          ∷ [];
      cluster = (p ^^ "-EcsCluster") ∷ ecs;
      execution_role = (p ^^ "-ExecutionRole") ∷ ecs;
      task_role = (p ^^ "-TaskRole") ∷ ecs;
      rag_service = record {
        node = (p ^^ "-RagService") ∷ ecs;
        rag_task_def = (p ^^ "-RagServiceTaskDef") ∷ (p ^^ "-RagService") ∷ ecs;
        rag_service = (p ^^ "-RagService") ∷ (p ^^ "-RagService") ∷ ecs;
      };
    }

abbrev pub last_call : List Call → Option Call
last_call [] = none
last_call (c ∷ cs) = elim (last_call cs) [ none ↦ some c | some d ↦ some d ]

-- Whatever ENVIRONMENT is, no look-up of a dict's key in the code that app.py runs fails, where the calls of
-- aws_cdk return. The last of the calls is synth(), and the ECS stack that is made has its own
-- cluster, roles and service and the values of the document database's secret and security group.
pub app-returns :
    (cdk : Cdk) (variable : Option String)
    → ((app cdk variable).result ≡ ok (ecs_of cdk (getenv_or variable "prod")))
      × (last_call (app cdk variable).calls ≡ some Call.synth)
unfolding app
app-returns cdk variable = elim (Bool-cases (getenv_or variable "prod" == "dev")) [
  | inl e ↦ (rw e refl, rw e refl)
  | inr e ↦ (rw e refl, rw e refl)
]
