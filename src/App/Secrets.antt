-- ===== src/App/Secrets.antt =====
-- The databases that the containers of the application are told of, by the names of their secrets.
pub mod Facts
pub mod Databases
pub mod Registry
use services_modulith_infra.Base.{
  ℕ, String, ◌≡◌, refl, ◌⊎◌, inl, inr, Bool-cases, Option, none, some, List, [], ◌∷◌, All, All-map,
  In, subst, sym, In-get_elem?, ◌==◌, ◌^^◌,
}
use services_modulith_infra.Base.Dict.{lookup}
use services_modulith_infra.Cdk.{
  Handle, Cdk, Environment, Container, Resource, Statement, Peer, group, Call,
}
use services_modulith_infra.App.{app, getenv_or, environment_of}
use services_modulith_infra.Cdk.Log.{collect, openings}
use services_modulith_infra.DocumentDb.Access.{policies, codes, MayDo}
use services_modulith_infra.App.Certificates.{parts}
use services_modulith_infra.App.Database.{imported_groups}

abbrev place_of : Call → Option (Handle × Environment)
place_of (Call.create scope id (Resource.stack d env)) = some (id ∷ scope, env)
place_of _ = none

-- The stacks with their accounts and regions.
abbrev pub places : List Call → List (Handle × Environment)
places = collect place_of

abbrev relational_of : Call → Option (Handle × List Handle)
relational_of (Call.create scope id (Resource.aurora_cluster c)) =
    some (id ∷ scope, c.security_groups)
relational_of _ = none

-- The relational clusters with their security groups.
abbrev pub relational : List Call → List (Handle × List Handle)
relational = collect relational_of

abbrev documents_of : Call → Option (Handle × String × List String × ℕ)
documents_of (Call.create scope id (Resource.doc_db_cluster c)) =
    some (id ∷ scope, c.master_user_password, c.vpc_security_group_ids, c.port)
documents_of _ = none

-- The clusters of documents: their passwords, the ids of their security groups, and their ports.
abbrev pub documents : List Call → List (Handle × String × List String × ℕ)
documents = collect documents_of

abbrev pub Filling : Type 0
Filling = String × Option String × Option String

abbrev filling_of : Call → Option Filling
filling_of (Call.create scope id (Resource.sdk_resource r)) =
    let parameters = r.on_create.parameters in
    some (r.on_create.action, lookup "FunctionName" parameters, lookup "Payload" parameters)
filling_of _ = none

-- The calls of the custom resources when they are made: their actions, and the functions and the payloads
-- that they name.
abbrev pub fillings : List Call → List Filling
fillings = collect filling_of

-- The payload that names the secret and the endpoint.
abbrev pub filling : Cdk → (secret_arn endpoint : String) → String
filling cdk secret_arn endpoint = cdk.join "" (
    "{\"RequestType\":\"Create\",\"ResourceProperties\":{\"SecretArn\":\"" ∷ secret_arn
    ∷ "\",\"DocumentDbEndpoint\":\"" ∷ endpoint ∷ "\"}}" ∷ [])

abbrev generated_of : Call → Option Handle
generated_of (Call.create scope id (Resource.generated_secret s)) = some (id ∷ scope)
generated_of _ = none

abbrev pub generated_secrets : List Call → List Handle
generated_secrets = collect generated_of

abbrev task_role_of : Call → Option (Handle × Option Handle)
task_role_of (Call.create scope id (Resource.task_definition t)) = some (id ∷ scope, t.task_role)
task_role_of _ = none

-- The task definitions with the roles that their containers take.
abbrev pub task_roles : List Call → List (Handle × Option Handle)
task_roles = collect task_role_of

abbrev runner_of : Call → Option (Handle × Handle)
runner_of (Call.create scope id (Resource.fargate_service s)) = some (id ∷ scope, s.task_definition)
runner_of _ = none

-- The services with the task definitions that they run.
abbrev pub runners : List Call → List (Handle × Handle)
runners = collect runner_of

-- IAM's name for all the secrets of the program's account and region.
abbrev pub all_secrets_arn : Cdk → String
all_secrets_arn cdk =
    "arn:aws:secretsmanager:" ^^ cdk.region ^^ ":" ^^ cdk.account_id ^^ ":secret:*"

-- The containers of the task may read every secret of the account and region of the stack.
pub record ReadsSecretsOf (cdk : Cdk) (calls : List Call) (task stack : Handle) : Type 0 where
  pub role : Handle
  pub assumed : In (task, some role) (task_roles calls)
  pub allowed : MayDo calls role "secretsmanager:GetSecretValue" (all_secrets_arn cdk)
  pub placed : In (stack, environment_of cdk) (places calls)

-- A service runs the task, and the security group with the id lets it in at the port.
pub record IsLetIn (cdk : Cdk) (calls : List Call) (task : Handle) (group_id : String) (port : ℕ)
    : Type 0 where
  pub service : Handle
  pub imported : Handle
  pub runs : In (service, task) (runners calls)
  pub known : In (imported, group_id) (imported_groups calls)
  pub admitted :
      In
        (imported, group (cdk.part service "connections.security_groups[0]"), port)
        (openings calls)

-- The name is that of the secret of a relational cluster, which the task may read; and a security group
-- of the cluster lets it in.
pub record UsesRelational (cdk : Cdk) (calls : List Call) (task : Handle) (name : String)
    : Type 0 where
  pub id : String
  pub stack : Handle
  pub groups : List Handle
  pub cluster_group : Handle
  pub made : In (id ∷ stack, groups) (relational calls)
  pub named : name ≡ cdk.attr (id ∷ stack) "secret.secret_name"
  pub reads : ReadsSecretsOf cdk calls task stack
  pub grouped : In cluster_group groups
  pub enters : IsLetIn cdk calls task (cdk.attr cluster_group "security_group_id") 5432

-- The name is that of a secret that has the password of a cluster of documents and that the task may
-- read; a custom resource's call has the action invoke, and names a function with the handler's code, the
-- secret and the cluster's endpoint; and a security group of the cluster lets the task in at the cluster's port.
pub record UsesDocuments (cdk : Cdk) (calls : List Call) (task : Handle) (name : String)
    : Type 0 where
  pub id : String
  pub stack : Handle
  pub group_ids : List String
  pub port : ℕ
  pub group_id : String
  pub made : In (id ∷ stack) (generated_secrets calls)
  pub named : name ≡ cdk.attr (id ∷ stack) "secret_name"
  pub cluster : Handle
  pub guards :
      In (cluster, cdk.secret_json (id ∷ stack) "password", group_ids, port) (documents calls)
  pub updater : Handle
  pub handled : In (updater, "DocumentDb.Handler") (codes calls)
  pub filled :
      In
        (
          "invoke",
          some (cdk.attr updater "function_name"),
          some
              (filling cdk (cdk.attr (id ∷ stack) "secret_arn") (cdk.attr cluster "attr_endpoint")),
        )
        (fillings calls)
  pub reads : ReadsSecretsOf cdk calls task stack
  pub grouped : In group_id group_ids
  pub enters : IsLetIn cdk calls task group_id port

-- Under the key of its environment the container has nothing, or a name that its task uses.
abbrev pub IsToldName : (Handle → String → Type 0) → String → Handle × String × Container → Type 0
IsToldName Uses key (task, id, c) =
    (lookup key c.environment ≡ none)
    ⊎ ((name : String) × (lookup key c.environment ≡ some name) × Uses task name)
