-- ===== src/App/Secrets/Registry.antt =====
-- The private registry that the images of the application come from: who may read its password.
use services_modulith_infra.Base.{
  String, ◌≡◌, refl, ◌⊎◌, inl, inr, Bool-cases, Option, none, some, List, [], ◌∷◌, ◌++◌, All,
  All-map, In, In-get_elem?, ◌==◌, ◌^^◌,
}
use services_modulith_infra.Base.Dict.{Dict}
use services_modulith_infra.Cdk.{Handle, Cdk, Container, Resource, Statement, Call}
use services_modulith_infra.App.{app, environment_of}
use services_modulith_infra.Cdk.Log.{collect}
use services_modulith_infra.DocumentDb.Access.{Allows}
use services_modulith_infra.App.Certificates.{parts}
use services_modulith_infra.App.Database.{imported_secrets}
use services_modulith_infra.App.Secrets.{places, all_secrets_arn}
use services_modulith_infra.App.Secrets.Facts.{profile, calls, in_ecs, reading}

abbrev execution_role_of : Call → Option (Handle × Option Handle)
execution_role_of (Call.create scope id (Resource.task_definition t)) =
    some (id ∷ scope, t.execution_role)
execution_role_of _ = none

-- The task definitions with the roles that start their containers.
abbrev execution_roles : List Call → List (Handle × Option Handle)
execution_roles = collect execution_role_of

abbrev statements_of : Dict (List Statement) → List Statement
statements_of [] = []
statements_of ((name, ss) ∷ d) = ss ++ statements_of d

abbrev role_of : Call → Option (Handle × String × List String × List Statement)
role_of (Call.create scope id (Resource.role r)) =
    some (id ∷ scope, r.assumed_by, r.managed_policies, statements_of r.inline_policies)
role_of _ = none

-- The roles: who takes them, their managed policies, and the statements of their own.
abbrev roles : List Call → List (Handle × String × List String × List Statement)
roles = collect role_of

-- The secret is one of the account, imported by a name, and the role that starts the task's containers is
-- taken by ECS, has ECS's own policy, and may read the secrets of the account and region.
pub record Pulls (cdk : Cdk) (calls : List Call) (task secret : Handle) : Type 0 where
  pub id : String
  pub stack : Handle
  pub name : String
  pub role : Handle
  pub statements : List Statement
  pub statement : Statement
  pub inside : secret ≡ id ∷ stack
  pub placed : In (stack, environment_of cdk) (places calls)
  pub imported : In (secret, name) (imported_secrets calls)
  pub executes : In (task, some role) (execution_roles calls)
  pub made :
      In
        (
          role,
          "ecs-tasks.amazonaws.com",
          "service-role/AmazonECSTaskExecutionRolePolicy" ∷ [],
          statements,
        )
        (roles calls)
  pub listed : In statement statements
  pub allowed : Allows statement "secretsmanager:GetSecretValue" (all_secrets_arn cdk)

abbrev pub CanPull : Cdk → List Call → Handle × String × Container → Type 0
CanPull cdk calls (task, id, c) =
    (c.image.credentials ≡ none)
    ⊎ ((secret : Handle) × (c.image.credentials ≡ some secret) × Pulls cdk calls task secret)

module _ (cdk : Cdk) (variable : Option String) where
  abbrev registry : Handle
  registry = in_ecs cdk variable "-GithubTokenByName"

  abbrev role : Handle
  role = in_ecs cdk variable "-ExecutionRole"

  abbrev bundle : Statement
  bundle = record {
    actions = "s3:GetObject" ∷ [];
    resources = "arn:aws:s3:::all-purpose-utility/certs/ca-bundle.pem" ∷ [];
  }

  registry-made :
      In
        ((profile cdk variable ^^ "-EcsFargateStack") ∷ [], environment_of cdk)
        (places (calls cdk variable))
      × In (registry, "github-secret-token") (imported_secrets (calls cdk variable))
      × In
          (
            role,
            "ecs-tasks.amazonaws.com",
            "service-role/AmazonECSTaskExecutionRolePolicy" ∷ [],
            reading cdk variable ∷ bundle ∷ [],
          )
          (roles (calls cdk variable))
  unfolding app
  registry-made = elim (Bool-cases (profile cdk variable == "dev")) [
    | inl e ↦ (
      In-get_elem? 9 _ (places (calls cdk variable)) (rw e (rw e refl)),
      In-get_elem? 1 _ (imported_secrets (calls cdk variable)) (rw e refl),
      In-get_elem? 0 _ (roles (calls cdk variable)) (rw e refl),
    )
    | inr e ↦ (
      In-get_elem? 8 _ (places (calls cdk variable)) (rw e (rw e refl)),
      In-get_elem? 1 _ (imported_secrets (calls cdk variable)) (rw e refl),
      In-get_elem? 0 _ (roles (calls cdk variable)) (rw e refl),
    )
  ]

  role-Pulls :
      (task : Handle)
      → In (task, some role) (execution_roles (calls cdk variable))
      → Pulls cdk (calls cdk variable) task registry
  role-Pulls task executes = record {
    id = _;
    stack = _;
    name = "github-secret-token";
    role = role;
    statements = reading cdk variable ∷ bundle ∷ [];
    statement = reading cdk variable;
    inside = refl;
    placed = registry-made.0;
    imported = registry-made.1;
    executes = executes;
    made = registry-made.2;
    listed = inl refl;
    allowed = (inl refl, inl refl);
  }

  -- The container has no credentials, or those of the registry, and its task the role.
  abbrev IsRegistered : Handle × String × Container → Type 0
  IsRegistered (task, id, c) =
      (c.image.credentials ≡ none)
      ⊎ ((c.image.credentials ≡ some registry)
          × In (task, some role) (execution_roles (calls cdk variable)))

  registered-CanPull :
      (part : Handle × String × Container)
      → IsRegistered part
      → CanPull cdk (calls cdk variable) part
  registered-CanPull (task, id, c) (inl e) = inl e
  registered-CanPull (task, id, c) (inr (e, executes)) = inr (registry, e, role-Pulls task executes)

  parts-IsRegistered : All IsRegistered (parts (calls cdk variable))
  unfolding app
  parts-IsRegistered = elim (Bool-cases (profile cdk variable == "dev")) [
    | inl e ↦ rw e (
      inr (refl, In-get_elem? 0 _ (execution_roles (calls cdk variable)) (rw e refl)),
      (
        inr (refl, In-get_elem? 1 _ (execution_roles (calls cdk variable)) (rw e refl)),
        (
          inl refl,
          (
            inl refl,
            (
              inl refl,
              (inr (refl, In-get_elem? 4 _ (execution_roles (calls cdk variable)) (rw e refl)), tt),
            ),
          ),
        ),
      ),
    )
    | inr e ↦ rw e (
      inr (refl, In-get_elem? 0 _ (execution_roles (calls cdk variable)) (rw e refl)),
      (
        inr (refl, In-get_elem? 1 _ (execution_roles (calls cdk variable)) (rw e refl)),
        (
          inl refl,
          (inr (refl, In-get_elem? 3 _ (execution_roles (calls cdk variable)) (rw e refl)), tt),
        ),
      ),
    )
  ]

-- Every container of the application whose image comes with credentials has them in a secret of the
-- application's account and region; and the role that starts the containers of its task is one that ECS
-- may take, with the policy that ECS wants, and with leave to read the secrets of that account and region.
pub containers-CanPull :
    (cdk : Cdk) (variable : Option String)
    → let calls = (app cdk variable).calls in All (CanPull cdk calls) (parts calls)
containers-CanPull cdk variable =
    All-map _ _ (parts (app cdk variable).calls) (registered-CanPull cdk variable)
      (parts-IsRegistered cdk variable)
