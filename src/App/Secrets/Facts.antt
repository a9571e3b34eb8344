-- ===== src/App/Secrets/Facts.antt =====
-- Where the calls of the application make the databases, and the task that is told of them.
use services_modulith_infra.Base.{
  String, refl, inl, inr, Bool-cases, Option, some, List, [], ◌∷◌, In, In-get_elem?, ◌==◌, ◌^^◌,
}
use services_modulith_infra.Cdk.{Handle, Cdk, Statement, Peer, group, Call}
use services_modulith_infra.App.{app, getenv_or, environment_of}
use services_modulith_infra.Cdk.Log.{openings}
use services_modulith_infra.DocumentDb.Access.{policies, codes}
use services_modulith_infra.App.Database.{imported_groups}
use services_modulith_infra.App.Secrets.{
  filling, fillings, places, relational, documents, generated_secrets, task_roles, runners,
  all_secrets_arn, ReadsSecretsOf,
}

module _ (cdk : Cdk) (variable : Option String) where
  abbrev pub profile : String
  profile = getenv_or variable "prod"

  abbrev pub calls : List Call
  calls = (app cdk variable).calls

  abbrev pub in_ecs : String → Handle
  in_ecs id = (profile ^^ id) ∷ (profile ^^ "-EcsFargateStack") ∷ []

  abbrev pub in_ecomm : String → Handle
  in_ecomm id = (profile ^^ id) ∷ in_ecs "-EcommService"

  abbrev pub postgres_stack : Handle
  postgres_stack = (profile ^^ "-PostgresDBStack") ∷ []

  abbrev pub documents_stack : Handle
  documents_stack = (profile ^^ "-DocumentDBStack") ∷ []

  abbrev pub in_documents : String → Handle
  in_documents id = (profile ^^ id) ∷ documents_stack

  abbrev pub ecomm_task : Handle
  ecomm_task = in_ecomm "-EcommAppFargateServiceTaskDef"

  abbrev pub reading : Statement
  reading = record {
    actions = "secretsmanager:GetSecretValue" ∷ "secretsmanager:DescribeSecret" ∷ [];
    resources = all_secrets_arn cdk ∷ [];
  }

  abbrev pub ecomm_runner : Handle
  ecomm_runner = in_ecomm "-EcommAppService"

  abbrev pub ecomm_peer : Peer
  ecomm_peer = group (cdk.part ecomm_runner "connections.security_groups[0]")

  abbrev pub documents_group : String
  documents_group = cdk.attr (in_documents "-DocumentDBSecurityGroup") "security_group_id"

  abbrev pub postgres_group : Handle
  postgres_group = (profile ^^ "-PostgresSG") ∷ postgres_stack

  pub ecomm-runs :
      In (ecomm_task, some (in_ecs "-TaskRole")) (task_roles calls)
      × In (in_ecs "-TaskRole", reading) (policies calls)
      × In (ecomm_runner, ecomm_task) (runners calls)
  unfolding app
  ecomm-runs = elim (Bool-cases (profile == "dev")) [
    | inl e ↦ (
      In-get_elem? 4 _ (task_roles calls) (rw e refl),
      In-get_elem? 3 _ (policies calls) (rw e refl),
      In-get_elem? 1 _ (runners calls) (rw e refl),
    )
    | inr e ↦ (
      In-get_elem? 3 _ (task_roles calls) (rw e refl),
      In-get_elem? 3 _ (policies calls) (rw e refl),
      In-get_elem? 1 _ (runners calls) (rw e refl),
    )
  ]

  pub ecomm-enters :
      In (in_ecomm "-DocDbSG", documents_group) (imported_groups calls)
      × In
          (in_ecomm "-PostgresSG", cdk.attr postgres_group "security_group_id")
          (imported_groups calls)
      × In (in_ecomm "-DocDbSG", ecomm_peer, 27017) (openings calls)
      × In (in_ecomm "-PostgresSG", ecomm_peer, 5432) (openings calls)
  unfolding app
  ecomm-enters = elim (Bool-cases (profile == "dev")) [
    | inl e ↦ (
      In-get_elem? 1 _ (imported_groups calls) (rw e refl),
      In-get_elem? 2 _ (imported_groups calls) (rw e refl),
      In-get_elem? 13 _ (openings calls) (rw e (rw e refl)),
      In-get_elem? 14 _ (openings calls) (rw e (rw e refl)),
    )
    | inr e ↦ (
      In-get_elem? 1 _ (imported_groups calls) (rw e refl),
      In-get_elem? 2 _ (imported_groups calls) (rw e refl),
      In-get_elem? 12 _ (openings calls) (rw e (rw e refl)),
      In-get_elem? 13 _ (openings calls) (rw e (rw e refl)),
    )
  ]

  pub databases-made :
      In (postgres_stack, environment_of cdk) (places calls)
      × In (documents_stack, environment_of cdk) (places calls)
      × In
          ((profile ^^ "-PostgresDBCluster") ∷ postgres_stack, postgres_group ∷ [])
          (relational calls)
      × In (in_documents "-DocumentDBSecret") (generated_secrets calls)
      × In
          (
            in_documents "-DocDB",
            cdk.secret_json (in_documents "-DocumentDBSecret") "password",
            documents_group ∷ [],
            27017,
          )
          (documents calls)
      × In
          (
            "invoke",
            some (cdk.attr (in_documents "-UpdateSecretLambda") "function_name"),
            some (
                filling cdk
                  (cdk.attr (in_documents "-DocumentDBSecret") "secret_arn")
                  (cdk.attr (in_documents "-DocDB") "attr_endpoint")),
          )
          (fillings calls)
      × In (in_documents "-UpdateSecretLambda", "DocumentDb.Handler") (codes calls)
  unfolding app
  databases-made = elim (Bool-cases (profile == "dev")) [
    | inl e ↦ (
      In-get_elem? 7 _ (places calls) (rw e (rw e refl)),
      In-get_elem? 6 _ (places calls) (rw e (rw e refl)),
      In-get_elem? 0 _ (relational calls) (rw e refl),
      In-get_elem? 0 _ (generated_secrets calls) (rw e refl),
      In-get_elem? 0 _ (documents calls) (rw e refl),
      In-get_elem? 0 _ (fillings calls) (rw e refl),
      In-get_elem? 0 _ (codes calls) (rw e refl),
    )
    | inr e ↦ (
      In-get_elem? 6 _ (places calls) (rw e (rw e refl)),
      In-get_elem? 5 _ (places calls) (rw e (rw e refl)),
      In-get_elem? 0 _ (relational calls) (rw e refl),
      In-get_elem? 0 _ (generated_secrets calls) (rw e refl),
      In-get_elem? 0 _ (documents calls) (rw e refl),
      In-get_elem? 0 _ (fillings calls) (rw e refl),
      In-get_elem? 0 _ (codes calls) (rw e refl),
    )
  ]

  abbrev pub ecomm_reads :
      (stack : Handle)
      → In (stack, environment_of cdk) (places calls)
      → ReadsSecretsOf cdk calls ecomm_task stack
  ecomm_reads stack placed = record {
    role = in_ecs "-TaskRole";
    assumed = ecomm-runs.0;
    allowed = (reading, ecomm-runs.1, (inl refl, inl refl));
    placed = placed;
  }
