-- ===== src/App/Secrets/Databases.antt =====
-- The containers of the application can use the databases that they are told of.
use services_modulith_infra.Base.{
  String, ◌≡◌, refl, ◌⊎◌, inl, inr, Bool-cases, Option, none, some, [], ◌∷◌, All, All-map, subst,
  sym, ◌==◌, ◌^^◌,
}
use services_modulith_infra.Base.Dict.{lookup}
use services_modulith_infra.Cdk.{Handle, Cdk, Container}
use services_modulith_infra.App.{app}
use services_modulith_infra.App.Certificates.{parts}
use services_modulith_infra.App.Secrets.{UsesRelational, UsesDocuments, IsToldName}
use services_modulith_infra.App.Secrets.Facts.{
  profile, calls, in_ecomm, postgres_stack, documents_stack, in_documents, ecomm_task, ecomm_runner,
  documents_group, postgres_group, ecomm-runs, ecomm-enters, databases-made, ecomm_reads,
}

module _ (cdk : Cdk) (variable : Option String) where
  ecomm-UsesRelational : UsesRelational cdk (calls cdk variable) (ecomm_task cdk variable) (
      cdk.attr
        ((profile cdk variable ^^ "-PostgresDBCluster") ∷ (postgres_stack cdk variable))
        "secret.secret_name")
  ecomm-UsesRelational = record {
    id = profile cdk variable ^^ "-PostgresDBCluster";
    stack = (postgres_stack cdk variable);
    groups = (postgres_group cdk variable) ∷ [];
    cluster_group = (postgres_group cdk variable);
    made = (databases-made cdk variable).2;
    named = refl;
    reads = ecomm_reads cdk variable (postgres_stack cdk variable) (databases-made cdk variable).0;
    grouped = inl refl;
    enters = record {
      service = (ecomm_runner cdk variable);
      imported = in_ecomm cdk variable "-PostgresSG";
      runs = (ecomm-runs cdk variable).2;
      known = (ecomm-enters cdk variable).1;
      admitted = (ecomm-enters cdk variable).3;
    };
  }

  ecomm-UsesDocuments :
      UsesDocuments cdk
        (calls cdk variable)
        (ecomm_task cdk variable)
        (cdk.attr (in_documents cdk variable "-DocumentDBSecret") "secret_name")
  ecomm-UsesDocuments = record {
    id = profile cdk variable ^^ "-DocumentDBSecret";
    stack = (documents_stack cdk variable);
    group_ids = (documents_group cdk variable) ∷ [];
    port = 27017;
    group_id = (documents_group cdk variable);
    made = (databases-made cdk variable).3;
    named = refl;
    cluster = in_documents cdk variable "-DocDB";
    updater = in_documents cdk variable "-UpdateSecretLambda";
    handled = (databases-made cdk variable).6;
    filled = (databases-made cdk variable).5;
    guards = (databases-made cdk variable).4;
    reads = ecomm_reads cdk variable (documents_stack cdk variable) (databases-made cdk variable).1;
    grouped = inl refl;
    enters = record {
      service = (ecomm_runner cdk variable);
      imported = in_ecomm cdk variable "-DocDbSG";
      runs = (ecomm-runs cdk variable).2;
      known = (ecomm-enters cdk variable).0;
      admitted = (ecomm-enters cdk variable).2;
    };
  }

  abbrev IsEcommOr : String → String → Handle × String × Container → Type 0
  IsEcommOr key name (task, id, c) =
      (lookup key c.environment ≡ none)
      ⊎ ((lookup key c.environment ≡ some name) × (task ≡ (ecomm_task cdk variable)))

  told_ecomm :
      (Uses : Handle → String → Type 0) (key name : String)
      → Uses (ecomm_task cdk variable) name
      → (part : Handle × String × Container) → IsEcommOr key name part
      → IsToldName Uses key part
  told_ecomm Uses key name u (task, id, c) (inl e) = inl e
  told_ecomm Uses key name u (task, id, c) (inr (h, t)) =
      inr (name, h, subst (λ x. Uses x name) (sym t) u)

  parts-IsEcommOr :
      All
        (IsEcommOr "POSTGRES_DB_SECRET_NAME" (
          cdk.attr
            ((profile cdk variable ^^ "-PostgresDBCluster") ∷ (postgres_stack cdk variable))
            "secret.secret_name"))
        (parts (calls cdk variable))
      × All
          (IsEcommOr "DOCUMENTDB_SECRET_NAME"
            (cdk.attr (in_documents cdk variable "-DocumentDBSecret") "secret_name"))
          (parts (calls cdk variable))
  unfolding app
  parts-IsEcommOr = elim (Bool-cases (profile cdk variable == "dev")) [
    | inl e ↦ rw e (
      (inl refl, (inl refl, (inl refl, (inl refl, (inl refl, (inr (refl, refl), tt)))))),
      (inl refl, (inl refl, (inl refl, (inl refl, (inl refl, (inr (refl, refl), tt)))))),
    )
    | inr e ↦ rw e (
      (inl refl, (inl refl, (inl refl, (inr (refl, refl), tt)))),
      (inl refl, (inl refl, (inl refl, (inr (refl, refl), tt)))),
    )
  ]

-- Every container of the application that is told the secret of a database by name is told that of
-- the relational cluster, or the one that the cluster of documents has its password from; a custom
-- resource's call on creation has the action invoke, and names a function with the handler's code, that
-- secret and the cluster's endpoint. The role of its task may read the secrets
-- of the account and region in which the secret is made, and a service runs the task whose security
-- group the cluster's security group lets in at the database's port.
pub containers-databases :
    (cdk : Cdk) (variable : Option String)
    → let calls = (app cdk variable).calls in
      All (IsToldName (UsesRelational cdk calls) "POSTGRES_DB_SECRET_NAME") (parts calls)
      × All (IsToldName (UsesDocuments cdk calls) "DOCUMENTDB_SECRET_NAME") (parts calls)
containers-databases cdk variable =
    let told = parts-IsEcommOr cdk variable in
    (
      All-map _ _ (parts (app cdk variable).calls)
          (told_ecomm cdk variable (UsesRelational cdk _) _ _ (ecomm-UsesRelational cdk variable))
          told.0,
      All-map _ _ (parts (app cdk variable).calls)
          (told_ecomm cdk variable (UsesDocuments cdk _) _ _ (ecomm-UsesDocuments cdk variable))
          told.1,
    )
