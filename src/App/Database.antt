-- ===== src/App/Database.antt =====
-- What the function that makes the databases reaches: the relational database and its secret.
use services_modulith_infra.Base.{
  String, ◌≡◌, refl, inl, inr, Bool-cases, Option, none, some, List, ◌∷◌, All, In, ◌==◌,
}
use services_modulith_infra.Cdk.{
  Handle, Cdk, DatabaseRequest, AuroraCluster, Function, Resource, any_ipv4, Call,
}
use services_modulith_infra.App.{app, getenv_or}
use services_modulith_infra.Cdk.Log.{collect, openings}
use services_modulith_infra.DocumentDb.Access.{functions}

abbrev request_of : Call → Option (String × DatabaseRequest)
request_of (Call.create scope id (Resource.database_creator token r)) = some (token, r)
request_of _ = none

-- The requests to make databases, with the functions that they are sent to.
abbrev pub requests : List Call → List (String × DatabaseRequest)
requests = collect request_of

abbrev cluster_of : Call → Option (Handle × AuroraCluster)
cluster_of (Call.create scope id (Resource.aurora_cluster c)) = some (id ∷ scope, c)
cluster_of _ = none

abbrev clusters : List Call → List (Handle × AuroraCluster)
clusters = collect cluster_of

abbrev secret_of : Call → Option (Handle × String)
secret_of (Call.create scope id (Resource.imported_secret name)) = some (id ∷ scope, name)
secret_of _ = none

abbrev pub imported_secrets : List Call → List (Handle × String)
imported_secrets = collect secret_of

abbrev group_of : Call → Option (Handle × String)
group_of (Call.create scope id (Resource.imported_security_group g)) = some (id ∷ scope, g)
group_of _ = none

abbrev pub imported_groups : List Call → List (Handle × String)
imported_groups = collect group_of

abbrev grant_of : Call → Option (Handle × Handle)
grant_of (Call.grant_read secret reader) = some (secret, reader)
grant_of _ = none

abbrev grants : List Call → List (Handle × Handle)
grants = collect grant_of

-- The request is sent to a function of the log that runs the code that makes databases. The function may
-- read the secret that the request names, which is that of a cluster of the log; and it is in the
-- cluster's network and in a security group of the cluster, which opens the database's port.
pub record Reaches (cdk : Cdk) (calls : List Call) (token : String) (request : DatabaseRequest)
    : Type 0 where
  pub handle : Handle
  pub function : Function
  pub secret : Handle
  pub cluster_handle : Handle
  pub cluster : AuroraCluster
  pub group : Handle
  pub cluster_group : Handle
  pub made : In (handle, function) (functions calls)
  pub runs : function.code ≡ "Postgres.Handler"
  pub sent : token ≡ cdk.attr handle "function_arn"
  pub named : request.secret_arn ≡ cdk.attr secret "secret_arn"
  pub granted : In (secret, handle) (grants calls)
  pub clustered : In (cluster_handle, cluster) (clusters calls)
  pub imported : In (secret, cdk.attr cluster_handle "secret.secret_name") (imported_secrets calls)
  pub networked : function.vpc ≡ some cluster.vpc
  pub joined : In group function.security_groups
  pub imported_group :
      In (group, cdk.attr cluster_group "security_group_id") (imported_groups calls)
  pub grouped : In cluster_group cluster.security_groups
  pub opened : In (cluster_group, any_ipv4, 5432) (openings calls)

-- Each request of the application to make databases is sent to a function that runs the code for it,
-- may read the secret that the request names, which is the secret of the application's relational
-- database, and is in that database's network and security group, which opens the port 5432.
pub requests-Reach :
    (cdk : Cdk) (variable : Option String)
    → let calls = (app cdk variable).calls in All (λ r. Reaches cdk calls r.0 r.1) (requests calls)
unfolding app
requests-Reach cdk variable = elim (Bool-cases (getenv_or variable "prod" == "dev")) [
  | inl e ↦ rw e (
    record {
      handle = _;
      function = _;
      secret = _;
      cluster_handle = _;
      cluster = _;
      group = _;
      cluster_group = _;
      made = inr (inl refl);
      runs = refl;
      sent = refl;
      named = refl;
      granted = inl refl;
      clustered = inl refl;
      imported = inl refl;
      networked = refl;
      joined = inl refl;
      imported_group = inl refl;
      grouped = inl refl;
      opened = inr (inr (inr (inr (inr (inr (inr (inr (inr (inr (inr (inl refl)))))))))));
    },
    tt,
  )
  | inr e ↦ rw e (
    record {
      handle = _;
      function = _;
      secret = _;
      cluster_handle = _;
      cluster = _;
      group = _;
      cluster_group = _;
      made = inr (inl refl);
      runs = refl;
      sent = refl;
      named = refl;
      granted = inl refl;
      clustered = inl refl;
      imported = inl refl;
      networked = refl;
      joined = inl refl;
      imported_group = inl refl;
      grouped = inl refl;
      opened = inr (inr (inr (inr (inr (inr (inr (inr (inr (inr (inl refl))))))))));
    },
    tt,
  )
]
