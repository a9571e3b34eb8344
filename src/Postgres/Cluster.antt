-- ===== src/Postgres/Cluster.antt =====
-- ecomm_modulith_cdk/Postgres/postgresdb_stack.py. Capacities are in tenths of a unit.
use services_modulith_infra.Base.{String, true, none, some, [], ◌∷◌, ◌^^◌}
use services_modulith_infra.Base.Dict.{Dict}
use services_modulith_infra.Cdk.{
  Handle, Cdk, Environment, Resource, any_ipv4, Build, pure, new, ingress, cfn_output, ◌>>=◌, ◌>>◌,
}

pub record PostgresDbStack : Type 0 where
  pub stack : Handle
  pub postgres_sg : Handle
  pub postgres_db_cluster : Handle

module _ (cdk : Cdk) where
  unfoldable pub postgres_db_stack :
      Handle → String → Handle → String → Environment → Build PostgresDbStack
  postgres_db_stack scope construct_id vpc environment env = do
    self ← new scope construct_id (
        Resource.stack (some "PostgreSQL cluster for order, payment and product microservices") env)
    group ← new self (environment ^^ "-PostgresSG") (
        Resource.security_group (record {
          vpc = vpc;
          security_group_name = environment ^^ "-PostgresDBSG";
          description = "Security group for PostgreSQL database";
        }))
    ingress group any_ipv4 5432 "Allow PostgreSQL access from anywhere"
    cluster ← new self (environment ^^ "-PostgresDBCluster") (
        Resource.aurora_cluster (record {
          engine = "aurora-postgresql 15.8";
          writer = "writer";
          min_capacity = 5;
          max_capacity = 20;
          vpc = vpc;
          subnet_type = "PRIVATE_WITH_EGRESS";
          security_groups = group ∷ [];
          default_database_name = environment ^^ "-monolithservices";
          removal_policy = "DESTROY";
          cluster_identifier = environment ^^ "-postgres-cluster";
          credentials = "postgres";
          storage_encrypted = true;
          enable_data_api = true;
        }))
    cfn_output self (environment ^^ "-ClusterEndpoint")
        (cdk.attr cluster "cluster_endpoint.hostname") none none
    cfn_output self (environment ^^ "-SecretName") (cdk.attr cluster "secret.secret_name") none none
    pure (record { stack = self; postgres_sg = group; postgres_db_cluster = cluster })

  -- The property `postgres_info`.
  unfoldable pub postgres_info : PostgresDbStack → Dict String
  postgres_info s =
      ("secret-name", cdk.attr s.postgres_db_cluster "secret.secret_name")
      ∷ ("security-group-id", cdk.attr s.postgres_sg "security_group_id")
      ∷ []
