-- ===== src/Postgres/Config.antt =====
-- ecomm_modulith_cdk/Postgres/postgres_config_stack.py, without the function's own code.
use services_modulith_infra.Base.{String, some, [], ◌∷◌, ◌^^◌}
use services_modulith_infra.Base.Dict.{Dict}
use services_modulith_infra.Cdk.{
  Handle, Cdk, Environment, DatabaseRequest, Resource, Call, Build, pure, new, emit, item, ◌>>=◌,
  ◌>>◌,
}

pub record PostgresConfigStack : Type 0 where
  pub stack : Handle
  pub pg_sg : Handle
  pub pg_secret : Handle

-- The properties of the custom resource, which the function reads from its event.
abbrev pub database_request : String → DatabaseRequest
database_request secret_arn = record {
  secret_arn = secret_arn;
  databases = "ecomm" ∷ [];
  schemas =
      "ordering" ∷ "payment" ∷ "platform" ∷ "product" ∷ "rag" ∷ "security" ∷ "shipping" ∷ "web"
      ∷ [];
}

module _ (cdk : Cdk) where
  unfoldable pub postgres_config_stack :
      Handle → String → Handle → Dict String → String → Environment → Build PostgresConfigStack
  postgres_config_stack scope construct_id vpc pg_info environment env = do
    self ←
        new scope construct_id
          (Resource.stack (some "Creates postgres databases and tables for microservices") env)
    sg_id ← item pg_info "security-group-id"
    pg_sg ← new self (environment ^^ "-PGSecurityGroup") (Resource.imported_security_group sg_id)
    secret_name ← item pg_info "secret-name"
    pg_secret ← new self (environment ^^ "-PostgresSecret") (Resource.imported_secret secret_name)
    layer ←
        new self (environment ^^ "-Psycopg2Layer")
          (Resource.layer_version "lambda_layers/psycopg2" ("PYTHON_3_12" ∷ []))
    db_creator_lambda ← new self (environment ^^ "-DBCreatorLambda") (
        Resource.function (record {
          runtime = "PYTHON_3_12";
          handler = "index.handler";
          function_name = environment ^^ "-postgres-db-creator";
          code = "Postgres.Handler";
          vpc = some vpc;
          subnet_type = some "PRIVATE_WITH_EGRESS";
          security_groups = pg_sg ∷ [];
          timeout = some 300;
          layers = layer ∷ [];
        }))
    emit (Call.grant_read pg_secret db_creator_lambda)
    new self "DatabaseCreator" (
        Resource.database_creator (cdk.attr db_creator_lambda "function_arn")
          (database_request (cdk.attr pg_secret "secret_arn")))
    pure (record { stack = self; pg_sg = pg_sg; pg_secret = pg_secret })
