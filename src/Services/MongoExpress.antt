-- ===== src/Services/MongoExpress.antt =====
-- ecomm_modulith_cdk/Constructs/mongo_exp_service.py
use services_modulith_infra.Base.{String, true, false, none, some, [], ◌∷◌, ◌^^◌}
use services_modulith_infra.Cdk.{
  Handle, Cdk, Resource, Call, Build, pure, new, emit, cfn_output, ◌>>=◌, ◌>>◌,
}

pub record MongoExpressProps : Type 0 where
  pub cluster : Handle
  pub execution_role : Handle
  pub task_role : Handle
  pub namespace : String
  pub secret_name : String

-- A container is a construct in the scope of its task definition.
unfoldable pub add_cert_init : Handle → String → String → Build Handle
add_cert_init task_def s3_uri log_prefix = do
  emit (Call.add_volume task_def "certs")
  emit (
      Call.add_container task_def (log_prefix ^^ "-cert-init") (record {
        image = record { name = "amazon/aws-cli:latest"; credentials = none };
        container_name = log_prefix ^^ "-cert-init";
        essential = false;
        command = some ("s3" ∷ "cp" ∷ s3_uri ∷ "/certs/ca-bundle.pem" ∷ []);
        cpu = none;
        memory_limit_mib = none;
        environment = [];
        logging = record { stream_prefix = log_prefix ^^ "-cert-init"; retention_days = 1 };
        port_mappings = [];
        health_check = none;
      }))
  let init = (log_prefix ^^ "-cert-init") ∷ task_def
  emit (Call.add_mount_point init "/certs" "certs" false)
  pure init

module _ (cdk : Cdk) where
  abbrev pub documentdb_uri : Handle → String
  documentdb_uri secret =
      "mongodb://"
      ^^ cdk.secret_json secret "username"
      ^^ ":"
      ^^ cdk.secret_json secret "password"
      ^^ "@"
      ^^ cdk.secret_json secret "documentdb_endpoint"
      ^^ ":"
      ^^ cdk.secret_json secret "port"
      ^^ "/?ssl=true&replicaSet=rs0&readPreference=secondaryPreferred&retryWrites=false"

  unfoldable pub mongo_express_service : Handle → String → MongoExpressProps → Build Handle
  unfolding add_cert_init
  mongo_express_service scope id props = do
    self ← new scope id Resource.service_construct
    mongo_secret ← new self "MongoExpressSecret" (Resource.imported_secret props.secret_name)
    task ← new self "MongoExpressTaskDef" (
        Resource.task_definition (record {
          execution_role = some props.execution_role;
          task_role = some props.task_role;
          cpu = 512;
          memory_limit_mib = 1024;
        }))
    cert_init ← add_cert_init task "s3://all-purpose-utility/certs/ca-bundle.pem" "documentdb"
    emit (
        Call.add_container task "mongo-express" (record {
          image = record { name = "mongo-express:latest"; credentials = none };
          container_name = "mongo-express";
          essential = true;
          command = none;
          cpu = none;
          memory_limit_mib = none;
          environment =
              ("ME_CONFIG_MONGODB_URL", documentdb_uri mongo_secret)
              ∷ ("ME_CONFIG_MONGODB_SSL", "true")
              ∷ ("ME_CONFIG_BASICAUTH_USERNAME", "admin")
              ∷ ("ME_CONFIG_BASICAUTH_PASSWORD", "password123")
              ∷ ("ME_CONFIG_MONGODB_AUTH_DATABASE", "admin")
              ∷ ("ME_CONFIG_MONGODB_AUTH_SOURCE", "admin")
              ∷ ("ME_CONFIG_MONGODB_CA_FILE", "/certs/ca-bundle.pem")
              ∷ ("ME_CONFIG_HEALTH_CHECK_PATH", "/status")
              ∷ [];
          logging = record { stream_prefix = "mongo-express"; retention_days = 1 };
          port_mappings = record { container_port = 8081; name = "http" } ∷ [];
          health_check = none;
        }))
    let main_container = "mongo-express" ∷ task
    -- `if cert_init`: a construct is always true.
    emit (Call.add_mount_point main_container "/certs" "certs" true)
    emit (Call.add_container_dependency main_container cert_init "SUCCESS")
    service ← new self "MongoExpressService" (
        Resource.load_balanced_service (record {
          cluster = props.cluster;
          task_definition = task;
          cpu = some 512;
          memory_limit_mib = some 1024;
          desired_count = 2;
          public_load_balancer = true;
          service_name = "mongo-express-documentdb-svc";
          load_balancer_name = "mongo-exp-documentdb-lb";
          protocol = "HTTP";
          health_check_grace_period = 60;
          enable_execute_command = true;
          circuit_breaker_rollback = false;
        }))
    emit (
        Call.configure_health_check (cdk.part service "target_group") (record {
          path = "/status";
          port = "8081";
          interval = 30;
          timeout = 5;
          healthy_threshold_count = 2;
          unhealthy_threshold_count = 3;
        }))
    cfn_output self "MongoExpressDocumentDBALB"
        (cdk.attr (cdk.part service "load_balancer") "load_balancer_dns_name") none
        (some "MongoExpressDocumentDBALB")
    pure self
