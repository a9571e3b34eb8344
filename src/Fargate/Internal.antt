-- ===== src/Fargate/Internal.antt =====
-- `create_internal_service` of ecomm_modulith_cdk/Fargate/utils.py.
use services_modulith_infra.Base.{
  ℕ, String, Bool, true, false, Option, none, some, List, [], ◌∷◌, any, ◌==◌, ◌^^◌, if◌then◌else◌,
}
use services_modulith_infra.Base.Dict.{Dict, insert, nonempty}
use services_modulith_infra.Cdk.{
  Handle, Cdk, Container, Resource, Call, ipv4, Build, pure, new, emit, item, ◌>>=◌, ◌>>◌,
}

abbrev pub grpc_services : List String
grpc_services =
    "grpc-order-svc" ∷ "grpc-product-svc" ∷ "grpc-customer-svc" ∷ "grpc-payment-svc"
    ∷ "grpc-shipping-svc" ∷ []

-- The arguments; `None` and an empty dict are both false in the tests of the code.
pub record InternalService : Type 0 where
  pub cluster : Handle
  pub name : String
  pub image : String
  pub namespace : Handle
  pub kafka_info : Option (Dict String)
  pub execution_role : Option Handle
  pub task_role : Option Handle
  pub repo_secret : Option Handle
  pub docdb_info : Option (Dict String)
  pub postgres_info : Option (Dict String)
  pub start_period_seconds : ℕ
  pub health_check_grace_period_seconds : ℕ
  pub cpu_limit : ℕ
  pub memory_limit : ℕ
  pub jvm_opt : String

-- A call that leaves every optional argument at its default.
unfoldable pub with_defaults : Handle → String → String → Handle → InternalService
with_defaults cluster name image namespace = record {
  cluster = cluster;
  name = name;
  image = image;
  namespace = namespace;
  kafka_info = none;
  execution_role = none;
  task_role = none;
  repo_secret = none;
  docdb_info = none;
  postgres_info = none;
  start_period_seconds = 150;
  health_check_grace_period_seconds = 240;
  cpu_limit = 512;
  memory_limit = 2048;
  jvm_opt = "-Xms512m -Xmx1280m -XX:+UseG1GC";
}

-- `name in GRPC_SERVICES`
abbrev pub is_grpc : String → Bool
is_grpc name = any (λ s. name == s) grpc_services

-- `if info: environment_dict[key] = info[field]`
unfoldable pub set_from : String → String → Option (Dict String) → Dict String → Build (Dict String)
set_from key field none env = pure env
set_from key field (some info) env =
    if nonempty info then (do v ← item info field; pure (insert key v env)) else pure env

abbrev pub base_environment : String → Dict String
base_environment jvm_options =
    ("GRPC_PORT", "9090")
    ∷ ("PAYMENT_SERVICE_ADDR", "grpc-payment-svc")
    ∷ ("PRODUCT_SERVICE_ADDR", "grpc-product-svc")
    ∷ ("CUSTOMER_SERVICE_ADDR", "grpc-customer-svc")
    ∷ ("ORDER_SERVICE_ADDR", "grpc-order-svc")
    ∷ ("SHIPPING_SERVICE_ADDR", "grpc-shipping-svc")
    ∷ ("JAVA_TOOL_OPTIONS", jvm_options)
    ∷ []

unfoldable pub service_environment : InternalService → Build (Dict String)
unfolding set_from
service_environment s = do
  env₁ ← set_from "DOCUMENT_DB_SECRET_NAME" "secret-name" s.docdb_info (base_environment s.jvm_opt)
  env₂ ← set_from "SPRING_KAFKA_BOOTSTRAP_SERVERS" "bootstrap_brokers_tls" s.kafka_info env₁
  set_from "POSTGRES_DB_SECRET_NAME" "secret-name" s.postgres_info env₂

-- The port that the service listens on, its name, and the command that probes it.
abbrev pub service_port : Bool → ℕ
service_port grpc = if grpc then 9090 else 8080

abbrev pub port_name : Bool → String
port_name grpc = if grpc then "grpc" else "http"

abbrev pub probe : Bool → String
probe grpc =
    if grpc then "grpc_health_probe -addr=:9090 || exit 1" else "nc -z localhost 8080 || exit 1"

-- The arguments of `add_container`, in either branch of `if is_grpc`.
unfoldable pub container_of : InternalService → Bool → Dict String → Container
container_of s grpc env = record {
  image = record { name = s.image; credentials = s.repo_secret };
  container_name = s.name;
  essential = true;
  command = none;
  cpu = some s.cpu_limit;
  memory_limit_mib = some s.memory_limit;
  environment = env;
  logging = record { stream_prefix = s.name ^^ "Logs"; retention_days = 7 };
  port_mappings = record { container_port = service_port grpc; name = port_name grpc } ∷ [];
  health_check = some (record {
    command = "CMD-SHELL" ∷ probe grpc ∷ [];
    interval = 45;
    timeout = 10;
    retries = 5;
    start_period = s.start_period_seconds;
  });
}

module _ (cdk : Cdk) where
  unfoldable pub create_internal_service : Handle → InternalService → Build Handle
  unfolding container_of
  create_internal_service scope s = do
    task ← new scope (s.name ^^ "TaskDef") (
        Resource.task_definition (record {
          execution_role = s.execution_role;
          task_role = s.task_role;
          cpu = s.cpu_limit;
          memory_limit_mib = s.memory_limit;
        }))
    env ← service_environment s
    emit (Call.add_container task (s.name ^^ "Container") (container_of s (is_grpc s.name) env))
    service ← new scope (s.name ^^ "Service") (
        Resource.fargate_service (record {
          cluster = s.cluster;
          task_definition = task;
          desired_count = 2;
          assign_public_ip = false;
          service_name = s.name;
          enable_execute_command = true;
          zone_rebalancing = true;
          service_connect = some (record {
            log_driver = record { stream_prefix = s.name ^^ "-svc-connect"; retention_days = 1 };
            namespace = cdk.attr s.namespace "namespace_arn";
            services =
                record {
                  port_mapping_name = port_name (is_grpc s.name);
                  dns_name = s.name;
                  port = service_port (is_grpc s.name);
                  discovery_name = s.name;
                  idle_timeout = 3600;
                }
                ∷ [];
          });
          subnet_type = some "PRIVATE_WITH_EGRESS";
          health_check_grace_period = some s.health_check_grace_period_seconds;
          circuit_breaker_rollback = true;
        }))
    emit (
        Call.allow_from service (record {
          peer = ipv4 (cdk.attr (cdk.part s.cluster "vpc") "vpc_cidr_block");
          port = service_port (is_grpc s.name);
          description = "Allow " ^^ s.name ^^ " traffic from VPC";
        }))
    pure service
