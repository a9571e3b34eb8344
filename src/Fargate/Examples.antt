-- ===== src/Fargate/Examples.antt =====
-- An internal service with a document database and no broker, and the services of one stack.
use services_modulith_infra.Base.{String, ℕ, ◌≡◌, refl, inl, none, some, [], ◌∷◌, ◌++◌, map, number}
use services_modulith_infra.Base.Dict.{Dict, lookup}
use services_modulith_infra.Cdk.{Handle, ok}
use services_modulith_infra.Cdk.Log.{collect}
use services_modulith_infra.Cdk.Sample.{sample}
use services_modulith_infra.Fargate.Internal.{
  InternalService, set_from, base_environment, service_environment, create_internal_service,
}
use services_modulith_infra.Fargate.Runs.{allows, create_internal_service-returns}
use services_modulith_infra.Fargate.Discovery.{found_at, addresses-found}
use services_modulith_infra.Ports.{AreConsistent, connects, services-AreConsistent}
use services_modulith_infra.Services.{
  EcommProps, ecomm_service, RagProps, rag_service, McpProps, mcp_service, MailProps, mail_service,
  MongoExpressProps, mongo_express_service,
}

abbrev stack_path : Handle
stack_path = "dev-EcsFargateStack" ∷ []

abbrev orders : InternalService
orders = record {
  cluster = "dev-EcsCluster" ∷ stack_path;
  name = "grpc-order-svc";
  image = "orders:latest";
  namespace = "namespace" ∷ stack_path;
  kafka_info = none;
  execution_role = none;
  task_role = none;
  repo_secret = none;
  docdb_info = some (("secret-name", "documents") ∷ []);
  postgres_info = some [];
  start_period_seconds = 150;
  health_check_grace_period_seconds = 240;
  cpu_limit = 512;
  memory_limit = 2048;
  jvm_opt = "-Xms512m";
}

abbrev orders_environment : Dict String
orders_environment = base_environment "-Xms512m" ++ ("DOCUMENT_DB_SECRET_NAME", "documents") ∷ []

create_internal_service-returns_example :
    let run = create_internal_service sample stack_path orders in
    (run.result ≡ ok ("grpc-order-svcService" ∷ stack_path))
    × AreConsistent run.calls
    × (collect allows run.calls ≡ 9090 ∷ [])
create_internal_service-returns_example =
    create_internal_service-returns sample stack_path orders refl

services-AreConsistent_example :
    ((props : McpProps) → AreConsistent (mcp_service stack_path "service" props).calls)
    × ((props : RagProps) → AreConsistent (rag_service sample stack_path "service" props).calls)
    × ((props : MailProps) → AreConsistent (mail_service sample stack_path "service" props).calls)
    × ((props : MongoExpressProps)
        → AreConsistent (mongo_express_service sample stack_path "service" props).calls)
    × ((props : EcommProps) → AreConsistent (ecomm_service sample stack_path "service" props).calls)
services-AreConsistent_example = services-AreConsistent sample stack_path "service"

abbrev payments : InternalService
payments = record {
  cluster = "dev-EcsCluster" ∷ stack_path;
  name = "grpc-payment-svc";
  image = "payments:latest";
  namespace = "namespace" ∷ stack_path;
  kafka_info = none;
  execution_role = none;
  task_role = none;
  repo_secret = none;
  docdb_info = none;
  postgres_info = none;
  start_period_seconds = 150;
  health_check_grace_period_seconds = 240;
  cpu_limit = 512;
  memory_limit = 2048;
  jvm_opt = "-Xms512m";
}

addresses-found_example :
    (port : ℕ) × (map found_at (connects (create_internal_service sample stack_path payments).calls)
      ≡ ("grpc-payment-svc", port) ∷ [])
    × (lookup "GRPC_PORT" orders_environment ≡ some "9090")
    × (number "9090" ≡ some port)
unfolding service_environment set_from
addresses-found_example =
    addresses-found sample stack_path orders payments orders_environment "PAYMENT_SERVICE_ADDR" refl
      (inl refl) refl refl
