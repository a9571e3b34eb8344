-- ===== src/Services/Ecomm.antt =====
-- ecomm_modulith_cdk/Constructs/ecomm_service.py
use services_modulith_infra.Base.{String, true, false, none, some, [], ◌∷◌, ◌^^◌}
use services_modulith_infra.Base.Dict.{Dict}
use services_modulith_infra.Cdk.{
  Handle, Cdk, Resource, Call, group, Build, pure, new, emit, ingress, item, ◌>>=◌, ◌>>◌,
}

pub record EcommProps : Type 0 where
  pub cluster : Handle
  pub task_role : Handle
  pub execution_role : Handle
  pub repo_secret : Handle
  pub pg_secret_name : String
  pub docdb_secret_name : String
  pub pg_sg_id : String
  pub docdb_sg_id : String
  pub redis_info : Dict String
  pub zipkin_info : Dict String
  pub namespace : String
  pub active_profile : String
  pub environment : String

pub record EcommService : Type 0 where
  pub node : Handle
  pub ecomm_task_def : Handle
  pub ecomm_service : Handle

module _ (cdk : Cdk) where
  unfoldable pub ecomm_service : Handle → String → EcommProps → Build EcommService
  ecomm_service scope id props = do
    self ← new scope id Resource.service_construct
    let pipeline_env = props.environment
    task ← new self (pipeline_env ^^ "-EcommAppFargateServiceTaskDef") (
        Resource.task_definition (record {
          execution_role = some props.execution_role;
          task_role = some props.task_role;
          cpu = 1024;
          memory_limit_mib = 2048;
        }))
    zipkin_host ← item props.zipkin_info "zipkin-host"
    zipkin_port ← item props.zipkin_info "zipkin-port"
    redis_host ← item props.redis_info "redis-endpoint"
    redis_port ← item props.redis_info "redis-port"
    emit (
        Call.add_container task (pipeline_env ^^ "-ecomm-app-svc") (record {
          image = record {
            name = "ghcr.io/derrick4084/services-modulith:latest";
            credentials = some props.repo_secret;
          };
          container_name = pipeline_env ^^ "-ecomm-service";
          essential = true;
          command = none;
          cpu = none;
          memory_limit_mib = none;
          environment =
              ("POSTGRES_DB_SECRET_NAME", props.pg_secret_name)
              ∷ ("DOCUMENTDB_SECRET_NAME", props.docdb_secret_name)
              ∷ ("JAVA_TOOL_OPTIONS", "-Xms512m -Xmx3200m -XX:+UseG1GC")
              ∷ ("SPRING_PROFILES_ACTIVE", props.active_profile)
              ∷ ("ZIPKIN_HOST", zipkin_host)
              ∷ ("ZIPKIN_PORT", zipkin_port)
              ∷ ("REDIS_HOST", redis_host)
              ∷ ("REDIS_PORT", redis_port)
              ∷ [];
          logging = record { stream_prefix = pipeline_env ^^ "-ecomm-service"; retention_days = 7 };
          port_mappings =
              record { container_port = 8079; name = pipeline_env ^^ "-ecomm-http" } ∷ [];
          health_check = some (record {
            command = "CMD-SHELL" ∷ "curl -f http://localhost:8079/actuator/health || exit 1" ∷ [];
            interval = 30;
            timeout = 5;
            retries = 3;
            start_period = 60;
          });
        }))
    service ← new self (pipeline_env ^^ "-EcommAppService") (
        Resource.fargate_service (record {
          cluster = props.cluster;
          task_definition = task;
          desired_count = 2;
          assign_public_ip = false;
          service_name = pipeline_env ^^ "-ecomm-service";
          enable_execute_command = true;
          zone_rebalancing = false;
          service_connect = none;
          subnet_type = none;
          health_check_grace_period = none;
          circuit_breaker_rollback = false;
        }))
    emit (
        Call.enable_service_connect service (record {
          log_driver = record {
            stream_prefix = pipeline_env ^^ "-ecomm-svc-connect";
            retention_days = 1;
          };
          namespace = props.namespace;
          services =
              record {
                port_mapping_name = pipeline_env ^^ "-ecomm-http";
                dns_name = "ecomm-svc";
                port = 8079;
                discovery_name = "ecomm-svc";
                idle_timeout = 3600;
              }
              ∷ [];
        }))
    docdb_sg ←
        new self (pipeline_env ^^ "-DocDbSG") (Resource.imported_security_group props.docdb_sg_id)
    ingress docdb_sg (group (cdk.part service "connections.security_groups[0]")) 27017
        "Allow Ecomm App service to access DocumentDB"
    postgres_sg ←
        new self (pipeline_env ^^ "-PostgresSG") (Resource.imported_security_group props.pg_sg_id)
    ingress postgres_sg (group (cdk.part service "connections.security_groups[0]")) 5432
        "Allow ECS to talk to Postgres"
    pure (record { node = self; ecomm_task_def = task; ecomm_service = service })
