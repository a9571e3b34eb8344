-- ===== src/Services/Mcp.antt =====
-- ecomm_modulith_cdk/Constructs/mcp_service.py
use services_modulith_infra.Base.{String, true, false, none, some, [], ◌∷◌, ◌^^◌}
use services_modulith_infra.Base.Dict.{Dict}
use services_modulith_infra.Cdk.{Handle, Resource, Call, Build, pure, new, emit, item, ◌>>=◌, ◌>>◌}

pub record McpProps : Type 0 where
  pub cluster : Handle
  pub task_role : Handle
  pub execution_role : Handle
  pub repo_secret : Handle
  pub weather_secret_name : String
  pub namespace : String
  pub qdrant_info : Dict String
  pub zipkin_info : Dict String
  pub active_profile : String
  pub environment : String

pub record McpService : Type 0 where
  pub node : Handle
  pub mcp_task_def : Handle
  pub mcp_service : Handle

unfoldable pub mcp_service : Handle → String → McpProps → Build McpService
mcp_service scope id props = do
  self ← new scope id Resource.service_construct
  let pipeline_env = props.environment
  task ← new self (pipeline_env ^^ "-McpServiceTaskDef") (
      Resource.task_definition (record {
        execution_role = some props.execution_role;
        task_role = some props.task_role;
        cpu = 1024;
        memory_limit_mib = 2048;
      }))
  zipkin_host ← item props.zipkin_info "zipkin-host"
  zipkin_port ← item props.zipkin_info "zipkin-port"
  qdrant_host ← item props.qdrant_info "qdrant-host"
  qdrant_port ← item props.qdrant_info "qdrant-port"
  emit (
      Call.add_container task (pipeline_env ^^ "-Mcp") (record {
        image = record {
          name = "ghcr.io/derrick4084/spring-ai-mcp:latest";
          credentials = some props.repo_secret;
        };
        container_name = pipeline_env ^^ "-mcp-server";
        essential = true;
        command = none;
        cpu = none;
        memory_limit_mib = none;
        environment =
            ("JAVA_TOOL_OPTIONS", "-Xms512m -Xmx1536m -XX:+UseG1GC")
            ∷ ("SPRING_PROFILES_ACTIVE", props.active_profile)
            ∷ ("WEATHER_API_SECRET_NAME", props.weather_secret_name)
            ∷ ("ZIPKIN_HOST", zipkin_host)
            ∷ ("ZIPKIN_PORT", zipkin_port)
            ∷ ("QDRANT_HOST", qdrant_host)
            ∷ ("QDRANT_PORT", qdrant_port)
            ∷ [];
        logging = record { stream_prefix = pipeline_env ^^ "-mcp"; retention_days = 7 };
        port_mappings = record { container_port = 8075; name = pipeline_env ^^ "-mcp-http" } ∷ [];
        health_check = some (record {
          command = "CMD-SHELL" ∷ "curl -f http://localhost:8075/actuator/health || exit 1" ∷ [];
          interval = 30;
          timeout = 5;
          retries = 3;
          start_period = 60;
        });
      }))
  service ← new self (pipeline_env ^^ "-McpService") (
      Resource.fargate_service (record {
        cluster = props.cluster;
        task_definition = task;
        desired_count = 2;
        assign_public_ip = false;
        service_name = pipeline_env ^^ "-mcp-service";
        enable_execute_command = true;
        zone_rebalancing = false;
        service_connect = none;
        subnet_type = none;
        health_check_grace_period = none;
        circuit_breaker_rollback = false;
      }))
  emit (
      Call.enable_service_connect service (record {
        log_driver = record { stream_prefix = pipeline_env ^^ "-mcp-connect"; retention_days = 1 };
        namespace = props.namespace;
        services =
            record {
              port_mapping_name = pipeline_env ^^ "-mcp-http";
              dns_name = "mcp-svc";
              port = 8075;
              discovery_name = "mcp-svc";
              idle_timeout = 3600;
            }
            ∷ [];
      }))
  pure (record { node = self; mcp_task_def = task; mcp_service = service })
