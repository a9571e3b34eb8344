-- ===== src/Services/Rag.antt =====
-- ecomm_modulith_cdk/Constructs/rag_service.py
use services_modulith_infra.Base.{String, true, false, none, some, [], ◌∷◌, ◌^^◌, if◌then◌else◌}
use services_modulith_infra.Base.Dict.{Dict, nonempty}
use services_modulith_infra.Cdk.{
  Handle, Cdk, Resource, Call, Build, pure, new, emit, item, ◌>>=◌, ◌>>◌,
}

pub record RagProps : Type 0 where
  pub cluster : Handle
  pub task_role : Handle
  pub execution_role : Handle
  pub repo_secret : Handle
  pub namespace : String
  pub active_profile : String
  pub qdrant_info : Dict String
  pub model_info : Dict String
  pub zipkin_info : Dict String
  pub environment : String

pub record RagService : Type 0 where
  pub node : Handle
  pub rag_task_def : Handle
  pub rag_service : Handle

-- `model_info[key] if model_info else "localhost"`
abbrev pub model_item : Dict String → String → Build String
model_item info key = if nonempty info then item info key else pure "localhost"

module _ (cdk : Cdk) where
  unfoldable pub rag_service : Handle → String → RagProps → Build RagService
  rag_service scope id props = do
    self ← new scope id Resource.service_construct
    let pipeline_env = props.environment
    task ← new self (pipeline_env ^^ "-RagServiceTaskDef") (
        Resource.task_definition (record {
          execution_role = some props.execution_role;
          task_role = some props.task_role;
          cpu = 1024;
          memory_limit_mib = 2048;
        }))
    model_ip ← model_item props.model_info "model-ip"
    model_dns ← model_item props.model_info "model-dns"
    zipkin_host ← item props.zipkin_info "zipkin-host"
    zipkin_port ← item props.zipkin_info "zipkin-port"
    qdrant_host ← item props.qdrant_info "qdrant-host"
    qdrant_port ← item props.qdrant_info "qdrant-port"
    emit (
        Call.add_container task (pipeline_env ^^ "-rag") (record {
          image = record {
            name = "ghcr.io/derrick4084/spring-ai-rag:latest";
            credentials = some props.repo_secret;
          };
          container_name = pipeline_env ^^ "-rag";
          essential = true;
          command = none;
          cpu = none;
          memory_limit_mib = none;
          environment =
              ("JAVA_TOOL_OPTIONS", "-Xms512m -Xmx1536m -XX:+UseG1GC")
              ∷ ("SPRING_PROFILES_ACTIVE", props.active_profile)
              ∷ ("MODEL_IP", model_ip)
              ∷ ("MODEL_DNS", model_dns)
              ∷ ("ZIPKIN_HOST", zipkin_host)
              ∷ ("ZIPKIN_PORT", zipkin_port)
              ∷ ("QDRANT_HOST", qdrant_host)
              ∷ ("QDRANT_PORT", qdrant_port)
              ∷ [];
          logging = record { stream_prefix = pipeline_env ^^ "-rag"; retention_days = 7 };
          port_mappings = record { container_port = 8080; name = pipeline_env ^^ "-rag-http" } ∷ [];
          health_check = none;
        }))
    service ← new self (pipeline_env ^^ "-RagService") (
        Resource.load_balanced_service (record {
          cluster = props.cluster;
          task_definition = task;
          cpu = none;
          memory_limit_mib = none;
          desired_count = 2;
          public_load_balancer = true;
          service_name = pipeline_env ^^ "-rag-service";
          load_balancer_name = pipeline_env ^^ "-spring-lb-service";
          protocol = "HTTP";
          health_check_grace_period = 60;
          enable_execute_command = false;
          circuit_breaker_rollback = false;
        }))
    emit (
        Call.configure_health_check (cdk.part service "target_group") (record {
          path = "/actuator/health";
          port = "8080";
          interval = 45;
          timeout = 10;
          healthy_threshold_count = 2;
          unhealthy_threshold_count = 3;
        }))
    emit (
        Call.enable_service_connect (cdk.part service "service") (record {
          log_driver = record {
            stream_prefix = pipeline_env ^^ "-rag-connect";
            retention_days = 1;
          };
          namespace = props.namespace;
          services =
              record {
                port_mapping_name = pipeline_env ^^ "-rag-http";
                dns_name = "rag-svc";
                port = 8080;
                discovery_name = "rag-svc";
                idle_timeout = 3600;
              }
              ∷ [];
        }))
    pure (record { node = self; rag_task_def = task; rag_service = service })

  -- The properties `dns_name` and `service_name`.
  unfoldable pub dns_name : RagService → String
  dns_name s = cdk.attr (cdk.part s.rag_service "load_balancer") "load_balancer_dns_name"

  unfoldable pub service_name : RagService → String
  service_name s = cdk.attr (cdk.part s.rag_service "service") "service_name"
