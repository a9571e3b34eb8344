-- ===== src/Services/Mail.antt =====
-- ecomm_modulith_cdk/Constructs/mail_service.py
use services_modulith_infra.Base.{String, true, none, some, [], ◌∷◌}
use services_modulith_infra.Cdk.{
  Handle, Cdk, Resource, Call, any_ipv4, Build, pure, new, emit, ingress, ◌>>=◌, ◌>>◌,
}

pub record MailProps : Type 0 where
  pub cluster : Handle
  pub execution_role : Handle
  pub namespace : String

module _ (cdk : Cdk) where
  -- The result is the construct's own path.
  unfoldable pub mail_service : Handle → String → MailProps → Build Handle
  mail_service scope id props = do
    self ← new scope id Resource.service_construct
    task ← new self "MailServiceTaskDef" (
        Resource.task_definition (record {
          execution_role = some props.execution_role;
          task_role = none;
          cpu = 1024;
          memory_limit_mib = 2048;
        }))
    emit (
        Call.add_container task "smtp-mail-svc" (record {
          image = record { name = "maildev/maildev"; credentials = none };
          container_name = "smtp-mail-svc";
          essential = true;
          command = none;
          cpu = none;
          memory_limit_mib = none;
          environment =
              ("MAILDEV_SMTP_PORT", "1025")
              ∷ ("MAILDEV_WEB_PORT", "1080")
              ∷ ("MAILDEV_INCOMING_USER", "mailuser")
              ∷ ("MAILDEV_INCOMING_PASS", "mailpassword")
              ∷ [];
          logging = record { stream_prefix = "smtp-mail-svc"; retention_days = 1 };
          port_mappings =
              record { container_port = 1080; name = "http" }
              ∷ record { container_port = 1025; name = "smtp" }
              ∷ [];
          health_check = none;
        }))
    service ← new self "MailService" (
        Resource.load_balanced_service (record {
          cluster = props.cluster;
          task_definition = task;
          cpu = none;
          memory_limit_mib = none;
          desired_count = 1;
          public_load_balancer = true;
          service_name = "smtp-mail-svc";
          load_balancer_name = "micro-mail-svc-lb";
          protocol = "HTTP";
          health_check_grace_period = 60;
          enable_execute_command = true;
          circuit_breaker_rollback = true;
        }))
    emit (
        Call.configure_health_check (cdk.part service "target_group") (record {
          path = "/";
          port = "1080";
          interval = 30;
          timeout = 5;
          healthy_threshold_count = 2;
          unhealthy_threshold_count = 3;
        }))
    emit (
        Call.enable_service_connect (cdk.part service "service") (record {
          log_driver = record { stream_prefix = "mail-svc-connect"; retention_days = 1 };
          namespace = props.namespace;
          services =
              record {
                port_mapping_name = "smtp";
                dns_name = "smtp-mail-svc";
                port = 1025;
                discovery_name = "smtp-mail-svc";
                idle_timeout = 3600;
              }
              ∷ [];
        }))
    ingress (cdk.part service "service.connections.security_groups[0]") any_ipv4 1025
        "Allow incoming traffic to MailDev mail interface"
    pure self
