-- ===== src/Cdk/Compute.antt =====
-- The arguments of the ECS calls: task definitions, containers, services, scaling.
use services_modulith_infra.Base.{ℕ, String, Bool, Option, List}
use services_modulith_infra.Base.Dict.{Dict}
use services_modulith_infra.Base.Int.{ℤ}
use services_modulith_infra.Cdk.Library.{Handle}

pub record TaskDefinition : Type 0 where
  pub execution_role : Option Handle
  pub task_role : Option Handle
  pub cpu : ℕ
  pub memory_limit_mib : ℕ

-- `ContainerImage.from_registry(name, credentials=…)`
pub record Image : Type 0 where
  pub name : String
  pub credentials : Option Handle

pub record PortMapping : Type 0 where
  pub container_port : ℕ
  pub name : String

-- Durations are in seconds.
pub record HealthCheck : Type 0 where
  pub command : List String
  pub interval : ℕ
  pub timeout : ℕ
  pub retries : ℕ
  pub start_period : ℕ

-- Log retention is in days.
pub record Logging : Type 0 where
  pub stream_prefix : String
  pub retention_days : ℕ

pub record Container : Type 0 where
  pub image : Image
  pub container_name : String
  pub essential : Bool
  pub command : Option (List String)
  pub cpu : Option ℕ
  pub memory_limit_mib : Option ℕ
  pub environment : Dict String
  pub logging : Logging
  pub port_mappings : List PortMapping
  pub health_check : Option HealthCheck

pub record ConnectService : Type 0 where
  pub port_mapping_name : String
  pub dns_name : String
  pub port : ℕ
  pub discovery_name : String
  pub idle_timeout : ℕ

pub record ServiceConnect : Type 0 where
  pub log_driver : Logging
  pub namespace : String
  pub services : List ConnectService

pub record FargateService : Type 0 where
  pub cluster : Handle
  pub task_definition : Handle
  pub desired_count : ℕ
  pub assign_public_ip : Bool
  pub service_name : String
  pub enable_execute_command : Bool
  pub zone_rebalancing : Bool
  pub service_connect : Option ServiceConnect
  pub subnet_type : Option String
  pub health_check_grace_period : Option ℕ
  pub circuit_breaker_rollback : Bool

pub record LoadBalancedService : Type 0 where
  pub cluster : Handle
  pub task_definition : Handle
  pub cpu : Option ℕ
  pub memory_limit_mib : Option ℕ
  pub desired_count : ℕ
  pub public_load_balancer : Bool
  pub service_name : String
  pub load_balancer_name : String
  pub protocol : String
  pub health_check_grace_period : ℕ
  pub enable_execute_command : Bool
  pub circuit_breaker_rollback : Bool

pub record TargetHealth : Type 0 where
  pub path : String
  pub port : String
  pub interval : ℕ
  pub timeout : ℕ
  pub healthy_threshold_count : ℕ
  pub unhealthy_threshold_count : ℕ

pub record Metric : Type 0 where
  pub namespace : String
  pub metric_name : String
  pub dimensions : Dict String
  pub statistic : String
  pub period : ℕ

-- A bound that is left out is `none`.
pub record ScalingInterval : Type 0 where
  pub lower : Option ℕ
  pub upper : Option ℕ
  pub change : ℤ

pub record CpuScaling : Type 0 where
  pub target_utilization_percent : ℕ
  pub scale_in_cooldown : ℕ
  pub scale_out_cooldown : ℕ

-- The adjustment type is CHANGE_IN_CAPACITY wherever the program names one.
pub record StepScaling : Type 0 where
  pub metric : Metric
  pub scaling_steps : List ScalingInterval
  pub cooldown : ℕ
