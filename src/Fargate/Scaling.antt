-- ===== src/Fargate/Scaling.antt =====
-- The scaling helpers of ecomm_modulith_cdk/Fargate/utils.py. Durations are in seconds.
pub mod Steps
pub mod Settles
mod Examples
use services_modulith_infra.Base.{none, some, List, [], ◌∷◌, ◌^^◌}
use services_modulith_infra.Base.Int.{pos, negsuc}
use services_modulith_infra.Cdk.{Handle, Cdk, Metric, ScalingInterval, Call, Build, emit, ◌>>◌}

module _ (cdk : Cdk) where
  -- `service.auto_scale_task_count(…)` returns the scalable target.
  abbrev pub target_of : Handle → Handle
  target_of service = cdk.part service "scalable_task_count"

  abbrev pub lag_metric : Handle → Metric
  lag_metric service = record {
    namespace = "Custom/Kafka";
    metric_name = "ConsumerLag";
    dimensions = ("Service", cdk.attr service "service_name") ∷ [];
    statistic = "Average";
    period = 60;
  }

  abbrev pub zero_cpu_metric : Handle → Metric
  zero_cpu_metric service = record {
    namespace = "AWS/ECS";
    metric_name = "CPUUtilization";
    dimensions =
        ("ClusterName", cdk.attr (cdk.part service "cluster") "cluster_name")
        ∷ ("ServiceName", cdk.attr service "service_name")
        ∷ [];
    statistic = "Average";
    period = 300;
  }

  abbrev pub cpu_steps : List ScalingInterval
  cpu_steps = record { lower = none; upper = some 1; change = negsuc 9 } ∷ []

  abbrev pub lag_steps : List ScalingInterval
  lag_steps =
      record { lower = none; upper = some 100; change = negsuc 0 }
      ∷ record { lower = some 500; upper = none; change = pos 1 }
      ∷ record { lower = some 1000; upper = none; change = pos 2 }
      ∷ []

  abbrev pub lag_to_zero_steps : List ScalingInterval
  lag_to_zero_steps =
      record { lower = none; upper = some 0; change = negsuc 9 }
      ∷ record { lower = some 1; upper = none; change = pos 1 }
      ∷ record { lower = some 1000; upper = none; change = pos 3 }
      ∷ []

  unfoldable pub add_cpu_scale_to_zero : Handle → Build Unit
  add_cpu_scale_to_zero service = do
    emit (Call.auto_scale_task_count service 0 10)
    emit (
        Call.scale_on_cpu (target_of service) (cdk.attr service "service_name" ^^ "CpuScaleOut")
          (record {
            target_utilization_percent = 50;
            scale_in_cooldown = 300;
            scale_out_cooldown = 60;
          }))
    emit (
        Call.scale_on_metric (target_of service) (cdk.attr service "service_name" ^^ "ScaleToZero")
          (record { metric = zero_cpu_metric service; scaling_steps = cpu_steps; cooldown = 600 }))

  unfoldable pub add_autoscaling : Handle → Build Unit
  add_autoscaling service = do
    emit (Call.auto_scale_task_count service 2 10)
    emit (
        Call.scale_on_cpu (target_of service) "CpuScaling" (record {
          target_utilization_percent = 70;
          scale_in_cooldown = 60;
          scale_out_cooldown = 60;
        }))

  unfoldable pub add_kafka_lag_scaling : Handle → Build Unit
  add_kafka_lag_scaling service = do
    emit (Call.auto_scale_task_count service 2 10)
    emit (
        Call.scale_on_metric (target_of service) "KafkaLagScaling"
          (record { metric = lag_metric service; scaling_steps = lag_steps; cooldown = 120 }))

  unfoldable pub add_kafka_scale_to_zero : Handle → Build Unit
  add_kafka_scale_to_zero service = do
    emit (Call.auto_scale_task_count service 0 10)
    emit (
        Call.scale_on_metric (target_of service) "KafkaLagScaling" (record {
          metric = lag_metric service;
          scaling_steps = lag_to_zero_steps;
          cooldown = 120;
        }))
