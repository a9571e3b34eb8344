-- ===== src/Fargate.antt =====
-- ecomm_modulith_cdk/Fargate: the ECS cluster with its services, and the helpers of utils.py.
pub mod Internal
pub mod Scaling
mod Cluster
pub mod Environment
pub mod Runs
pub mod Discovery
mod Examples
pub use Cluster.{EcsFargateStack, Infos}
unfoldable pub use Cluster.{ecs_fargate_stack, ecs_info}
