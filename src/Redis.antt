-- ===== src/Redis.antt =====
-- ecomm_modulith_cdk/Redis: the cache cluster, and the inspection tool that only dev has.
mod Cluster
mod Insight
pub use Cluster.{RedisClusterStack, subnet_ids}
unfoldable pub use Cluster.{redis_cluster_stack, redis_info}
pub use Insight.{RedisInsightStack, insight_user_data}
unfoldable pub use Insight.{redis_insight_stack, insight_info}
