-- ===== src/Postgres.antt =====
-- ecomm_modulith_cdk/Postgres: the relational database, and the function that fills it.
mod Cluster
mod Config
pub mod Handler
pub use Cluster.{PostgresDbStack}
unfoldable pub use Cluster.{postgres_db_stack, postgres_info}
pub use Config.{PostgresConfigStack, database_request}
unfoldable pub use Config.{postgres_config_stack}
