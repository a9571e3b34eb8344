-- ===== src/Redis/Cluster.antt =====
-- ecomm_modulith_cdk/Redis/redis_stack.py
use services_modulith_infra.Base.{String, true, none, List, [], ◌∷◌, map, ◌^^◌}
use services_modulith_infra.Base.Dict.{Dict}
use services_modulith_infra.Cdk.{
  Handle, Cdk, Environment, Resource, Call, any_ipv4, Build, pure, new, emit, ingress, ◌>>=◌, ◌>>◌,
}

pub record RedisClusterStack : Type 0 where
  pub stack : Handle
  pub redis_sg : Handle
  pub redis_cluster : Handle

-- `xs`, or `other` if there are none: `if not xs: xs = other`.
abbrev pub or_else : List String → List String → List String
or_else [] other = other
or_else (x ∷ xs) other = x ∷ xs

module _ (cdk : Cdk) where
  abbrev pub ids_of : List Handle → List String
  ids_of = map (λ subnet. cdk.attr subnet "subnet_id")

  -- The private subnets, or the isolated ones where there is no private one.
  unfoldable pub subnet_ids : Handle → List String
  subnet_ids vpc =
      or_else (ids_of (cdk.parts vpc "private_subnets")) (ids_of (cdk.parts vpc "isolated_subnets"))

  unfoldable pub redis_cluster_stack :
      Handle → String → Handle → String → Environment → Build RedisClusterStack
  redis_cluster_stack scope construct_id vpc environment env = do
    self ← new scope construct_id (Resource.stack none env)
    group ← new self (environment ^^ "-RedisSecurityGroup") (
        Resource.security_group (record {
          vpc = vpc;
          security_group_name = environment ^^ "-redis-sg";
          description = "Security group for Redis cache";
        }))
    ingress group any_ipv4 6379 "Allow inbound traffic on port 6379"
    subnets ← new self (environment ^^ "-RedisSubnetGroup") (
        Resource.subnet_group (record {
          name = environment ^^ "-redis-subnet-group";
          subnet_ids = subnet_ids vpc;
          description = "Subnet group for Redis cache";
        }))
    cluster ← new self (environment ^^ "-RedisCluster") (
        Resource.replication_group (record {
          description = environment ^^ "-Redis replication group";
          cache_node_type = "cache.t3.micro";
          engine = "redis";
          engine_version = "7.1";
          port = 6379;
          cache_subnet_group_name = cdk.attr subnets "cache_subnet_group_name";
          security_group_ids = cdk.attr group "security_group_id" ∷ [];
          automatic_failover_enabled = true;
          multi_az_enabled = true;
          num_cache_clusters = 2;
          at_rest_encryption_enabled = true;
          transit_encryption_enabled = true;
        }))
    emit (Call.apply_removal_policy cluster "DESTROY")
    pure (record { stack = self; redis_sg = group; redis_cluster = cluster })

  -- The property `redis_info`.
  unfoldable pub redis_info : RedisClusterStack → Dict String
  redis_info s =
      ("redis-endpoint", cdk.as_string (cdk.attr s.redis_cluster "attr_primary_end_point"))
      ∷ ("redis-port", cdk.as_string (cdk.attr s.redis_cluster "attr_primary_end_point_port"))
      ∷ ("redis-sg-id", cdk.attr s.redis_sg "security_group_id")
      ∷ []
