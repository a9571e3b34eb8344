-- ===== src/App.antt =====
-- app.py: the stacks of the application, what each is told of the others, and their order.
mod Tests
mod Examples
pub mod Heap
pub mod Tree
pub mod Backends
pub mod Certificates
pub mod Database
pub mod Kinds
pub mod Secrets
mod Symbols
pub mod Order
pub mod Endpoints
pub mod Exposure
pub mod Deployment
pub mod Completion
pub mod Profiles
mod Names
pub mod Inventory
use services_modulith_infra.Base.{String, true, Option, none, some, [], ◌==◌, ◌^^◌}
use services_modulith_infra.Cdk.{Cdk, Environment, Call, Build, pure, emit, when, ◌>>=◌, ◌>>◌}
use services_modulith_infra.Vpc.{vpc_stack, get_vpc}
use services_modulith_infra.Model.{ai_model_stack, model_info}
use services_modulith_infra.Qdrant.{qdrant_stack, qdrant_info}
use services_modulith_infra.Zipkin.{zipkin_stack, zipkin_info}
use services_modulith_infra.Redis.{redis_cluster_stack, redis_insight_stack, redis_info}
use services_modulith_infra.DocumentDb.{documentdb_stack, docdb_info}
use services_modulith_infra.Postgres.{postgres_db_stack, postgres_config_stack, postgres_info}
use services_modulith_infra.Fargate.{EcsFargateStack, ecs_fargate_stack}

-- `os.getenv("ENVIRONMENT", "prod")`
abbrev pub getenv_or : Option String → String → String
getenv_or none default = default
getenv_or (some v) default = v

module _ (cdk : Cdk) where
  abbrev pub environment_of : Environment
  environment_of = record { account = cdk.account_id; region = cdk.region }

  -- The whole of app.py for the value of the variable ENVIRONMENT. The root of the tree is `[]`.
  unfoldable pub app : Option String → Build EcsFargateStack
  unfolding vpc_stack ai_model_stack model_info qdrant_stack qdrant_info zipkin_stack zipkin_info
      redis_cluster_stack redis_insight_stack redis_info documentdb_stack docdb_info
      postgres_db_stack postgres_config_stack postgres_info ecs_fargate_stack
  app variable = do
    let pipeline_profile = getenv_or variable "prod"
    let env = environment_of
    default_vpc ← vpc_stack [] (pipeline_profile ^^ "-VpcStack") pipeline_profile env
    let vpc = get_vpc default_vpc
    model ← ai_model_stack cdk [] (pipeline_profile ^^ "-AiModelStack") vpc pipeline_profile env
    emit (Call.add_dependency model.stack default_vpc.stack)
    qdrant ← qdrant_stack cdk [] (pipeline_profile ^^ "-QdrantStack") vpc pipeline_profile env
    emit (Call.add_dependency qdrant.stack default_vpc.stack)
    zipkin ← zipkin_stack cdk [] (pipeline_profile ^^ "-ZipkinStack") vpc pipeline_profile env
    emit (Call.add_dependency zipkin.stack default_vpc.stack)
    redis ←
        redis_cluster_stack cdk [] (pipeline_profile ^^ "-RedisClusterStack") vpc pipeline_profile
          env
    emit (Call.add_dependency redis.stack default_vpc.stack)
    when (pipeline_profile == "dev") do
      insight ←
          redis_insight_stack cdk [] (pipeline_profile ^^ "-RedisInsightStack") vpc pipeline_profile
            (redis_info cdk redis) env
      emit (Call.add_dependency insight.stack redis.stack)
    documents ←
        documentdb_stack cdk [] (pipeline_profile ^^ "-DocumentDBStack") vpc pipeline_profile env
    emit (Call.add_dependency documents.stack default_vpc.stack)
    postgres ←
        postgres_db_stack cdk [] (pipeline_profile ^^ "-PostgresDBStack") vpc pipeline_profile env
    emit (Call.add_dependency postgres.stack default_vpc.stack)
    config ←
        postgres_config_stack cdk [] (pipeline_profile ^^ "-PostgresConfigStack") vpc
          (postgres_info cdk postgres) pipeline_profile env
    emit (Call.add_dependency config.stack postgres.stack)
    ecs ←
        ecs_fargate_stack cdk [] (pipeline_profile ^^ "-EcsFargateStack") vpc
          (record {
            pg_info = postgres_info cdk postgres;
            docdb_info = docdb_info cdk documents;
            model_info = model_info cdk model;
            redis_info = redis_info cdk redis;
            qdrant_info = qdrant_info cdk qdrant;
            zipkin_info = zipkin_info cdk zipkin;
          })
          pipeline_profile true env
    emit (Call.add_dependency ecs.stack default_vpc.stack)
    emit (Call.add_dependency ecs.stack redis.stack)
    emit (Call.add_dependency ecs.stack documents.stack)
    emit (Call.add_dependency ecs.stack postgres.stack)
    emit (Call.add_dependency ecs.stack model.stack)
    emit (Call.add_dependency ecs.stack qdrant.stack)
    emit Call.synth
    pure ecs
