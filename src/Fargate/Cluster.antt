-- ===== src/Fargate/Cluster.antt =====
-- ecomm_modulith_cdk/Fargate/fargate_stack.py
use services_modulith_infra.Base.{String, Bool, true, none, some, [], ◌∷◌, ◌^^◌, ◌==◌}
use services_modulith_infra.Base.Dict.{Dict}
use services_modulith_infra.Cdk.{
  Handle, Cdk, Environment, Statement, Resource, Call, Build, pure, new, emit, cfn_output, item,
  when, ◌>>=◌, ◌>>◌,
}
use services_modulith_infra.Services.{
  RagService, ecomm_service, rag_service, dns_name, service_name, mcp_service, mail_service,
  mongo_express_service,
}

-- What the stack is told of the stacks before it.
pub record Infos : Type 0 where
  pub pg_info : Dict String
  pub docdb_info : Dict String
  pub model_info : Dict String
  pub redis_info : Dict String
  pub qdrant_info : Dict String
  pub zipkin_info : Dict String

pub record EcsFargateStack : Type 0 where
  pub stack : Handle
  pub docdb_info : Dict String
  pub cluster : Handle
  pub execution_role : Handle
  pub task_role : Handle
  pub rag_service : RagService

module _ (cdk : Cdk) where
  abbrev pub secrets_arn : String
  secrets_arn = "arn:aws:secretsmanager:" ^^ cdk.region ^^ ":" ^^ cdk.account_id ^^ ":secret:*"

  abbrev pub ca_bundle_statement : Statement
  ca_bundle_statement = record {
    actions = "s3:GetObject" ∷ [];
    resources = "arn:aws:s3:::all-purpose-utility/certs/ca-bundle.pem" ∷ [];
  }

  abbrev pub secrets_statement : Statement
  secrets_statement = record {
    actions = "secretsmanager:GetSecretValue" ∷ "secretsmanager:DescribeSecret" ∷ [];
    resources = secrets_arn ∷ [];
  }

  abbrev pub database_statement : Statement
  database_statement = record {
    actions =
        "rds-db:DescribeDBClusters" ∷ "rds-db:Connect" ∷ "rds-db:DescribeDBInstances"
        ∷ "rds-db:DeleteDBInstance" ∷ "rds-db:CreateDBInstance" ∷ "rds-db:ModifyDBInstance" ∷ [];
    resources = "*" ∷ [];
  }

  abbrev pub documents_statement : Statement
  documents_statement = record {
    actions =
        "documentdb:Connect" ∷ "documentdb:DescribeDBClusters" ∷ "documentdb:Read"
        ∷ "documentdb:Write" ∷ [];
    resources = "*" ∷ [];
  }

  unfoldable pub ecs_fargate_stack :
      Handle → String → Handle → Infos → String → Bool → Environment → Build EcsFargateStack
  unfolding mcp_service rag_service mail_service mongo_express_service ecomm_service dns_name
  ecs_fargate_stack scope construct_id vpc infos environment run_mail_service env = do
    self ←
        new scope construct_id
          (Resource.stack (some "ECS Fargate cluster for Ecomm Application") env)
    let spring_active_profile : String = "prod"
    let pipeline_env = environment
    cluster ← new self (pipeline_env ^^ "-EcsCluster") (
        Resource.ecs_cluster (record {
          vpc = vpc;
          cluster_name = pipeline_env ^^ "-microservices";
          enable_fargate_capacity_providers = true;
        }))
    emit (Call.add_namespace cluster (pipeline_env ^^ ".local") true)
    let namespace = cdk.attr (cdk.part cluster "default_cloud_map_namespace") "namespace_name"
    execution_role ← new self (pipeline_env ^^ "-ExecutionRole") (
        Resource.role (record {
          assumed_by = "ecs-tasks.amazonaws.com";
          managed_policies = "service-role/AmazonECSTaskExecutionRolePolicy" ∷ [];
          role_name = pipeline_env ^^ "-MicroservicesEcsExecutionRole";
          inline_policies =
              ("SecretsManagerAccess", secrets_statement ∷ [])
              ∷ ("S3Access", ca_bundle_statement ∷ [])
              ∷ [];
        }))
    task_role ← new self (pipeline_env ^^ "-TaskRole") (
        Resource.role (record {
          assumed_by = "ecs-tasks.amazonaws.com";
          managed_policies = [];
          role_name = pipeline_env ^^ "-MicroservicesEcsTaskRole";
          inline_policies = [];
        }))
    emit (Call.add_to_policy task_role ca_bundle_statement)
    emit (Call.add_to_policy task_role database_statement)
    emit (Call.add_to_policy task_role secrets_statement)
    emit (Call.add_to_policy task_role documents_statement)
    registry_secret ←
        new self (pipeline_env ^^ "-GithubTokenByName")
          (Resource.imported_secret "github-secret-token")
    weather_api ←
        new self (pipeline_env ^^ "-OpenWeatherTokenByName")
          (Resource.imported_secret "open-weather-api")
    pg_secret_name ← item infos.pg_info "secret-name"
    new self (pipeline_env ^^ "-PostgresSecretByName") (Resource.imported_secret pg_secret_name)
    docdb_secret_name ← item infos.docdb_info "secret-name"
    new self (pipeline_env ^^ "-DocumentDbSecretByName")
        (Resource.imported_secret docdb_secret_name)
    mcp ← mcp_service self (pipeline_env ^^ "-McpService") (record {
      cluster = cluster;
      task_role = task_role;
      execution_role = execution_role;
      repo_secret = registry_secret;
      weather_secret_name = cdk.attr weather_api "secret_name";
      namespace = namespace;
      qdrant_info = infos.qdrant_info;
      zipkin_info = infos.zipkin_info;
      active_profile = spring_active_profile;
      environment = pipeline_env;
    })
    rag ← rag_service cdk self (pipeline_env ^^ "-RagService") (record {
      cluster = cluster;
      task_role = task_role;
      execution_role = execution_role;
      repo_secret = registry_secret;
      namespace = namespace;
      active_profile = spring_active_profile;
      qdrant_info = infos.qdrant_info;
      model_info = infos.model_info;
      zipkin_info = infos.zipkin_info;
      environment = pipeline_env;
    })
    emit (Call.add_dependency rag.node mcp.node)
    when (pipeline_env == "dev") do
      secret_name ← item infos.docdb_info "secret-name"
      mongo_express_service cdk self "MongoExpress" (record {
        cluster = cluster;
        execution_role = execution_role;
        task_role = task_role;
        namespace = namespace;
        secret_name = secret_name;
      })
      pure tt
    when run_mail_service do
      mail_service cdk self (pipeline_env ^^ "-MailService")
          (record { cluster = cluster; execution_role = execution_role; namespace = namespace })
      pure tt
    pg_secret ← item infos.pg_info "secret-name"
    docdb_secret ← item infos.docdb_info "secret-name"
    docdb_sg_id ← item infos.docdb_info "documentdb_sg_id"
    pg_sg_id ← item infos.pg_info "security-group-id"
    ecomm ← ecomm_service cdk self (pipeline_env ^^ "-EcommService") (record {
      cluster = cluster;
      task_role = task_role;
      execution_role = execution_role;
      repo_secret = registry_secret;
      pg_secret_name = pg_secret;
      docdb_secret_name = docdb_secret;
      pg_sg_id = pg_sg_id;
      docdb_sg_id = docdb_sg_id;
      redis_info = infos.redis_info;
      zipkin_info = infos.zipkin_info;
      namespace = namespace;
      active_profile = spring_active_profile;
      environment = pipeline_env;
    })
    emit (Call.add_dependency ecomm.node mcp.node)
    emit (Call.add_dependency ecomm.node rag.node)
    cfn_output self (pipeline_env ^^ "-RagServiceALB") (dns_name cdk rag) none
        (some (pipeline_env ^^ "-RagServiceALB"))
    pure (record {
      stack = self;
      docdb_info = infos.docdb_info;
      cluster = cluster;
      execution_role = execution_role;
      task_role = task_role;
      rag_service = rag;
    })

  -- The property `ecs_info`.
  unfoldable pub ecs_info : EcsFargateStack → Build (Dict String)
  unfolding service_name
  ecs_info s = do
    sg_id ← item s.docdb_info "documentdb_sg_id"
    pure (
        ("cluster-name", cdk.attr s.cluster "cluster_name")
        ∷ ("cluster-arn", cdk.attr s.cluster "cluster_arn")
        ∷ ("service-name", service_name cdk s.rag_service)
        ∷ ("task-role-arn", cdk.attr s.task_role "role_arn")
        ∷ ("execution-role-arn", cdk.attr s.execution_role "role_arn")
        ∷ ("documentdb-sg-id", sg_id)
        ∷ [])
