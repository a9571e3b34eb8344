-- ===== src/App/Kinds/Services.antt =====
-- The constructs of the ECS stack, and where they are named.
use services_modulith_infra.Base.{List, [], ◌∷◌}
use services_modulith_infra.App.Kinds.Lines.{Named, name, creates, contains, comes_with}

abbrev pub cluster : List (List Named)
cluster =
    creates "stack" [] "-EcsFargateStack"
    ∷ creates "cluster" ("vpc -EcommMonolithVpc -VpcStack" ∷ []) "-EcsCluster -EcsFargateStack"
    ∷ name "cluster -EcsCluster -EcsFargateStack"
    ∷ creates "role grantee" [] "-ExecutionRole -EcsFargateStack"
    ∷ creates "role grantee" [] "-TaskRole -EcsFargateStack"
    ∷ name "grantee -TaskRole -EcsFargateStack"
    ∷ name "grantee -TaskRole -EcsFargateStack"
    ∷ name "grantee -TaskRole -EcsFargateStack"
    ∷ name "grantee -TaskRole -EcsFargateStack"
    ∷ creates "secret" [] "-GithubTokenByName -EcsFargateStack"
    ∷ creates "secret" [] "-OpenWeatherTokenByName -EcsFargateStack"
    ∷ creates "secret" [] "-PostgresSecretByName -EcsFargateStack"
    ∷ creates "secret" [] "-DocumentDbSecretByName -EcsFargateStack"
    ∷ creates "" [] "-McpService -EcsFargateStack"
    ∷ creates "task_definition"
        ("role -ExecutionRole -EcsFargateStack" ∷ "role -TaskRole -EcsFargateStack" ∷ [])
        "-McpServiceTaskDef -McpService -EcsFargateStack"
    ∷ contains ("secret -GithubTokenByName -EcsFargateStack" ∷ [])
        "-Mcp -McpServiceTaskDef -McpService -EcsFargateStack"
    ∷ creates "service"
        ("cluster -EcsCluster -EcsFargateStack"
          ∷ "task_definition -McpServiceTaskDef -McpService -EcsFargateStack" ∷ [])
        "-McpService -McpService -EcsFargateStack"
    ∷ comes_with
        "security_group .connections.security_groups[0] -McpService -McpService -EcsFargateStack"
    ∷ name "service -McpService -McpService -EcsFargateStack"
    ∷ creates "" [] "-RagService -EcsFargateStack"
    ∷ creates "task_definition"
        ("role -ExecutionRole -EcsFargateStack" ∷ "role -TaskRole -EcsFargateStack" ∷ [])
        "-RagServiceTaskDef -RagService -EcsFargateStack"
    ∷ contains ("secret -GithubTokenByName -EcsFargateStack" ∷ [])
        "-rag -RagServiceTaskDef -RagService -EcsFargateStack"
    ∷ creates ""
        ("cluster -EcsCluster -EcsFargateStack"
          ∷ "task_definition -RagServiceTaskDef -RagService -EcsFargateStack" ∷ [])
        "-RagService -RagService -EcsFargateStack"
    ∷ comes_with "service .service -RagService -RagService -EcsFargateStack"
    ∷ comes_with "target_group .target_group -RagService -RagService -EcsFargateStack"
    ∷ comes_with
        "security_group .service.connections.security_groups[0] -RagService -RagService -EcsFargateStack"
    ∷ name "target_group .target_group -RagService -RagService -EcsFargateStack"
    ∷ name "service .service -RagService -RagService -EcsFargateStack"
    ∷ name "construct -RagService -EcsFargateStack"
    ∷ name "construct -McpService -EcsFargateStack"
    ∷ []

abbrev pub mongo_express : List (List Named)
mongo_express =
    creates "" [] "MongoExpress -EcsFargateStack"
    ∷ creates "secret" [] "MongoExpressSecret MongoExpress -EcsFargateStack"
    ∷ creates "task_definition"
        ("role -ExecutionRole -EcsFargateStack" ∷ "role -TaskRole -EcsFargateStack" ∷ [])
        "MongoExpressTaskDef MongoExpress -EcsFargateStack"
    ∷ name "task_definition MongoExpressTaskDef MongoExpress -EcsFargateStack"
    ∷ contains [] "documentdb-cert-init MongoExpressTaskDef MongoExpress -EcsFargateStack"
    ∷ name "container documentdb-cert-init MongoExpressTaskDef MongoExpress -EcsFargateStack"
    ∷ contains [] "mongo-express MongoExpressTaskDef MongoExpress -EcsFargateStack"
    ∷ name "container mongo-express MongoExpressTaskDef MongoExpress -EcsFargateStack"
    ∷ name "container mongo-express MongoExpressTaskDef MongoExpress -EcsFargateStack"
    ∷ name "container documentdb-cert-init MongoExpressTaskDef MongoExpress -EcsFargateStack"
    ∷ creates ""
        ("cluster -EcsCluster -EcsFargateStack"
          ∷ "task_definition MongoExpressTaskDef MongoExpress -EcsFargateStack" ∷ [])
        "MongoExpressService MongoExpress -EcsFargateStack"
    ∷ comes_with "service .service MongoExpressService MongoExpress -EcsFargateStack"
    ∷ comes_with "target_group .target_group MongoExpressService MongoExpress -EcsFargateStack"
    ∷ comes_with
        "security_group .service.connections.security_groups[0] MongoExpressService MongoExpress -EcsFargateStack"
    ∷ name "target_group .target_group MongoExpressService MongoExpress -EcsFargateStack"
    ∷ creates "" [] "MongoExpressDocumentDBALB MongoExpress -EcsFargateStack"
    ∷ []

abbrev pub services : List (List Named)
services =
    creates "" [] "-MailService -EcsFargateStack"
    ∷ creates "task_definition" ("role -ExecutionRole -EcsFargateStack" ∷ [])
        "MailServiceTaskDef -MailService -EcsFargateStack"
    ∷ contains [] "smtp-mail-svc MailServiceTaskDef -MailService -EcsFargateStack"
    ∷ creates ""
        ("cluster -EcsCluster -EcsFargateStack"
          ∷ "task_definition MailServiceTaskDef -MailService -EcsFargateStack" ∷ [])
        "MailService -MailService -EcsFargateStack"
    ∷ comes_with "service .service MailService -MailService -EcsFargateStack"
    ∷ comes_with "target_group .target_group MailService -MailService -EcsFargateStack"
    ∷ comes_with
        "security_group .service.connections.security_groups[0] MailService -MailService -EcsFargateStack"
    ∷ name "target_group .target_group MailService -MailService -EcsFargateStack"
    ∷ name "service .service MailService -MailService -EcsFargateStack"
    ∷ name
        "security_group .service.connections.security_groups[0] MailService -MailService -EcsFargateStack"
    ∷ creates "" [] "-EcommService -EcsFargateStack"
    ∷ creates "task_definition"
        ("role -ExecutionRole -EcsFargateStack" ∷ "role -TaskRole -EcsFargateStack" ∷ [])
        "-EcommAppFargateServiceTaskDef -EcommService -EcsFargateStack"
    ∷ contains ("secret -GithubTokenByName -EcsFargateStack" ∷ [])
        "-ecomm-app-svc -EcommAppFargateServiceTaskDef -EcommService -EcsFargateStack"
    ∷ creates "service"
        ("cluster -EcsCluster -EcsFargateStack"
          ∷ "task_definition -EcommAppFargateServiceTaskDef -EcommService -EcsFargateStack" ∷ [])
        "-EcommAppService -EcommService -EcsFargateStack"
    ∷ comes_with
        "security_group .connections.security_groups[0] -EcommAppService -EcommService -EcsFargateStack"
    ∷ name "service -EcommAppService -EcommService -EcsFargateStack"
    ∷ creates "security_group" [] "-DocDbSG -EcommService -EcsFargateStack"
    ∷ name "security_group -DocDbSG -EcommService -EcsFargateStack"
    ∷ name
        "security_group .connections.security_groups[0] -EcommAppService -EcommService -EcsFargateStack"
    ∷ creates "security_group" [] "-PostgresSG -EcommService -EcsFargateStack"
    ∷ name "security_group -PostgresSG -EcommService -EcsFargateStack"
    ∷ name
        "security_group .connections.security_groups[0] -EcommAppService -EcommService -EcsFargateStack"
    ∷ name "construct -EcommService -EcsFargateStack"
    ∷ name "construct -McpService -EcsFargateStack"
    ∷ name "construct -EcommService -EcsFargateStack"
    ∷ name "construct -RagService -EcsFargateStack"
    ∷ creates "" [] "-RagServiceALB -EcsFargateStack"
    ∷ name "construct -EcsFargateStack"
    ∷ name "construct -VpcStack"
    ∷ name "construct -EcsFargateStack"
    ∷ name "construct -RedisClusterStack"
    ∷ name "construct -EcsFargateStack"
    ∷ name "construct -DocumentDBStack"
    ∷ name "construct -EcsFargateStack"
    ∷ name "construct -PostgresDBStack"
    ∷ name "construct -EcsFargateStack"
    ∷ name "construct -AiModelStack"
    ∷ name "construct -EcsFargateStack"
    ∷ name "construct -QdrantStack"
    ∷ []
