-- ===== src/App/Kinds/Stacks.antt =====
-- The constructs of the stacks before the ECS stack, and where they are named.
use services_modulith_infra.Base.{List, [], ◌∷◌}
use services_modulith_infra.App.Kinds.Lines.{Named, name, creates}

abbrev pub network : List (List Named)
network =
    creates "stack" [] "-VpcStack"
    ∷ creates "vpc" [] "-EcommMonolithVpc -VpcStack"
    ∷ creates "stack" [] "-AiModelStack"
    ∷ creates "security_group" ("vpc -EcommMonolithVpc -VpcStack" ∷ [])
        "-ModelEc2SecurityGroup -AiModelStack"
    ∷ name "security_group -ModelEc2SecurityGroup -AiModelStack"
    ∷ name "security_group -ModelEc2SecurityGroup -AiModelStack"
    ∷ name "security_group -ModelEc2SecurityGroup -AiModelStack"
    ∷ creates ""
        ("vpc -EcommMonolithVpc -VpcStack" ∷ "security_group -ModelEc2SecurityGroup -AiModelStack"
          ∷ [])
        "-ModelEc2Instance -AiModelStack"
    ∷ creates "" [] "-ModelEc2InstancePrivateDnsName -AiModelStack"
    ∷ creates "" [] "-ModelEc2InstancePrivateIp -AiModelStack"
    ∷ name "construct -AiModelStack"
    ∷ name "construct -VpcStack"
    ∷ creates "stack" [] "-QdrantStack"
    ∷ creates "security_group" ("vpc -EcommMonolithVpc -VpcStack" ∷ [])
        "-QdrantSecurityGroup -QdrantStack"
    ∷ name "security_group -QdrantSecurityGroup -QdrantStack"
    ∷ name "security_group -QdrantSecurityGroup -QdrantStack"
    ∷ name "security_group -QdrantSecurityGroup -QdrantStack"
    ∷ creates ""
        ("vpc -EcommMonolithVpc -VpcStack" ∷ "security_group -QdrantSecurityGroup -QdrantStack"
          ∷ [])
        "-QdrantInstance -QdrantStack"
    ∷ creates "" [] "-QdrantInstancePort -QdrantStack"
    ∷ creates "" [] "-QdrantPrivateIP -QdrantStack"
    ∷ name "construct -QdrantStack"
    ∷ name "construct -VpcStack"
    ∷ creates "stack" [] "-ZipkinStack"
    ∷ creates "security_group" ("vpc -EcommMonolithVpc -VpcStack" ∷ [])
        "-ZipkinSecurityGroup -ZipkinStack"
    ∷ name "security_group -ZipkinSecurityGroup -ZipkinStack"
    ∷ name "security_group -ZipkinSecurityGroup -ZipkinStack"
    ∷ creates ""
        ("vpc -EcommMonolithVpc -VpcStack" ∷ "security_group -ZipkinSecurityGroup -ZipkinStack"
          ∷ [])
        "-ZipkinInstance -ZipkinStack"
    ∷ creates "" [] "-ZipkinInstancePort -ZipkinStack"
    ∷ creates "" [] "-ZipkinPrivateIP -ZipkinStack"
    ∷ name "construct -ZipkinStack"
    ∷ name "construct -VpcStack"
    ∷ creates "stack" [] "-RedisClusterStack"
    ∷ creates "security_group" ("vpc -EcommMonolithVpc -VpcStack" ∷ [])
        "-RedisSecurityGroup -RedisClusterStack"
    ∷ name "security_group -RedisSecurityGroup -RedisClusterStack"
    ∷ creates "" [] "-RedisSubnetGroup -RedisClusterStack"
    ∷ creates "resource" [] "-RedisCluster -RedisClusterStack"
    ∷ name "resource -RedisCluster -RedisClusterStack"
    ∷ name "construct -RedisClusterStack"
    ∷ name "construct -VpcStack"
    ∷ []

abbrev pub insight : List (List Named)
insight =
    creates "stack" [] "-RedisInsightStack"
    ∷ creates "security_group" ("vpc -EcommMonolithVpc -VpcStack" ∷ [])
        "-RedisInsightSecurityGroup -RedisInsightStack"
    ∷ name "security_group -RedisInsightSecurityGroup -RedisInsightStack"
    ∷ creates ""
        ("vpc -EcommMonolithVpc -VpcStack"
          ∷ "security_group -RedisInsightSecurityGroup -RedisInsightStack" ∷ [])
        "-RedisInsightInstance -RedisInsightStack"
    ∷ creates "" [] "-InsightInstancePort -RedisInsightStack"
    ∷ creates "" [] "-InsightPrivateIP -RedisInsightStack"
    ∷ name "construct -RedisInsightStack"
    ∷ name "construct -RedisClusterStack"
    ∷ []

abbrev pub databases : List (List Named)
databases =
    creates "stack" [] "-DocumentDBStack"
    ∷ creates "secret" [] "-DocumentDBSecret -DocumentDBStack"
    ∷ creates "" [] "-DocumentDBSubnetGroup -DocumentDBStack"
    ∷ creates "security_group" ("vpc -EcommMonolithVpc -VpcStack" ∷ [])
        "-DocumentDBSecurityGroup -DocumentDBStack"
    ∷ name "security_group -DocumentDBSecurityGroup -DocumentDBStack"
    ∷ creates "" [] "-DocDB -DocumentDBStack"
    ∷ name "construct -DocDB -DocumentDBStack"
    ∷ name "construct -DocumentDBSubnetGroup -DocumentDBStack"
    ∷ creates "" [] "-DocDBInstance -DocumentDBStack"
    ∷ creates "function grantee" [] "-UpdateSecretLambda -DocumentDBStack"
    ∷ name "grantee -UpdateSecretLambda -DocumentDBStack"
    ∷ creates "" [] "-UpdateSecretWithEndpoints -DocumentDBStack"
    ∷ name "construct -DocumentDBStack"
    ∷ name "construct -VpcStack"
    ∷ creates "stack" [] "-PostgresDBStack"
    ∷ creates "security_group" ("vpc -EcommMonolithVpc -VpcStack" ∷ [])
        "-PostgresSG -PostgresDBStack"
    ∷ name "security_group -PostgresSG -PostgresDBStack"
    ∷ creates ""
        ("vpc -EcommMonolithVpc -VpcStack" ∷ "security_group -PostgresSG -PostgresDBStack" ∷ [])
        "-PostgresDBCluster -PostgresDBStack"
    ∷ creates "" [] "-ClusterEndpoint -PostgresDBStack"
    ∷ creates "" [] "-SecretName -PostgresDBStack"
    ∷ name "construct -PostgresDBStack"
    ∷ name "construct -VpcStack"
    ∷ creates "stack" [] "-PostgresConfigStack"
    ∷ creates "security_group" [] "-PGSecurityGroup -PostgresConfigStack"
    ∷ creates "secret" [] "-PostgresSecret -PostgresConfigStack"
    ∷ creates "layer" [] "-Psycopg2Layer -PostgresConfigStack"
    ∷ creates "function grantee"
        ("vpc -EcommMonolithVpc -VpcStack" ∷ "security_group -PGSecurityGroup -PostgresConfigStack"
          ∷ "layer -Psycopg2Layer -PostgresConfigStack" ∷ [])
        "-DBCreatorLambda -PostgresConfigStack"
    ∷ name "secret -PostgresSecret -PostgresConfigStack"
    ∷ name "grantee -DBCreatorLambda -PostgresConfigStack"
    ∷ creates "" [] "DatabaseCreator -PostgresConfigStack"
    ∷ name "construct -PostgresConfigStack"
    ∷ name "construct -PostgresDBStack"
    ∷ []
