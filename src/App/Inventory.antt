-- ===== src/App/Inventory.antt =====
-- Every construct of the application, in the order of its creation. A line is a path, innermost id
-- first; an id that begins with a dash stands behind the profile.
use Prim.Native.Char.{code}
use services_modulith_infra.Base.{
  String, ◌≡◌, refl, Bool, true, false, Option, List, [], ◌∷◌, ◌++◌, map, eqb, words, ◌==◌,
  if◌then◌else◌, subst, sym,
}
use services_modulith_infra.Cdk.{Cdk}
use services_modulith_infra.App.{app, getenv_or}
use services_modulith_infra.Cdk.Log.{created}
use services_modulith_infra.App.Names.{
  Segment, fixed, prefixed, render_path, IsUnique, all_differ, all_differ-IsUnique,
}

abbrev pub id_of : String → Segment
id_of String.[] = fixed String.[]
id_of (String.◌∷◌ c s) =
    if eqb (code c) b'-' then prefixed (String.◌∷◌ c s) else fixed (String.◌∷◌ c s)

abbrev pub path_of : String → List Segment
path_of line = map id_of (words line)

abbrev inventory_start : List String
inventory_start =
    "-VpcStack" ∷ "-EcommMonolithVpc -VpcStack" ∷ "-AiModelStack"
    ∷ "-ModelEc2SecurityGroup -AiModelStack" ∷ "-ModelEc2Instance -AiModelStack"
    ∷ "-ModelEc2InstancePrivateDnsName -AiModelStack" ∷ "-ModelEc2InstancePrivateIp -AiModelStack"
    ∷ "-QdrantStack" ∷ "-QdrantSecurityGroup -QdrantStack" ∷ "-QdrantInstance -QdrantStack"
    ∷ "-QdrantInstancePort -QdrantStack" ∷ "-QdrantPrivateIP -QdrantStack" ∷ "-ZipkinStack"
    ∷ "-ZipkinSecurityGroup -ZipkinStack" ∷ "-ZipkinInstance -ZipkinStack"
    ∷ "-ZipkinInstancePort -ZipkinStack" ∷ "-ZipkinPrivateIP -ZipkinStack" ∷ "-RedisClusterStack"
    ∷ "-RedisSecurityGroup -RedisClusterStack" ∷ "-RedisSubnetGroup -RedisClusterStack"
    ∷ "-RedisCluster -RedisClusterStack" ∷ []

abbrev inventory_insight : List String
inventory_insight =
    "-RedisInsightStack" ∷ "-RedisInsightSecurityGroup -RedisInsightStack"
    ∷ "-RedisInsightInstance -RedisInsightStack" ∷ "-InsightInstancePort -RedisInsightStack"
    ∷ "-InsightPrivateIP -RedisInsightStack" ∷ []

abbrev inventory_middle : List String
inventory_middle =
    "-DocumentDBStack" ∷ "-DocumentDBSecret -DocumentDBStack"
    ∷ "-DocumentDBSubnetGroup -DocumentDBStack" ∷ "-DocumentDBSecurityGroup -DocumentDBStack"
    ∷ "-DocDB -DocumentDBStack" ∷ "-DocDBInstance -DocumentDBStack"
    ∷ "-UpdateSecretLambda -DocumentDBStack" ∷ "-UpdateSecretWithEndpoints -DocumentDBStack"
    ∷ "-PostgresDBStack" ∷ "-PostgresSG -PostgresDBStack" ∷ "-PostgresDBCluster -PostgresDBStack"
    ∷ "-ClusterEndpoint -PostgresDBStack" ∷ "-SecretName -PostgresDBStack" ∷ "-PostgresConfigStack"
    ∷ "-PGSecurityGroup -PostgresConfigStack" ∷ "-PostgresSecret -PostgresConfigStack"
    ∷ "-Psycopg2Layer -PostgresConfigStack" ∷ "-DBCreatorLambda -PostgresConfigStack"
    ∷ "DatabaseCreator -PostgresConfigStack" ∷ "-EcsFargateStack" ∷ "-EcsCluster -EcsFargateStack"
    ∷ "-ExecutionRole -EcsFargateStack" ∷ "-TaskRole -EcsFargateStack"
    ∷ "-GithubTokenByName -EcsFargateStack" ∷ "-OpenWeatherTokenByName -EcsFargateStack"
    ∷ "-PostgresSecretByName -EcsFargateStack" ∷ "-DocumentDbSecretByName -EcsFargateStack"
    ∷ "-McpService -EcsFargateStack" ∷ "-McpServiceTaskDef -McpService -EcsFargateStack"
    ∷ "-Mcp -McpServiceTaskDef -McpService -EcsFargateStack"
    ∷ "-McpService -McpService -EcsFargateStack" ∷ "-RagService -EcsFargateStack"
    ∷ "-RagServiceTaskDef -RagService -EcsFargateStack"
    ∷ "-rag -RagServiceTaskDef -RagService -EcsFargateStack"
    ∷ "-RagService -RagService -EcsFargateStack" ∷ []

abbrev inventory_mongo : List String
inventory_mongo =
    "MongoExpress -EcsFargateStack" ∷ "MongoExpressSecret MongoExpress -EcsFargateStack"
    ∷ "MongoExpressTaskDef MongoExpress -EcsFargateStack"
    ∷ "documentdb-cert-init MongoExpressTaskDef MongoExpress -EcsFargateStack"
    ∷ "mongo-express MongoExpressTaskDef MongoExpress -EcsFargateStack"
    ∷ "MongoExpressService MongoExpress -EcsFargateStack"
    ∷ "MongoExpressDocumentDBALB MongoExpress -EcsFargateStack" ∷ []

abbrev inventory_end : List String
inventory_end =
    "-MailService -EcsFargateStack" ∷ "MailServiceTaskDef -MailService -EcsFargateStack"
    ∷ "smtp-mail-svc MailServiceTaskDef -MailService -EcsFargateStack"
    ∷ "MailService -MailService -EcsFargateStack" ∷ "-EcommService -EcsFargateStack"
    ∷ "-EcommAppFargateServiceTaskDef -EcommService -EcsFargateStack"
    ∷ "-ecomm-app-svc -EcommAppFargateServiceTaskDef -EcommService -EcsFargateStack"
    ∷ "-EcommAppService -EcommService -EcsFargateStack" ∷ "-DocDbSG -EcommService -EcsFargateStack"
    ∷ "-PostgresSG -EcommService -EcsFargateStack" ∷ "-RagServiceALB -EcsFargateStack" ∷ []

-- The constructs that only an application for dev has.
abbrev pub dev_only : List (List Segment)
dev_only = map path_of (inventory_insight ++ inventory_mongo)

abbrev pub inventory : Bool → List (List Segment)
inventory dev = map path_of (
    inventory_start
    ++ ((if dev then inventory_insight else [])
        ++ (inventory_middle ++ ((if dev then inventory_mongo else []) ++ inventory_end))))

pub created-app :
    (cdk : Cdk) (variable : Option String) (dev : Bool)
    → (getenv_or variable "prod" == "dev") ≡ dev
    → created (app cdk variable).calls
      ≡ map (render_path (getenv_or variable "prod")) (inventory dev)
unfolding app
created-app cdk variable true e = rw e (rw e refl)
created-app cdk variable false e = rw e (rw e refl)

inventory_differs : (dev : Bool) → all_differ (inventory dev) ≡ true
inventory_differs true = refl
inventory_differs false = refl

-- Under every value of ENVIRONMENT, no two constructs of the application have the same path: no id
-- is given twice in one scope.
pub created-IsUnique :
    (cdk : Cdk) (variable : Option String) → IsUnique (created (app cdk variable).calls)
created-IsUnique cdk variable =
    let dev = getenv_or variable "prod" == "dev" in
    subst IsUnique (sym (created-app cdk variable dev refl))
      (all_differ-IsUnique (getenv_or variable "prod") (inventory dev) (inventory_differs dev))
