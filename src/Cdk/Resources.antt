-- ===== src/Cdk/Resources.antt =====
-- The constructs that the program creates, with the arguments that it gives.
use services_modulith_infra.Base.{ℕ, String, Bool, Option, List}
use services_modulith_infra.Base.Dict.{Dict}
use services_modulith_infra.Cdk.Library.{Handle}
use services_modulith_infra.Cdk.Compute.{TaskDefinition, FargateService, LoadBalancedService}
use services_modulith_infra.Shell.{Block}

-- `env=cdk.Environment(account=…, region=…)`
pub record Environment : Type 0 where
  pub account : String
  pub region : String

pub record SubnetConfiguration : Type 0 where
  pub name : String
  pub subnet_type : String
  pub cidr_mask : ℕ

pub record Vpc : Type 0 where
  pub max_azs : ℕ
  pub nat_gateways : ℕ
  pub cidr : String
  pub vpc_name : String
  pub enable_dns_hostnames : Bool
  pub enable_dns_support : Bool
  pub subnet_configuration : List SubnetConfiguration

pub record SecurityGroup : Type 0 where
  pub vpc : Handle
  pub security_group_name : String
  pub description : String

pub record Ec2Instance : Type 0 where
  pub instance_type : String
  pub machine_image : String
  pub instance_name : String
  pub device_name : String
  pub volume_gib : ℕ
  pub vpc : Handle
  pub security_group : Handle
  pub user_data : Block

pub record GeneratedSecret : Type 0 where
  pub secret_string_template : String
  pub generate_string_key : String
  pub exclude_punctuation : Bool
  pub password_length : ℕ
  pub require_each_included_type : Bool

pub record SubnetGroup : Type 0 where
  pub name : String
  pub subnet_ids : List String
  pub description : String

-- Capacities are in tenths of a unit: 0.5 is 5.
pub record DocDbCluster : Type 0 where
  pub engine_version : String
  pub db_cluster_identifier : String
  pub min_capacity : ℕ
  pub max_capacity : ℕ
  pub storage_encrypted : Bool
  pub master_username : String
  pub master_user_password : String
  pub vpc_security_group_ids : List String
  pub db_subnet_group_name : String
  pub port : ℕ

pub record DocDbInstance : Type 0 where
  pub db_cluster_identifier : String
  pub db_instance_identifier : String
  pub db_instance_class : String

-- The inline code of a function is modelled apart; `code` says where it stands.
pub record Function : Type 0 where
  pub runtime : String
  pub handler : String
  pub function_name : String
  pub code : String
  pub vpc : Option Handle
  pub subnet_type : Option String
  pub security_groups : List Handle
  pub timeout : Option ℕ
  pub layers : List Handle

pub record Statement : Type 0 where
  pub actions : List String
  pub resources : List String

pub record SdkCall : Type 0 where
  pub service : String
  pub action : String
  pub parameters : Dict String
  pub physical_resource_id : String

pub record SdkResource : Type 0 where
  pub on_create : SdkCall
  pub on_update : SdkCall
  pub policy : List Statement

pub record DatabaseRequest : Type 0 where
  pub secret_arn : String
  pub databases : List String
  pub schemas : List String

pub record AuroraCluster : Type 0 where
  pub engine : String
  pub writer : String
  pub min_capacity : ℕ
  pub max_capacity : ℕ
  pub vpc : Handle
  pub subnet_type : String
  pub security_groups : List Handle
  pub default_database_name : String
  pub removal_policy : String
  pub cluster_identifier : String
  pub credentials : String
  pub storage_encrypted : Bool
  pub enable_data_api : Bool

pub record ReplicationGroup : Type 0 where
  pub description : String
  pub cache_node_type : String
  pub engine : String
  pub engine_version : String
  pub port : ℕ
  pub cache_subnet_group_name : String
  pub security_group_ids : List String
  pub automatic_failover_enabled : Bool
  pub multi_az_enabled : Bool
  pub num_cache_clusters : ℕ
  pub at_rest_encryption_enabled : Bool
  pub transit_encryption_enabled : Bool

pub record EcsCluster : Type 0 where
  pub vpc : Handle
  pub cluster_name : String
  pub enable_fargate_capacity_providers : Bool

pub record Role : Type 0 where
  pub assumed_by : String
  pub managed_policies : List String
  pub role_name : String
  pub inline_policies : Dict (List Statement)

pub record Output : Type 0 where
  pub value : String
  pub description : Option String
  pub export_name : Option String

pub data Resource : Type 0 where
  stack : Option String → Environment → Resource
  service_construct : Resource
  vpc : Vpc → Resource
  security_group : SecurityGroup → Resource
  imported_security_group : String → Resource
  ec2_instance : Ec2Instance → Resource
  generated_secret : GeneratedSecret → Resource
  imported_secret : String → Resource
  subnet_group : SubnetGroup → Resource
  doc_db_cluster : DocDbCluster → Resource
  doc_db_instance : DocDbInstance → Resource
  function : Function → Resource
  layer_version : String → List String → Resource
  sdk_resource : SdkResource → Resource
  database_creator : String → DatabaseRequest → Resource
  aurora_cluster : AuroraCluster → Resource
  replication_group : ReplicationGroup → Resource
  ecs_cluster : EcsCluster → Resource
  role : Role → Resource
  task_definition : TaskDefinition → Resource
  fargate_service : FargateService → Resource
  load_balanced_service : LoadBalancedService → Resource
  output : Output → Resource
