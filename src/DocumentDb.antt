-- ===== src/DocumentDb.antt =====
-- ecomm_modulith_cdk/DocumentDb/documentdb_stack.py, without the function's own code, which
-- DocumentDb/Handler.antt has.
pub mod Handler
pub mod Access
mod Examples
pub mod Payload
pub mod Stored
use services_modulith_infra.Base.{String, true, none, some, [], ◌∷◌, ◌^^◌}
use services_modulith_infra.Base.Dict.{Dict}
use services_modulith_infra.Cdk.{
  Handle, Cdk, Environment, SdkCall, Resource, Call, ipv4, Build, pure, new, emit, ingress, ◌>>=◌,
  ◌>>◌,
}

pub record DocumentDbStack : Type 0 where
  pub stack : Handle
  pub documentdb_secret : Handle
  pub documentdb_security_group : Handle
  pub document_db : Handle

abbrev pub secret_template : String → String
secret_template user =
    "{\"username\":\"" ^^ user ^^ "\", \"port\": 27017, \"documentdb_endpoint\": \"\"}"

module _ (cdk : Cdk) where
  -- The call of the custom resource on creation and on update; they differ in the request type.
  abbrev pub endpoint_call : String → String → String → String → String → SdkCall
  endpoint_call environment request_type function_name secret_arn endpoint = record {
    service = environment ^^ "-Lambda";
    action = "invoke";
    parameters =
        ("FunctionName", function_name)
        ∷ (
          "Payload",
          cdk.join "" (
              ("{\"RequestType\":\"" ^^ request_type
                ^^ "\",\"ResourceProperties\":{\"SecretArn\":\"")
              ∷ secret_arn
              ∷ "\",\"DocumentDbEndpoint\":\""
              ∷ endpoint
              ∷ "\"}}"
              ∷ []),
        )
        ∷ [];
    physical_resource_id = "UpdateSecretWithEndpoints";
  }

  unfoldable pub documentdb_stack :
      Handle → String → Handle → String → Environment → Build DocumentDbStack
  documentdb_stack scope construct_id vpc environment env = do
    self ←
        new scope construct_id
          (Resource.stack (some "DocumentDB cluster for customer and notification services") env)
    let master_user = environment ^^ "-docadmin"
    secret ← new self (environment ^^ "-DocumentDBSecret") (
        Resource.generated_secret (record {
          secret_string_template = secret_template master_user;
          generate_string_key = "password";
          exclude_punctuation = true;
          password_length = 12;
          require_each_included_type = true;
        }))
    subnets ← new self (environment ^^ "-DocumentDBSubnetGroup") (
        Resource.subnet_group (record {
          name = environment ^^ "-documentdb-subnet-group";
          subnet_ids = cdk.select_subnets vpc "PRIVATE_WITH_EGRESS";
          description = "Subnet group for DocumentDB";
        }))
    group ← new self (environment ^^ "-DocumentDBSecurityGroup") (
        Resource.security_group (record {
          vpc = vpc;
          security_group_name = environment ^^ "-documentdb-sg";
          description = "Security group for DocumentDB";
        }))
    ingress group (ipv4 (cdk.attr vpc "vpc_cidr_block")) 27017 "Allow access from private subnets"
    cluster ← new self (environment ^^ "-DocDB") (
        Resource.doc_db_cluster (record {
          engine_version = "5.0.0";
          db_cluster_identifier = environment ^^ "-documentdb-cluster";
          min_capacity = 5;
          max_capacity = 20;
          storage_encrypted = true;
          master_username = master_user;
          master_user_password = cdk.secret_json secret "password";
          vpc_security_group_ids = cdk.attr group "security_group_id" ∷ [];
          db_subnet_group_name = cdk.attr subnets "db_subnet_group_name";
          port = 27017;
        }))
    emit (Call.add_dependency cluster subnets)
    new self (environment ^^ "-DocDBInstance") (
        Resource.doc_db_instance (record {
          db_cluster_identifier = cdk.attr cluster "ref";
          db_instance_identifier = "instance-1";
          db_instance_class = "db.t3.medium";
        }))
    update_lambda ← new self (environment ^^ "-UpdateSecretLambda") (
        Resource.function (record {
          runtime = "PYTHON_3_12";
          handler = "index.handler";
          function_name = environment ^^ "-documentdb-update-secret";
          code = "DocumentDb.Handler";
          vpc = none;
          subnet_type = none;
          security_groups = [];
          timeout = none;
          layers = [];
        }))
    emit (
        Call.add_to_policy update_lambda (record {
          actions = "secretsmanager:GetSecretValue" ∷ "secretsmanager:PutSecretValue" ∷ [];
          resources = cdk.attr secret "secret_arn" ∷ [];
        }))
    let on = λ (request : String).
        endpoint_call environment request (cdk.attr update_lambda "function_name")
          (cdk.attr secret "secret_arn") (cdk.attr cluster "attr_endpoint")
    new self (environment ^^ "-UpdateSecretWithEndpoints") (
        Resource.sdk_resource (record {
          on_create = on "Create";
          on_update = on "Update";
          policy =
              record {
                actions = "lambda:InvokeFunction" ∷ [];
                resources = cdk.attr update_lambda "function_arn" ∷ [];
              }
              ∷ [];
        }))
    pure (record {
      stack = self;
      documentdb_secret = secret;
      documentdb_security_group = group;
      document_db = cluster;
    })

  -- The property `docdb_info`.
  unfoldable pub docdb_info : DocumentDbStack → Dict String
  docdb_info s =
      ("secret-name", cdk.attr s.documentdb_secret "secret_name")
      ∷ ("documentdb_sg_id", cdk.attr s.documentdb_security_group "security_group_id")
      ∷ []
