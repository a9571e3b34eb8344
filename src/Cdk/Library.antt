-- ===== src/Cdk/Library.antt =====
-- What the program reads back from aws_cdk. A construct is named by its path in the construct
-- tree, innermost id first; the values that a construct yields are tokens, which are texts.
use services_modulith_infra.Base.{String, List}

abbrev pub Handle : Type 0
Handle = List String

pub record Cdk : Type 0 where
  -- Aws.ACCOUNT_ID, Aws.REGION
  pub account_id : String
  pub region : String
  -- a text attribute of a construct: `instance.instance_private_ip`
  pub attr : Handle → String → String
  -- a construct that a construct holds: `service.target_group`
  pub part : Handle → String → Handle
  -- the constructs of a list that a construct holds: `vpc.private_subnets`
  pub parts : Handle → String → List Handle
  -- `vpc.select_subnets(subnet_type=…).subnet_ids`
  pub select_subnets : Handle → String → List String
  -- `secret.secret_value_from_json(key).unsafe_unwrap()`
  pub secret_json : Handle → String → String
  -- Token.as_string
  pub as_string : String → String
  -- Fn.join
  pub join : String → List String → String
