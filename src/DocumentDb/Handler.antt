-- ===== src/DocumentDb/Handler.antt =====
-- The inline code of the function in ecomm_modulith_cdk/DocumentDb/documentdb_stack.py: it writes
-- the cluster's endpoint into the secret.
pub mod Endpoint
pub mod Last
pub mod Failures
pub mod History
pub mod Examples
use services_modulith_infra.Base.{String, ◌||◌, Option, none, some, ◌==◌, if◌then◌else◌}
use services_modulith_infra.Base.Dict.{Dict, insert}

-- The values of `event['ResourceProperties']` by their keys, where a key may be missing.
pub record Properties : Type 0 where
  pub secret_arn : Option String
  pub document_db_endpoint : Option String

-- The parameter `event`, as far as the function reads it.
pub record Request : Type 0 where
  pub request_type : Option String
  pub properties : Option Properties

-- An event that has the keys.
pub record Event : Type 0 where
  pub request_type : String
  pub secret_arn : String
  pub document_db_endpoint : String

abbrev pub request_of : Event → Request
request_of event = record {
  request_type = some event.request_type;
  properties = some (record {
    secret_arn = some event.secret_arn;
    document_db_endpoint = some event.document_db_endpoint;
  });
}

-- boto3's secrets manager and the json module. `Value` is what a JSON object holds; a text is one.
-- `none` is an exception, which the function does not catch.
pub record Libraries : Type 1 where
  pub Store : Type 0
  pub Value : Type 0
  pub text : String → Value
  pub get_secret_value : (secret_id : String) → Store → Option String
  pub put_secret_value : (secret_id secret_string : String) → Store → Option Store
  pub loads : String → Option (Dict Value)
  pub dumps : Dict Value → String

module _ (lib : Libraries) where
  open lib use {Store, Value, text, get_secret_value, put_secret_value, loads, dumps}

  abbrev pub and_then : {A B : Type 0} → Option A → (A → Option B) → Option B
  and_then none f = none
  and_then (some a) f = f a

  unfoldable pub update_secret : Event → Store → Option Store
  update_secret event s = and_then (get_secret_value event.secret_arn s) λ secret_string.
      and_then (loads secret_string) λ secret.
        put_secret_value event.secret_arn
          (dumps (insert "documentdb_endpoint" (text event.document_db_endpoint) secret)) s

  -- The body of the `if`, from the reading of the properties. A missing key is an exception, and
  -- nothing is written before the keys are read.
  unfoldable pub update_request : (request_type : String) → Request → Store → Option Store
  unfolding update_secret
  update_request request_type request s = and_then request.properties λ properties.
      and_then properties.secret_arn λ secret_arn.
        and_then properties.document_db_endpoint λ document_db_endpoint.
          update_secret
            (record {
              request_type = request_type;
              secret_arn = secret_arn;
              document_db_endpoint = document_db_endpoint;
            })
            s

  -- The new store and the physical id of the resource.
  unfoldable pub handler : Request → Store → Option (Store × String)
  unfolding update_request
  handler request s = and_then request.request_type λ request_type.
      and_then
        (if request_type == "Create" || request_type == "Update"
          then update_request request_type request s
          else some s)
        (λ s'. some (s', "UpdateSecretWithEndpoints"))
