-- ===== src/Postgres/Handler.antt =====
-- The inline code of the function in ecomm_modulith_cdk/Postgres/postgres_config_stack.py: it makes
-- the databases and the schemas that its event names, and answers CloudFormation.
pub mod Silent
pub mod Answers
pub mod Provisioned
pub mod Requested
pub mod Catalog
pub mod Spec
pub mod Refinement
pub mod History
mod Examples
use services_modulith_infra.Base.{
  String, Bool, true, false, Option, none, some, List, [], ◌∷◌, ◌++◌, ◌==◌, if◌then◌else◌,
}

pub data Outcome (A : Type 0) : Type 0 where
  value : A → Outcome A
  exception : String → Outcome A

-- boto3 and psycopg2, as the function calls them, over the state of the database server. A call
-- that raises gives the text of its exception. The statements are sent with the names quoted by
-- `sql.Identifier`, on connections that commit each one.
pub record Libraries : Type 1 where
  pub Server : Type 0
  -- `get_secret_value` and `json.loads`: can the credentials be read?
  pub read_secret : (secret_arn : String) → Outcome Unit
  pub connect : (database : String) → Server → Outcome Unit
  -- SELECT 1 FROM pg_database WHERE datname = …, and whether `fetchone` gives a row
  pub exists_database : String → Server → Outcome Bool
  -- CREATE DATABASE …
  pub create_database : String → Server → Outcome Server
  -- CREATE SCHEMA IF NOT EXISTS …, in a database
  pub create_schema : (database schema : String) → Server → Outcome Server
  -- `close` of a cursor, and of a connection, on a database
  pub close_cursor : (database : String) → Server → Outcome Unit
  pub close_connection : (database : String) → Server → Outcome Unit

-- The values of `event['ResourceProperties']` by their keys, where a key may be missing.
pub record Properties : Type 0 where
  pub secret_arn : Option String
  pub databases : Option (List String)
  pub schemas : Option (List String)

-- The parameter `event`, as far as the function reads it.
pub record Request : Type 0 where
  pub request_type : Option String
  pub properties : Option Properties

-- An event that has the keys.
pub record Event : Type 0 where
  pub request_type : String
  pub secret_arn : String
  pub databases : List String
  pub schemas : List String

abbrev pub request_of : Event → Request
request_of event = record {
  request_type = some event.request_type;
  properties = some (record {
    secret_arn = some event.secret_arn;
    databases = some event.databases;
    schemas = some event.schemas;
  });
}

pub data Response : Type 0 where
  success : Response
  failed : (message : String) → Response

module _ (lib : Libraries) where
  open lib use {
    Server, read_secret, connect, exists_database, create_database, create_schema, close_cursor,
    close_connection,
  }

  -- What a step leaves: the server, the responses sent, and the value or the exception.
  abbrev pub Action : Type 0 → Type 0
  Action A = Server → List Response → Outcome A × Server × List Response

  abbrev pub after :
      {A B : Type 0}
      → Outcome A × Server × List Response
      → (A → Action B)
      → Outcome B × Server × List Response
  after (value a, s, sent) f = f a s sent
  after (exception e, s, sent) f = (exception e, s, sent)

  infixl 5 ◌>>=◌ ◌>>◌
  abbrev pub ◌>>=◌ : {A B : Type 0} → Action A → (A → Action B) → Action B
  ◌>>=◌ m f s sent = after (m s sent) f

  abbrev pub ◌>>◌ : {A B : Type 0} → Action A → Action B → Action B
  m >> k = m >>= λ _. k

  abbrev pub pure : {A : Type 0} → A → Action A
  pure a s sent = (value a, s, sent)

  abbrev pub raise : {A : Type 0} → String → Action A
  raise e s sent = (exception e, s, sent)

  -- `d[k]`, by what `d` has under the key.
  abbrev pub item : {A : Type 0} → String → Option A → Action A
  item k none = raise k
  item k (some v) = pure v

  abbrev pub ask : {A : Type 0} → (Server → Outcome A) → Action A
  ask f s sent = (f s, s, sent)

  abbrev pub changed :
      Outcome Server → Server → List Response → Outcome Unit × Server × List Response
  changed (value s') s sent = (value tt, s', sent)
  changed (exception e) s sent = (exception e, s, sent)

  abbrev pub execute : (Server → Outcome Server) → Action Unit
  execute f s sent = changed (f s) s sent

  -- `cfnresponse.send`, which is taken to reach CloudFormation
  abbrev pub send : Response → Action Unit
  send r s sent = (value tt, s, sent ++ r ∷ [])

  unfoldable pub create_schemas : String → List String → Action Unit
  create_schemas db [] = pure tt
  create_schemas db (schema ∷ schemas) = do
    execute (create_schema db schema)
    create_schemas db schemas

  -- The part of the loop's body up to `db_conn.close()`: does `db_conn` name a connection?
  unfoldable pub fill_database : List String → String → Bool → Action Bool
  unfolding create_schemas
  fill_database schemas db bound = do
    exists ← ask (exists_database db)
    (if exists then pure tt else execute (create_database db))
    if db == "ecomm"
        then (do ask (connect db); create_schemas db schemas; ask (close_cursor db); pure true)
        else pure bound

  -- Python's error for a local variable that has no value yet.
  abbrev pub unbound_local : String
  unbound_local = "cannot access local variable 'db_conn' where it is not associated with a value"

  -- The loop over the databases. `db_conn.close()` stands in the loop, outside of the `if`.
  -- What `db_conn` names is always a connection to `ecomm`.
  unfoldable pub fill_databases : List String → Bool → List String → Action Unit
  unfolding fill_database
  fill_databases schemas bound [] = pure tt
  fill_databases schemas bound (db ∷ dbs) = do
    bound' ← fill_database schemas db bound
    (if bound' then ask (close_connection "ecomm") else raise unbound_local)
    fill_databases schemas bound' dbs

  -- The body of `try` from the reading of the secret.
  unfoldable pub provision : Event → Action Unit
  unfolding fill_databases
  provision event = do
    ask (λ _. read_secret event.secret_arn)
    ask (connect "postgres")
    fill_databases event.schemas false event.databases
    ask (close_cursor "postgres")
    ask (close_connection "postgres")
    send success

  -- `except Exception as e`
  abbrev pub handled : Outcome Unit × Server × List Response → Server × List Response
  handled (value u, s, sent) = (s, sent)
  handled (exception e, s, sent) = (s, sent ++ failed e ∷ [])

  -- The body of `try` after the test for a deletion, from the reading of the properties.
  unfoldable pub provision_request : (request_type : String) → Request → Action Unit
  unfolding provision
  provision_request request_type request = do
    properties ← item "ResourceProperties" request.properties
    secret_arn ← item "SecretArn" properties.secret_arn
    databases ← item "Databases" properties.databases
    schemas ← item "Schemas" properties.schemas
    provision (record {
      request_type = request_type;
      secret_arn = secret_arn;
      databases = databases;
      schemas = schemas;
    })

  -- The body of `try`.
  unfoldable pub answer : Request → Action Unit
  unfolding provision_request
  answer request = do
    request_type ← item "RequestType" request.request_type
    if request_type == "Delete" then send success else provision_request request_type request

  unfoldable pub handler : Request → Server → Server × List Response
  unfolding answer
  handler request s = handled (answer request s [])
