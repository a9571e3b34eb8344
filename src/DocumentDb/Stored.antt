-- ===== src/DocumentDb/Stored.antt =====
-- The calls of the document database's stack, run by its function.
use services_modulith_infra.Base.{
  String, List, Bool, true, some, ◌≡◌, refl, ◌==◌, if◌then◌else◌, ◌||◌, join_all, All, ◌∷◌, ◌^^◌,
}
use services_modulith_infra.Base.Dict.{Dict, lookup}
use services_modulith_infra.Base.Json.{is_plain}
use services_modulith_infra.Base.Json.Read.{or_fail, loads}
use services_modulith_infra.Cdk.{Handle, Cdk, Environment, SdkCall, SdkResource, ok}
use services_modulith_infra.DocumentDb.{DocumentDbStack, documentdb_stack, endpoint_call}
use services_modulith_infra.DocumentDb.Access.{sdk_resources}
use services_modulith_infra.DocumentDb.Handler.{Event, Libraries, request_of, handler}
use services_modulith_infra.DocumentDb.Handler.Endpoint.{Works, secret_field, handler-stores}
use services_modulith_infra.DocumentDb.Payload.{event_of, payload_of, payload-reads}

-- The function, run on the event of the call's payload, succeeds, and then the secret has what it
-- had and the endpoint under `documentdb_endpoint`; the other secrets have what they had.
abbrev pub Stores :
    (lib : Libraries) → lib.Store → (arn endpoint : String) → Dict lib.Value → SdkCall → Type 0
Stores lib s arn endpoint secret call =
    (event : Event) × (s' : lib.Store) × (or_fail (loads (payload_of call)) event_of ≡ some event)
    × (handler lib (request_of event) s ≡ some (s', "UpdateSecretWithEndpoints"))
    × ((other key : String)
        → secret_field lib s' other key ≡ (
            if other == arn
            then (if key == "documentdb_endpoint"
                then some (lib.text endpoint)
                else lookup key secret)
            else secret_field lib s other key))

-- Create or Update.
abbrev is_written : String → Bool
is_written request = request == "Create" || request == "Update"

endpoint_call-Stores :
    (cdk : Cdk) (lib : Libraries) (works : Works lib) (s : lib.Store) (old : String)
    (secret : Dict lib.Value) (environment request function arn endpoint : String)
    → ((xs : List String) → cdk.join "" xs ≡ join_all xs)
    → is_written request ≡ true
    → is_plain request ≡ true
    → is_plain arn ≡ true
    → is_plain endpoint ≡ true
    → lib.get_secret_value arn s ≡ some old
    → lib.loads old ≡ some secret
    → Stores lib s arn endpoint secret (endpoint_call cdk environment request function arn endpoint)
endpoint_call-Stores cdk lib works s old secret environment request function arn endpoint join
      written plain plain_arn plain_endpoint there object =
    let event : Event = record {
      request_type = request;
      secret_arn = arn;
      document_db_endpoint = endpoint;
    } in
    let stored = handler-stores lib works event s old secret written there object in
    (
      event,
      stored.0,
      payload-reads cdk join environment request function arn endpoint plain plain_arn
          plain_endpoint,
      stored.1,
      stored.2,
    )

-- The stack with the handles of its constructs.
abbrev pub stack_of : Handle → String → String → DocumentDbStack
stack_of scope id environment = record {
  stack = id ∷ scope;
  documentdb_secret = (environment ^^ "-DocumentDBSecret") ∷ id ∷ scope;
  documentdb_security_group = (environment ^^ "-DocumentDBSecurityGroup") ∷ id ∷ scope;
  document_db = (environment ^^ "-DocDB") ∷ id ∷ scope;
}

abbrev pub arn_of : Cdk → DocumentDbStack → String
arn_of cdk stack = cdk.attr stack.documentdb_secret "secret_arn"

abbrev pub endpoint_of : Cdk → DocumentDbStack → String
endpoint_of cdk stack = cdk.attr stack.document_db "attr_endpoint"

-- The calls on creation and on update.
abbrev pub ResourceStores :
    (cdk : Cdk) (lib : Libraries)
    → lib.Store
    → DocumentDbStack
    → Dict lib.Value
    → SdkResource
    → Type 0
ResourceStores cdk lib s stack secret r =
    Stores lib s (arn_of cdk stack) (endpoint_of cdk stack) secret r.on_create
    × Stores lib s (arn_of cdk stack) (endpoint_of cdk stack) secret r.on_update

-- When the ARN of the stack's secret and the endpoint of its cluster have no quotation mark, no
-- backslash and no control character, aws_cdk's join puts texts together, and the secret is there
-- and is a JSON object, the stack is made, and each of its calls, on creation and on update, carries an
-- event on which its function writes the endpoint into the secret and changes nothing else.
pub documentdb-Stores :
    (cdk : Cdk) (lib : Libraries) (works : Works lib) (s : lib.Store) (old : String)
    (secret : Dict lib.Value) (scope : Handle) (id : String) (vpc : Handle) (environment : String)
    (env : Environment)
    → ((xs : List String) → cdk.join "" xs ≡ join_all xs)
    → is_plain (arn_of cdk (stack_of scope id environment)) ≡ true
    → is_plain (endpoint_of cdk (stack_of scope id environment)) ≡ true
    → lib.get_secret_value (arn_of cdk (stack_of scope id environment)) s ≡ some old
    → lib.loads old ≡ some secret
    → ((documentdb_stack cdk scope id vpc environment env).result
        ≡ ok (stack_of scope id environment))
      × All
          (ResourceStores cdk lib s (stack_of scope id environment) secret)
          (sdk_resources (documentdb_stack cdk scope id vpc environment env).calls)
unfolding documentdb_stack
documentdb-Stores cdk lib works s old secret scope id vpc environment env join plain_arn
      plain_endpoint there object =
    let stores =
      λ (request : String) (written : is_written request ≡ true) (plain : is_plain request ≡ true).
        endpoint_call-Stores cdk lib works s old secret environment request
          (cdk.attr ((environment ^^ "-UpdateSecretLambda") ∷ id ∷ scope) "function_name")
          (arn_of cdk (stack_of scope id environment))
          (endpoint_of cdk (stack_of scope id environment)) join written plain plain_arn
          plain_endpoint there object in
    (refl, ((stores "Create" refl refl, stores "Update" refl refl), tt))
