-- ===== src/DocumentDb/Examples.antt =====
-- The document database's stack in one scope.
use services_modulith_infra.Base.{String, [], ◌∷◌, ◌≡◌, refl, some, All, join_all}
use services_modulith_infra.Base.Dict.{Dict}
use services_modulith_infra.Base.Json.Read.{or_fail, loads}
use services_modulith_infra.Cdk.{Cdk, ok}
use services_modulith_infra.Cdk.Sample.{sample}
use services_modulith_infra.DocumentDb.{documentdb_stack, endpoint_call}
use services_modulith_infra.DocumentDb.Handler.Examples.{
  small, small_works, old_secret, dumps_small,
}
use services_modulith_infra.DocumentDb.Payload.{event_of, payload_of, payload-reads}
use services_modulith_infra.DocumentDb.Stored.{stack_of, ResourceStores, documentdb-Stores}
use services_modulith_infra.DocumentDb.Access.{
  InvokesAllowed, sdk_resources, documentdb-InvokesAllowed,
}

documentdb-InvokesAllowed_example :
    let calls =
      (documentdb_stack sample [] "dev-DocumentDBStack"
        ("vpc" ∷ [])
        "dev"
        (record { account = "123456789012"; region = "eu-west-1" })).calls in
    All
      (λ r.
        InvokesAllowed sample "dev-Lambda" calls r.policy r.on_create
        × InvokesAllowed sample "dev-Lambda" calls r.policy r.on_update)
      (sdk_resources calls)
documentdb-InvokesAllowed_example =
    documentdb-InvokesAllowed sample [] "dev-DocumentDBStack" ("vpc" ∷ []) "dev"
      (record { account = "123456789012"; region = "eu-west-1" })

-- The sample with a join that puts the texts together.
abbrev joining : Cdk
joining = record {
  account_id = sample.account_id;
  region = sample.region;
  attr = sample.attr;
  part = sample.part;
  parts = sample.parts;
  select_subnets = sample.select_subnets;
  secret_json = sample.secret_json;
  as_string = sample.as_string;
  join = λ s xs. join_all xs;
}

payload-reads_example :
    or_fail
      (loads (
        payload_of (
          endpoint_call joining "dev" "Create" "dev-update"
            "arn:aws:secretsmanager:eu-west-1:1:secret:db" "db.cluster:27017")))
      event_of
    ≡ some (record {
      request_type = "Create";
      secret_arn = "arn:aws:secretsmanager:eu-west-1:1:secret:db";
      document_db_endpoint = "db.cluster:27017";
    })
payload-reads_example =
    payload-reads joining (λ xs. refl) "dev" "Create" "dev-update"
      "arn:aws:secretsmanager:eu-west-1:1:secret:db" "db.cluster:27017" refl refl refl

abbrev secrets : Dict String
secrets = ("secret_arn", dumps_small old_secret) ∷ []

documentdb-Stores_example :
    let built =
      documentdb_stack joining [] "dev-DocumentDBStack"
        ("vpc" ∷ [])
        "dev"
        (record { account = "123456789012"; region = "eu-west-1" }) in
    (built.result ≡ ok (stack_of [] "dev-DocumentDBStack" "dev"))
    × All
        (ResourceStores joining small secrets (stack_of [] "dev-DocumentDBStack" "dev") old_secret)
        (sdk_resources built.calls)
documentdb-Stores_example =
    documentdb-Stores joining small small_works secrets (dumps_small old_secret) old_secret []
      "dev-DocumentDBStack" ("vpc" ∷ []) "dev"
      (record { account = "123456789012"; region = "eu-west-1" }) (λ xs. refl) refl refl refl refl
