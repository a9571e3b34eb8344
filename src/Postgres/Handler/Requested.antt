-- ===== src/Postgres/Handler/Requested.antt =====
-- The request of the custom resource `DatabaseCreator`, and what the function makes of it.
use services_modulith_infra.Base.{String, true, false, ◌≡◌, refl, [], ◌∷◌, All, ◌==◌}
use services_modulith_infra.Cdk.{DatabaseRequest}
use services_modulith_infra.Postgres.Config.{database_request}
use services_modulith_infra.Postgres.Handler.{Libraries, Event, success, request_of, handler}
use services_modulith_infra.Postgres.Handler.Provisioned.{Works, handler_provisions}

-- The event that CloudFormation makes of the properties of a custom resource.
abbrev pub event_of : String → DatabaseRequest → Event
event_of request_type r = record {
  request_type = request_type;
  secret_arn = r.secret_arn;
  databases = r.databases;
  schemas = r.schemas;
}

-- When the custom resource of the stack is created or updated (when the request is no deletion), on a
-- server that works as documented and has the database `postgres`, the function answers with success
-- and no failure, and then the database `ecomm` and the eight schemas of the request are there.
pub request-provisioned :
    (lib : Libraries) (works : Works lib) (request_type secret_arn : String) (s : lib.Server)
    → (request_type == "Delete") ≡ false
    → works.has_database "postgres" s ≡ true
    → let (s', sent) =
        handler lib (request_of (event_of request_type (database_request secret_arn))) s in
      (sent ≡ success ∷ [])
      × (works.has_database "ecomm" s' ≡ true)
      × All
          (λ x. works.has_schema "ecomm" x s' ≡ true)
          ("ordering" ∷ "payment" ∷ "platform" ∷ "product" ∷ "rag" ∷ "security" ∷ "shipping" ∷ "web"
            ∷ [])
request-provisioned lib works request_type secret_arn s he hp =
    handler_provisions lib works (event_of request_type (database_request secret_arn)) s he refl hp
