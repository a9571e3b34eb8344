-- ===== src/DocumentDb/Handler/Endpoint.antt =====
-- What the function of the document database leaves in the secrets manager.
use services_modulith_infra.Base.{
  String, ◌≡◌, refl, ◌∙◌, Bool, true, ◌||◌, Option, none, some, ◌==◌, if◌then◌else◌, Bool-cases,
  inl, inr,
}
use services_modulith_infra.Base.Dict.{Dict, lookup, insert, lookup-insert}
use services_modulith_infra.DocumentDb.Handler.{
  Event, Libraries, update_secret, request_of, update_request, handler,
}

-- A secret that is there can be written, and then has what was written; the other secrets keep
-- theirs. What json writes, json reads.
pub record Works (lib : Libraries) : Type 0 where
  pub stored : (secret_id secret_string : String) → lib.Store → lib.Store
  pub puts :
      (secret_id new old : String) (s : lib.Store)
      → lib.get_secret_value secret_id s ≡ some old
      → lib.put_secret_value secret_id new s ≡ some (stored secret_id new s)
  pub gets :
      (other secret_id new : String) (s : lib.Store)
      → lib.get_secret_value other (stored secret_id new s)
        ≡ (if other == secret_id then some new else lib.get_secret_value other s)
  pub loads-dumps : (d : Dict lib.Value) → lib.loads (lib.dumps d) ≡ some d

-- The request of a custom resource that is made or changed.
abbrev pub writes : Event → Bool
writes event = event.request_type == "Create" || event.request_type == "Update"

-- The value of a key of the JSON object that a secret holds.
abbrev field_of : (lib : Libraries) → Option (Dict lib.Value) → String → Option lib.Value
field_of lib none k = none
field_of lib (some d) k = lookup k d

abbrev object_of : (lib : Libraries) → Option String → Option (Dict lib.Value)
object_of lib none = none
object_of lib (some t) = lib.loads t

-- What the secrets manager holds, as objects.
abbrev pub secret_field :
    (lib : Libraries) → lib.Store → (secret_id key : String) → Option lib.Value
secret_field lib s secret_id key =
    field_of lib (object_of lib (lib.get_secret_value secret_id s)) key

field-stored :
    (lib : Libraries) (works : Works lib) (arn : String) (d : Dict lib.Value) (s : lib.Store)
    (other key : String)
    → secret_field lib (works.stored arn (lib.dumps d) s) other key
      ≡ (if other == arn then lookup key d else secret_field lib s other key)
field-stored lib works arn d s other key = elim (Bool-cases (other == arn)) [
  | inl e ↦ rw (works.gets other arn (lib.dumps d) s, e, works.loads-dumps d) refl
  | inr e ↦ rw (works.gets other arn (lib.dumps d) s, e) refl
]

-- The secret with the endpoint.
abbrev pub with_endpoint : (lib : Libraries) → Event → Dict lib.Value → Dict lib.Value
with_endpoint lib event secret =
    insert "documentdb_endpoint" (lib.text event.document_db_endpoint) secret

-- The store with it.
abbrev pub written : (lib : Libraries) → Works lib → Event → Dict lib.Value → lib.Store → lib.Store
written lib works event secret s =
    works.stored event.secret_arn (lib.dumps (with_endpoint lib event secret)) s

pub field-written :
    (lib : Libraries) (works : Works lib) (event : Event) (secret : Dict lib.Value) (s : lib.Store)
    (other key : String)
    → secret_field lib (written lib works event secret s) other key ≡ (
        if other == event.secret_arn
        then (if key == "documentdb_endpoint"
            then some (lib.text event.document_db_endpoint)
            else lookup key secret)
        else secret_field lib s other key)
field-written lib works event secret s other key =
    field-stored lib works event.secret_arn (with_endpoint lib event secret) s other key
    ∙ rw (lookup-insert key "documentdb_endpoint" (lib.text event.document_db_endpoint) secret) refl

pub handler-writes :
    (lib : Libraries) (works : Works lib) (event : Event) (s : lib.Store) (old : String)
    (secret : Dict lib.Value)
    → writes event ≡ true
    → lib.get_secret_value event.secret_arn s ≡ some old
    → lib.loads old ≡ some secret
    → handler lib (request_of event) s
      ≡ some (written lib works event secret s, "UpdateSecretWithEndpoints")
unfolding handler update_request update_secret
handler-writes lib works event s old secret hw hg hl =
    rw
      (
        hw,
        hg,
        hl,
        works.puts event.secret_arn (lib.dumps (with_endpoint lib event secret)) old s hg,
      )
      refl

-- A creation or an update of the resource whose secret is there and is a JSON object succeeds, with
-- the physical id. Then the secret has the cluster's endpoint under `documentdb_endpoint` and what
-- it had under every other key, and every other secret has what it had.
pub handler-stores :
    (lib : Libraries) (works : Works lib) (event : Event) (s : lib.Store) (old : String)
    (secret : Dict lib.Value)
    → writes event ≡ true
    → lib.get_secret_value event.secret_arn s ≡ some old
    → lib.loads old ≡ some secret
    → (s' : lib.Store) × (handler lib (request_of event) s ≡ some (s', "UpdateSecretWithEndpoints"))
      × ((other key : String)
          → secret_field lib s' other key ≡ (
              if other == event.secret_arn
              then (if key == "documentdb_endpoint"
                  then some (lib.text event.document_db_endpoint)
                  else lookup key secret)
              else secret_field lib s other key))
handler-stores lib works event s old secret hw hg hl = (
  written lib works event secret s,
  handler-writes lib works event s old secret hw hg hl,
  field-written lib works event secret s,
)
