-- ===== src/DocumentDb/Handler/Examples.antt =====
-- A run of the function over a small secrets manager. A text is written with a mark before each
-- character and at its end, and an object as the texts of its keys and values.
use Prim.Native.Char.{Char, code}
use services_modulith_infra.Base.{
  String, ◌≡◌, refl, ◌↔◌, ◌⊎◌, true, Option, none, some, List, [], ◌∷◌, ◌==◌, eqb, ap,
  if◌then◌else◌,
}
use services_modulith_infra.Base.Dict.{Dict, lookup, insert, lookup-insert}
use services_modulith_infra.DocumentDb.Handler.{Event, Libraries, request_of, handler}
use services_modulith_infra.DocumentDb.Handler.Endpoint.{
  Works, writes, secret_field, handler-stores,
}
use services_modulith_infra.DocumentDb.Handler.History.{
  handle_all, last_endpoint, field_with, handle_all-last_endpoint,
}
use services_modulith_infra.DocumentDb.Handler.Failures.{IsUnreadable, handler-fails}

abbrev pub write : String → String → String
write String.[] rest = String.◌∷◌ "y" (String.◌∷◌ "y" rest)
write (String.◌∷◌ c s) rest = String.◌∷◌ "x" (String.◌∷◌ c (write s rest))

abbrev pub push : Char → List String → List String
push c [] = []
push c (t ∷ ts) = String.◌∷◌ c t ∷ ts

abbrev pub texts : String → List String
texts String.[] = []
texts (String.◌∷◌ m String.[]) = []
texts (String.◌∷◌ m (String.◌∷◌ c s)) =
    let rest = texts s in if eqb (code m) b'x' then push c rest else String.[] ∷ rest

abbrev pub dumps_small : Dict String → String
dumps_small [] = String.[]
dumps_small ((k, v) ∷ d) = write k (write v (dumps_small d))

abbrev pub pairs : List String → Dict String
pairs [] = []
pairs (k ∷ []) = []
pairs (k ∷ v ∷ ts) = (k, v) ∷ pairs ts

abbrev pub loads_small : String → Option (Dict String)
loads_small t = some (pairs (texts t))

texts-write : (s rest : String) → texts (write s rest) ≡ s ∷ texts rest
texts-write String.[] rest = refl
texts-write (String.◌∷◌ c s) rest = ap (push c) (texts-write s rest)

pairs-dumps : (d : Dict String) → pairs (texts (dumps_small d)) ≡ d
pairs-dumps [] = refl
pairs-dumps ((k, v) ∷ d) =
    rw (texts-write k (write v (dumps_small d)), texts-write v (dumps_small d), pairs-dumps d) refl

loads-dumps_small : (d : Dict String) → loads_small (dumps_small d) ≡ some d
loads-dumps_small d = ap some (pairs-dumps d)

abbrev pub put_small : String → String → Dict String → Option (Dict String)
put_small k v s = elim (lookup k s) [ none ↦ none | some old ↦ some (insert k v s) ]

put_present :
    (k new old : String) (s : Dict String)
    → lookup k s ≡ some old
    → put_small k new s ≡ some (insert k new s)
put_present k new old s h = rw (put_small, h) refl

abbrev pub small : Libraries
small = record {
  Store = Dict String;
  Value = String;
  text = λ t. t;
  get_secret_value = lookup;
  put_secret_value = put_small;
  loads = loads_small;
  dumps = dumps_small;
}

pub small_works : Works small
small_works = record {
  stored = insert;
  puts = λ k new old s h. put_present k new old s h;
  gets = λ other k new s. lookup-insert other k new s;
  loads-dumps = loads-dumps_small;
}

abbrev created_event : Event
created_event = record {
  request_type = "Create";
  secret_arn = "arn";
  document_db_endpoint = "docdb.example:27017";
}

abbrev pub old_secret : Dict String
old_secret = ("username", "docdbadmin") ∷ ("password", "secret") ∷ []

abbrev old_store : Dict String
old_store = ("arn", dumps_small old_secret) ∷ ("other", dumps_small []) ∷ []

handler-stores_example :
    (s' : Dict String) × (handler small (request_of created_event) old_store
      ≡ some (s', "UpdateSecretWithEndpoints"))
    × ((other key : String)
        → secret_field small s' other key ≡ (
            if other == "arn"
            then (if key == "documentdb_endpoint"
                then some "docdb.example:27017"
                else lookup key old_secret)
            else secret_field small old_store other key))
handler-stores_example =
    handler-stores small small_works created_event old_store (dumps_small old_secret) old_secret
      refl refl refl

abbrev updated_event : Event
updated_event = record {
  request_type = "Update";
  secret_arn = "arn";
  document_db_endpoint = "docdb2.example:27017";
}

abbrev orphan_event : Event
orphan_event = record {
  request_type = "Update";
  secret_arn = "gone";
  document_db_endpoint = "docdb.example:27017";
}

handler-fails_example :
    ((handler small (request_of orphan_event) old_store ≡ none)
      ↔ ((writes orphan_event ≡ true) × IsUnreadable small "gone" old_store))
    × ((writes orphan_event ≡ true)
        ⊎ (handler small (request_of orphan_event) old_store
            ≡ some (old_store, "UpdateSecretWithEndpoints")))
    × ((handler small (request_of orphan_event) old_store ≡ none)
        ⊎ ((s' : Dict String) × (handler small (request_of orphan_event) old_store
              ≡ some (s', "UpdateSecretWithEndpoints"))))
handler-fails_example = handler-fails small small_works orphan_event old_store

abbrev deleted_event : Event
deleted_event = record {
  request_type = "Delete";
  secret_arn = "other";
  document_db_endpoint = "docdb.example:27017";
}

abbrev requests : List Event
requests = created_event ∷ deleted_event ∷ updated_event ∷ []

handle_all-last_endpoint_example :
    (after : Dict String) × (handle_all small requests old_store ≡ some after)
    × ((arn key : String)
        → secret_field small after arn key
          ≡ field_with small
              (last_endpoint arn requests)
              key
              (secret_field small old_store arn key))
handle_all-last_endpoint_example = handle_all-last_endpoint small small_works requests old_store (
  (dumps_small old_secret, old_secret, refl, refl),
  ((dumps_small [], [], refl, refl), ((dumps_small old_secret, old_secret, refl, refl), tt)),
)
