-- ===== src/Postgres/Handler/Examples.antt =====
-- Runs of the database function on a small server: the databases and the schemas that it has.
use services_modulith_infra.Base.{
  none, some, false, List, length, String, Bool, true, ◌&&◌, ◌≡◌, ◌≢◌, refl, List, [], ◌∷◌, any,
  All, length, ◌==◌, eq_iff, if◌then◌else◌, arith,
}
use services_modulith_infra.Postgres.Handler.{
  Libraries, Outcome, value, exception, Event, success, failed, request_of, answer,
  provision_request, handler,
}
use services_modulith_infra.Postgres.Handler.Answers.{handler-answers, handler-ne-success}
use services_modulith_infra.Postgres.Handler.Provisioned.{Works}
use mathlib.Core.Path.{fun_ext}
use services_modulith_infra.Postgres.Handler.Catalog.{
  Object, Catalog, database, with_object, with_database,
}
use services_modulith_infra.Postgres.Handler.Spec.{Documented}
use services_modulith_infra.Postgres.Config.{database_request}
use services_modulith_infra.Postgres.Handler.Requested.{event_of, request-provisioned}

abbrev Small : Type 0
Small = List String × List (String × String)

abbrev has : String → Small → Bool
has db s = any (λ d. db == d) s.0

abbrev has_in : String → String → Small → Bool
has_in db schema s = any (λ p. db == p.0 && schema == p.1) s.1

abbrev connect_small : String → Small → Outcome Unit
connect_small db s = if has db s then value tt else exception "no such database"

-- A new database has the schema `public`.
abbrev made_small : String → Small → Small
made_small db s = (db ∷ s.0, (db, "public") ∷ s.1)

abbrev create_small : String → Small → Outcome Small
create_small db s =
    if has db s then exception "database already exists" else value (made_small db s)

abbrev schema_small : String → String → Small → Outcome Small
schema_small db schema s =
    if has db s then value (s.0, (db, schema) ∷ s.1) else exception "no such database"

abbrev small : Libraries
small = record {
  Server = Small;
  read_secret = λ arn. value tt;
  connect = connect_small;
  exists_database = λ db s. value (has db s);
  create_database = create_small;
  create_schema = schema_small;
  close_cursor = λ db s. value tt;
  close_connection = λ db s. value tt;
}

eq_true : (s : String) → (s == s) ≡ true
eq_true s = (eq_iff s s).1 refl

small_works : Works small
small_works = record {
  has_database = has;
  has_schema = has_in;
  made = made_small;
  given = λ db schema s. (s.0, (db, schema) ∷ s.1);
  reads = λ arn. refl;
  connects = λ db s h. rw h refl;
  closes_cursor = λ db s. refl;
  closes_connection = λ db s. refl;
  answers = λ db s. refl;
  creates = λ db s h. rw h refl;
  gives = λ db schema s h. rw h refl;
  has-made = λ db s. rw (eq_true db) refl;
  has-given = λ db schema s. rw (eq_true db, eq_true schema) refl;
  given-keeps_database = λ other db schema s h. h;
  given-keeps_schema = λ other schema' db schema s h. ground arith;
}

abbrev ask_for : String → Event
ask_for db = record {
  request_type = "Create";
  secret_arn = "arn:aws:secretsmanager:eu-west-1:123456789012:secret:postgres";
  databases = db ∷ [];
  schemas = "orders" ∷ "products" ∷ [];
}

abbrev fresh : Small
fresh = ("postgres" ∷ [], [])

handler-answers_example : length (handler small (request_of (ask_for "ecomm")) fresh).1 ≡ 1
handler-answers_example = handler-answers small (request_of (ask_for "ecomm")) fresh

-- A request without its properties is answered with a failure.
bare_fails :
    handler small (record { request_type = some "Create"; properties = none }) fresh
    ≡ (fresh, failed "ResourceProperties" ∷ [])
unfolding handler answer provision_request
bare_fails = refl

handler-ne-success_example :
    (handler small (request_of (ask_for "analytics")) fresh).1 ≢ success ∷ []
handler-ne-success_example =
    handler-ne-success small (ask_for "analytics") fresh "analytics" [] refl refl refl

request-provisioned_example :
    let (s', sent) =
      handler small (request_of (event_of "Create" (database_request "arn"))) fresh in
    (sent ≡ success ∷ [])
    × (has "ecomm" s' ≡ true)
    × All
        (λ x. has_in "ecomm" x s' ≡ true)
        ("ordering" ∷ "payment" ∷ "platform" ∷ "product" ∷ "rag" ∷ "security" ∷ "shipping" ∷ "web"
          ∷ [])
unfolding small_works
request-provisioned_example = request-provisioned small small_works "Create" "arn" fresh refl refl

abbrev small_view : Small → Catalog
small_view s (database db) = has db s
small_view s (Object.schema db name) = has_in db name s

abbrev is_public : String → Bool
is_public x = x == "public"

made_view :
    (db : String) (s : Small) (p : Object)
    → small_view s (database db) ≡ false
    → small_view (made_small db s) p ≡ with_database is_public db (small_view s) p
made_view db s (database a) h = ground arith
made_view db s (Object.schema a x) h = ground arith

given_view :
    (db name : String) (s : Small) (p : Object)
    → small_view (s.0, (db, name) ∷ s.1) p ≡ with_object (Object.schema db name) (small_view s) p
given_view db name s (database a) = refl
given_view db name s (Object.schema a x) = refl

small_documented : Documented small
small_documented = record {
  view = small_view;
  template = is_public;
  made = made_small;
  given = λ db name s. (s.0, (db, name) ∷ s.1);
  reads = λ arn. refl;
  connects = λ db s h. rw h refl;
  closes_cursor = λ db s. refl;
  closes_connection = λ db s. refl;
  answers = λ db s. refl;
  creates = λ db s h. rw h refl;
  gives = λ db name s h. rw h refl;
  view-made = λ db s h. fun_ext (λ p. made_view db s p h);
  view-given = λ db name s. fun_ext (given_view db name s);
}

-- `analytics` comes after `ecomm`, and is made too.
abbrev two : Event
two = record {
  request_type = "Update";
  secret_arn = "arn";
  databases = "ecomm" ∷ "analytics" ∷ [];
  schemas = "orders" ∷ [];
}

abbrev removal : Event
removal = record { request_type = "Delete"; secret_arn = "arn"; databases = []; schemas = [] }

abbrev several : List Event
several = two ∷ removal ∷ ask_for "ecomm" ∷ two ∷ []
