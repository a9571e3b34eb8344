-- ===== src/Postgres/Handler/Provisioned.antt =====
-- What the database function leaves on a server that does what it is asked.
use services_modulith_infra.Base.{
  String, Bool, true, false, ◌≡◌, refl, List, [], ◌∷◌, All, ◌==◌, if◌then◌else◌, Bool-cases, inl,
  inr,
}
use services_modulith_infra.Postgres.Handler.{
  Libraries, value, Event, Response, success, create_schemas, fill_database, fill_databases,
  provision, request_of, answer, provision_request, handler,
}

-- The calls do what PostgreSQL documents: a database that is there takes connections and schemas,
-- one that is not there can be created, what was created is there, and what was there stays. `IF NOT
-- EXISTS` makes a second creation of a schema harmless.
pub record Works (lib : Libraries) : Type 0 where
  pub has_database : String → lib.Server → Bool
  pub has_schema : (database schema : String) → lib.Server → Bool
  pub made : String → lib.Server → lib.Server
  pub given : (database schema : String) → lib.Server → lib.Server
  pub reads : (arn : String) → lib.read_secret arn ≡ value tt
  pub connects :
      (db : String) (s : lib.Server) → has_database db s ≡ true → lib.connect db s ≡ value tt
  pub closes_cursor : (db : String) (s : lib.Server) → lib.close_cursor db s ≡ value tt
  pub closes_connection : (db : String) (s : lib.Server) → lib.close_connection db s ≡ value tt
  pub answers :
      (db : String) (s : lib.Server) → lib.exists_database db s ≡ value (has_database db s)
  pub creates :
      (db : String) (s : lib.Server)
      → has_database db s ≡ false
      → lib.create_database db s ≡ value (made db s)
  pub gives :
      (db schema : String) (s : lib.Server)
      → has_database db s ≡ true
      → lib.create_schema db schema s ≡ value (given db schema s)
  pub has-made : (db : String) (s : lib.Server) → has_database db (made db s) ≡ true
  pub has-given :
      (db schema : String) (s : lib.Server) → has_schema db schema (given db schema s) ≡ true
  pub given-keeps_database :
      (other db schema : String) (s : lib.Server)
      → has_database other s ≡ true
      → has_database other (given db schema s) ≡ true
  pub given-keeps_schema :
      (other schema' db schema : String) (s : lib.Server)
      → has_schema other schema' s ≡ true
      → has_schema other schema' (given db schema s) ≡ true

module _ (lib : Libraries) (works : Works lib) where
  open lib use {Server}
  open works use {has_database, has_schema, made, given}

  -- The server after the schemas.
  abbrev given_all : String → List String → Server → Server
  given_all db [] s = s
  given_all db (schema ∷ schemas) s = given_all db schemas (given db schema s)

  create_schemas-gives :
      (db : String) (schemas : List String) (s : Server) (sent : List Response)
      → has_database db s ≡ true
      → create_schemas lib db schemas s sent ≡ (value tt, given_all db schemas s, sent)
  unfolding create_schemas
  create_schemas-gives db [] s sent h = refl
  create_schemas-gives db (schema ∷ schemas) s sent h = rw (works.gives db schema s h) (
      create_schemas-gives db schemas (given db schema s) sent
        (works.given-keeps_database db db schema s h))

  given_all-keeps_database :
      (other db : String) (schemas : List String) (s : Server)
      → has_database other s ≡ true
      → has_database other (given_all db schemas s) ≡ true
  given_all-keeps_database other db [] s h = h
  given_all-keeps_database other db (schema ∷ schemas) s h =
      given_all-keeps_database other db schemas (given db schema s)
        (works.given-keeps_database other db schema s h)

  given_all-keeps_schema :
      (x db : String) (schemas : List String) (s : Server)
      → has_schema db x s ≡ true
      → has_schema db x (given_all db schemas s) ≡ true
  given_all-keeps_schema x db [] s h = h
  given_all-keeps_schema x db (schema ∷ schemas) s h =
      given_all-keeps_schema x db schemas (given db schema s)
        (works.given-keeps_schema db x db schema s h)

  All-given_all :
      (db : String) (schemas : List String) (s : Server)
      → All (λ x. has_schema db x (given_all db schemas s) ≡ true) schemas
  All-given_all db [] s = tt
  All-given_all db (schema ∷ schemas) s = (
    given_all-keeps_schema schema db schemas (given db schema s) (works.has-given db schema s),
    All-given_all db schemas (given db schema s),
  )

  -- The server after the test for the database.
  abbrev with_database : String → Server → Server
  with_database db s = if has_database db s then s else made db s

  has-with_database : (db : String) (s : Server) → has_database db (with_database db s) ≡ true
  has-with_database db s = elim (Bool-cases (has_database db s)) [
    | inl e ↦ rw e e
    | inr e ↦ rw e (works.has-made db s)
  ]

  provision-ecomm :
      (event : Event) (s : Server)
      → has_database "postgres" s ≡ true
      → event.databases ≡ "ecomm" ∷ []
      → provision lib event s []
        ≡ (value tt, given_all "ecomm" event.schemas (with_database "ecomm" s), success ∷ [])
  unfolding provision fill_databases fill_database
  provision-ecomm event s hp hd = elim (Bool-cases (has_database "ecomm" s)) [
    | inl e ↦ rw (
      hd,
      works.reads event.secret_arn,
      works.connects "postgres" s hp,
      works.answers "ecomm" s,
      e,
      works.connects "ecomm" s e,
      create_schemas-gives "ecomm" event.schemas s [] e,
      works.closes_cursor "ecomm" (given_all "ecomm" event.schemas s),
      works.closes_connection "ecomm" (given_all "ecomm" event.schemas s),
      works.closes_cursor "postgres" (given_all "ecomm" event.schemas s),
      works.closes_connection "postgres" (given_all "ecomm" event.schemas s),
    )
    | inr e ↦ rw (
      hd,
      works.reads event.secret_arn,
      works.connects "postgres" s hp,
      works.answers "ecomm" s,
      e,
      works.creates "ecomm" s e,
      works.connects "ecomm" (made "ecomm" s) (works.has-made "ecomm" s),
      create_schemas-gives "ecomm" event.schemas (made "ecomm" s) [] (works.has-made "ecomm" s),
      works.closes_cursor "ecomm" (given_all "ecomm" event.schemas (made "ecomm" s)),
      works.closes_connection "ecomm" (given_all "ecomm" event.schemas (made "ecomm" s)),
      works.closes_cursor "postgres" (given_all "ecomm" event.schemas (made "ecomm" s)),
      works.closes_connection "postgres" (given_all "ecomm" event.schemas (made "ecomm" s)),
    )
  ]

-- On a server that works as documented and has the database `postgres`, an event that is no deletion
-- and names the database `ecomm` alone is answered with success, whether or not the database was there before; then the database and every schema of the
-- event are there.
pub handler_provisions :
    (lib : Libraries) (works : Works lib) (event : Event) (s : lib.Server)
    → (event.request_type == "Delete") ≡ false
    → event.databases ≡ "ecomm" ∷ []
    → works.has_database "postgres" s ≡ true
    → let (s', sent) = handler lib (request_of event) s in
      (sent ≡ success ∷ [])
      × (works.has_database "ecomm" s' ≡ true)
      × All (λ x. works.has_schema "ecomm" x s' ≡ true) event.schemas
unfolding handler answer provision_request
handler_provisions lib works event s he hd hp =
    let s' = with_database lib works "ecomm" s in
    rw (he, provision-ecomm lib works event s hp hd)
      (
        refl,
        given_all-keeps_database lib works "ecomm" "ecomm" event.schemas s'
            (has-with_database lib works "ecomm" s),
        All-given_all lib works "ecomm" event.schemas s',
      )
