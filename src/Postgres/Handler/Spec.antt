-- ===== src/Postgres/Handler/Spec.antt =====
-- What the event of the database function asks of a server that works as documented.
use mathlib.Core.Path.{fun_ext}
use services_modulith_infra.Base.{
  String, ◌≡◌, refl, ap, ◌∙◌, Bool, true, false, ◌&&◌, ◌||◌, List, [], ◌∷◌, ◌++◌, map, any, ◌==◌,
  eq_iff, arith, Bool-cases, inl, inr, if◌then◌else◌,
}
use services_modulith_infra.Postgres.Handler.{Libraries, value, Event}
use services_modulith_infra.Postgres.Handler.Catalog.{
  Object, database, schema, same, Catalog, with_object, with_database, brought, add, add_lem,
}

-- The calls do what PostgreSQL documents, on the set of objects of the server: a database that is there
-- takes connections and schemas, and one that is not there can be created. The new database is a copy of
-- the template: it comes with the template's schemas, such as `public`. A creation changes nothing else,
-- and `IF NOT EXISTS` makes the creation of a schema that is there harmless.
pub record Documented (lib : Libraries) : Type 0 where
  pub view : lib.Server → Catalog
  pub template : (schema : String) → Bool
  pub made : String → lib.Server → lib.Server
  pub given : (db name : String) → lib.Server → lib.Server
  pub reads : (arn : String) → lib.read_secret arn ≡ value tt
  pub connects :
      (db : String) (s : lib.Server) → view s (database db) ≡ true → lib.connect db s ≡ value tt
  pub closes_cursor : (db : String) (s : lib.Server) → lib.close_cursor db s ≡ value tt
  pub closes_connection : (db : String) (s : lib.Server) → lib.close_connection db s ≡ value tt
  pub answers :
      (db : String) (s : lib.Server) → lib.exists_database db s ≡ value (view s (database db))
  pub creates :
      (db : String) (s : lib.Server)
      → view s (database db) ≡ false
      → lib.create_database db s ≡ value (made db s)
  pub gives :
      (db name : String) (s : lib.Server)
      → view s (database db) ≡ true
      → lib.create_schema db name s ≡ value (given db name s)
  pub view-made :
      (db : String) (s : lib.Server)
      → view s (database db) ≡ false
      → view (made db s) ≡ with_database template db (view s)
  pub view-given :
      (db name : String) (s : lib.Server)
      → view (given db name s) ≡ with_object (schema db name) (view s)

-- The specification: the event asks for its databases, and for its schemas in `ecomm`, if that is one
-- of them.
abbrev pub asked : (databases schemas : List String) → Object → Bool
asked databases schemas (database db) = any (λ d. db == d) databases
asked databases schemas (schema db name) =
    db == "ecomm" && any (λ d. db == d) databases && any (λ x. name == x) schemas

-- What there is then: what is asked for, the template's schemas in the databases that were not there,
-- and what there was.
abbrev pub provided : (template : String → Bool) → Event → Catalog → Catalog
provided template event c p =
    asked event.databases event.schemas p
    || brought template c (asked event.databases event.schemas) p
    || c p

-- The objects in the order in which the loop asks for them.
abbrev pub of_database : List String → String → List Object
of_database schemas db = database db ∷ (if db == "ecomm" then map (schema db) schemas else [])

abbrev pub of_databases : List String → List String → List Object
of_databases schemas [] = []
of_databases schemas (db ∷ dbs) = of_database schemas db ++ of_databases schemas dbs

asked_schemas :
    (schemas : List String) (db : String) (p : Object)
    → any (same p) (map (schema db) schemas)
      ≡ elim p [ database _ ↦ false | schema d x ↦ d == db && any (λ y. x == y) schemas ]
asked_schemas [] db (database d) = refl
asked_schemas [] db (schema d x) = ground arith
asked_schemas (y ∷ schemas) db (database d) = asked_schemas schemas db (database d)
asked_schemas (y ∷ schemas) db (schema d x) = ground (arith, asked_schemas schemas db (schema d x))

any-append :
    (p : Object → Bool) (os os' : List Object) → any p (os ++ os') ≡ (any p os || any p os')
any-append p [] os' = refl
any-append p (o ∷ os) os' = ground (arith, any-append p os os')

asked_database :
    (schemas : List String) (d : String) (p : Object)
    → any (same p) (of_database schemas d) ≡ elim p [
      | database db ↦ db == d
      | schema db name ↦ db == "ecomm" && db == d && any (λ y. name == y) schemas
    ]
asked_database schemas d (database db) = elim (Bool-cases (d == "ecomm")) [
  | inl e ↦ rw (e, asked_schemas schemas d (database db)) (ground arith)
  | inr e ↦ rw e (ground arith)
]
asked_database schemas d (schema db name) = elim (Bool-cases (d == "ecomm")) [
  | inl e ↦
      rw (e, asked_schemas schemas d (schema db name))
        (ground (arith, eq_iff d "ecomm", eq_iff db d, eq_iff db "ecomm"))
  | inr e ↦ rw e (ground (arith, eq_iff d "ecomm", eq_iff db d, eq_iff db "ecomm"))
]

asked_lem :
    (schemas dbs : List String) (p : Object)
    → any (same p) (of_databases schemas dbs) ≡ asked dbs schemas p
asked_lem schemas [] (database db) = refl
asked_lem schemas [] (schema db name) = ground arith
asked_lem schemas (d ∷ dbs) (database db) =
    any-append (same (database db)) (of_database schemas d) (of_databases schemas dbs)
    ∙ rw (asked_database schemas d (database db), asked_lem schemas dbs (database db)) refl
asked_lem schemas (d ∷ dbs) (schema db name) =
    any-append (same (schema db name)) (of_database schemas d) (of_databases schemas dbs)
    ∙ rw (asked_database schemas d (schema db name), asked_lem schemas dbs (schema db name))
        (ground arith)

pub add-provided :
    (template : String → Bool) (schemas dbs : List String) (c : Catalog)
    → add template (of_databases schemas dbs) c
      ≡ (λ p. asked dbs schemas p || brought template c (asked dbs schemas) p || c p)
add-provided template schemas dbs c = fun_ext λ p.
    add_lem template (of_databases schemas dbs) c p
    ∙ ap (λ (q : Object → Bool). q p || brought template c q p || c p)
        (fun_ext (asked_lem schemas dbs))
