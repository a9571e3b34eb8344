-- ===== src/Postgres/Handler/Catalog.antt =====
-- What a PostgreSQL server keeps, as the set of its databases and schemas.
use mathlib.Core.Path.{fun_ext}
use services_modulith_infra.Base.{
  String, ◌≡◌, refl, Bool, true, false, not, ◌&&◌, ◌||◌, List, [], ◌∷◌, ◌++◌, any, ◌==◌, eq_iff,
  arith, Bool-cases, inl, inr,
}

pub data Object : Type 0 where
  database : String → Object
  schema : (db name : String) → Object

abbrev pub same : Object → Object → Bool
same (database a) (database b) = a == b
same (schema a x) (schema b y) = a == b && x == y
same _ _ = false

same-eq : (p o : Object) → same p o ≡ true → p ≡ o
same-eq (database a) (database b) h = ground (arith, eq_iff a b)
same-eq (schema a x) (schema b y) h = ground (arith, eq_iff a b, eq_iff x y)
same-eq (database a) (schema b y) h = cc
same-eq (schema a x) (database b) h = cc

pub same_refl : (o : Object) → same o o ≡ true
same_refl (database a) = ground (arith, eq_iff a a)
same_refl (schema a x) = ground (arith, eq_iff a a, eq_iff x x)

-- Which objects are there?
abbrev pub Catalog : Type 0
Catalog = Object → Bool

abbrev pub with_object : Object → Catalog → Catalog
with_object o c p = same p o || c p

-- A database that is not there is made from a template, and comes with the template's schemas.
abbrev copied : (template : String → Bool) → (db : String) → Catalog → Object → Bool
copied template db c (database d) = false
copied template db c (schema d x) = d == db && template x && not (c (database db))

abbrev pub with_database : (template : String → Bool) → (db : String) → Catalog → Catalog
with_database template db c p = same p (database db) || copied template db c p || c p

not_copied :
    (template : String → Bool) (db : String) (c : Catalog) (p : Object)
    → c (database db) ≡ true
    → copied template db c p ≡ false
not_copied template db c (database d) h = refl
not_copied template db c (schema d x) h = ground arith

pub with_database-present :
    (template : String → Bool) (db : String) (c : Catalog)
    → c (database db) ≡ true
    → with_database template db c ≡ c
with_database-present template db c h = fun_ext λ p. elim (Bool-cases (same p (database db))) [
  | inl e ↦ rw (e, same-eq p (database db) e, h) refl
  | inr e ↦ rw (e, not_copied template db c p h) refl
]

module _ (template : String → Bool) where
  abbrev add_one : Object → Catalog → Catalog
  add_one (database db) c = with_database template db c
  add_one (schema db name) c = with_object (schema db name) c

  -- The objects asked for one after the other.
  unfoldable pub add : List Object → Catalog → Catalog
  add [] c = c
  add (o ∷ os) c = add os (add_one o c)

  -- The schemas that come with the databases that were not there.
  abbrev pub brought : (c : Catalog) → (asked : Object → Bool) → Object → Bool
  brought c asked (database d) = false
  brought c asked (schema d x) = template x && asked (database d) && not (c (database d))

  pub add_lem :
      (os : List Object) (c : Catalog) (p : Object)
      → add os c p ≡ (any (same p) os || brought c (λ q. any (same q) os) p || c p)
  unfolding add
  add_lem [] c (database d) = refl
  add_lem [] c (schema d x) = ground arith
  add_lem (database db ∷ os) c (database d) =
      ground (arith, add_lem os (with_database template db c) (database d))
  add_lem (database db ∷ os) c (schema d x) =
      ground (arith, add_lem os (with_database template db c) (schema d x), eq_iff d db)
  add_lem (schema db name ∷ os) c (database d) =
      ground (arith, add_lem os (with_object (schema db name) c) (database d))
  add_lem (schema db name ∷ os) c (schema d x) =
      ground (arith, add_lem os (with_object (schema db name) c) (schema d x))

  pub add-append : (os os' : List Object) (c : Catalog) → add (os ++ os') c ≡ add os' (add os c)
  unfolding add
  add-append [] os' c = refl
  add-append (o ∷ os) os' c = add-append os os' (add_one o c)
