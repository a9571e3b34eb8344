-- ===== src/Postgres/Handler/Refinement.antt =====
-- The database function leaves the objects that its event asks for, and those that were there.
use mathlib.Core.Path.{fun_ext}
use services_modulith_infra.Base.{
  String, ◌≡◌, refl, sym, ap, ◌∙◌, Bool, true, false, ◌||◌, List, [], ◌∷◌, ◌++◌, map, ◌==◌, arith,
  Bool-cases, inl, inr, if◌then◌else◌,
}
use services_modulith_infra.Postgres.Handler.{
  Libraries, value, Event, Response, success, Action, ◌>>=◌, pure, ask, execute, create_schemas,
  fill_database, fill_databases, provision, request_of, answer, provision_request, handler,
}
use services_modulith_infra.Postgres.Handler.Catalog.{
  Object, database, schema, Catalog, add, add-append, with_database-present, same_refl,
}
use services_modulith_infra.Postgres.Handler.Spec.{
  Documented, provided, of_database, of_databases, add-provided,
}

or_true : (b : Bool) → (b || true) ≡ true
or_true true = refl
or_true false = refl

module _ (lib : Libraries) (doc : Documented lib) where
  open lib use {Server}
  open doc use {view, made, given, template}

  -- From this server, the step gives the value, sends nothing and adds the objects.
  abbrev Adds : {A : Type 0} → Action lib A → Server → A → List Object → Type 0
  Adds m s a os =
      (s' : Server) × ((sent : List Response) → m s sent ≡ (value a, s', sent))
      × (view s' ≡ add template os (view s))

  bind-Adds :
      {A B : Type 0} (m : Action lib A) (f : A → Action lib B) (s : Server) (a : A) (b : B)
      (os os' : List Object)
      → Adds m s a os
      → ((s' : Server) → view s' ≡ add template os (view s) → Adds (f a) s' b os')
      → Adds (◌>>=◌ lib m f) s b (os ++ os')
  bind-Adds m f s a b os os' (s₁, e₁, v₁) h =
      let (s₂, e₂, v₂) = h s₁ v₁ in
      (
        s₂,
        λ sent. rw (e₁ sent) (e₂ sent),
        v₂ ∙ ap (add template os') v₁ ∙ sym (add-append template os os' (view s)),
      )

  pure-Adds : {A : Type 0} (a : A) (s : Server) → Adds (pure lib a) s a []
  unfolding add
  pure-Adds a s = (s, λ sent. refl, refl)

  create_schemas-Adds :
      (db : String) (schemas : List String) (s : Server)
      → view s (database db) ≡ true
      → Adds (create_schemas lib db schemas) s tt (map (schema db) schemas)
  unfolding create_schemas add
  create_schemas-Adds db [] s h = (s, λ sent. refl, refl)
  create_schemas-Adds db (x ∷ schemas) s h =
      let (s', e, v) =
        create_schemas-Adds db schemas (given db x s) (rw (doc.view-given db x s) h) in
      (
        s',
        λ sent. rw (doc.gives db x s h) (e sent),
        v ∙ ap (add template (map (schema db) schemas)) (doc.view-given db x s),
      )

  create_if_missing-Adds :
      (db : String) (s : Server)
      → Adds
          (if view s (database db) then pure lib tt else execute lib (lib.create_database db))
          s
          tt
          (database db ∷ [])
  unfolding add
  create_if_missing-Adds db s = elim (Bool-cases (view s (database db))) [
    | inl e ↦ rw e (s, λ sent. refl, sym (with_database-present template db (view s) e))
    | inr e ↦ rw e (made db s, λ sent. rw (doc.creates db s e) refl, doc.view-made db s e)
  ]

  fill_schemas-Adds :
      (schemas : List String) (db : String) (bound : Bool) (s : Server)
      → view s (database db) ≡ true
      → Adds
          (if db == "ecomm"
            then (◌>>=◌ lib (ask lib (lib.connect db)) (λ _.
                ◌>>=◌ lib
                  (create_schemas lib db schemas)
                  (λ _. ◌>>=◌ lib (ask lib (lib.close_cursor db)) (λ _. pure lib true))))
            else pure lib bound)
          s
          (db == "ecomm" || bound)
          (if db == "ecomm" then map (schema db) schemas else [])
  fill_schemas-Adds schemas db bound s h = elim (Bool-cases (db == "ecomm")) [
    | inl e ↦
        let (s', steps, v) = create_schemas-Adds db schemas s h in
        rw e (s', λ sent. rw (doc.connects db s h, steps sent, doc.closes_cursor db s') refl, v)
    | inr e ↦ rw e (pure-Adds bound s)
  ]

  fill_database-Adds :
      (schemas : List String) (db : String) (bound : Bool) (s : Server)
      → Adds
          (fill_database lib schemas db bound)
          s
          (db == "ecomm" || bound)
          (of_database schemas db)
  unfolding fill_database add
  fill_database-Adds schemas db bound s =
      let (s', e, v) =
        bind-Adds
          (if view s (database db) then pure lib tt else execute lib (lib.create_database db))
          (λ _.
            if db == "ecomm"
            then (◌>>=◌ lib (ask lib (lib.connect db)) (λ _.
                ◌>>=◌ lib (create_schemas lib db schemas)
                  (λ _. ◌>>=◌ lib (ask lib (lib.close_cursor db)) (λ _. pure lib true))))
            else pure lib bound)
          s tt (db == "ecomm" || bound) (database db ∷ [])
          (if db == "ecomm" then map (schema db) schemas else []) (create_if_missing-Adds db s)
          (λ s₁ v₁.
            fill_schemas-Adds schemas db bound s₁ (rw (v₁, same_refl (database db)) refl)) in
      (s', λ sent. rw (doc.answers db s) (e sent), v)

  -- The connection is closed before the next step.
  closing-Adds :
      {A : Type 0} (m : Action lib A) (s : Server) (a : A) (os : List Object)
      → Adds m s a os
      → Adds (◌>>=◌ lib (ask lib (lib.close_connection "ecomm")) (λ _. m)) s a os
  closing-Adds m s a os (s', e, v) = (s', λ sent. rw (doc.closes_connection "ecomm" s) (e sent), v)

  -- The loop, once `db_conn` has a value or when the first database is `ecomm`.
  fill_databases-Adds :
      (schemas : List String) (dbs : List String) (s : Server)
      → Adds (fill_databases lib schemas true dbs) s tt (of_databases schemas dbs)
  unfolding fill_databases
  fill_databases-Adds schemas [] s = pure-Adds tt s
  fill_databases-Adds schemas (db ∷ dbs) s =
      bind-Adds (fill_database lib schemas db true) _ s true tt (of_database schemas db)
        (of_databases schemas dbs)
        (let (s', e, v) = fill_database-Adds schemas db true s in
          (s', λ sent. e sent ∙ ap (λ b. (value b, s', sent)) (or_true (db == "ecomm")), v))
        λ s₁ v₁.
          closing-Adds _ s₁ tt (of_databases schemas dbs) (fill_databases-Adds schemas dbs s₁)

  fill_databases_ecomm-Adds :
      (schemas : List String) (dbs : List String) (s : Server)
      → Adds
          (fill_databases lib schemas false ("ecomm" ∷ dbs))
          s
          tt
          (of_databases schemas ("ecomm" ∷ dbs))
  unfolding fill_databases
  fill_databases_ecomm-Adds schemas dbs s =
      bind-Adds (fill_database lib schemas "ecomm" false) _ s true tt (of_database schemas "ecomm")
        (of_databases schemas dbs) (fill_database-Adds schemas "ecomm" false s)
        λ s₁ v₁.
          closing-Adds _ s₁ tt (of_databases schemas dbs) (fill_databases-Adds schemas dbs s₁)

pub handler_refines :
    (lib : Libraries) (doc : Documented lib) (event : Event) (dbs : List String) (s : lib.Server)
    → (event.request_type == "Delete") ≡ false
    → event.databases ≡ "ecomm" ∷ dbs
    → doc.view s (database "postgres") ≡ true
    → let (s', sent) = handler lib (request_of event) s in
      (sent ≡ success ∷ []) × (doc.view s' ≡ provided doc.template event (doc.view s))
unfolding handler answer provision_request provision
handler_refines lib doc event dbs s he hd hp =
    let (s', e, v) = fill_databases_ecomm-Adds lib doc event.schemas dbs s in
    rw
      (
        he,
        hd,
        doc.reads event.secret_arn,
        doc.connects "postgres" s hp,
        e [],
        doc.closes_cursor "postgres" s',
        doc.closes_connection "postgres" s',
      )
      (refl, v ∙ add-provided doc.template event.schemas ("ecomm" ∷ dbs) (doc.view s))

provided_twice_at :
    (template : String → Bool) (event : Event) (c : Catalog) (p : Object)
    → provided template event (provided template event c) p ≡ provided template event c p
provided_twice_at template event c (database d) = ground arith
provided_twice_at template event c (schema d x) = ground arith

provided_twice :
    (template : String → Bool) (event : Event) (c : Catalog)
    → provided template event (provided template event c) ≡ provided template event c
provided_twice template event c = fun_ext (provided_twice_at template event c)

-- Under the same conditions, a second run of the same event is answered with success and leaves the
-- databases and schemas as they are.
pub handler_twice :
    (lib : Libraries) (doc : Documented lib) (event : Event) (dbs : List String) (s : lib.Server)
    → (event.request_type == "Delete") ≡ false
    → event.databases ≡ "ecomm" ∷ dbs
    → doc.view s (database "postgres") ≡ true
    → let (s', sent) = handler lib (request_of event) s in
      let (s'', sent') = handler lib (request_of event) s' in
      (sent' ≡ success ∷ []) × (doc.view s'' ≡ doc.view s')
handler_twice lib doc event dbs s he hd hp =
    let (a, v) = handler_refines lib doc event dbs s he hd hp in
    let s' = (handler lib (request_of event) s).0 in
    let (b, w) = handler_refines lib doc event dbs s' he hd (rw (v, hp) (ground arith)) in
    (
      b,
      w
          ∙ ap (provided doc.template event) v
          ∙ provided_twice doc.template event (doc.view s)
          ∙ sym v,
    )
