-- ===== src/Postgres/Handler/Silent.antt =====
-- The steps of the database function that send no response.
use services_modulith_infra.Base.{
  String, Bool, true, false, ◌≡◌, refl, ◌∙◌, List, [], ◌∷◌, ◌==◌, if◌then◌else◌,
}
use services_modulith_infra.Postgres.Handler.{
  Libraries, Outcome, value, exception, Response, Action, ◌>>=◌, after, changed, pure, raise, ask,
  execute, unbound_local, create_schemas, fill_database, fill_databases,
}

module _ (lib : Libraries) where
  open lib use {Server}

  -- The step sends no response.
  abbrev pub IsSilent : {A : Type 0} → Action lib A → Type 0
  IsSilent m = (s : Server) (sent : List Response) → (m s sent).2 ≡ sent

  after-IsSilent :
      {A B : Type 0} (o : Outcome A) (s : Server) (sent : List Response) (f : A → Action lib B)
      → ((a : A) → IsSilent (f a))
      → (after lib (o, s, sent) f).2 ≡ sent
  after-IsSilent (value a) s sent f h = h a s sent
  after-IsSilent (exception e) s sent f h = refl

  pub bind-IsSilent :
      {A B : Type 0} (m : Action lib A) (f : A → Action lib B)
      → IsSilent m
      → ((a : A) → IsSilent (f a))
      → IsSilent (◌>>=◌ lib m f)
  bind-IsSilent m f hm hf s sent =
      after-IsSilent (m s sent).0 (m s sent).1 (m s sent).2 f hf ∙ hm s sent

  changed-sent :
      (o : Outcome Server) (s : Server) (sent : List Response) → (changed lib o s sent).2 ≡ sent
  changed-sent (value s') s sent = refl
  changed-sent (exception e) s sent = refl

  execute-IsSilent : (f : Server → Outcome Server) → IsSilent (execute lib f)
  execute-IsSilent f s sent = changed-sent (f s) s sent

  pub choice-IsSilent :
      {A : Type 0} (b : Bool) (m k : Action lib A)
      → IsSilent m
      → IsSilent k
      → IsSilent (if b then m else k)
  choice-IsSilent true m k hm hk = hm
  choice-IsSilent false m k hm hk = hk

  create_schemas-IsSilent :
      (db : String) (schemas : List String) → IsSilent (create_schemas lib db schemas)
  unfolding create_schemas
  create_schemas-IsSilent db [] = λ s sent. refl
  create_schemas-IsSilent db (schema ∷ schemas) =
      bind-IsSilent (execute lib (lib.create_schema db schema)) _
        (execute-IsSilent (lib.create_schema db schema)) (λ _. create_schemas-IsSilent db schemas)

  pub fill_database-IsSilent :
      (schemas : List String) (db : String) (bound : Bool)
      → IsSilent (fill_database lib schemas db bound)
  unfolding fill_database
  fill_database-IsSilent schemas db bound =
      bind-IsSilent (ask lib (lib.exists_database db)) _ (λ s sent. refl)
        λ exists.
          bind-IsSilent (if exists then pure lib tt else execute lib (lib.create_database db)) _
            (choice-IsSilent exists _ _ (λ s sent. refl)
              (execute-IsSilent (lib.create_database db)))
            λ _.
              choice-IsSilent (db == "ecomm") _ _
                (bind-IsSilent (ask lib (lib.connect db)) _ (λ s sent. refl)
                  λ _.
                    bind-IsSilent (create_schemas lib db schemas) _
                      (create_schemas-IsSilent db schemas)
                      λ _.
                        bind-IsSilent (ask lib (lib.close_cursor db)) _ (λ s sent. refl)
                          (λ _ s sent. refl))
                (λ s sent. refl)

  pub fill_databases-IsSilent :
      (schemas : List String) (bound : Bool) (dbs : List String)
      → IsSilent (fill_databases lib schemas bound dbs)
  unfolding fill_databases
  fill_databases-IsSilent schemas bound [] = λ s sent. refl
  fill_databases-IsSilent schemas bound (db ∷ dbs) =
      bind-IsSilent (fill_database lib schemas db bound) _ (fill_database-IsSilent schemas db bound)
        λ bound'.
          bind-IsSilent
            (if bound'
              then ask lib (lib.close_connection "ecomm")
              else raise lib (unbound_local lib))
            _ (choice-IsSilent bound' _ _ (λ s sent. refl) (λ s sent. refl))
            (λ _. fill_databases-IsSilent schemas bound' dbs)
