-- ===== src/Postgres/Handler/Answers.antt =====
-- What the database function answers CloudFormation.
use services_modulith_infra.Base.{
  String, Bool, true, false, Option, none, some, ◌≡◌, ◌≢◌, refl, subst, ◌∙◌, List, [], ◌∷◌, length,
  ◌==◌, if◌then◌else◌, arith,
}
use services_modulith_infra.Postgres.Handler.{
  Libraries, Outcome, value, exception, Request, item, Event, Response, success, Action, ◌>>=◌,
  after, raise, ask, send, failed, unbound_local, handled, fill_database, fill_databases, provision,
  request_of, answer, provision_request, handler,
}
use services_modulith_infra.Postgres.Handler.Silent.{IsSilent, fill_databases-IsSilent}

module _ (lib : Libraries) where
  open lib use {Server}

  -- With no response sent before, the responses of the step, with the handler of exceptions,
  -- satisfy `Q`.
  abbrev Ends : (List Response → Type 0) → Action lib Unit → Type 0
  Ends Q m = (s : Server) (sent : List Response) → sent ≡ [] → Q (handled lib (m s sent)).1

  abbrev Yields : {A : Type 0} → Action lib A → A → Type 0
  Yields m a = (s : Server) × (sent : List Response) × ((m s sent).0 ≡ value a)

  -- What follows the loop.
  abbrev closing : Action lib Unit
  closing =
      ◌>>=◌ lib (ask lib (lib.close_cursor "postgres"))
        (λ _. ◌>>=◌ lib (ask lib (lib.close_connection "postgres")) (λ _. send lib success))

  module _ (Q : List Response → Type 0) (fails : (e : String) → Q (failed e ∷ [])) where
    after-Ends :
        {A : Type 0} (o : Outcome A) (s : Server) (sent : List Response) (f : A → Action lib Unit)
        → ((a : A) → o ≡ value a → Ends Q (f a))
        → sent ≡ []
        → Q (handled lib (after lib (o, s, sent) f)).1
    after-Ends (value a) s sent f hf h = hf a refl s sent h
    after-Ends (exception e) s sent f hf h = rw h (fails e)

    bind-Ends :
        {A : Type 0} (m : Action lib A) (f : A → Action lib Unit)
        → IsSilent lib m
        → ((a : A) → Yields m a → Ends Q (f a))
        → Ends Q (◌>>=◌ lib m f)
    bind-Ends m f hm hf s sent h =
        after-Ends (m s sent).0 (m s sent).1 (m s sent).2 f (λ a e. hf a (s, sent, e))
          (hm s sent ∙ h)

    -- The body of `try`, by what follows the two calls that open it.
    provision-Ends :
        (event : Event)
        → Ends Q (◌>>=◌ lib (fill_databases lib event.schemas false event.databases) (λ _. closing))
        → Ends Q (provision lib event)
    unfolding provision
    provision-Ends event h =
        bind-Ends (ask lib (λ _. lib.read_secret event.secret_arn)) _ (λ s sent. refl)
          λ _ _. bind-Ends (ask lib (lib.connect "postgres")) _ (λ s sent. refl) (λ _ _. h)

  closing_answers : Ends (λ r. length r ≡ 1) closing
  closing_answers =
      bind-Ends (λ r. length r ≡ 1) (λ e. refl) (ask lib (lib.close_cursor "postgres")) _
        (λ s sent. refl)
        λ _ _.
          bind-Ends (λ r. length r ≡ 1) (λ e. refl) (ask lib (lib.close_connection "postgres")) _
            (λ s sent. refl) (λ _ _ s sent h. rw h refl)

  provision_answers : (event : Event) → Ends (λ r. length r ≡ 1) (provision lib event)
  provision_answers event =
      provision-Ends (λ r. length r ≡ 1) (λ e. refl) event
        (bind-Ends (λ r. length r ≡ 1) (λ e. refl)
          (fill_databases lib event.schemas false event.databases) _
          (fill_databases-IsSilent lib event.schemas false event.databases) λ _ _. closing_answers)

  item-answers :
      {A : Type 0} (k : String) (o : Option A) (f : A → Action lib Unit)
      → ((a : A) → Ends (λ r. length r ≡ 1) (f a))
      → Ends (λ r. length r ≡ 1) (◌>>=◌ lib (item lib k o) f)
  item-answers k none f h s sent e = rw e refl
  item-answers k (some a) f h s sent e = h a s sent e

  provision_request_answers :
      (request_type : String) (request : Request)
      → Ends (λ r. length r ≡ 1) (provision_request lib request_type request)
  unfolding provision_request
  provision_request_answers request_type request =
      item-answers "ResourceProperties" request.properties _ λ properties.
        item-answers "SecretArn" properties.secret_arn _ λ secret_arn.
          item-answers "Databases" properties.databases _ λ databases.
            item-answers "Schemas" properties.schemas _ λ schemas. provision_answers (record {
              request_type = request_type;
              secret_arn = secret_arn;
              databases = databases;
              schemas = schemas;
            })

  choice-Ends :
      (Q : List Response → Type 0) (b : Bool) (m k : Action lib Unit)
      → Ends Q m
      → Ends Q k
      → Ends Q (if b then m else k)
  choice-Ends Q true m k hm hk = hm
  choice-Ends Q false m k hm hk = hk

  answer_answers : (request : Request) → Ends (λ r. length r ≡ 1) (answer lib request)
  unfolding answer
  answer_answers request = item-answers "RequestType" request.request_type _ λ request_type.
      choice-Ends (λ r. length r ≡ 1) (request_type == "Delete") _ _ (λ s sent h. rw h refl)
        (provision_request_answers request_type request)

  fill_database_other :
      (schemas : List String) (db : String) (bound b : Bool)
      → (db == "ecomm") ≡ false
      → Yields (fill_database lib schemas db bound) b
      → b ≡ bound
  unfolding fill_database
  fill_database_other schemas db bound b hn (s, sent, e) = ground arith

  after-eq-value :
      {A B : Type 0} (o : Outcome A) (s : Server) (sent : List Response) (f : A → Action lib B)
      {b : B}
      → (after lib (o, s, sent) f).0 ≡ value b
      → (a : A) × (o ≡ value a) × Yields (f a) b
  after-eq-value (value a) s sent f h = (a, refl, (s, sent, h))
  after-eq-value (exception e) s sent f h = cc

  -- After a first database with another name, `db_conn.close()` raises.
  close_raises :
      (schemas : List String) (dbs : List String) (b : Bool) (u : Unit)
      → b ≡ false
      → ¬ Yields
          (◌>>=◌ lib
            (if b then ask lib (lib.close_connection "ecomm") else raise lib (unbound_local lib))
            (λ _. fill_databases lib schemas b dbs))
          u
  close_raises schemas dbs true u e y = cc
  close_raises schemas dbs false u e (s, sent, y) = cc

  fill_databases_unbound :
      (schemas : List String) (db : String) (dbs : List String) (u : Unit)
      → (db == "ecomm") ≡ false
      → ¬ Yields (fill_databases lib schemas false (db ∷ dbs)) u
  unfolding fill_databases
  fill_databases_unbound schemas db dbs u hn (s, sent, y) =
      let m = fill_database lib schemas db false s sent in
      let (b, e, rest) = after-eq-value m.0 m.1 m.2 _ y in
      close_raises schemas dbs b u (fill_database_other schemas db false b hn (s, sent, e)) rest

  unbound_fails :
      (event : Event) (db : String) (dbs : List String)
      → event.databases ≡ db ∷ dbs
      → (db == "ecomm") ≡ false
      → Ends (λ r. r ≢ success ∷ []) (provision lib event)
  unbound_fails event db dbs hd hn =
      provision-Ends (λ r. r ≢ success ∷ []) (λ e h. cc) event
        (bind-Ends (λ r. r ≢ success ∷ []) (λ e h. cc)
          (fill_databases lib event.schemas false event.databases) _
          (fill_databases-IsSilent lib event.schemas false event.databases)
          λ u y. absurd (
            fill_databases_unbound event.schemas db dbs u hn
              (subst (λ l. Yields (fill_databases lib event.schemas false l) u) hd y)))

-- Whatever the event has, a missing key included, and whatever the server and the libraries do,
-- exceptions of theirs included, the function sends CloudFormation exactly one response.
pub handler-answers :
    (lib : Libraries) (request : Request) (s : lib.Server) → length (handler lib request s).1 ≡ 1
unfolding handler
handler-answers lib request s = answer_answers lib request s [] refl

-- An event whose first database is not `ecomm` is never answered with success, whatever the server
-- and the libraries do: if nothing else raises, closing `db_conn`, which has no value, does.
pub handler-ne-success :
    (lib : Libraries) (event : Event) (s : lib.Server) (db : String) (dbs : List String)
    → (event.request_type == "Delete") ≡ false
    → event.databases ≡ db ∷ dbs
    → (db == "ecomm") ≡ false
    → (handler lib (request_of event) s).1 ≢ success ∷ []
unfolding handler answer provision_request
handler-ne-success lib event s db dbs he hd hn =
    rw he (unbound_fails lib event db dbs hd hn s [] refl)
