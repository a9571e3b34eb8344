-- ===== src/Postgres/Handler/History.antt =====
-- Sequences of events, one after the other, on the server of the relational database.
use services_modulith_infra.Base.{
  String, ◌≡◌, ◌⊎◌, Bool, true, not, ◌&&◌, ◌||◌, List, [], ◌∷◌, any, ◌==◌,
}
use services_modulith_infra.Postgres.Handler.{
  Libraries, Event, Response, success, request_of, handler,
}
use services_modulith_infra.Postgres.Handler.Catalog.{Object, Catalog, brought}
use services_modulith_infra.Postgres.Handler.Spec.{Documented, asked}

-- The server after the runs of the function on the events, from the first, and what each run sends.
abbrev pub handle_all :
    (lib : Libraries) → List Event → lib.Server → lib.Server × List (List Response)
handle_all lib [] s = (s, [])
handle_all lib (event ∷ events) s =
    let one = handler lib (request_of event) s in
    let rest = handle_all lib events one.0 in (rest.0, one.1 ∷ rest.1)

-- A deletion, or an event whose first database is `ecomm`.
abbrev pub IsHandled : Event → Type 0
IsHandled event =
    ((event.request_type == "Delete") ≡ true)
    ⊎ ((dbs : List String) × (event.databases ≡ "ecomm" ∷ dbs))

-- Does the event ask for the object? A deletion asks for nothing.
abbrev pub asks_for : Object → Event → Bool
asks_for p event = not (event.request_type == "Delete") && asked event.databases event.schemas p

-- What is there after the events, in any order: what one of them asks for, the template's schemas in
-- the databases that were not there, and what was there.
abbrev pub provided_all : (template : String → Bool) → List Event → Catalog → Catalog
provided_all template events c p =
    any (asks_for p) events || brought template c (λ q. any (asks_for q) events) p || c p

module _ (lib : Libraries) (doc : Documented lib) where
  abbrev Provides : Event → lib.Server → lib.Server × List Response → Type 0
  Provides event s (s', sent) =
      (sent ≡ success ∷ []) × (doc.view s' ≡ provided_all doc.template (event ∷ []) (doc.view s))
