-- ===== src/DocumentDb/Handler/History.antt =====
-- Sequences of requests, one after the other, on the secrets of the secrets manager.
use services_modulith_infra.Base.{
  String, ◌≡◌, refl, ap, ◌∙◌, Bool, true, false, ◌&&◌, Option, none, some, List, [], ◌∷◌, All,
  All-map, ◌==◌, if◌then◌else◌, eq_iff, Bool-cases, inl, inr, arith,
}
use services_modulith_infra.Base.Dict.{Dict, lookup}
use services_modulith_infra.DocumentDb.Handler.{
  Event, Libraries, and_then, request_of, update_request, handler,
}
use services_modulith_infra.DocumentDb.Handler.Endpoint.{
  Works, writes, secret_field, with_endpoint, written, field-written, handler-writes,
}

-- The runs of the function on the events, from the first; an exception of one ends them.
abbrev pub handle_all : (lib : Libraries) → List Event → lib.Store → Option lib.Store
handle_all lib [] s = some s
handle_all lib (event ∷ events) s =
    and_then lib (handler lib (request_of event) s) λ result. handle_all lib events result.0

-- The secret is there and is a JSON object.
abbrev pub IsReadable : (lib : Libraries) → lib.Store → String → Type 0
IsReadable lib s arn =
    (old : String) × (secret : Dict lib.Value) × (lib.get_secret_value arn s ≡ some old)
    × (lib.loads old ≡ some secret)

-- Does the event have an endpoint written into the secret?
abbrev writes_to : String → Event → Bool
writes_to arn event = writes event && arn == event.secret_arn

abbrev or_later : Option String → Bool → String → Option String
or_later (some later) b endpoint = some later
or_later none b endpoint = if b then some endpoint else none

-- The endpoint of the last event that writes to the secret.
abbrev pub last_endpoint : String → List Event → Option String
last_endpoint arn [] = none
last_endpoint arn (event ∷ events) =
    or_later (last_endpoint arn events) (writes_to arn event) event.document_db_endpoint

-- The field of a secret that had `old` there, when the endpoint was written last.
abbrev pub field_with :
    (lib : Libraries) → Option String → String → Option lib.Value → Option lib.Value
field_with lib none key old = old
field_with lib (some endpoint) key old =
    if key == "documentdb_endpoint" then some (lib.text endpoint) else old

module _ (lib : Libraries) (works : Works lib) where
  written-IsReadable :
      (event : Event) (secret : Dict lib.Value) (s : lib.Store) (arn : String)
      → IsReadable lib s arn
      → IsReadable lib (written lib works event secret s) arn
  written-IsReadable event secret s arn (old, d, there, object) =
      let new = with_endpoint lib event secret in
      let got = works.gets arn event.secret_arn (lib.dumps new) s in
      elim (Bool-cases (arn == event.secret_arn)) [
        | inl e ↦ (lib.dumps new, new, got ∙ rw e refl, works.loads-dumps new)
        | inr e ↦ (old, d, got ∙ rw e there, object)
      ]

  written_field :
      (event : Event) (s : lib.Store) (old : String) (secret : Dict lib.Value) (arn key : String)
      → writes event ≡ true
      → lib.get_secret_value event.secret_arn s ≡ some old
      → lib.loads old ≡ some secret
      → (if arn == event.secret_arn
          then (if key == "documentdb_endpoint"
              then some (lib.text event.document_db_endpoint)
              else lookup key secret)
          else secret_field lib s arn key)
        ≡ field_with lib
            (or_later none (writes_to arn event) event.document_db_endpoint)
            key
            (secret_field lib s arn key)
  written_field event s old secret arn key w there object =
      elim (Bool-cases (arn == event.secret_arn)) [
        | inl e ↦ rw (w, e, (eq_iff arn event.secret_arn).0 e, there, object) refl
        | inr e ↦ rw (w, e) refl
      ]

  -- What one run leaves.
  record Step (event : Event) (s after : lib.Store) : Type 0 where
    runs : handler lib (request_of event) s ≡ some (after, "UpdateSecretWithEndpoints")
    readable : (arn : String) → IsReadable lib s arn → IsReadable lib after arn
    fields :
        (arn key : String)
        → secret_field lib after arn key
          ≡ field_with lib
              (or_later none (writes_to arn event) event.document_db_endpoint)
              key
              (secret_field lib s arn key)

  step :
      (event : Event) (s : lib.Store)
      → IsReadable lib s event.secret_arn
      → (after : lib.Store) × Step event s after
  unfolding handler update_request
  step event s (old, secret, there, object) = elim (Bool-cases (writes event)) [
    | inr w ↦ (s, record { runs = rw w refl; readable = λ arn r. r; fields = λ arn key. rw w refl })
    | inl w ↦ (
      written lib works event secret s,
      record {
        runs = handler-writes lib works event s old secret w there object;
        readable = written-IsReadable event secret s;
        fields = λ arn key.
            field-written lib works event secret s arn key
            ∙ written_field event s old secret arn key w there object;
      },
    )
  ]

  field_with_later :
      (later : Option String) (b : Bool) (endpoint key : String) (old : Option lib.Value)
      → field_with lib later key (field_with lib (or_later none b endpoint) key old)
        ≡ field_with lib (or_later later b endpoint) key old
  field_with_later none b endpoint key old = refl
  field_with_later (some later) false endpoint key old = refl
  field_with_later (some later) true endpoint key old = ground arith

  -- Any requests for secrets that are there and are JSON objects succeed, one after the other. Then every
  -- key of every secret has what it had, but `documentdb_endpoint` in a secret that a creation or an
  -- update of these is for: it has the endpoint of the last such.
  pub handle_all-last_endpoint :
      (events : List Event) (s : lib.Store)
      → All (λ event. IsReadable lib s event.secret_arn) events
      → (after : lib.Store) × (handle_all lib events s ≡ some after)
        × ((arn key : String)
            → secret_field lib after arn key
              ≡ field_with lib (last_endpoint arn events) key (secret_field lib s arn key))
  handle_all-last_endpoint [] s readable = (s, refl, λ arn key. refl)
  handle_all-last_endpoint (event ∷ events) s (here, readable) =
      let (s₁, one) = step event s here in
      let (s₂, rest, fields) =
        handle_all-last_endpoint events s₁
          (All-map _ _ events (λ e r. one.readable e.secret_arn r) readable) in
      (
        s₂,
        rw one.runs rest,
        λ arn key.
            fields arn key
            ∙ ap (field_with lib (last_endpoint arn events) key) (one.fields arn key)
            ∙ field_with_later (last_endpoint arn events) (writes_to arn event)
                event.document_db_endpoint key _,
      )
