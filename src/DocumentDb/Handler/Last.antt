-- ===== src/DocumentDb/Handler/Last.antt =====
-- Runs of the function one after the other on the same secret.
use services_modulith_infra.Base.{
  String, ◌≡◌, refl, sym, ap, ◌∙◌, Bool, true, false, eq_iff, some, ◌==◌, if◌then◌else◌,
}
use services_modulith_infra.Base.Dict.{Dict, lookup-insert}
use services_modulith_infra.DocumentDb.Handler.{Event, Libraries, request_of, handler}
use services_modulith_infra.DocumentDb.Handler.Endpoint.{
  Works, writes, secret_field, with_endpoint, written, field-written, handler-writes,
}

last_wins {ℓ} :
    {A : Type ℓ} (b k : Bool) (x y z v w : A)
    → (if b then (if k then x else (if k then y else z)) else (if b then v else w))
      ≡ (if b then (if k then x else z) else w)
last_wins true true x y z v w = refl
last_wins true false x y z v w = refl
last_wins false k x y z v w = refl

-- Two creations or updates of one secret, which is there and is a JSON object, succeed, and leave
-- every key of every secret as the second alone does, which succeeds too.
pub handler-last :
    (lib : Libraries) (works : Works lib) (first last : Event) (s : lib.Store) (old : String)
    (secret : Dict lib.Value)
    → writes first ≡ true
    → writes last ≡ true
    → first.secret_arn ≡ last.secret_arn
    → lib.get_secret_value last.secret_arn s ≡ some old
    → lib.loads old ≡ some secret
    → (s₁ s₂ s₃ : lib.Store) × (handler lib (request_of first) s
        ≡ some (s₁, "UpdateSecretWithEndpoints"))
      × (handler lib (request_of last) s₁ ≡ some (s₂, "UpdateSecretWithEndpoints"))
      × (handler lib (request_of last) s ≡ some (s₃, "UpdateSecretWithEndpoints"))
      × ((other key : String) → secret_field lib s₂ other key ≡ secret_field lib s₃ other key)
handler-last lib works first last s old secret wf wl same there object =
    let new : Dict lib.Value = with_endpoint lib first secret in
    let s₁ : lib.Store = written lib works first secret s in
    let kept : lib.get_secret_value last.secret_arn s₁ ≡ some (lib.dumps new) =
      works.gets last.secret_arn first.secret_arn (lib.dumps new) s
      ∙ rw ((eq_iff last.secret_arn first.secret_arn).1 (sym same)) refl in
    (
      s₁,
      written lib works last new s₁,
      written lib works last secret s,
      handler-writes lib works first s old secret wf
          (ap (λ a. lib.get_secret_value a s) same ∙ there) object,
      handler-writes lib works last s₁ (lib.dumps new) new wl kept (works.loads-dumps new),
      handler-writes lib works last s old secret wl there object,
      λ other key.
          field-written lib works last new s₁ other key
          ∙ rw
              (
                lookup-insert key "documentdb_endpoint" (lib.text first.document_db_endpoint)
                    secret,
                field-written lib works first secret s other key,
                same,
              )
              (last_wins (other == last.secret_arn) (key == "documentdb_endpoint") _ _ _ _ _)
          ∙ sym (field-written lib works last secret s other key),
    )
