-- ===== src/DocumentDb/Handler/Failures.antt =====
-- When the function of the document database raises.
use services_modulith_infra.Base.{
  String, ◌≡◌, refl, ◌↔◌, ◌⊎◌, inl, inr, true, false, Option, none, some, Bool-cases, Option-cases,
}
use services_modulith_infra.DocumentDb.Handler.{
  Event, Libraries, update_secret, request_of, update_request, handler,
}
use services_modulith_infra.DocumentDb.Handler.Endpoint.{Works, writes, handler-writes}

-- The secret is not there, or is no JSON object.
abbrev pub IsUnreadable : (lib : Libraries) → String → lib.Store → Type 0
IsUnreadable lib arn s =
    (lib.get_secret_value arn s ≡ none)
    ⊎ ((old : String) × (lib.get_secret_value arn s ≡ some old) × (lib.loads old ≡ none))

module _ (lib : Libraries) (works : Works lib) (event : Event) (s : lib.Store) where
  handler-skips :
      writes event ≡ false
      → handler lib (request_of event) s ≡ some (s, "UpdateSecretWithEndpoints")
  unfolding handler update_request
  handler-skips h = rw h refl

  handler-raises :
      writes event ≡ true
      → IsUnreadable lib event.secret_arn s
      → handler lib (request_of event) s ≡ none
  unfolding handler update_request update_secret
  handler-raises h (inl missing) = rw (h, missing) refl
  handler-raises h (inr (old, there, broken)) = rw (h, there, broken) refl

  writes_or_skips :
      (writes event ≡ true)
      ⊎ (handler lib (request_of event) s ≡ some (s, "UpdateSecretWithEndpoints"))
  writes_or_skips = elim (Bool-cases (writes event)) [
    | inl h ↦ inl h
    | inr h ↦ inr (handler-skips h)
  ]

  -- A run raises for a reason, or returns the id.
  handler-cases :
      ((writes event ≡ true)
        × IsUnreadable lib event.secret_arn s
        × (handler lib (request_of event) s ≡ none))
      ⊎ ((s' : lib.Store) × (handler lib (request_of event) s
            ≡ some (s', "UpdateSecretWithEndpoints")))
  handler-cases = elim (Bool-cases (writes event)) [
    | inr h ↦ inr (s, handler-skips h)
    | inl h ↦ elim (Option-cases (lib.get_secret_value event.secret_arn s)) [
      | inl missing ↦ inl (h, inl missing, handler-raises h (inl missing))
      | inr (old, there) ↦ elim (Option-cases (lib.loads old)) [
        | inl broken ↦
            let unreadable = inr (old, there, broken) in
            inl (h, unreadable, handler-raises h unreadable)
        | inr (secret, object) ↦ inr (_, handler-writes lib works event s old secret h there object)
      ]
    ]
  ]

  none-or_some : {A : Type 0} {o : Option A} {a : A} → o ≡ none → o ≡ some a → ⊥
  none-or_some e f = cc

  -- On an event that has the keys, the function raises exactly when it is a creation or an update whose
  -- secret is not there or is no JSON object. On every other request it leaves the secrets as they are. A run that does not raise
  -- returns the one physical id, so that the resource is never replaced.
  pub handler-fails :
      ((handler lib (request_of event) s ≡ none)
        ↔ ((writes event ≡ true) × IsUnreadable lib event.secret_arn s))
      × ((writes event ≡ true)
          ⊎ (handler lib (request_of event) s ≡ some (s, "UpdateSecretWithEndpoints")))
      × ((handler lib (request_of event) s ≡ none)
          ⊎ ((s' : lib.Store) × (handler lib (request_of event) s
                ≡ some (s', "UpdateSecretWithEndpoints"))))
  handler-fails = elim handler-cases [
    | inl (h, unreadable, raises) ↦ ((λ _. (h, unreadable), λ _. raises), inl h, inl raises)
    | inr (s₁, runs) ↦ (
      (
        λ raises. absurd (none-or_some raises runs),
        λ w. absurd (none-or_some (handler-raises w.0 w.1) runs),
      ),
      writes_or_skips,
      inr (s₁, runs),
    )
  ]
