-- ===== src/Fargate/Environment.antt =====
-- The environment that `create_internal_service` gives a container, and when it raises.
use services_modulith_infra.Base.{
  String, ◌≡◌, refl, ◌∙◌, ◌⊎◌, inl, inr, Bool, true, false, ◌||◌, Option, none, some, [], ◌∷◌,
  arith, if◌then◌else◌, ◌==◌, Option-cases,
}
use services_modulith_infra.Base.Dict.{Dict, lookup, insert, nonempty, lookup-insert}
use services_modulith_infra.Cdk.{key_error, ok, raise, >>=-eq-ok, >>=-ok, >>=_silent}
use services_modulith_infra.Fargate.Internal.{
  InternalService, base_environment, set_from, service_environment,
}

-- What a dict that may be missing or empty adds under a key.
abbrev pub told : String → Option (Dict String) → Option String
told field none = none
told field (some info) = if nonempty info then lookup field info else none

-- The dict is there, is not empty, and lacks the field.
abbrev pub lacks : String → Option (Dict String) → Bool
lacks field none = false
lacks field (some info) =
    if nonempty info then (elim (lookup field info) [ none ↦ true | some v ↦ false ]) else false

pub set_from_lem :
    (key field : String) (info : Option (Dict String)) (env : Dict String) {env' : Dict String}
    → (set_from key field info env).result ≡ ok env'
    → (k : String)
    → lookup k env' ≡ (
        if k == key
        then (elim (told field info) [ none ↦ lookup k env | some v ↦ some v ])
        else lookup k env)
unfolding set_from
set_from_lem key field none env h k = ground arith
set_from_lem key field (some []) env h k = ground arith
set_from_lem key field (some (e ∷ info)) env h k = elim (Option-cases (lookup field (e ∷ info))) [
  | inl missing ↦ ground arith
  | inr (v, e₁) ↦ ground (arith, lookup-insert k key v env)
]

set_from-raise :
    (key field : String) (info : Option (Dict String)) (env : Dict String)
    → ((set_from key field info env).result ≡ raise (key_error field)) × (lacks field info ≡ true)
      ⊎ ((env' : Dict String) × ((set_from key field info env).result ≡ ok env'))
        × (lacks field info ≡ false)
unfolding set_from
set_from-raise key field none env = inr ((env, refl), refl)
set_from-raise key field (some []) env = inr ((env, refl), refl)
set_from-raise key field (some (e ∷ info)) env = elim (Option-cases (lookup field (e ∷ info))) [
  | inl missing ↦ ground arith
  | inr (v, e₁) ↦ inr ((insert key v env, ground arith), ground arith)
]

set_from-ok :
    (key field : String) (info : Option (Dict String)) (env : Dict String)
    → lacks field info ≡ false
    → (env' : Dict String) × ((set_from key field info env).result ≡ ok env')
set_from-ok key field info env h = elim (set_from-raise key field info env) [
  | inl (r, l) ↦ cc
  | inr (found, l) ↦ found
]

-- What an entry adds to a dict that has nothing under its key.
keep : (o old : Option String) → old ≡ none → elim o [ none ↦ old | some v ↦ some v ] ≡ o
keep none old h = h
keep (some v) old h = refl

module _ (s : InternalService) {env₁ env₂ env : Dict String}
    (h₁ : (set_from "DOCUMENT_DB_SECRET_NAME" "secret-name" s.docdb_info
        (base_environment s.jvm_opt)).result
      ≡ ok env₁)
    (h₂ : (set_from "SPRING_KAFKA_BOOTSTRAP_SERVERS" "bootstrap_brokers_tls" s.kafka_info
        env₁).result
      ≡ ok env₂)
    (h₃ : (set_from "POSTGRES_DB_SECRET_NAME" "secret-name" s.postgres_info env₂).result
      ≡ ok env) where
  tells_document_db : lookup "DOCUMENT_DB_SECRET_NAME" env ≡ told "secret-name" s.docdb_info
  tells_document_db =
      set_from_lem _ _ s.postgres_info env₂ h₃ "DOCUMENT_DB_SECRET_NAME"
      ∙ set_from_lem _ _ s.kafka_info env₁ h₂ "DOCUMENT_DB_SECRET_NAME"
      ∙ set_from_lem _ _ s.docdb_info _ h₁ "DOCUMENT_DB_SECRET_NAME"
      ∙ keep (told "secret-name" s.docdb_info) none refl

  tells_kafka :
      lookup "SPRING_KAFKA_BOOTSTRAP_SERVERS" env ≡ told "bootstrap_brokers_tls" s.kafka_info
  tells_kafka =
      set_from_lem _ _ s.postgres_info env₂ h₃ "SPRING_KAFKA_BOOTSTRAP_SERVERS"
      ∙ set_from_lem _ _ s.kafka_info env₁ h₂ "SPRING_KAFKA_BOOTSTRAP_SERVERS"
      ∙ keep (told "bootstrap_brokers_tls" s.kafka_info) _
          (set_from_lem _ _ s.docdb_info _ h₁ "SPRING_KAFKA_BOOTSTRAP_SERVERS")

  tells_postgres : lookup "POSTGRES_DB_SECRET_NAME" env ≡ told "secret-name" s.postgres_info
  tells_postgres =
      set_from_lem _ _ s.postgres_info env₂ h₃ "POSTGRES_DB_SECRET_NAME"
      ∙ keep (told "secret-name" s.postgres_info) _ (
          set_from_lem _ _ s.kafka_info env₁ h₂ "POSTGRES_DB_SECRET_NAME"
          ∙ set_from_lem _ _ s.docdb_info _ h₁ "POSTGRES_DB_SECRET_NAME")

  tells_jvm : lookup "JAVA_TOOL_OPTIONS" env ≡ some s.jvm_opt
  tells_jvm =
      set_from_lem _ _ s.postgres_info env₂ h₃ "JAVA_TOOL_OPTIONS"
      ∙ set_from_lem _ _ s.kafka_info env₁ h₂ "JAVA_TOOL_OPTIONS"
      ∙ set_from_lem _ _ s.docdb_info _ h₁ "JAVA_TOOL_OPTIONS"

-- A service's environment has, under each of the three keys of the databases and the broker, the
-- value of the dict that the caller gives, and nothing where the caller gives none or an empty one;
-- and it has the caller's JVM options.
pub service_environment-tells :
    (s : InternalService) {env : Dict String}
    → (service_environment s).result ≡ ok env
    → (lookup "DOCUMENT_DB_SECRET_NAME" env ≡ told "secret-name" s.docdb_info)
      × (lookup "SPRING_KAFKA_BOOTSTRAP_SERVERS" env ≡ told "bootstrap_brokers_tls" s.kafka_info)
      × (lookup "POSTGRES_DB_SECRET_NAME" env ≡ told "secret-name" s.postgres_info)
      × (lookup "JAVA_TOOL_OPTIONS" env ≡ some s.jvm_opt)
unfolding service_environment
service_environment-tells s {env} h =
    let (env₁, h₁, r₁) =
      >>=-eq-ok
        (set_from "DOCUMENT_DB_SECRET_NAME" "secret-name" s.docdb_info (base_environment s.jvm_opt))
        _ h in
    let (env₂, h₂, h₃) =
      >>=-eq-ok
        (set_from "SPRING_KAFKA_BOOTSTRAP_SERVERS" "bootstrap_brokers_tls" s.kafka_info env₁) _
        r₁ in
    (
      tells_document_db s h₁ h₂ h₃,
      tells_kafka s h₁ h₂ h₃,
      tells_postgres s h₁ h₂ h₃,
      tells_jvm s h₁ h₂ h₃,
    )

abbrev pub lacks_some : InternalService → Bool
lacks_some s =
    lacks "secret-name" s.docdb_info
    || lacks "bootstrap_brokers_tls" s.kafka_info
    || lacks "secret-name" s.postgres_info

pub service_environment-ok :
    (s : InternalService)
    → lacks_some s ≡ false
    → (env : Dict String) × ((service_environment s).result ≡ ok env)
unfolding service_environment
service_environment-ok s h =
    let (env₁, h₁) =
      set_from-ok "DOCUMENT_DB_SECRET_NAME" "secret-name" s.docdb_info (base_environment s.jvm_opt)
        (ground arith) in
    let (env₂, h₂) =
      set_from-ok "SPRING_KAFKA_BOOTSTRAP_SERVERS" "bootstrap_brokers_tls" s.kafka_info env₁
        (ground arith) in
    let (env₃, h₃) =
      set_from-ok "POSTGRES_DB_SECRET_NAME" "secret-name" s.postgres_info env₂ (ground arith) in
    (
      env₃,
      (>>=-ok
            (set_from "DOCUMENT_DB_SECRET_NAME" "secret-name" s.docdb_info
              (base_environment s.jvm_opt))
            _ env₁ h₁).0
          ∙ ((>>=-ok
                (set_from "SPRING_KAFKA_BOOTSTRAP_SERVERS" "bootstrap_brokers_tls" s.kafka_info
                  env₁)
                _ env₂ h₂).0
              ∙ h₃),
    )

set_from-calls :
    (key field : String) (info : Option (Dict String)) (env : Dict String)
    → (set_from key field info env).calls ≡ []
unfolding set_from
set_from-calls key field none env = refl
set_from-calls key field (some []) env = refl
set_from-calls key field (some (e ∷ info)) env = ground arith

pub service_environment-calls : (s : InternalService) → (service_environment s).calls ≡ []
unfolding service_environment
service_environment-calls s =
    >>=_silent
      (set_from "DOCUMENT_DB_SECRET_NAME" "secret-name" s.docdb_info (base_environment s.jvm_opt)) _
      (set_from-calls _ _ s.docdb_info _)
      (λ env₁.
        >>=_silent
          (set_from "SPRING_KAFKA_BOOTSTRAP_SERVERS" "bootstrap_brokers_tls" s.kafka_info env₁) _
          (set_from-calls _ _ s.kafka_info env₁) (λ env₂. set_from-calls _ _ s.postgres_info env₂))
