-- ===== src/Fargate/Discovery.antt =====
-- The services that the environment of an internal service names, and where they are found.
use mathlib.Core.Option.{some-injective}
use services_modulith_infra.Base.{
  ℕ, String, ◌≡◌, refl, Bool, true, false, ◌||◌, inl, inr, Option, some, List, [], ◌∷◌, map, In,
  number, ◌==◌, arith, subst, sym, ◌∙◌,
}
use services_modulith_infra.Base.Dict.{Dict, lookup}
use services_modulith_infra.Cdk.{Handle, Cdk, ConnectService, ok, >>=-eq-ok}
use services_modulith_infra.Ports.{connects}
use services_modulith_infra.Fargate.Internal.{
  InternalService, set_from, base_environment, create_internal_service, service_environment,
  is_grpc,
}
use services_modulith_infra.Fargate.Environment.{
  set_from_lem, lacks_some, service_environment-ok, service_environment-calls,
}

-- The keys of the environment that hold the name of a service.
abbrev pub address_keys : List String
address_keys =
    "PAYMENT_SERVICE_ADDR" ∷ "PRODUCT_SERVICE_ADDR" ∷ "CUSTOMER_SERVICE_ADDR" ∷ "ORDER_SERVICE_ADDR"
    ∷ "SHIPPING_SERVICE_ADDR" ∷ []

is_grpc_same :
    (name' name : String) → some name' ≡ some name → is_grpc name' ≡ true → is_grpc name ≡ true
is_grpc_same name' name e h = subst (λ n. is_grpc n ≡ true) (some-injective name' name e) h

address-is_grpc :
    (jvm_opt key name : String)
    → In key address_keys
    → lookup key (base_environment jvm_opt) ≡ some name
    → is_grpc name ≡ true
address-is_grpc jvm_opt key name (inl e) h = is_grpc_same "grpc-payment-svc" name (rw e at h) refl
address-is_grpc jvm_opt key name (inr (inl e)) h =
    is_grpc_same "grpc-product-svc" name (rw e at h) refl
address-is_grpc jvm_opt key name (inr (inr (inl e))) h =
    is_grpc_same "grpc-customer-svc" name (rw e at h) refl
address-is_grpc jvm_opt key name (inr (inr (inr (inl e)))) h =
    is_grpc_same "grpc-order-svc" name (rw e at h) refl
address-is_grpc jvm_opt key name (inr (inr (inr (inr (inl e))))) h =
    is_grpc_same "grpc-shipping-svc" name (rw e at h) refl
address-is_grpc jvm_opt key name (inr (inr (inr (inr (inr m))))) h = absurd m

-- Is it one of the keys that depend on the arguments?
abbrev is_set : String → Bool
is_set k =
    k == "DOCUMENT_DB_SECRET_NAME"
    || k == "SPRING_KAFKA_BOOTSTRAP_SERVERS"
    || k == "POSTGRES_DB_SECRET_NAME"

address-not_set : (key : String) → In key address_keys → is_set key ≡ false
address-not_set key (inl e) = rw e refl
address-not_set key (inr (inl e)) = rw e refl
address-not_set key (inr (inr (inl e))) = rw e refl
address-not_set key (inr (inr (inr (inl e)))) = rw e refl
address-not_set key (inr (inr (inr (inr (inl e))))) = rw e refl
address-not_set key (inr (inr (inr (inr (inr m))))) = absurd m

set_from-other :
    (key field : String) (info : Option (Dict String)) (env : Dict String) {env' : Dict String}
    (k : String)
    → (set_from key field info env).result ≡ ok env'
    → (k == key) ≡ false
    → lookup k env' ≡ lookup k env
set_from-other key field info env {env'} k h n =
    let e = set_from_lem key field info env h k in rw n at e

-- The keys that do not depend on the arguments keep their values.
service_environment-keeps :
    (s : InternalService) {env : Dict String} (k : String)
    → (service_environment s).result ≡ ok env
    → is_set k ≡ false
    → lookup k env ≡ lookup k (base_environment s.jvm_opt)
unfolding service_environment
service_environment-keeps s {env} k h n =
    let first =
      set_from "DOCUMENT_DB_SECRET_NAME" "secret-name" s.docdb_info (base_environment s.jvm_opt) in
    let (env₁, h₁, r₁) = >>=-eq-ok first _ h in
    let (env₂, h₂, h₃) =
      >>=-eq-ok
        (set_from "SPRING_KAFKA_BOOTSTRAP_SERVERS" "bootstrap_brokers_tls" s.kafka_info env₁) _
        r₁ in
    set_from-other _ _ s.postgres_info env₂ k h₃ (ground arith)
    ∙ set_from-other _ _ s.kafka_info env₁ k h₂ (ground arith)
    ∙ set_from-other _ _ s.docdb_info _ k h₁ (ground arith)

-- The name and the port under which a service is found.
abbrev pub found_at : ConnectService → String × ℕ
found_at c = (c.dns_name, c.port)

connects-service :
    (cdk : Cdk) (scope : Handle) (s : InternalService)
    → lacks_some s ≡ false
    → is_grpc s.name ≡ true
    → map found_at (connects (create_internal_service cdk scope s).calls) ≡ (s.name, 9090) ∷ []
unfolding create_internal_service
connects-service cdk scope s h g =
    let (env, e) = service_environment-ok s h in let c = service_environment-calls s in ground arith

-- An address in the environment of an internal service, when a service of that name is created with
-- dicts that lack nothing, is the name under which that service alone is found by Service Connect, at
-- the port that the environment gives for gRPC.
pub addresses-found :
    (cdk : Cdk) (scope : Handle) (caller callee : InternalService) (env : Dict String)
    (key : String)
    → (service_environment caller).result ≡ ok env
    → In key address_keys
    → lookup key env ≡ some callee.name
    → lacks_some callee ≡ false
    → (port : ℕ) × (map found_at (connects (create_internal_service cdk scope callee).calls)
        ≡ (callee.name, port) ∷ [])
      × (lookup "GRPC_PORT" env ≡ some "9090")
      × (number "9090" ≡ some port)
addresses-found cdk scope caller callee env key h m l k =
    let named = sym (service_environment-keeps caller key h (address-not_set key m)) ∙ l in
    (
      9090,
      connects-service cdk scope callee k (address-is_grpc caller.jvm_opt key callee.name m named),
      service_environment-keeps caller "GRPC_PORT" h refl,
      refl,
    )
