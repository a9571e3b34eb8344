-- ===== src/Cdk/Calls.antt =====
-- A run of the program's code: the calls that it makes of aws_cdk, in order, and how it ends.
use services_modulith_infra.Base.{
  ℕ, String, ◌≡◌, refl, Bool, true, false, Option, none, some, List, [], ◌∷◌, ◌++◌,
}
use services_modulith_infra.Base.Dict.{Dict, lookup}
use services_modulith_infra.Cdk.Library.{Handle}
use services_modulith_infra.Cdk.Compute.{
  Container, ServiceConnect, TargetHealth, CpuScaling, StepScaling,
}
use services_modulith_infra.Cdk.Resources.{Resource, Statement}

pub data Peer : Type 0 where
  ipv4 : String → Peer
  any_ipv4 : Peer
  group : Handle → Peer

pub record Rule : Type 0 where
  pub peer : Peer
  pub port : ℕ
  pub description : String

pub data Call : Type 0 where
  create : (scope : Handle) → (id : String) → Resource → Call
  add_ingress_rule : Handle → Rule → Call
  -- `service.connections.allow_from`
  allow_from : Handle → Rule → Call
  add_dependency : (node other : Handle) → Call
  add_to_policy : Handle → Statement → Call
  grant_read : (secret grantee : Handle) → Call
  apply_removal_policy : Handle → String → Call
  add_namespace : Handle → (name : String) → (use_for_service_connect : Bool) → Call
  add_volume : Handle → (name : String) → Call
  add_container : (task : Handle) → (id : String) → Container → Call
  add_mount_point : Handle → (container_path source_volume : String) → (read_only : Bool) → Call
  add_container_dependency : Handle → (container : Handle) → (condition : String) → Call
  enable_service_connect : Handle → ServiceConnect → Call
  configure_health_check : Handle → TargetHealth → Call
  auto_scale_task_count : Handle → (min_capacity max_capacity : ℕ) → Call
  scale_on_cpu : Handle → (id : String) → CpuScaling → Call
  scale_on_metric : Handle → (id : String) → StepScaling → Call
  -- `app.synth()`
  synth : Call

-- The exceptions that the program's own code can raise.
pub data PyError : Type 0 where
  key_error : String → PyError

pub data Result (A : Type 0) : Type 0 where
  ok : A → Result A
  raise : PyError → Result A

-- Nothing that the program reads depends on the calls before, so they are only collected.
pub record Build (A : Type 0) : Type 0 where
  pub calls : List Call
  pub result : Result A

abbrev pub pure : {A : Type 0} → A → Build A
pure a = record { calls = []; result = ok a }

abbrev pub continue : {A B : Type 0} → List Call → Result A → (A → Build B) → Build B
continue cs (ok a) f = let m = f a in record { calls = cs ++ m.calls; result = m.result }
continue cs (raise e) f = record { calls = cs; result = raise e }

infixl 5 ◌>>=◌ ◌>>◌
abbrev pub ◌>>=◌ : {A B : Type 0} → Build A → (A → Build B) → Build B
m >>= f = continue m.calls m.result f

abbrev pub ◌>>◌ : {A B : Type 0} → Build A → Build B → Build B
m >> k = m >>= λ _. k

abbrev pub emit : Call → Build Unit
emit c = record { calls = c ∷ []; result = ok tt }

-- `X(scope, id, …)`: the new construct's handle is its path.
abbrev pub new : Handle → String → Resource → Build Handle
new scope id r = record { calls = Call.create scope id r ∷ []; result = ok (id ∷ scope) }

abbrev pub found : String → Option String → Build String
found k none = record { calls = []; result = raise (key_error k) }
found k (some v) = pure v

-- `d[k]`
abbrev pub item : Dict String → String → Build String
item d k = found k (lookup k d)

-- `if test: body`
abbrev pub when : Bool → Build Unit → Build Unit
when true body = body
when false body = pure tt

-- `group.add_ingress_rule(peer=…, connection=Port.tcp(…), description=…)`
abbrev pub ingress : Handle → Peer → ℕ → String → Build Unit
ingress h peer port description =
    emit (Call.add_ingress_rule h (record { peer = peer; port = port; description = description }))

-- `CfnOutput(scope, id, value=…, description=…, export_name=…)`
abbrev pub cfn_output : Handle → String → String → Option String → Option String → Build Handle
cfn_output scope id value description export_name = new scope id (
    Resource.output
      (record { value = value; description = description; export_name = export_name }))

continue-eq-ok :
    {A B : Type 0} (cs : List Call) (r : Result A) (f : A → Build B) {b : B}
    → (continue cs r f).result ≡ ok b
    → (a : A) × (r ≡ ok a) × ((f a).result ≡ ok b)
continue-eq-ok cs (ok a) f h = (a, refl, h)
continue-eq-ok cs (raise e) f h = cc

-- A run that returns has returned at its first step, and then at the rest.
pub >>=-eq-ok :
    {A B : Type 0} (m : Build A) (f : A → Build B) {b : B}
    → (m >>= f).result ≡ ok b
    → (a : A) × (m.result ≡ ok a) × ((f a).result ≡ ok b)
>>=-eq-ok m f h = continue-eq-ok m.calls m.result f h

-- A run that returns at its first step has the calls and the end of the rest.
pub >>=-ok :
    {A B : Type 0} (m : Build A) (f : A → Build B) (a : A)
    → m.result ≡ ok a
    → ((m >>= f).result ≡ (f a).result) × ((m >>= f).calls ≡ m.calls ++ (f a).calls)
>>=-ok m f a h = (rw h, rw h)

continue_silent :
    {A B : Type 0} (r : Result A) (f : A → Build B)
    → ((a : A) → (f a).calls ≡ [])
    → (continue [] r f).calls ≡ []
continue_silent (ok a) f h = h a
continue_silent (raise e) f h = refl

-- Steps that make no calls make none together.
pub >>=_silent :
    {A B : Type 0} (m : Build A) (f : A → Build B)
    → m.calls ≡ []
    → ((a : A) → (f a).calls ≡ [])
    → (m >>= f).calls ≡ []
>>=_silent m f h k = rw h (continue_silent m.result f k)
