-- ===== src/App/Kinds.antt =====
-- The kinds of the constructs, and what a call needs of the constructs that it names. A service comes
-- with parts, such as its target group, which have kinds too.
mod Lines
mod Stacks
mod Services
pub mod Typed
use services_modulith_infra.Base.{String, Option, none, some, List, [], ◌∷◌, ◌++◌, In}
use services_modulith_infra.Cdk.{Handle, Cdk, Peer, group, Call, Resource}

-- A construct is made, with its kinds; or it is named where a construct of a kind is asked for.
pub data Event (A : Type 0) : Type 0 where
  made : List String → A → Event A
  used : String → A → Event A

abbrev pub kinds_of : Resource → List String
kinds_of (Resource.stack d e) = "stack" ∷ []
kinds_of Resource.service_construct = []
kinds_of (Resource.vpc v) = "vpc" ∷ []
kinds_of (Resource.security_group g) = "security_group" ∷ []
kinds_of (Resource.imported_security_group g) = "security_group" ∷ []
kinds_of (Resource.generated_secret s) = "secret" ∷ []
kinds_of (Resource.imported_secret s) = "secret" ∷ []
kinds_of (Resource.function f) = "function" ∷ "grantee" ∷ []
kinds_of (Resource.layer_version path runtimes) = "layer" ∷ []
kinds_of (Resource.ecs_cluster c) = "cluster" ∷ []
kinds_of (Resource.role r) = "role" ∷ "grantee" ∷ []
kinds_of (Resource.task_definition t) = "task_definition" ∷ []
kinds_of (Resource.fargate_service s) = "service" ∷ []
kinds_of (Resource.replication_group g) = "resource" ∷ []
kinds_of _ = []

abbrev pub uses : String → List Handle → List (Event Handle)
uses kind [] = []
uses kind (h ∷ hs) = used kind h ∷ uses kind hs

abbrev pub maybe_uses : String → Option Handle → List (Event Handle)
maybe_uses kind none = []
maybe_uses kind (some h) = used kind h ∷ []

-- The constructs that the arguments name.
abbrev pub uses_of : Resource → List (Event Handle)
uses_of (Resource.security_group g) = used "vpc" g.vpc ∷ []
uses_of (Resource.ec2_instance i) = used "vpc" i.vpc ∷ used "security_group" i.security_group ∷ []
uses_of (Resource.function f) =
    maybe_uses "vpc" f.vpc ++ (uses "security_group" f.security_groups ++ uses "layer" f.layers)
uses_of (Resource.aurora_cluster c) = used "vpc" c.vpc ∷ uses "security_group" c.security_groups
uses_of (Resource.ecs_cluster c) = used "vpc" c.vpc ∷ []
uses_of (Resource.task_definition t) =
    maybe_uses "role" t.execution_role ++ maybe_uses "role" t.task_role
uses_of (Resource.fargate_service s) =
    used "cluster" s.cluster ∷ used "task_definition" s.task_definition ∷ []
uses_of (Resource.load_balanced_service s) =
    used "cluster" s.cluster ∷ used "task_definition" s.task_definition ∷ []
uses_of _ = []

-- The parts that a construct comes with, and their kinds.
abbrev pub parts_of : Resource → List (String × String)
parts_of (Resource.fargate_service s) = ("security_group", "connections.security_groups[0]") ∷ []
parts_of (Resource.load_balanced_service s) =
    ("service", "service")
    ∷ ("target_group", "target_group")
    ∷ ("security_group", "service.connections.security_groups[0]")
    ∷ []
parts_of _ = []

-- The scope of a construct is the root or a construct.
abbrev pub scope_use : Handle → List (Event Handle)
scope_use [] = []
scope_use (id ∷ scope) = used "construct" (id ∷ scope) ∷ []

module _ (cdk : Cdk) where
  abbrev pub makes_parts : Handle → List (String × String) → List (Event Handle)
  makes_parts h [] = []
  makes_parts h ((kind, part) ∷ parts) = made (kind ∷ []) (cdk.part h part) ∷ makes_parts h parts

  abbrev pub makes : Handle → Resource → List (Event Handle)
  makes h r = made ("construct" ∷ kinds_of r) h ∷ makes_parts h (parts_of r)

  abbrev pub peer_use : Peer → List (Event Handle)
  peer_use (group h) = used "security_group" h ∷ []
  peer_use _ = []

  abbrev pub events_of : Call → List (Event Handle)
  events_of (Call.create scope id r) = scope_use scope ++ (uses_of r ++ makes (id ∷ scope) r)
  events_of (Call.add_ingress_rule h r) = used "security_group" h ∷ peer_use r.peer
  events_of (Call.allow_from h r) = used "service" h ∷ peer_use r.peer
  events_of (Call.add_dependency node other) = used "construct" node ∷ used "construct" other ∷ []
  events_of (Call.add_to_policy h s) = used "grantee" h ∷ []
  events_of (Call.grant_read secret grantee) = used "secret" secret ∷ used "grantee" grantee ∷ []
  events_of (Call.apply_removal_policy h policy) = used "resource" h ∷ []
  events_of (Call.add_namespace h name connect) = used "cluster" h ∷ []
  events_of (Call.add_volume h name) = used "task_definition" h ∷ []
  events_of (Call.add_container task id c) =
      used "task_definition" task
      ∷ (maybe_uses "secret" c.image.credentials
          ++ made ("construct" ∷ "container" ∷ []) (id ∷ task) ∷ [])
  events_of (Call.add_mount_point h path volume read_only) = used "container" h ∷ []
  events_of (Call.add_container_dependency h other condition) =
      used "container" h ∷ used "container" other ∷ []
  events_of (Call.enable_service_connect h connect) = used "service" h ∷ []
  events_of (Call.configure_health_check h health) = used "target_group" h ∷ []
  events_of (Call.auto_scale_task_count h min max) =
      used "service" h ∷ made ("scalable_target" ∷ []) (cdk.part h "scalable_task_count") ∷ []
  events_of (Call.scale_on_cpu h id scaling) = used "scalable_target" h ∷ []
  events_of (Call.scale_on_metric h id scaling) = used "scalable_target" h ∷ []
  events_of Call.synth = []

  abbrev pub events : List Call → List (Event Handle)
  events [] = []
  events (c ∷ cs) = events_of c ++ events cs

-- Put a construct with its kinds before those that are known.
abbrev pub learn : {A : Type 0} → List String → A → List (String × A) → List (String × A)
learn [] h known = known
learn (k ∷ ks) h known = (k, h) ∷ learn ks h known

-- Each construct is made before it is named, with the kind that it is named for.
abbrev pub WellTyped : List (String × Handle) → List (Event Handle) → Type 0
WellTyped known [] = Unit
WellTyped known (made ks h ∷ es) = WellTyped (learn ks h known) es
WellTyped known (used k h ∷ es) = In (k, h) known × WellTyped known es
