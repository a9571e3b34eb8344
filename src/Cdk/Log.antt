-- ===== src/Cdk/Log.antt =====
-- What a log of calls says: the constructs created, the dependencies declared, the ports opened.
use services_modulith_infra.Base.{ℕ, Option, none, some, List, [], ◌∷◌}
use services_modulith_infra.Cdk.{
  Handle, TaskDefinition, Container, Ec2Instance, Resource, Peer, any_ipv4, Call,
}

abbrev pub collect : {A : Type 0} → (Call → Option A) → List Call → List A
collect f [] = []
collect f (c ∷ cs) = elim (f c) [ none ↦ collect f cs | some a ↦ a ∷ collect f cs ]

-- The path of the construct that a call makes. A container is one in its task definition's scope.
abbrev pub created_by : Call → Option Handle
created_by (Call.create scope id r) = some (id ∷ scope)
created_by (Call.add_container task id c) = some (id ∷ task)
created_by _ = none

abbrev pub created : List Call → List Handle
created = collect created_by

abbrev pub stack_of : Call → Option Handle
stack_of (Call.create scope id (Resource.stack d e)) = some (id ∷ scope)
stack_of _ = none

abbrev pub stacks : List Call → List Handle
stacks = collect stack_of

abbrev pub dependency_of : Call → Option (Handle × Handle)
dependency_of (Call.add_dependency node other) = some (node, other)
dependency_of _ = none

abbrev pub dependencies : List Call → List (Handle × Handle)
dependencies = collect dependency_of

-- The port of a rule that lets in every IPv4 address.
abbrev pub port_for_all : Peer → ℕ → Option ℕ
port_for_all any_ipv4 port = some port
port_for_all _ port = none

abbrev pub open_port_of : Call → Option ℕ
open_port_of (Call.add_ingress_rule h r) = port_for_all r.peer r.port
open_port_of (Call.allow_from h r) = port_for_all r.peer r.port
open_port_of _ = none

abbrev pub open_ports : List Call → List ℕ
open_ports = collect open_port_of

abbrev pub task_of : Call → Option TaskDefinition
task_of (Call.create scope id (Resource.task_definition t)) = some t
task_of _ = none

abbrev pub tasks : List Call → List TaskDefinition
tasks = collect task_of

abbrev pub container_of : Call → Option Container
container_of (Call.add_container task id c) = some c
container_of _ = none

abbrev pub containers : List Call → List Container
containers = collect container_of

abbrev pub instance_of : Call → Option (Handle × Ec2Instance)
instance_of (Call.create scope id (Resource.ec2_instance i)) = some (id ∷ scope, i)
instance_of _ = none

abbrev pub instances : List Call → List (Handle × Ec2Instance)
instances = collect instance_of

abbrev pub opening_of : Call → Option (Handle × Peer × ℕ)
opening_of (Call.add_ingress_rule h r) = some (h, r.peer, r.port)
opening_of _ = none

-- The rules by the security groups that they are added to.
abbrev pub openings : List Call → List (Handle × Peer × ℕ)
openings = collect opening_of
