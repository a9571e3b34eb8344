-- ===== src/Ports.antt =====
-- The ports that the calls of one service name: of its containers, its Service Connect entries and
-- its health checks.
use services_modulith_infra.Base.{
  ℕ, String, ◌≡◌, refl, inl, inr, Option, none, some, List, [], ◌∷◌, ◌++◌, map, All, In, number,
  arith, words, split,
}
use services_modulith_infra.Cdk.{
  Handle, Cdk, Resource, ServiceConnect, ConnectService, TargetHealth, HealthCheck, Call,
}
use services_modulith_infra.Shell.Docker.{after_flag}
use services_modulith_infra.Services.{
  EcommProps, ecomm_service, RagProps, rag_service, McpProps, mcp_service, MailProps, mail_service,
  MongoExpressProps, mongo_express_service,
}

abbrev gather : {A : Type 0} → (Call → List A) → List Call → List A
gather f [] = []
gather f (c ∷ cs) = f c ++ gather f cs

abbrev mappings_of : Call → List (String × ℕ)
mappings_of (Call.add_container task id c) = map (λ m. (m.name, m.container_port)) c.port_mappings
mappings_of _ = []

-- The names and the ports that the containers map.
abbrev pub mappings : List Call → List (String × ℕ)
mappings = gather mappings_of

abbrev entries : Option ServiceConnect → List ConnectService
entries none = []
entries (some s) = s.services

abbrev connects_of : Call → List ConnectService
connects_of (Call.create scope id (Resource.fargate_service s)) = entries s.service_connect
connects_of (Call.enable_service_connect service s) = s.services
connects_of _ = []

abbrev pub connects : List Call → List ConnectService
connects = gather connects_of

abbrev heads : List String → List String
heads [] = []
heads (h ∷ t) = h ∷ []

abbrev checks_of : Call → List TargetHealth
checks_of (Call.configure_health_check target h) = h ∷ []
checks_of _ = []

abbrev pub checks : List Call → List TargetHealth
checks = gather checks_of

-- What stands behind the last colon of a text that has one, up to a slash: the port of a URL.
abbrev last_port : List String → List String
last_port [] = []
last_port (part ∷ []) = []
last_port (part ∷ port ∷ []) = heads (split b'/' port)
last_port (part ∷ other ∷ third ∷ parts) = last_port (other ∷ third ∷ parts)

abbrev word_ports : List String → List String
word_ports [] = []
word_ports (w ∷ ws) = last_port (split b':' w) ++ word_ports ws

-- The ports that a command asks: those of its URLs and addresses, and the one after `localhost`.
abbrev pub command_ports : List String → List String
command_ports [] = []
command_ports (c ∷ cs) =
    word_ports (words c) ++ (after_flag "localhost" (words c) ++ command_ports cs)

abbrev commands_of : Option HealthCheck → List String
commands_of none = []
commands_of (some h) = h.command

abbrev probe_of : Call → List (List String × List ℕ)
probe_of (Call.add_container task id c) =
    (command_ports (commands_of c.health_check), map (λ m. m.container_port) c.port_mappings) ∷ []
probe_of _ = []

-- The ports that each container's own health check asks, and those that the container maps.
abbrev pub probes : List Call → List (List String × List ℕ)
probes = gather probe_of

-- A Service Connect entry names a mapped port of a container, with its number; a load balancer's
-- health check asks a mapped port, and a container's health check asks ports that it maps itself.
pub record AreConsistent (calls : List Call) : Type 0 where
  pub connected : All (λ s. In (s.port_mapping_name, s.port) (mappings calls)) (connects calls)
  pub checked : All (λ h. In (number h.port) (map (λ m. some m.1) (mappings calls))) (checks calls)
  pub probed : All (λ c. All (λ port. In (number port) (map some c.1)) c.0) (probes calls)

-- In each of the five services, every Service Connect entry names a port that a container of the
-- service maps, by the mapping's name and number, the load balancer's health check asks a port that a
-- container maps, and the health check of a container asks no port but one that this container maps.
pub services-AreConsistent :
    (cdk : Cdk) (scope : Handle) (id : String)
    → ((props : McpProps) → AreConsistent (mcp_service scope id props).calls)
      × ((props : RagProps) → AreConsistent (rag_service cdk scope id props).calls)
      × ((props : MailProps) → AreConsistent (mail_service cdk scope id props).calls)
      × ((props : MongoExpressProps)
          → AreConsistent (mongo_express_service cdk scope id props).calls)
      × ((props : EcommProps) → AreConsistent (ecomm_service cdk scope id props).calls)
unfolding mcp_service rag_service mail_service mongo_express_service ecomm_service
services-AreConsistent cdk scope id = (
  λ props. record { connected = ground arith; checked = ground arith; probed = ground arith },
  λ props. record { connected = ground arith; checked = ground arith; probed = ground arith },
  λ props. record {
    connected = (inr (inl refl), tt);
    checked = (inl refl, tt);
    probed = ground arith;
  },
  λ props. record { connected = tt; checked = (inl refl, tt); probed = ground arith },
  λ props. record { connected = ground arith; checked = ground arith; probed = ground arith },
)

-- The commands of the containers with a health check: the ports are found in them.
health_ports :
    command_ports ("CMD-SHELL" ∷ "curl -f http://localhost:8079/actuator/health || exit 1" ∷ [])
    ≡ "8079" ∷ []
health_ports = refl

probe_ports :
    command_ports
      ("grpc_health_probe -addr=:9090 || exit 1" ∷ "nc -z localhost 8080 || exit 1" ∷ [])
    ≡ "9090" ∷ "8080" ∷ []
probe_ports = refl
