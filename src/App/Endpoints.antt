-- ===== src/App/Endpoints.antt =====
-- What the containers of the application are told of the EC2 instances that they call.
use services_modulith_infra.Base.{
  ℕ, String, ◌≡◌, refl, ◌⊎◌, inl, inr, Bool-cases, Option, none, some, List, [], ◌∷◌, All, All-map,
  In, In-get_elem?, number, ◌==◌, ◌^^◌,
}
use services_modulith_infra.Base.Dict.{lookup}
use services_modulith_infra.Shell.Docker.{published_ports}
use services_modulith_infra.Cdk.{Handle, Cdk, Ec2Instance, Container, Peer, ipv4, Call}
use services_modulith_infra.Qdrant.{qdrant_server}
use services_modulith_infra.Zipkin.{zipkin_server}
use services_modulith_infra.App.{app, getenv_or}
use services_modulith_infra.Cdk.Log.{containers, instances, openings}

-- An instance of the log, at a port that its security group opens to the addresses of its network
-- and that its script publishes under the same number.
pub record Serves (cdk : Cdk) (calls : List Call) (host port : String) : Type 0 where
  pub handle : Handle
  pub server : Ec2Instance
  pub number_of : ℕ
  pub made : In (handle, server) (instances calls)
  pub named : host ≡ cdk.attr handle "instance_private_ip"
  pub read : number port ≡ some number_of
  pub opened :
      In
        (server.security_group, ipv4 (cdk.attr server.vpc "vpc_cidr_block"), number_of)
        (openings calls)
  pub published : In (port ^^ ":" ^^ port) (published_ports server.user_data)

-- A container that is told the host is told a port, and they are served.
abbrev pub IsServed : Cdk → List Call → String → String → Container → Type 0
IsServed cdk calls host_key port_key c =
    (lookup host_key c.environment ≡ none)
    ⊎ ((host : String) × (port : String) × (lookup host_key c.environment ≡ some host)
        × (lookup port_key c.environment ≡ some port)
        × Serves cdk calls host port)

module _ (cdk : Cdk) (variable : Option String) where
  abbrev profile : String
  profile = getenv_or variable "prod"

  abbrev vpc : Handle
  vpc = (profile ^^ "-EcommMonolithVpc") ∷ (profile ^^ "-VpcStack") ∷ []

  abbrev qdrant_in : String → Handle
  qdrant_in id = (profile ^^ id) ∷ (profile ^^ "-QdrantStack") ∷ []

  abbrev zipkin_in : String → Handle
  zipkin_in id = (profile ^^ id) ∷ (profile ^^ "-ZipkinStack") ∷ []

  abbrev qdrant_at : Ec2Instance
  qdrant_at = qdrant_server profile vpc (qdrant_in "-QdrantSecurityGroup")

  abbrev zipkin_at : Ec2Instance
  zipkin_at = zipkin_server profile vpc (zipkin_in "-ZipkinSecurityGroup")

  abbrev network : Peer
  network = ipv4 (cdk.attr vpc "vpc_cidr_block")

  qdrant-Serves :
      Serves cdk
        (app cdk variable).calls
        (cdk.attr (qdrant_in "-QdrantInstance") "instance_private_ip")
        "6334"
  unfolding app
  qdrant-Serves = record {
    handle = qdrant_in "-QdrantInstance";
    server = qdrant_at;
    number_of = 6334;
    made =
        In-get_elem? 1 (qdrant_in "-QdrantInstance", qdrant_at) (instances (app cdk variable).calls)
          refl;
    named = refl;
    read = refl;
    opened =
        In-get_elem? 5 (qdrant_in "-QdrantSecurityGroup", network, 6334)
          (openings (app cdk variable).calls) refl;
    published = In-get_elem? 1 "6334:6334" (published_ports qdrant_at.user_data) refl;
  }

  zipkin-Serves :
      Serves cdk
        (app cdk variable).calls
        (cdk.attr (zipkin_in "-ZipkinInstance") "instance_private_ip")
        "9411"
  unfolding app
  zipkin-Serves = record {
    handle = zipkin_in "-ZipkinInstance";
    server = zipkin_at;
    number_of = 9411;
    made =
        In-get_elem? 2 (zipkin_in "-ZipkinInstance", zipkin_at) (instances (app cdk variable).calls)
          refl;
    named = refl;
    read = refl;
    opened =
        In-get_elem? 7 (zipkin_in "-ZipkinSecurityGroup", network, 9411)
          (openings (app cdk variable).calls) refl;
    published = In-get_elem? 0 "9411:9411" (published_ports zipkin_at.user_data) refl;
  }

-- The container is told nothing of the host, or both its address and its port.
abbrev pub IsTold : String → String → String → String → Container → Type 0
IsTold host_key port_key host port c =
    (lookup host_key c.environment ≡ none)
    ⊎ ((lookup host_key c.environment ≡ some host) × (lookup port_key c.environment ≡ some port))

told-IsServed :
    (cdk : Cdk) (calls : List Call) (host_key port_key host port : String)
    → Serves cdk calls host port
    → (c : Container) → IsTold host_key port_key host port c
    → IsServed cdk calls host_key port_key c
told-IsServed cdk calls host_key port_key host port s c (inl e) = inl e
told-IsServed cdk calls host_key port_key host port s c (inr (h, k)) = inr (host, port, h, k, s)

module _ (cdk : Cdk) (variable : Option String) where
  containers-IsTold_qdrant :
      All
        (IsTold "QDRANT_HOST" "QDRANT_PORT"
          (cdk.attr (qdrant_in cdk variable "-QdrantInstance") "instance_private_ip")
          "6334")
        (containers (app cdk variable).calls)
  unfolding app
  containers-IsTold_qdrant = elim (Bool-cases (getenv_or variable "prod" == "dev")) [
    | inl e ↦
        rw e
          (inr (refl, refl), (inr (refl, refl), (inl refl, (inl refl, (inl refl, (inl refl, tt))))))
    | inr e ↦ rw e (inr (refl, refl), (inr (refl, refl), (inl refl, (inl refl, tt))))
  ]

  containers-IsTold_zipkin :
      All
        (IsTold "ZIPKIN_HOST" "ZIPKIN_PORT"
          (cdk.attr (zipkin_in cdk variable "-ZipkinInstance") "instance_private_ip")
          "9411")
        (containers (app cdk variable).calls)
  unfolding app
  containers-IsTold_zipkin = elim (Bool-cases (getenv_or variable "prod" == "dev")) [
    | inl e ↦ rw e (
      inr (refl, refl),
      (inr (refl, refl), (inl refl, (inl refl, (inl refl, (inr (refl, refl), tt))))),
    )
    | inr e ↦ rw e (inr (refl, refl), (inr (refl, refl), (inl refl, (inr (refl, refl), tt))))
  ]

module _ (cdk : Cdk) (variable : Option String) where
  containers-qdrant :
      let calls = (app cdk variable).calls in
      All (IsServed cdk calls "QDRANT_HOST" "QDRANT_PORT") (containers calls)
  containers-qdrant =
      All-map _ _ (containers (app cdk variable).calls)
        (told-IsServed cdk _ "QDRANT_HOST" "QDRANT_PORT" _ "6334" (qdrant-Serves cdk variable))
        (containers-IsTold_qdrant cdk variable)

  containers-zipkin :
      let calls = (app cdk variable).calls in
      All (IsServed cdk calls "ZIPKIN_HOST" "ZIPKIN_PORT") (containers calls)
  containers-zipkin =
      All-map _ _ (containers (app cdk variable).calls)
        (told-IsServed cdk _ "ZIPKIN_HOST" "ZIPKIN_PORT" _ "9411" (zipkin-Serves cdk variable))
        (containers-IsTold_zipkin cdk variable)

-- Every container of the application that is told a Qdrant host, and every one that is told a Zipkin
-- host, is told the private address of an instance that the application makes, and a port that the
-- instance's security group opens to the network and that its script publishes.
pub containers-IsServed :
    (cdk : Cdk) (variable : Option String)
    → let calls = (app cdk variable).calls in
      All (IsServed cdk calls "QDRANT_HOST" "QDRANT_PORT") (containers calls)
      × All (IsServed cdk calls "ZIPKIN_HOST" "ZIPKIN_PORT") (containers calls)
containers-IsServed cdk variable = (containers-qdrant cdk variable, containers-zipkin cdk variable)
