-- ===== src/App/Backends.antt =====
-- What the containers of the application are told of the cache and of the model.
use services_modulith_infra.Base.{
  ℕ, String, ◌≡◌, refl, ◌⊎◌, inl, inr, Bool-cases, Option, none, some, List, [], ◌∷◌, ◌++◌, All,
  All-map, In, In-get_elem?, number, ◌==◌, ◌^^◌,
}
use services_modulith_infra.Base.Dict.{Dict, lookup}
use services_modulith_infra.Shell.{UnitFile}
use services_modulith_infra.Shell.Docker.{after_flag}
use services_modulith_infra.Shell.Systemd.{units_written}
use services_modulith_infra.Cdk.{
  Handle, Cdk, Ec2Instance, ReplicationGroup, Resource, Container, ipv4, any_ipv4, Call,
}
use services_modulith_infra.App.{app, getenv_or}
use services_modulith_infra.App.Endpoints.{IsTold}
use services_modulith_infra.Cdk.Log.{collect, containers, instances, openings}

abbrev cache_of : Call → Option (Handle × ReplicationGroup)
cache_of (Call.create scope id (Resource.replication_group g)) = some (id ∷ scope, g)
cache_of _ = none

abbrev pub caches : List Call → List (Handle × ReplicationGroup)
caches = collect cache_of

-- A cache of the log, whose endpoint is the host and the port, and one of whose security groups opens
-- the cache's port to every address.
pub record ServesCache (cdk : Cdk) (calls : List Call) (host port : String) : Type 0 where
  pub handle : Handle
  pub cache : ReplicationGroup
  pub group : Handle
  pub made : In (handle, cache) (caches calls)
  pub named : host ≡ cdk.as_string (cdk.attr handle "attr_primary_end_point")
  pub numbered : port ≡ cdk.as_string (cdk.attr handle "attr_primary_end_point_port")
  pub grouped : In (cdk.attr group "security_group_id") cache.security_group_ids
  pub opened : In (group, any_ipv4, cache.port) (openings calls)

-- The ports that the units of a script listen on.
abbrev unit_ports : Dict UnitFile → List String
unit_ports [] = []
unit_ports ((path, u) ∷ us) = after_flag "--port" u.exec_start ++ unit_ports us

-- An instance of the log with the address, whose security group opens to the network each port that a
-- unit of its script listens on.
pub record ServesModel (cdk : Cdk) (calls : List Call) (ip dns : String) : Type 0 where
  pub handle : Handle
  pub server : Ec2Instance
  pub made : In (handle, server) (instances calls)
  pub addressed : ip ≡ cdk.attr handle "instance_private_ip"
  pub named : dns ≡ cdk.attr handle "instance_private_dns_name"
  pub listens : unit_ports (units_written server.user_data) ≡ "8080" ∷ "8081" ∷ []
  pub opened :
      All
        (λ port.
          (n : ℕ) × (number port ≡ some n)
          × In
              (server.security_group, ipv4 (cdk.attr server.vpc "vpc_cidr_block"), n)
              (openings calls))
        (unit_ports (units_written server.user_data))

-- Under two keys of its environment the container has nothing, or two texts that are served.
abbrev pub IsToldOf : (String → String → Type 0) → String → String → Container → Type 0
IsToldOf Serves first_key second_key c =
    (lookup first_key c.environment ≡ none)
    ⊎ ((first : String) × (second : String) × (lookup first_key c.environment ≡ some first)
        × (lookup second_key c.environment ≡ some second)
        × Serves first second)

module _ (cdk : Cdk) (variable : Option String) where
  abbrev profile : String
  profile = getenv_or variable "prod"

  abbrev redis_in : String → Handle
  redis_in id = (profile ^^ id) ∷ (profile ^^ "-RedisClusterStack") ∷ []

  abbrev model_in : String → Handle
  model_in id = (profile ^^ id) ∷ (profile ^^ "-AiModelStack") ∷ []

  redis-ServesCache :
      ServesCache cdk
        (app cdk variable).calls
        (cdk.as_string (cdk.attr (redis_in "-RedisCluster") "attr_primary_end_point"))
        (cdk.as_string (cdk.attr (redis_in "-RedisCluster") "attr_primary_end_point_port"))
  unfolding app
  redis-ServesCache = record {
    handle = redis_in "-RedisCluster";
    cache = _;
    group = redis_in "-RedisSecurityGroup";
    made = inl refl;
    named = refl;
    numbered = refl;
    grouped = inl refl;
    opened =
        In-get_elem? 8 (redis_in "-RedisSecurityGroup", any_ipv4, 6379)
          (openings (app cdk variable).calls) refl;
  }

  model-ServesModel :
      ServesModel cdk
        (app cdk variable).calls
        (cdk.attr (model_in "-ModelEc2Instance") "instance_private_ip")
        (cdk.attr (model_in "-ModelEc2Instance") "instance_private_dns_name")
  unfolding app
  model-ServesModel = record {
    handle = model_in "-ModelEc2Instance";
    server = _;
    made = inl refl;
    addressed = refl;
    named = refl;
    listens = refl;
    opened = ((8080, refl, inr (inl refl)), ((8081, refl, inr (inr (inl refl))), tt));
  }

told-IsToldOf :
    (Serves : String → String → Type 0) (first_key second_key first second : String)
    → Serves first second
    → (c : Container) → IsTold first_key second_key first second c
    → IsToldOf Serves first_key second_key c
told-IsToldOf Serves first_key second_key first second s c (inl e) = inl e
told-IsToldOf Serves first_key second_key first second s c (inr (h, k)) =
    inr (first, second, h, k, s)

module _ (cdk : Cdk) (variable : Option String) where
  containers-IsTold_redis :
      All
        (IsTold "REDIS_HOST" "REDIS_PORT"
          (cdk.as_string
            (cdk.attr (redis_in cdk variable "-RedisCluster") "attr_primary_end_point"))
          (cdk.as_string
            (cdk.attr (redis_in cdk variable "-RedisCluster") "attr_primary_end_point_port")))
        (containers (app cdk variable).calls)
  unfolding app
  containers-IsTold_redis = elim (Bool-cases (getenv_or variable "prod" == "dev")) [
    | inl e ↦
        rw e (inl refl, (inl refl, (inl refl, (inl refl, (inl refl, (inr (refl, refl), tt))))))
    | inr e ↦ rw e (inl refl, (inl refl, (inl refl, (inr (refl, refl), tt))))
  ]

  containers-IsTold_model :
      All
        (IsTold "MODEL_IP" "MODEL_DNS"
          (cdk.attr (model_in cdk variable "-ModelEc2Instance") "instance_private_ip")
          (cdk.attr (model_in cdk variable "-ModelEc2Instance") "instance_private_dns_name"))
        (containers (app cdk variable).calls)
  unfolding app
  containers-IsTold_model = elim (Bool-cases (getenv_or variable "prod" == "dev")) [
    | inl e ↦
        rw e (inl refl, (inr (refl, refl), (inl refl, (inl refl, (inl refl, (inl refl, tt))))))
    | inr e ↦ rw e (inl refl, (inr (refl, refl), (inl refl, (inl refl, tt))))
  ]

module _ (cdk : Cdk) (variable : Option String) where
  containers-redis :
      let calls = (app cdk variable).calls in
      All (IsToldOf (ServesCache cdk calls) "REDIS_HOST" "REDIS_PORT") (containers calls)
  containers-redis =
      All-map _ _ (containers (app cdk variable).calls)
        (told-IsToldOf (ServesCache cdk (app cdk variable).calls) "REDIS_HOST" "REDIS_PORT" _ _
          (redis-ServesCache cdk variable))
        (containers-IsTold_redis cdk variable)

  containers-model :
      let calls = (app cdk variable).calls in
      All (IsToldOf (ServesModel cdk calls) "MODEL_IP" "MODEL_DNS") (containers calls)
  containers-model =
      All-map _ _ (containers (app cdk variable).calls)
        (told-IsToldOf (ServesModel cdk (app cdk variable).calls) "MODEL_IP" "MODEL_DNS" _ _
          (model-ServesModel cdk variable))
        (containers-IsTold_model cdk variable)

-- Every container of the application that is told a Redis host is told the endpoint and the port of a
-- cache that the application makes, whose port one of the cache's security groups opens. Every one that
-- is told a model's address is told the address and the name of an instance that the application makes.
-- The units of that instance's script listen on the ports 8080 and 8081, and its security group opens
-- each of them to the network.
pub containers-IsToldOf :
    (cdk : Cdk) (variable : Option String)
    → let calls = (app cdk variable).calls in
      All (IsToldOf (ServesCache cdk calls) "REDIS_HOST" "REDIS_PORT") (containers calls)
      × All (IsToldOf (ServesModel cdk calls) "MODEL_IP" "MODEL_DNS") (containers calls)
containers-IsToldOf cdk variable = (containers-redis cdk variable, containers-model cdk variable)
