-- ===== src/Shell/Docker.antt =====
-- What the docker commands of a script name: the ports published.
use services_modulith_infra.Base.{String, Bool, false, List, [], ◌∷◌, ◌++◌, ◌==◌, if◌then◌else◌}
use services_modulith_infra.Shell.{Block, Command, step, done}

-- The words that follow the flag.
abbrev pub after_flag : String → List String → List String
after_flag flag [] = []
after_flag flag (w ∷ []) = []
after_flag flag (w ∷ v ∷ ws) =
    let rest = after_flag flag (v ∷ ws) in if w == flag then v ∷ rest else rest

abbrev pub docker_verb : String → List String → Bool
docker_verb verb [] = false
docker_verb verb (w ∷ []) = false
docker_verb verb (w ∷ v ∷ ws) =
    let rest = docker_verb verb (v ∷ ws) in if w == "docker" then v == verb else rest

-- What `f` finds in each `docker verb …` command at the top of a script.
abbrev pub docker : String → (List String → List String) → Block → List String
docker verb f done = []
docker verb f (step (Command.run ws) b) =
    (if docker_verb verb ws then f ws else []) ++ docker verb f b
docker verb f (step c b) = docker verb f b

abbrev pub published_ports : Block → List String
published_ports = docker "run" (after_flag "-p")
