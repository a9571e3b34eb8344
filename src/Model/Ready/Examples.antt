-- ===== src/Model/Ready/Examples.antt =====
-- A machine whose driver is ready after one round, and its life up to the first model server.
use services_modulith_infra.Base.{
  ◌<◌, ◌-◌, ◌≤◌, String, ◌≡◌, refl, Bool, true, false, ◌&&◌, ◌||◌, not, any, List, [], ◌∷◌, eqb,
  ◌==◌, ◌^^◌, eq_iff, if◌then◌else◌, arith, Bool-cases, inl, inr,
}
use services_modulith_infra.Shell.{Command, Block}
use services_modulith_infra.Shell.Machine.{Machine, run_block, start}
use services_modulith_infra.Shell.Machine.Keeps.{KeepsExec, KeepsCommand, KeepsBlock}
use services_modulith_infra.Shell.Systemd.{units_written, scripts_written}
use services_modulith_infra.Shell.Systemd.Lives.{Lives, powered, ran, started}
use services_modulith_infra.Model.Units.{llama_build_unit, llama_download_unit, llama_server_unit}
use services_modulith_infra.Model.Scripts.{build_llama, download_llama_model}
use services_modulith_infra.Model.Provisioning.{model_user_data}
use services_modulith_infra.Model.Build.{Builds, first_word}
use services_modulith_infra.Model.Downloads.{Download, Files, path_of, fetch}
use services_modulith_infra.Model.Ready.{IsReady, servers-IsReady}
use services_modulith_infra.Model.Ready.Keeping.{Keeps}

-- Whether the driver is ready, whether the server is built, the directory, and the files.
abbrev World : Type 0
World = Bool × Bool × String × List String

abbrev rest : List String → List String
rest [] = []
rest (w ∷ ws) = ws

abbrev word₂ : List String → String
word₂ ws = first_word (rest ws)

abbrev word₄ : List String → String
word₄ ws = first_word (rest (rest (rest ws)))

abbrev word₆ : List String → String
word₆ ws = first_word (rest (rest (rest (rest (rest ws)))))

abbrev exec_small : List String → World → Bool × World
exec_small ws (warm, built, dir, files) = (
  if first_word ws == "nvidia-smi"
      then warm
      else (if first_word ws == "["
          then (if word₂ ws == "-x" then built else not (any (λ f. word₄ ws == f) files))
          else true),
  (
    (if first_word ws == "sleep" then true else warm),
    (if first_word ws == "cmake" && word₂ ws == "--build" then true else built),
    (if first_word ws == "cd" then word₂ ws else dir),
    (if first_word ws == "/home/ec2-user/hf-venv/bin/hf"
        then (word₆ ws ^^ "/" ^^ word₄ ws) ∷ files
        else files),
  ),
)

abbrev small : Machine
small = record {
  World = World;
  exec = exec_small;
  assign = λ v ws w. (true, w);
  pipe = λ ws vs w. (true, w);
  write_script = λ path b w. (true, w);
  write_unit = λ path u w. (true, w);
}

small_sleeps :
    (w : World)
    → (w' : World) × (exec_small ("sleep" ∷ "5" ∷ []) w ≡ (true, w'))
      × ((if w'.0 then 0 else 1) ≤ (if w.0 then 0 else 1) - 1)
small_sleeps (warm, built, dir, files) = ((true, built, dir, files), refl, omega arith)

small_probes : (w : World) → exec_small ("nvidia-smi" ∷ []) w ≡ (eqb (if w.0 then 0 else 1) 0, w)
small_probes (true, built, dir, files) = refl
small_probes (false, built, dir, files) = refl

small_rounds : (w : World) → (if w.0 then 0 else 1) < 2
small_rounds (true, built, dir, files) = omega arith
small_rounds (false, built, dir, files) = omega arith

small_builds : Builds small
small_builds = record {
  rounds_left = λ w. if w.0 then 0 else 1;
  is_built = λ w. w.1;
  directory_of = λ w. w.2;
  probes = small_probes;
  echoes = λ text w. refl;
  makes_dir = λ dir w. omega arith;
  sleeps = small_sleeps;
  tests = λ w. refl;
  enters = λ dir w h. refl;
  stays = λ ws w h. rw h refl;
  compiles = λ w d h. refl;
}

small_fetches :
    (d : Download) (w : World) → any (λ f. path_of d == f) (exec_small (fetch d) w).1.3 ≡ true
small_fetches d w = rw ((eq_iff (path_of d) (path_of d)).1 refl) refl

small_files : Files small
small_files = record {
  has_file = λ path w. any (λ f. path == f) w.3;
  tests = λ path w. refl;
  makes_dir = λ dir path w. refl;
  echoes = λ text w. refl;
  fetches = λ d w h. small_fetches d w;
}

-- What each command keeps, each block keeps.
mutual
  unfolding KeepsBlock

  command-Keeps :
      (P : World → Type 0)
      → ((ws : List String) → KeepsExec small P ws)
      → (c : Command) → KeepsCommand small P c
  command-Keeps P k (Command.run ws) = k ws
  command-Keeps P k (Command.assign v ws) = λ w h. h
  command-Keeps P k (Command.pipe ws vs) = λ w h. h
  command-Keeps P k (Command.branch test a b) = (k test, block-Keeps P k a, block-Keeps P k b)
  command-Keeps P k (Command.check_file path) = k ("test" ∷ "-f" ∷ path ∷ [])
  command-Keeps P k (Command.until test body) = (k test, block-Keeps P k body)
  command-Keeps P k (Command.exit code) = tt
  command-Keeps P k (Command.tee_script path b) = λ w h. h
  command-Keeps P k (Command.tee_unit path u) = λ w h. h

  block-Keeps :
      (P : World → Type 0)
      → ((ws : List String) → KeepsExec small P ws)
      → (b : Block) → KeepsBlock small P b
  block-Keeps P k Block.done = tt
  block-Keeps P k (Block.step c b) = (command-Keeps P k c, block-Keeps P k b)

keep_server : (ws : List String) → KeepsExec small (λ w. w.1 ≡ true) ws
keep_server ws w h = elim (Bool-cases (first_word ws == "cmake" && word₂ ws == "--build")) [
  | inl e ↦ rw e refl
  | inr e ↦ rw e h
]

true_last : (b : Bool) → (b || true) ≡ true
true_last true = refl
true_last false = refl

keep_file :
    (path : String) (ws : List String) → KeepsExec small (λ w. any (λ f. path == f) w.3 ≡ true) ws
keep_file path ws w h = elim (Bool-cases (first_word ws == "/home/ec2-user/hf-venv/bin/hf")) [
  | inl e ↦ rw (e, h) (true_last (path == word₆ ws ^^ "/" ^^ word₄ ws))
  | inr e ↦ rw e h
]

small-Keeps : Keeps small small_files small_builds
unfolding small_files small_builds
small-Keeps = record {
  downloads_keep_server = λ script i. block-Keeps (λ w. w.1 ≡ true) keep_server script;
  servers_keep_server = λ u i. keep_server u.exec_start;
  scripts_keep_file = λ d script i j.
      block-Keeps (λ w. any (λ f. path_of d == f) w.3 ≡ true) (keep_file (path_of d)) script;
  servers_keep_file = λ d u i j. keep_file (path_of d) u.exec_start;
}

abbrev empty : World
empty = (false, false, "/", [])

abbrev built_world : World
built_world = (run_block small 2 build_llama (start small empty)).1.world

abbrev loaded_world : World
loaded_world = (run_block small 2 download_llama_model (start small built_world)).1.world

abbrev served_world : World
served_world = (exec_small llama_server_unit.exec_start loaded_world).1

abbrev served_units : List String
served_units = "llama-server.service" ∷ "llama-download.service" ∷ "llama-build.service" ∷ []

served :
    Lives small 2
      (units_written model_user_data)
      (scripts_written model_user_data)
      served_units
      served_world
unfolding run_block
served =
    started "llama-server.service" llama_server_unit
      (ran "llama-download.service" llama_download_unit download_llama_model
        (ran "llama-build.service" llama_build_unit build_llama (powered empty) refl
          (λ r h k. absurd h) refl refl (inl refl))
        refl (λ r h k. h) refl refl (inl refl))
      refl (λ r h k. elim h [ inl e ↦ inl e | inr x ↦ absurd x ]) refl refl

servers-IsReady_example : IsReady small small_files small_builds served_world llama_server_unit
unfolding small_builds
servers-IsReady_example =
    servers-IsReady small small_files small_builds small-Keeps 2 served_units served_world
      "llama-server.service" llama_server_unit small_rounds served (inl refl) (inl refl)
