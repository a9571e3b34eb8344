-- ===== src/Model/Ready.antt =====
-- A model server of ai_model_stack.py that is active has what it needs on the machine.
pub mod Keeping
mod Examples
use services_modulith_infra.Base.{
  ℕ, ◌<◌, String, ◌≡◌, refl, sym, subst, ◌∙◌, ◌≢◌, true, false, inl, inr, none, some, List, [], ◌∷◌,
  All, In, ◌==◌, eq_iff, Bool-cases,
}
use mathlib.Core.Bool.{false≢true}
use mathlib.Core.Option.{some-injective, none-ne-some, some-ne-none}
use services_modulith_infra.Base.Dict.{Dict, lookup}
use services_modulith_infra.Shell.{UnitFile, Block}
use services_modulith_infra.Shell.Docker.{after_flag}
use services_modulith_infra.Shell.Systemd.{units_written, scripts_written, unit_path}
use services_modulith_infra.Shell.Systemd.Lives.{
  Lives, Succeeds, program, Establishes, Lives-Booted, Lives-kept,
}
use services_modulith_infra.Shell.Machine.{
  Machine, Shell, Status, running, exited, run_block, start,
}
use services_modulith_infra.Shell.Machine.Keeps.{KeepsExec, KeepsBlock}
use services_modulith_infra.Model.Scripts.{build_llama, download_llama_model, download_nomic_embed}
use services_modulith_infra.Model.Units.{
  llama_build_unit, llama_download_unit, nomic_download_unit, llama_server_unit, nomic_server_unit,
}
use services_modulith_infra.Model.Provisioning.{model_user_data}
use services_modulith_infra.Model.Build.{Builds, server}
use services_modulith_infra.Model.Build.Rebuilds.{Built}
use services_modulith_infra.Model.Build.Runs.{build-ends}
use services_modulith_infra.Model.Downloads.{Download, Files, path_of, llama, nomic, downloads}
use services_modulith_infra.Model.Downloads.Runs.{Fetched, download-ends}
use services_modulith_infra.Model.Boot.{model_servers, servers-need}
use services_modulith_infra.Model.Ready.Keeping.{Keeps, llama_ready, nomic_ready}

-- The model servers.
abbrev pub server_units : List (String × UnitFile)
server_units =
    ("llama-server.service", llama_server_unit)
    ∷ ("nomic-embed-server.service", nomic_server_unit)
    ∷ []

-- The unit starts the server that the build script leaves, which is there, on one model, which is there.
abbrev pub IsReady : (m : Machine) → Files m → Builds m → m.World → UnitFile → Type 0
IsReady m files builds w u =
    (program u ≡ server)
    × (builds.is_built w ≡ true)
    × ((path : String) × (after_flag "--model" u.exec_start ≡ path ∷ [])
        × (files.has_file path w ≡ true))

-- In every life of the instance, while a model server is active the program that its unit starts is
-- built and the model that its unit names is there, on a machine where the driver is ready after
-- fewer rounds of the build script's loop than the run has, and where no command of the scripts and
-- no server removes a built server or a model.
pub servers-IsReady :
    (m : Machine) (files : Files m) (builds : Builds m) (keeps : Keeps m files builds) (rounds : ℕ)
    (active : List String) (w : m.World) (unit : String) (u : UnitFile)
    → ((v : m.World) → builds.rounds_left v < rounds)
    → Lives m rounds (units_written model_user_data) (scripts_written model_user_data) active w
    → In (unit, u) server_units
    → In unit active
    → IsReady m files builds w u
servers-IsReady m files builds keeps rounds active w unit u ready life (inl e) h =
    subst (λ p. In p.0 active → IsReady m files builds w p.1) (sym e)
      (λ k.
        let there = llama_ready m files builds keeps rounds ready life k in
        (refl, there.0, (path_of llama, refl, there.1)))
      h
servers-IsReady m files builds keeps rounds active w unit u ready life (inr (inl e)) h =
    subst (λ p. In p.0 active → IsReady m files builds w p.1) (sym e)
      (λ k.
        let there = nomic_ready m files builds keeps rounds ready life k in
        (refl, there.0, (path_of nomic, refl, there.1)))
      h
servers-IsReady m files builds keeps rounds active w unit u ready life (inr (inr n)) h = absurd n
