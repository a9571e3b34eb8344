-- ===== src/Model/Ready/Keeping.antt =====
-- What a run of the model's scripts leaves on the machine, and what a boot of their units keeps.
use services_modulith_infra.Base.{
  ℕ, ◌<◌, String, ◌≡◌, refl, sym, subst, ◌∙◌, ◌≢◌, true, false, inl, inr, none, some, List, [], ◌∷◌,
  All, In, ◌==◌, eq_iff, Bool-cases,
}
use mathlib.Core.Bool.{false≢true}
use mathlib.Core.Option.{some-injective, none-ne-some, some-ne-none}
use services_modulith_infra.Base.Dict.{Dict, lookup}
use services_modulith_infra.Shell.{UnitFile, Block}
use services_modulith_infra.Shell.Systemd.{units_written, scripts_written, unit_path}
use services_modulith_infra.Shell.Systemd.Lives.{
  Lives, Succeeds, program, Establishes, Lives-Booted, Lives-kept,
}
use services_modulith_infra.Shell.Machine.{
  Machine, Shell, Status, running, exited, run_block, start,
}
use services_modulith_infra.Shell.Machine.Keeps.{KeepsExec, KeepsBlock}
use services_modulith_infra.Model.Scripts.{build_llama, download_llama_model, download_nomic_embed}
use services_modulith_infra.Model.Units.{
  llama_build_unit, llama_download_unit, nomic_download_unit, llama_server_unit, nomic_server_unit,
}
use services_modulith_infra.Model.Provisioning.{model_user_data}
use services_modulith_infra.Model.Build.{Builds}
use services_modulith_infra.Model.Build.Rebuilds.{Built}
use services_modulith_infra.Model.Build.Runs.{build-ends}
use services_modulith_infra.Model.Downloads.{Download, Files, path_of, llama, nomic, downloads}
use services_modulith_infra.Model.Downloads.Runs.{Fetched, download-ends}
use services_modulith_infra.Model.Boot.{model_servers, servers_need_units}

-- No command of the download scripts and no server removes the built server, and no command of the
-- three scripts and no server removes a model's file.
pub record Keeps (m : Machine) (files : Files m) (builds : Builds m) : Type 0 where
  pub downloads_keep_server :
      (script : Block)
      → In script (download_llama_model ∷ download_nomic_embed ∷ [])
      → KeepsBlock m (λ w. builds.is_built w ≡ true) script
  pub servers_keep_server :
      (u : UnitFile)
      → In u (llama_server_unit ∷ nomic_server_unit ∷ [])
      → KeepsExec m (λ w. builds.is_built w ≡ true) u.exec_start
  pub scripts_keep_file :
      (d : Download) (script : Block)
      → In d (llama ∷ nomic ∷ [])
      → In script (build_llama ∷ download_llama_model ∷ download_nomic_embed ∷ [])
      → KeepsBlock m (λ w. files.has_file (path_of d) w ≡ true) script
  pub servers_keep_file :
      (d : Download) (u : UnitFile)
      → In d (llama ∷ nomic ∷ [])
      → In u (llama_server_unit ∷ nomic_server_unit ∷ [])
      → KeepsExec m (λ w. files.has_file (path_of d) w ≡ true) u.exec_start

-- What is found in a dict is what the dict has for the key.
lookup-All :
    {V : Type 0} (Q : String → V → Type 0) (d : Dict V) (k : String) (v : V)
    → All (λ p. Q p.0 p.1) d
    → lookup k d ≡ some v
    → Q k v
lookup-All Q [] k v h e = absurd (none-ne-some v e)
lookup-All Q ((j, x) ∷ d) k v h e = elim (Bool-cases (k == j)) [
  | inl t ↦
      let found : some x ≡ some v = rw t at e in
      subst (λ i. Q i v) (sym ((eq_iff k j).0 t)) (subst (Q j) (some-injective x v found) h.0)
  | inr f ↦ let later : lookup k d ≡ some v = rw f at e in lookup-All Q d k v h.1 later
]

abbrev units : Dict UnitFile
units = units_written model_user_data

abbrev scripts : Dict Block
scripts = scripts_written model_user_data

abbrev servers : List UnitFile
servers = llama_server_unit ∷ nomic_server_unit ∷ []

running_failed : running ≢ exited false
running_failed e = cc

true_failed : exited true ≢ exited false
true_failed e = cc

not_failed : (status : Status) → Succeeds status → status ≢ exited false
not_failed status (inl r) f = running_failed (sym r ∙ f)
not_failed status (inr r) f = true_failed (sym r ∙ f)

module _ (m : Machine) (files : Files m) (builds : Builds m) (keeps : Keeps m files builds)
    (rounds : ℕ) where
  Built-leaves :
      (r : Status × Shell m)
      → Built m builds rounds r
      → Succeeds r.0
      → builds.is_built r.1.world ≡ true
  Built-leaves (status, s) (inl (e, h)) ok = h
  Built-leaves (status, s) (inr f) ok = absurd (not_failed status ok f)

  Fetched-leaves :
      (d : Download) (r : Status × Shell m)
      → Fetched m files rounds d r
      → Succeeds r.0
      → files.has_file (path_of d) r.1.world ≡ true
  Fetched-leaves d (status, s) (inl (e, h)) ok = h
  Fetched-leaves d (status, s) (inr f) ok = absurd (not_failed status ok f)

  -- Only the servers are started as programs.
  servers-keep :
      (P : m.World → Type 0)
      → ((u : UnitFile) → In u servers → KeepsExec m P u.exec_start)
      → (name : String) (v : UnitFile) → lookup (unit_path name) units ≡ some v
      → lookup (program v) scripts ≡ none
      → KeepsExec m P v.exec_start
  servers-keep P k name v =
      lookup-All (λ n u. lookup (program u) scripts ≡ none → KeepsExec m P u.exec_start) units
        (unit_path name) v
        (
          (λ e. absurd (some-ne-none _ e)),
          (
            (λ e. absurd (some-ne-none _ e)),
            (
              (λ e. absurd (some-ne-none _ e)),
              (
                (λ e. k llama_server_unit (inl refl)),
                ((λ e. k nomic_server_unit (inr (inl refl))), tt),
              ),
            ),
          ),
        )

  build-Establishes :
      ((w : m.World) → builds.rounds_left w < rounds)
      → Establishes m rounds units scripts
          (λ w. builds.is_built w ≡ true)
          "llama-build.service"
          llama_build_unit
          build_llama
  build-Establishes ready = record {
    written = refl;
    scripted = refl;
    leaves = λ w ok.
        Built-leaves (run_block m rounds build_llama (start m w))
          (build-ends m builds rounds w (ready w)) ok;
    scripts_keep = λ path b.
        lookup-All
          (λ q c.
            (q == program llama_build_unit) ≡ false
            → KeepsBlock m (λ w. builds.is_built w ≡ true) c)
          scripts path b
          (
            (λ f. absurd (false≢true (sym f))),
            (
              (λ f. keeps.downloads_keep_server download_llama_model (inl refl)),
              ((λ f. keeps.downloads_keep_server download_nomic_embed (inr (inl refl))), tt),
            ),
          );
    programs_keep = servers-keep (λ w. builds.is_built w ≡ true) keeps.servers_keep_server;
  }

  download-Establishes :
      (d : Download) (unit : String) (u : UnitFile) (script : Block)
      → In d (llama ∷ nomic ∷ [])
      → In (script, d) downloads
      → lookup (unit_path unit) units ≡ some u
      → lookup (program u) scripts ≡ some script
      → Establishes m rounds units scripts (λ w. files.has_file (path_of d) w ≡ true) unit u script
  download-Establishes d unit u script i j e p = record {
    written = e;
    scripted = p;
    leaves = λ w ok.
        Fetched-leaves d (run_block m rounds script (start m w))
          (download-ends m files rounds script d w j) ok;
    scripts_keep = λ path b.
        lookup-All
          (λ q c.
            (q == program u) ≡ false → KeepsBlock m (λ w. files.has_file (path_of d) w ≡ true) c)
          scripts path b
          (
            (λ f. keeps.scripts_keep_file d build_llama i (inl refl)),
            (
              (λ f. keeps.scripts_keep_file d download_llama_model i (inr (inl refl))),
              ((λ f. keeps.scripts_keep_file d download_nomic_embed i (inr (inr (inl refl)))), tt),
            ),
          );
    programs_keep =
        servers-keep (λ w. files.has_file (path_of d) w ≡ true)
          (λ v. keeps.servers_keep_file d v i);
  }

  module _ (ready : (v : m.World) → builds.rounds_left v < rounds) {active : List String}
      {w : m.World} (life : Lives m rounds units scripts active w) where
    -- A server, the unit that downloads its model, and the unit that builds llama.cpp.
    ready_with :
        (unit download : String) (d : Download) (u : UnitFile) (script : Block)
        → In (unit, download) model_servers
        → Establishes m rounds units scripts
            (λ v. files.has_file (path_of d) v ≡ true)
            download
            u
            script
        → In unit active
        → (builds.is_built w ≡ true) × (files.has_file (path_of d) w ≡ true)
    ready_with unit download d u script i est h =
        let needed =
          servers_need_units active unit download (Lives-Booted m rounds units scripts life) i h in
        (
          Lives-kept m rounds units scripts (λ v. builds.is_built v ≡ true) "llama-build.service"
              llama_build_unit build_llama (build-Establishes ready) life needed.1,
          Lives-kept m rounds units scripts (λ v. files.has_file (path_of d) v ≡ true) download u
              script est life needed.0,
        )

    pub llama_ready :
        In "llama-server.service" active
        → (builds.is_built w ≡ true) × (files.has_file (path_of llama) w ≡ true)
    llama_ready =
        ready_with "llama-server.service" "llama-download.service" llama llama_download_unit
          download_llama_model (inl refl)
          (download-Establishes llama "llama-download.service" llama_download_unit
            download_llama_model (inl refl) (inl refl) refl refl)

    pub nomic_ready :
        In "nomic-embed-server.service" active
        → (builds.is_built w ≡ true) × (files.has_file (path_of nomic) w ≡ true)
    nomic_ready =
        ready_with "nomic-embed-server.service" "nomic-embed-download.service" nomic
          nomic_download_unit download_nomic_embed (inr (inl refl))
          (download-Establishes nomic "nomic-embed-download.service" nomic_download_unit
            download_nomic_embed (inr (inl refl)) (inr (inl refl)) refl refl)
