-- ===== src/Model/Boot.antt =====
-- The boot of the model's instance: the units that the user data of ai_model_stack.py writes.
use services_modulith_infra.Base.{
  String, ◌≡◌, refl, sym, subst, ◌⊎◌, some, List, [], ◌∷◌, All, In, inl, inr,
}
use services_modulith_infra.Base.Dict.{lookup}
use services_modulith_infra.Shell.{UnitFile, Block}
use services_modulith_infra.Shell.Docker.{after_flag}
use services_modulith_infra.Model.Downloads.{Download, llama, nomic, path_of, script_of}
use services_modulith_infra.Model.Scripts.{build_llama, download_llama_model, download_nomic_embed}
use services_modulith_infra.Model.Build.{first_word, server}
use services_modulith_infra.Shell.Systemd.{
  units_written, scripts_written, unit_path, Booted, Booted-closed, starts, next, power_on,
}
use services_modulith_infra.Model.Units.{
  llama_build_unit, llama_download_unit, nomic_download_unit, llama_server_unit, nomic_server_unit,
}
use services_modulith_infra.Model.Provisioning.{model_user_data}

-- The model servers, each with the unit that downloads its model.
abbrev pub model_servers : List (String × String)
model_servers =
    ("llama-server.service", "llama-download.service")
    ∷ ("nomic-embed-server.service", "nomic-embed-download.service")
    ∷ []

needs_llama :
    {active : List String}
    → Booted (units_written model_user_data) active
    → In "llama-server.service" active
    → In "llama-download.service" active × In "llama-build.service" active
needs_llama b h =
    let d =
      Booted-closed _ "llama-server.service" "llama-download.service" llama_server_unit b h refl
        (inl refl) (inl refl) in
    (
      d,
      Booted-closed _ "llama-download.service" "llama-build.service" llama_download_unit b d refl
          (inl refl) (inl refl),
    )

needs_nomic :
    {active : List String}
    → Booted (units_written model_user_data) active
    → In "nomic-embed-server.service" active
    → In "nomic-embed-download.service" active × In "llama-build.service" active
needs_nomic b h =
    let d =
      Booted-closed _ "nomic-embed-server.service" "nomic-embed-download.service" nomic_server_unit
        b h refl (inl refl) (inl refl) in
    (
      d,
      Booted-closed _ "nomic-embed-download.service" "llama-build.service" nomic_download_unit b d
          refl (inl refl) (inl refl),
    )

-- The units alone: of the download and of the build.
pub servers_need_units :
    (active : List String) (unit download : String)
    → Booted (units_written model_user_data) active
    → In (unit, download) model_servers
    → In unit active
    → In download active × In "llama-build.service" active
servers_need_units active unit download b (inl e) h =
    subst (λ p. In p.0 active → In p.1 active × In "llama-build.service" active) (sym e)
      (needs_llama b) h
servers_need_units active unit download b (inr (inl e)) h =
    subst (λ p. In p.0 active → In p.1 active × In "llama-build.service" active) (sym e)
      (needs_nomic b) h
servers_need_units active unit download b (inr (inr m)) h = absurd m

-- The user data writes the unit, as one that runs to its end, and the script that it starts.
pub record RunsScript (unit : String) (script : Block) : Type 0 where
  pub file : UnitFile
  pub written : lookup (unit_path unit) (units_written model_user_data) ≡ some file
  pub scripted : lookup (first_word file.exec_start) (scripts_written model_user_data) ≡ some script
  pub to_its_end : file.service_type ≡ "oneshot"

-- The user data writes the unit, which starts the server that the build leaves, with the model.
pub record Serves (unit model : String) : Type 0 where
  pub file : UnitFile
  pub written : lookup (unit_path unit) (units_written model_user_data) ≡ some file
  pub started : first_word file.exec_start ≡ server
  pub loads : after_flag "--model" file.exec_start ≡ model ∷ []

-- The file of a download is the model of the unit, and the other unit's script downloads it.
pub record Supplies (unit download : String) : Type 0 where
  pub model : Download
  pub downloads : RunsScript download (script_of model)
  pub serves : Serves unit (path_of model)

servers-Supplies :
    (unit download : String) → In (unit, download) model_servers → Supplies unit download
servers-Supplies unit download (inl e) =
    subst (λ p. Supplies p.0 p.1) (sym e)
      (record {
        model = llama;
        downloads = record {
          file = llama_download_unit;
          written = refl;
          scripted = refl;
          to_its_end = refl;
        };
        serves = record { file = llama_server_unit; written = refl; started = refl; loads = refl };
      })
servers-Supplies unit download (inr (inl e)) =
    subst (λ p. Supplies p.0 p.1) (sym e)
      (record {
        model = nomic;
        downloads = record {
          file = nomic_download_unit;
          written = refl;
          scripted = refl;
          to_its_end = refl;
        };
        serves = record { file = nomic_server_unit; written = refl; started = refl; loads = refl };
      })
servers-Supplies unit download (inr (inr m)) = absurd m

-- In every boot of the instance with the units that its user data writes, when a model server is
-- active, so are the unit of its download and the unit of the build. The first is a oneshot unit whose
-- script downloads a file, if it is not there, and that file is the model that the server's unit names;
-- the second is a oneshot unit whose script is the build of llama.cpp, and the server's unit starts the
-- program that the build leaves.
pub servers-need :
    (active : List String) (unit download : String)
    → Booted (units_written model_user_data) active
    → In (unit, download) model_servers
    → In unit active
    → In download active
      × In "llama-build.service" active
      × Supplies unit download
      × RunsScript "llama-build.service" build_llama
servers-need active unit download b i h =
    let needed = servers_need_units active unit download b i h in
    (
      needed.0,
      needed.1,
      servers-Supplies unit download i,
      record { file = llama_build_unit; written = refl; scripted = refl; to_its_end = refl },
    )

-- The five units, the last one started first.
abbrev pub all_units : List String
all_units =
    "nomic-embed-server.service" ∷ "llama-server.service" ∷ "nomic-embed-download.service"
    ∷ "llama-download.service" ∷ "llama-build.service" ∷ []

-- There is a boot of the instance that ends with all the five units active.
pub Booted-all_units : Booted (units_written model_user_data) all_units
Booted-all_units =
    next
      (next
        (next
          (next (next power_on (starts _ _ llama_build_unit refl (λ r h k. absurd h)))
            (starts _ _ llama_download_unit refl (λ r h k. h)))
          (starts _ _ nomic_download_unit refl (λ r h k. inr h)))
        (starts _ _ llama_server_unit refl
          (λ r h k. elim h [ inl e ↦ inr (inl e) | inr x ↦ absurd x ])))
      (starts _ _ nomic_server_unit refl
        (λ r h k. elim h [ inl e ↦ inr (inl e) | inr x ↦ absurd x ]))

-- What the unit starts is a script that the user data writes, or the server that the build script
-- leaves.
abbrev pub StartsWritten : UnitFile → Type 0
StartsWritten u =
    ((script : Block) × (In (first_word u.exec_start, script) (scripts_written model_user_data)))
    ⊎ (first_word u.exec_start ≡ server)

-- Each unit that the user data writes starts a script that the user data writes too, or the server that
-- the build script leaves.
pub units-StartsWritten : All (λ u. StartsWritten u.1) (units_written model_user_data)
units-StartsWritten = (
  inl (build_llama, inl refl),
  (
    inl (download_llama_model, inr (inl refl)),
    (inl (download_nomic_embed, inr (inr (inl refl))), (inr refl, (inr refl, tt))),
  ),
)
