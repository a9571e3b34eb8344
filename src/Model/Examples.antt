-- ===== src/Model/Examples.antt =====
-- The theorems on the model's instance, at a full boot and on a small machine.
use services_modulith_infra.Base.{
  ℕ, zero, suc, String, ◌≡◌, refl, Bool, true, false, not, ◌⊎◌, List, [], ◌∷◌, any, All, In, inl,
  inr, ◌==◌, ◌^^◌, eq_iff, if◌then◌else◌,
}
use services_modulith_infra.Shell.Machine.{Machine, running, exited, run_block, start}
use services_modulith_infra.Shell.Machine.Errexit.{straight}
use services_modulith_infra.Model.Provisioning.{model_user_data}
use services_modulith_infra.Model.Provisioned.{provisioning-ends}
use services_modulith_infra.Model.Scripts.{build_llama, download_llama_model}
use services_modulith_infra.Model.Downloads.{Download, Files, llama, path_of, fetch}
use services_modulith_infra.Model.Downloads.Runs.{Fetched, Skipped, download-ends, download-skips}
use services_modulith_infra.Model.Boot.{
  servers-need, Supplies, RunsScript, all_units, Booted-all_units,
}

servers-need_example :
    In "llama-download.service" all_units
    × In "llama-build.service" all_units
    × Supplies "llama-server.service" "llama-download.service"
    × RunsScript "llama-build.service" build_llama
servers-need_example =
    servers-need all_units "llama-server.service" "llama-download.service" Booted-all_units
      (inl refl) (inr (inl refl))

abbrev word : ℕ → List String → String
word n [] = String.[]
word zero (w ∷ ws) = w
word (suc n) (w ∷ ws) = word n ws

-- The files there are.
abbrev World : Type 0
World = List String

abbrev exec_small : List String → World → Bool × World
exec_small ws w =
    if word 0 ws == "["
    then (not (any (λ f. word 3 ws == f) w), w)
    else (if word 0 ws == "/home/ec2-user/hf-venv/bin/hf"
        then (true, (word 5 ws ^^ "/" ^^ word 3 ws) ∷ w)
        else (true, w))

abbrev small : Machine
small = record {
  World = World;
  exec = exec_small;
  assign = λ v ws w. (true, w);
  pipe = λ ws vs w. (true, w);
  write_script = λ path b w. (true, path ∷ w);
  write_unit = λ path u w. (true, path ∷ w);
}

small_fetches :
    (d : Download) (w : World) → any (λ f. path_of d == f) (exec_small (fetch d) w).1 ≡ true
small_fetches d w = rw ((eq_iff (path_of d) (path_of d)).1 refl) refl

small_files : Files small
small_files = record {
  has_file = λ path w. any (λ f. path == f) w;
  tests = λ path w. refl;
  makes_dir = λ dir path w. refl;
  echoes = λ text w. refl;
  fetches = λ d w h. small_fetches d w;
}

provisioning-ends_example :
    let (status, s) = run_block small 0 model_user_data (start small []) in
    ((status ≡ running) × All (λ c. In (c, true) s.trace) (straight model_user_data))
    ⊎ (status ≡ exited false)
provisioning-ends_example = provisioning-ends small 0 []

download-ends_example :
    Fetched small small_files 0 llama (run_block small 0 download_llama_model (start small []))
download-ends_example = download-ends small small_files 0 download_llama_model llama [] (inl refl)

download-skips_example :
    Skipped small small_files 0 llama
      (run_block small 0 download_llama_model (start small (path_of llama ∷ [])))
unfolding small_files
download-skips_example =
    download-skips small small_files 0 download_llama_model llama (path_of llama ∷ []) (inl refl)
      refl
