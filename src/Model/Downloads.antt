-- ===== src/Model/Downloads.antt =====
-- The two download scripts of ai_model_stack.py, and what they ask of the machine.
pub mod Runs
use services_modulith_infra.Base.{String, ◌≡◌, Bool, true, not, List, [], ◌∷◌, words, ◌^^◌}
use services_modulith_infra.Shell.{Block, run, branch, done, ◌⨟◌}
use services_modulith_infra.Shell.Machine.{Machine}
use services_modulith_infra.Model.Scripts.{download_llama_model, download_nomic_embed}

pub record Download : Type 0 where
  pub dir : String
  pub repo : String
  pub file : String
  pub missing : String
  pub existing : String

abbrev pub path_of : Download → String
path_of d = d.dir ^^ "/" ^^ d.file

abbrev pub fetch : Download → List String
fetch d =
    "/home/ec2-user/hf-venv/bin/hf" ∷ "download" ∷ d.repo ∷ d.file ∷ "--local-dir" ∷ d.dir ∷ []

abbrev pub llama : Download
llama = record {
  dir = "/home/ec2-user/models/Llama-3.1-8B-Instruct";
  repo = "bartowski/Meta-Llama-3.1-8B-Instruct-GGUF";
  file = "Meta-Llama-3.1-8B-Instruct-Q5_K_M.gguf";
  missing = "Downloading Llama 3.1 8B model...";
  existing = "Llama model already exists. Skipping download.";
}

abbrev pub nomic : Download
nomic = record {
  dir = "/home/ec2-user/models/nomic-embed";
  repo = "nomic-ai/nomic-embed-text-v1.5-GGUF";
  file = "nomic-embed-text-v1.5.Q4_K_M.gguf";
  missing = "Downloading embedding model...";
  existing = "Embedding model already exists. Skipping download.";
}

-- The scripts with what they download.
abbrev pub downloads : List (Block × Download)
downloads = (download_llama_model, llama) ∷ (download_nomic_embed, nomic) ∷ []

abbrev pub script_of : Download → Block
script_of d =
    run (words "set -euo pipefail")
    ⨟ run ("mkdir" ∷ "-p" ∷ d.dir ∷ [])
    ⨟ branch ("[" ∷ "!" ∷ "-f" ∷ path_of d ∷ "]" ∷ [])
        (run ("echo" ∷ d.missing ∷ []) ⨟ run (fetch d) ⨟ done)
        (run ("echo" ∷ d.existing ∷ []) ⨟ done)
    ⨟ done

-- The file tests, `mkdir -p` and `echo` as POSIX has them, and a download that puts the file where
-- it is asked to when it succeeds. A download may fail.
pub record Files (m : Machine) : Type 0 where
  pub has_file : String → m.World → Bool
  pub tests :
      (path : String) (w : m.World)
      → m.exec ("[" ∷ "!" ∷ "-f" ∷ path ∷ "]" ∷ []) w ≡ (not (has_file path w), w)
  pub makes_dir :
      (dir path : String) (w : m.World)
      → has_file path (m.exec ("mkdir" ∷ "-p" ∷ dir ∷ []) w).1 ≡ has_file path w
  pub echoes : (text : String) (w : m.World) → m.exec ("echo" ∷ text ∷ []) w ≡ (true, w)
  pub fetches :
      (d : Download) (w : m.World)
      → (m.exec (fetch d) w).0 ≡ true
      → has_file (path_of d) (m.exec (fetch d) w).1 ≡ true
