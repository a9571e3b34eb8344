-- ===== src/Model/Units.antt =====
-- The systemd units that the user data of ai_model_stack.py writes. A setting that a unit does not
-- name is empty.
use services_modulith_infra.Base.{String, List, [], ◌∷◌, words}
use services_modulith_infra.Shell.{UnitFile}

abbrev cuda_environment : List String
cuda_environment =
    "PATH=/usr/local/cuda/bin:/usr/local/bin:/usr/bin:/bin"
    ∷ "LD_LIBRARY_PATH=/usr/local/cuda/lib64" ∷ []

abbrev download_environment : List String
download_environment =
    "PATH=/home/ec2-user/.local/bin:/usr/local/cuda/bin:/usr/local/bin:/usr/bin:/bin"
    ∷ "LD_LIBRARY_PATH=/usr/local/cuda/lib64" ∷ []

abbrev pub llama_build_unit : UnitFile
llama_build_unit = record {
  description = "llama.cpp CUDA Build";
  requires = [];
  wants = "network-online.target" ∷ [];
  after = "network-online.target" ∷ [];
  service_type = "oneshot";
  user = "ec2-user";
  environment = cuda_environment;
  exec_start = "/usr/local/bin/build-llama.sh" ∷ [];
  remain_after_exit = "yes";
  restart = "";
  restart_sec = "";
  wanted_by = "";
}

abbrev pub llama_download_unit : UnitFile
llama_download_unit = record {
  description = "Download Llama 3.1 model";
  requires = "llama-build.service" ∷ [];
  wants = "network-online.target" ∷ [];
  after = "llama-build.service" ∷ "network-online.target" ∷ [];
  service_type = "oneshot";
  user = "ec2-user";
  environment = download_environment;
  exec_start = "/usr/local/bin/download-llama-model.sh" ∷ [];
  remain_after_exit = "yes";
  restart = "";
  restart_sec = "";
  wanted_by = "";
}

abbrev pub nomic_download_unit : UnitFile
nomic_download_unit = record {
  description = "download nomic-embed model";
  requires = "llama-build.service" ∷ [];
  wants = "network-online.target" ∷ [];
  after = "llama-build.service" ∷ "network-online.target" ∷ [];
  service_type = "oneshot";
  user = "ec2-user";
  environment = download_environment;
  exec_start = "/usr/local/bin/download-nomic-embed.sh" ∷ [];
  remain_after_exit = "yes";
  restart = "";
  restart_sec = "";
  wanted_by = "";
}

abbrev pub llama_server_unit : UnitFile
llama_server_unit = record {
  description = "Llama 3.1 model server";
  requires = "llama-download.service" ∷ [];
  wants = [];
  after = "llama-download.service" ∷ [];
  service_type = "simple";
  user = "ec2-user";
  environment = cuda_environment;
  exec_start =
      words
        "/home/ec2-user/llama.cpp/build/bin/llama-server --model /home/ec2-user/models/Llama-3.1-8B-Instruct/Meta-Llama-3.1-8B-Instruct-Q5_K_M.gguf --alias llama31 -t 4 -tb 8 -fa on --numa distribute -c 4096 --host 0.0.0.0 --port 8080";
  remain_after_exit = "";
  restart = "always";
  restart_sec = "10";
  wanted_by = "multi-user.target";
}

abbrev pub nomic_server_unit : UnitFile
nomic_server_unit = record {
  description = "Nomic Embed model server";
  requires = "nomic-embed-download.service" ∷ [];
  wants = [];
  after = "nomic-embed-download.service" ∷ [];
  service_type = "simple";
  user = "ec2-user";
  environment = cuda_environment;
  exec_start =
      words
        "/home/ec2-user/llama.cpp/build/bin/llama-server --model /home/ec2-user/models/nomic-embed/nomic-embed-text-v1.5.Q4_K_M.gguf --alias nomic-embed --embedding -t 1 --host 0.0.0.0 --port 8081";
  remain_after_exit = "";
  restart = "always";
  restart_sec = "10";
  wanted_by = "multi-user.target";
}
