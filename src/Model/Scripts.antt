-- ===== src/Model/Scripts.antt =====
-- The scripts that the units of ai_model_stack.py start. Shell variables that a script sets to a
-- literal text are put in.
use services_modulith_infra.Base.{[], ◌∷◌, words}
use services_modulith_infra.Shell.{Block, run, branch, until, exit, done, ◌⨟◌}

abbrev pub build_llama : Block
build_llama =
    run (words "set -euo pipefail")
    ⨟ run (words "mkdir -p /home/ec2-user/models")
    ⨟ run ("echo" ∷ "Waiting for NVIDIA driver..." ∷ [])
    ⨟ until (words "nvidia-smi")
        (run ("echo" ∷ "NVIDIA driver not ready..." ∷ []) ⨟ run (words "sleep 5") ⨟ done)
    ⨟ run ("echo" ∷ "NVIDIA driver is ready" ∷ [])
    ⨟ run (words "echo CUDA:")
    ⨟ run (words "nvcc --version")
    ⨟ run (words "echo GPU:")
    ⨟ run (words "nvidia-smi")
    ⨟ run (words "cd /home/ec2-user/llama.cpp")
    ⨟ branch (words "[ -x /home/ec2-user/llama.cpp/build/bin/llama-server ]")
        (run ("echo" ∷ "llama-server already built. Skipping rebuild." ∷ []) ⨟ exit "0" ⨟ done) done
    ⨟ run ("echo" ∷ "Removing previous build..." ∷ [])
    ⨟ run (words "rm -rf build")
    ⨟ run ("echo" ∷ "Configuring llama.cpp with CUDA..." ∷ [])
    ⨟ run (words "cmake -B build -DGGML_CUDA=ON -DCMAKE_CUDA_ARCHITECTURES=75")
    ⨟ run ("echo" ∷ "Building llama.cpp..." ∷ [])
    ⨟ run (words "cmake --build build --config Release -j$(nproc)")
    ⨟ done

abbrev pub download_llama_model : Block
download_llama_model =
    run (words "set -euo pipefail")
    ⨟ run (words "mkdir -p /home/ec2-user/models/Llama-3.1-8B-Instruct")
    ⨟ branch
        (words
          "[ ! -f /home/ec2-user/models/Llama-3.1-8B-Instruct/Meta-Llama-3.1-8B-Instruct-Q5_K_M.gguf ]")
        (run ("echo" ∷ "Downloading Llama 3.1 8B model..." ∷ [])
          ⨟ run (
              words
                "/home/ec2-user/hf-venv/bin/hf download bartowski/Meta-Llama-3.1-8B-Instruct-GGUF Meta-Llama-3.1-8B-Instruct-Q5_K_M.gguf --local-dir /home/ec2-user/models/Llama-3.1-8B-Instruct")
          ⨟ done)
        (run ("echo" ∷ "Llama model already exists. Skipping download." ∷ []) ⨟ done)
    ⨟ done

abbrev pub download_nomic_embed : Block
download_nomic_embed =
    run (words "set -euo pipefail")
    ⨟ run (words "mkdir -p /home/ec2-user/models/nomic-embed")
    ⨟ branch (words "[ ! -f /home/ec2-user/models/nomic-embed/nomic-embed-text-v1.5.Q4_K_M.gguf ]")
        (run ("echo" ∷ "Downloading embedding model..." ∷ [])
          ⨟ run (
              words
                "/home/ec2-user/hf-venv/bin/hf download nomic-ai/nomic-embed-text-v1.5-GGUF nomic-embed-text-v1.5.Q4_K_M.gguf --local-dir /home/ec2-user/models/nomic-embed")
          ⨟ done)
        (run ("echo" ∷ "Embedding model already exists. Skipping download." ∷ []) ⨟ done)
    ⨟ done
