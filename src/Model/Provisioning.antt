-- ===== src/Model/Provisioning.antt =====
-- The user data of ai_model_stack.py. Shell variables that it sets to a literal text are put in.
use services_modulith_infra.Base.{[], ◌∷◌, words}
use services_modulith_infra.Shell.{
  Block, run, assign, pipe, branch, exit, check_file, tee_script, tee_unit, done, ◌⨟◌,
}
use services_modulith_infra.Model.Units.{
  llama_build_unit, llama_download_unit, nomic_download_unit, llama_server_unit, nomic_server_unit,
}
use services_modulith_infra.Model.Scripts.{build_llama, download_llama_model, download_nomic_embed}

-- The last part: what was installed is there, and the units are enabled.
abbrev pub verify : Block
verify =
    run ("echo" ∷ "==========================================" ∷ [])
    ⨟ run ("echo" ∷ "Final provisioning verification" ∷ [])
    ⨟ run ("echo" ∷ "==========================================" ∷ [])
    ⨟ run (words "command -v nvidia-smi")
    ⨟ run (words "command -v nvcc")
    ⨟ run (words "command -v cmake")
    ⨟ run (words "command -v git")
    ⨟ run (words "command -v docker")
    ⨟ run (words "command -v python3.12")
    ⨟ run (words "/home/ec2-user/hf-venv/bin/hf --version")
    ⨟ run (words "test -d /home/ec2-user/llama.cpp")
    ⨟ check_file "/usr/local/bin/build-llama.sh"
    ⨟ check_file "/usr/local/bin/download-llama-model.sh"
    ⨟ check_file "/usr/local/bin/download-nomic-embed.sh"
    ⨟ run (words "systemctl daemon-reload")
    ⨟ run ("echo" ∷ "All userdata provisioning steps completed successfully." ∷ [])
    ⨟ run (words "sudo touch /var/lib/ec2-provisioning-complete")
    ⨟ run (words "sudo systemctl enable llama-server.service")
    ⨟ run (words "sudo systemctl enable nomic-embed-server.service")
    ⨟ run (words "echo Rebooting...")
    ⨟ run (words "sudo reboot")
    ⨟ done

-- The middle part: the scripts and the units that run after the reboot.
abbrev pub install_services : Block
install_services =
    tee_script "/usr/local/bin/build-llama.sh" build_llama
    ⨟ run (words "sudo chmod +x /usr/local/bin/build-llama.sh")
    ⨟ tee_unit "/etc/systemd/system/llama-build.service" llama_build_unit
    ⨟ tee_script "/usr/local/bin/download-llama-model.sh" download_llama_model
    ⨟ run (words "sudo chmod +x /usr/local/bin/download-llama-model.sh")
    ⨟ tee_unit "/etc/systemd/system/llama-download.service" llama_download_unit
    ⨟ tee_script "/usr/local/bin/download-nomic-embed.sh" download_nomic_embed
    ⨟ run (words "sudo chmod +x /usr/local/bin/download-nomic-embed.sh")
    ⨟ tee_unit "/etc/systemd/system/nomic-embed-download.service" nomic_download_unit
    ⨟ tee_unit "/etc/systemd/system/llama-server.service" llama_server_unit
    ⨟ tee_unit "/etc/systemd/system/nomic-embed-server.service" nomic_server_unit
    ⨟ verify

abbrev pub model_user_data : Block
model_user_data =
    run (words "set -e")
    ⨟ run (words "sudo dnf clean all")
    ⨟ run (words "sudo dnf install -y dkms")
    ⨟ assign "K_VER" (words "uname -r")
    ⨟ assign "K_MAJOR_VER" (words "echo $K_VER | cut -d. -f1-2")
    ⨟ branch (words "case $K_VER in 6.1.*")
        (run (
            words
              "sudo dnf install -y kernel-headers-$(uname -r) kernel-devel-$(uname -r) --allowerasing")
          ⨟ run (words "sudo dnf install -y kernel-modules-extra-$(uname -r) --allowerasing")
          ⨟ done)
        (run (
            words
              "sudo dnf install -y kernel$K_MAJOR_VER-headers-$(uname -r) kernel$K_MAJOR_VER-devel-$(uname -r) --allowerasing")
          ⨟ run (
              words
                "sudo dnf install -y kernel$K_MAJOR_VER-modules-extra-$(uname -r) --allowerasing")
          ⨟ done)
    ⨟ run (words "sudo dnf clean all")
    ⨟ run (words "cd /tmp")
    ⨟ run (words "sudo dnf install -y nvidia-release")
    ⨟ run (words "sudo dnf clean expire-cache")
    ⨟ run (words "sudo dnf install -y nvidia-open")
    ⨟ run (words "sudo dnf install -y nvidia-xconfig")
    ⨟ run (words "sudo dnf install -y cmake git openssl-devel")
    ⨟ run (words "sudo dnf install -y cuda-toolkit")
    ⨟ run ("sed" ∷ "-i" ∷ "$aexport PATH=$PATH:/usr/local/cuda/bin" ∷ "/home/ec2-user/.bashrc" ∷ [])
    ⨟ run (
        "sed" ∷ "-i" ∷ "$aexport LD_LIBRARY_PATH=$LD_LIBRARY_PATH:/usr/local/cuda/lib64"
        ∷ "/home/ec2-user/.bashrc" ∷ [])
    ⨟ run (words "sudo dnf install -y docker")
    ⨟ run (words "sudo systemctl enable docker")
    ⨟ run (words "sudo usermod -aG docker ec2-user")
    ⨟ run (words "sudo dnf install -y nvidia-container-toolkit")
    ⨟ run (words "sudo nvidia-ctk runtime configure --runtime=docker")
    ⨟ run (words "sudo systemctl restart docker")
    ⨟ pipe (words "echo latest") (words "sudo tee /etc/dnf/vars/releasever")
    ⨟ branch ("ec2-metadata" ∷ "-t" ∷ "|" ∷ "grep" ∷ "-q" ∷ " p[0-9]" ∷ [])
        (run (words "sudo dnf install -y nvidia-fabricmanager libnvidia-nscq libnvsdm nvidia-imex")
          ⨟ branch ("ec2-metadata" ∷ "-t" ∷ "|" ∷ "grep" ∷ "-q" ∷ " p[6-9]" ∷ [])
              (run (words "sudo dnf install -y nvlsm nvlink5")
                ⨟ pipe (words "echo ib_umad") (words "sudo tee -a /etc/modules-load.d/modules.conf")
                ⨟ run (words "sudo modprobe ib_umad")
                ⨟ done)
              done
          ⨟ run (words "sudo systemctl enable --now nvidia-fabricmanager")
          ⨟ done)
        done
    ⨟ run (words "sudo dnf install -y python3.12 python3.12-pip")
    ⨟ run (words "sudo -u ec2-user python3.12 -m venv /home/ec2-user/hf-venv")
    ⨟ run (words "sudo -u ec2-user /home/ec2-user/hf-venv/bin/pip install --upgrade pip")
    ⨟ run
        (words "sudo -u ec2-user /home/ec2-user/hf-venv/bin/pip install --upgrade huggingface_hub")
    ⨟ branch (words "[ ! -x /home/ec2-user/hf-venv/bin/hf ]")
        (run ("echo" ∷ "ERROR: Hugging Face CLI was not installed" ∷ []) ⨟ exit "1" ⨟ done) done
    ⨟ run (words "sudo -u ec2-user /home/ec2-user/hf-venv/bin/hf --version")
    ⨟ branch (words "[ ! -d /home/ec2-user/llama.cpp ]")
        (run (
            words
              "sudo -u ec2-user git clone https://github.com/ggml-org/llama.cpp.git /home/ec2-user/llama.cpp")
          ⨟ done)
        done
    ⨟ run (words "sudo chown -R ec2-user:ec2-user /home/ec2-user/llama.cpp")
    ⨟ install_services
