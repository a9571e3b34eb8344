-- ===== src/Model/Build/Rebuilds.antt =====
-- The build script behind its loop: it ends with a built server, or with failure.
use services_modulith_infra.Base.{
  ℕ, String, ◌≡◌, refl, sym, subst, ◌∙◌, ap, Bool, true, false, ◌⊎◌, inl, inr, List, [], ◌∷◌, words,
  Bool-cases, ◌==◌,
}
use services_modulith_infra.Shell.{Block, run, exit, branch, done, ◌⨟◌}
use services_modulith_infra.Shell.Machine.{
  Machine, Shell, Status, running, exited, run_block, note, and_then, sets_errexit,
}
use services_modulith_infra.Shell.Machine.Steps.{run-succeeds, run-fails, branch-true, branch-false}
use services_modulith_infra.Model.Build.{Builds, server, directory, first_word}

abbrev compile : Block
compile = run (words "cmake --build build --config Release -j$(nproc)") ⨟ done

abbrev rebuild : Block
rebuild =
    run ("echo" ∷ "Removing previous build..." ∷ [])
    ⨟ run (words "rm -rf build")
    ⨟ run ("echo" ∷ "Configuring llama.cpp with CUDA..." ∷ [])
    ⨟ run (words "cmake -B build -DGGML_CUDA=ON -DCMAKE_CUDA_ARCHITECTURES=75")
    ⨟ run ("echo" ∷ "Building llama.cpp..." ∷ [])
    ⨟ compile

abbrev test_built : List String
test_built = "[" ∷ "-x" ∷ server ∷ "]" ∷ []

abbrev skip : Block
skip = run ("echo" ∷ "llama-server already built. Skipping rebuild." ∷ []) ⨟ exit "0" ⨟ done

abbrev pub behind_loop : Block
behind_loop =
    run ("echo" ∷ "NVIDIA driver is ready" ∷ [])
    ⨟ run (words "echo CUDA:")
    ⨟ run (words "nvcc --version")
    ⨟ run (words "echo GPU:")
    ⨟ run (words "nvidia-smi")
    ⨟ run (words "cd /home/ec2-user/llama.cpp")
    ⨟ branch test_built skip done
    ⨟ rebuild

module _ (m : Machine) (builds : Builds m) (rounds : ℕ) where
  open builds use {rounds_left, is_built, directory_of}

  -- The script ends with success and the server is built, or it fails.
  abbrev pub Built : Status × Shell m → Type 0
  Built (status, s) =
      (((status ≡ running) ⊎ (status ≡ exited true)) × (is_built s.world ≡ true))
      ⊎ (status ≡ exited false)

  -- A command that may fail.
  pub run-Built :
      (ws : List String) (b : Block) (s : Shell m)
      → sets_errexit ws ≡ false
      → s.errexit ≡ true
      → ((m.exec ws s.world).0 ≡ true
          → Built (run_block m rounds b (note m (run ws) (true, (m.exec ws s.world).1) s)))
      → Built (run_block m rounds (run ws ⨟ b) s)
  run-Built ws b s h e k =
      let w = (m.exec ws s.world).1 in
      elim (Bool-cases (m.exec ws s.world).0) [
        | inl t ↦ subst Built (sym (run-succeeds m rounds ws b s w h (ap (λ x. (x, w)) t))) (k t)
        | inr f ↦
            subst Built (sym (run-fails m rounds ws b s w h e (ap (λ x. (x, w)) f))) (inr refl)
      ]

  -- A command that may fail, in the directory, where it stays.
  stay-Built :
      (ws : List String) (b : Block) (s : Shell m)
      → sets_errexit ws ≡ false
      → (first_word ws == "cd") ≡ false
      → s.errexit ≡ true
      → directory_of s.world ≡ directory
      → ((w : m.World)
          → directory_of w ≡ directory
          → Built (run_block m rounds b (note m (run ws) (true, w) s)))
      → Built (run_block m rounds (run ws ⨟ b) s)
  stay-Built ws b s h c e d k =
      run-Built ws b s h e (λ t. k (m.exec ws s.world).1 (builds.stays ws s.world c ∙ d))

  compile-Built :
      (s : Shell m)
      → s.errexit ≡ true
      → directory_of s.world ≡ directory
      → Built (run_block m rounds compile s)
  unfolding run_block
  compile-Built s e d =
      run-Built (words "cmake --build build --config Release -j$(nproc)") done s refl e
        (λ t. inl (inl refl, builds.compiles s.world d t))

  rebuild-Built :
      (s : Shell m)
      → s.errexit ≡ true
      → directory_of s.world ≡ directory
      → Built (run_block m rounds rebuild s)
  rebuild-Built s e d = stay-Built _ _ s refl refl e d λ w₁ d₁.
      stay-Built _ _ _ refl refl e d₁ λ w₂ d₂. stay-Built _ _ _ refl refl e d₂ λ w₃ d₃.
        stay-Built _ _ _ refl refl e d₃
          λ w₄ d₄. stay-Built _ _ _ refl refl e d₄ λ w₅ d₅. compile-Built _ e d₅

  entered-Built :
      (s : Shell m)
      → s.errexit ≡ true
      → directory_of s.world ≡ directory
      → Built (run_block m rounds (branch test_built skip done ⨟ rebuild) s)
  unfolding run_block
  entered-Built s e d =
      let s' : Bool → Shell m = λ b. note m (run test_built) (b, s.world) s in
      elim (Bool-cases (is_built s.world)) [
        | inl h ↦
            subst Built
              (sym (
                branch-true m rounds test_built skip done rebuild s s.world
                  (builds.tests s.world ∙ ap (λ b. (b, s.world)) h)
                ∙ ap (λ r. and_then m r (run_block m rounds rebuild))
                    (run-succeeds m rounds _ (exit "0" ⨟ done) (s' true) s.world refl
                      (builds.echoes "llama-server already built. Skipping rebuild." s.world))))
              (inl (inr refl, h))
        | inr h ↦
            subst Built
              (sym (
                branch-false m rounds test_built skip done rebuild s s.world
                  (builds.tests s.world ∙ ap (λ b. (b, s.world)) h)))
              (rebuild-Built (s' false) e d)
      ]

  pub behind_loop-Built :
      (s : Shell m) → s.errexit ≡ true → Built (run_block m rounds behind_loop s)
  behind_loop-Built s e = run-Built _ _ s refl e λ t₁. run-Built _ _ _ refl e λ t₂.
      run-Built _ _ _ refl e λ t₃. run-Built _ _ _ refl e λ t₄. run-Built _ _ _ refl e λ t₅.
        run-Built ("cd" ∷ directory ∷ []) _ _ refl e
          (λ t₆. entered-Built _ e (builds.enters directory _ t₆))
