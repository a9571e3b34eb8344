-- ===== src/Model/Build/Runs.antt =====
-- The run of the build script: it waits for the driver, and leaves a built server.
use services_modulith_infra.Base.{
  ℕ, zero, suc, ◌≤◌, ◌<◌, ◌-◌, String, ◌≡◌, refl, sym, subst, ◌∙◌, ap, Bool, true, false, inl, inr,
  List, [], ◌∷◌, words, eqb, Bool-cases, arith,
}
use services_modulith_infra.Shell.{Block, run, until, done, ◌⨟◌}
use services_modulith_infra.Shell.Machine.{
  Machine, Shell, running, run_block, repeat, start, note, with_errexit, and_then,
}
use services_modulith_infra.Shell.Machine.Steps.{run-succeeds, repeat-true, repeat-false}
use services_modulith_infra.Model.Scripts.{build_llama}
use services_modulith_infra.Model.Build.{Builds}
use services_modulith_infra.Model.Build.Rebuilds.{Built, behind_loop, behind_loop-Built, run-Built}

shorter : (r' r n : ℕ) → eqb r 0 ≡ false → r' ≤ r - 1 → r < suc n → r' < n
shorter r' r n z h k = ground arith

smaller : (r' r n : ℕ) → r' ≤ r → r < n → r' < n
smaller r' r n h k = omega arith

module _ (m : Machine) (builds : Builds m) (rounds : ℕ) where
  open builds use {rounds_left}

  abbrev wait : Block
  wait = run ("echo" ∷ "NVIDIA driver not ready..." ∷ []) ⨟ run (words "sleep 5") ⨟ done

  -- A round of the loop, when the driver is not ready.
  wait-running :
      (s : Shell m)
      → s.errexit ≡ true
      → (s' : Shell m) × (run_block m rounds wait s ≡ (running, s'))
        × (s'.errexit ≡ true)
        × (rounds_left s'.world ≤ rounds_left s.world - 1)
  unfolding run_block
  wait-running s e =
      let (w, sleeps, less) = builds.sleeps s.world in
      let s₁ = note m (run ("echo" ∷ "NVIDIA driver not ready..." ∷ [])) (true, s.world) s in
      (
        note m (run ("sleep" ∷ "5" ∷ [])) (true, w) s₁,
        run-succeeds m rounds _ (run (words "sleep 5") ⨟ done) s s.world refl
              (builds.echoes "NVIDIA driver not ready..." s.world)
            ∙ run-succeeds m rounds ("sleep" ∷ "5" ∷ []) done s₁ w refl sleeps,
        e,
        less,
      )

  -- With more rounds than are left before the driver is ready, the loop ends.
  loop-Built :
      (n : ℕ) (s : Shell m)
      → s.errexit ≡ true
      → rounds_left s.world < n
      → Built m builds rounds (
          and_then m
            (repeat m n ("nvidia-smi" ∷ []) (run_block m rounds wait) s)
            (run_block m rounds behind_loop))
  loop-Built zero s e h = absurd (omega arith)
  loop-Built (suc n) s e h =
      let probe : List String = "nvidia-smi" ∷ [] in
      let body = run_block m rounds wait in
      let s' : Bool → Shell m = λ b. note m (run probe) (b, s.world) s in
      elim (Bool-cases (eqb (rounds_left s.world) 0)) [
        | inl z ↦
            subst (λ r. Built m builds rounds (and_then m r (run_block m rounds behind_loop)))
              (sym (
                repeat-true m n probe body s s.world
                  (builds.probes s.world ∙ ap (λ b. (b, s.world)) z)))
              (behind_loop-Built m builds rounds (s' true) e)
        | inr z ↦
            let (s₂, steps, e₂, less) = wait-running (s' false) e in
            subst (λ r. Built m builds rounds (and_then m r (run_block m rounds behind_loop)))
              (sym (
                repeat-false m n probe body s s.world
                  (builds.probes s.world ∙ ap (λ b. (b, s.world)) z)
                ∙ ap (λ r. and_then m r (repeat m n probe body)) steps))
              (loop-Built n s₂ e₂ (shorter (rounds_left s₂.world) (rounds_left s.world) n z less h))
      ]

  abbrev from_wait : Block
  from_wait = until ("nvidia-smi" ∷ []) wait ⨟ behind_loop

  abbrev announced : Block
  announced = run ("echo" ∷ "Waiting for NVIDIA driver..." ∷ []) ⨟ from_wait

  announced-Built :
      (s : Shell m)
      → s.errexit ≡ true
      → rounds_left s.world < rounds
      → Built m builds rounds (run_block m rounds announced s)
  unfolding run_block
  announced-Built s e h =
      let s' = note m (run ("echo" ∷ "Waiting for NVIDIA driver..." ∷ [])) (true, s.world) s in
      subst (Built m builds rounds)
        (sym (
          run-succeeds m rounds _ from_wait s s.world refl
            (builds.echoes "Waiting for NVIDIA driver..." s.world)))
        (loop-Built rounds s' e h)

  script-Built :
      (w : m.World)
      → rounds_left w < rounds
      → Built m builds rounds (run_block m rounds build_llama (start m w))
  unfolding run_block
  script-Built w h =
      run-Built m builds rounds ("mkdir" ∷ "-p" ∷ "/home/ec2-user/models" ∷ []) announced
        (with_errexit m (start m w)) refl refl
        (λ t.
          announced-Built
            (note m (run ("mkdir" ∷ "-p" ∷ "/home/ec2-user/models" ∷ []))
              (true, (m.exec ("mkdir" ∷ "-p" ∷ "/home/ec2-user/models" ∷ []) w).1)
              (with_errexit m (start m w)))
            refl (smaller _ _ rounds (builds.makes_dir "/home/ec2-user/models" w) h))

-- A run of the build script ends, when the driver is ready after fewer rounds of the script's loop than
-- the run has: either with success and the server is built, whether it was built before or now, or with
-- failure. So the unit that runs the script becomes active only with a built server.
pub build-ends :
    (m : Machine) (builds : Builds m) (rounds : ℕ) (w : m.World)
    → builds.rounds_left w < rounds
    → Built m builds rounds (run_block m rounds build_llama (start m w))
build-ends m builds rounds w = script-Built m builds rounds w
