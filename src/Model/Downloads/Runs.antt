-- ===== src/Model/Downloads/Runs.antt =====
-- The runs of the download scripts: a model that is there is not fetched again.
use services_modulith_infra.Base.{
  ℕ, String, ◌≡◌, refl, sym, subst, ◌∙◌, ap, Bool, true, false, not, ◌⊎◌, inl, inr, List, [], ◌∷◌,
  In, Bool-cases,
}
use services_modulith_infra.Shell.{Block, run, branch, done, ◌⨟◌}
use services_modulith_infra.Shell.Machine.{
  Machine, Shell, Status, running, exited, run_block, start, note, with_errexit, and_then,
}
use services_modulith_infra.Shell.Machine.Steps.{run-succeeds, run-fails, branch-true, branch-false}
use services_modulith_infra.Model.Downloads.{
  Download, path_of, fetch, llama, nomic, downloads, script_of, Files,
}

module _ (m : Machine) (files : Files m) (rounds : ℕ) (d : Download) where
  open files use {has_file}

  -- The shell behind `set -euo pipefail`.
  abbrev begun : m.World → Shell m
  begun w = with_errexit m (start m w)

  abbrev made : m.World → m.World
  made w = (m.exec ("mkdir" ∷ "-p" ∷ d.dir ∷ []) w).1

  abbrev after_mkdir : m.World → Shell m
  after_mkdir w = note m (run ("mkdir" ∷ "-p" ∷ d.dir ∷ [])) (true, made w) (begun w)

  abbrev test : List String
  test = "[" ∷ "!" ∷ "-f" ∷ path_of d ∷ "]" ∷ []

  abbrev fetching : Block
  fetching = run ("echo" ∷ d.missing ∷ []) ⨟ run (fetch d) ⨟ done

  abbrev skipping : Block
  skipping = run ("echo" ∷ d.existing ∷ []) ⨟ done

  abbrev body : Block
  body = branch test fetching skipping ⨟ done

  abbrev after_test : Bool → m.World → Shell m
  after_test missing w = note m (run test) (missing, made w) (after_mkdir w)

  abbrev after_echo : Bool → String → m.World → Shell m
  after_echo missing text w =
      note m (run ("echo" ∷ text ∷ [])) (true, made w) (after_test missing w)

  -- The script when `mkdir` fails.
  script-no_dir :
      (w : m.World)
      → (m.exec ("mkdir" ∷ "-p" ∷ d.dir ∷ []) w).0 ≡ false
      → run_block m rounds (script_of d) (start m w)
        ≡ (exited false, note m (run ("mkdir" ∷ "-p" ∷ d.dir ∷ [])) (false, made w) (begun w))
  unfolding run_block
  script-no_dir w e =
      run-fails m rounds ("mkdir" ∷ "-p" ∷ d.dir ∷ []) body (begun w) (made w) refl refl
        (ap (λ b. (b, made w)) e)

  -- The script when the file is there.
  script-present :
      (w : m.World)
      → (m.exec ("mkdir" ∷ "-p" ∷ d.dir ∷ []) w).0 ≡ true
      → has_file (path_of d) w ≡ true
      → run_block m rounds (script_of d) (start m w) ≡ (running, after_echo false d.existing w)
  unfolding run_block
  script-present w e h =
      run-succeeds m rounds ("mkdir" ∷ "-p" ∷ d.dir ∷ []) body (begun w) (made w) refl
        (ap (λ b. (b, made w)) e)
      ∙ branch-false m rounds test fetching skipping done (after_mkdir w) (made w) (
          files.tests (path_of d) (made w)
          ∙ ap (λ b. (not b, made w)) (files.makes_dir d.dir (path_of d) w ∙ h))
      ∙ ap (λ r. and_then m r (run_block m rounds done))
          (run-succeeds m rounds ("echo" ∷ d.existing ∷ []) done (after_test false w) (made w) refl
            (files.echoes d.existing (made w)))

  -- The script up to the download, when the file is not there.
  script-missing :
      (w : m.World)
      → (m.exec ("mkdir" ∷ "-p" ∷ d.dir ∷ []) w).0 ≡ true
      → has_file (path_of d) w ≡ false
      → run_block m rounds (script_of d) (start m w)
        ≡ and_then m
            (run_block m rounds (run (fetch d) ⨟ done) (after_echo true d.missing w))
            (run_block m rounds done)
  unfolding run_block
  script-missing w e h =
      run-succeeds m rounds ("mkdir" ∷ "-p" ∷ d.dir ∷ []) body (begun w) (made w) refl
        (ap (λ b. (b, made w)) e)
      ∙ branch-true m rounds test fetching skipping done (after_mkdir w) (made w) (
          files.tests (path_of d) (made w)
          ∙ ap (λ b. (not b, made w)) (files.makes_dir d.dir (path_of d) w ∙ h))
      ∙ ap (λ r. and_then m r (run_block m rounds done))
          (run-succeeds m rounds ("echo" ∷ d.missing ∷ []) (run (fetch d) ⨟ done)
            (after_test true w) (made w) refl (files.echoes d.missing (made w)))

  abbrev pub Fetched : Status × Shell m → Type 0
  Fetched (status, s) =
      ((status ≡ running) × (has_file (path_of d) s.world ≡ true)) ⊎ (status ≡ exited false)

  fetch-Fetched :
      (s : Shell m)
      → s.errexit ≡ true
      → Fetched (and_then m (run_block m rounds (run (fetch d) ⨟ done) s) (run_block m rounds done))
  unfolding run_block
  fetch-Fetched s k =
      let got = m.exec (fetch d) s.world in
      elim (Bool-cases got.0) [
        | inl e ↦
            subst (λ r. Fetched (and_then m r (run_block m rounds done)))
              (sym (run-succeeds m rounds (fetch d) done s got.1 refl (ap (λ b. (b, got.1)) e)))
              (inl (refl, files.fetches d s.world e))
        | inr e ↦
            subst (λ r. Fetched (and_then m r (run_block m rounds done)))
              (sym (run-fails m rounds (fetch d) done s got.1 refl k (ap (λ b. (b, got.1)) e)))
              (inr refl)
      ]

  script-Fetched : (w : m.World) → Fetched (run_block m rounds (script_of d) (start m w))
  script-Fetched w = elim (Bool-cases (m.exec ("mkdir" ∷ "-p" ∷ d.dir ∷ []) w).0) [
    | inr e ↦ subst Fetched (sym (script-no_dir w e)) (inr refl)
    | inl e ↦ elim (Bool-cases (has_file (path_of d) w)) [
      | inl h ↦
          subst Fetched (sym (script-present w e h))
            (inl (refl, files.makes_dir d.dir (path_of d) w ∙ h))
      | inr h ↦
          subst Fetched (sym (script-missing w e h))
            (fetch-Fetched (after_echo true d.missing w) refl)
    ]
  ]

  -- The run ends, the file is still there and the download was not made.
  abbrev pub Skipped : Status × Shell m → Type 0
  Skipped (status, s) =
      ((status ≡ running) ⊎ (status ≡ exited false))
      × (has_file (path_of d) s.world ≡ true)
      × ((success : Bool) → ¬ In (run (fetch d), success) s.trace)

  script-Skipped :
      (w : m.World)
      → has_file (path_of d) w ≡ true
      → Skipped (run_block m rounds (script_of d) (start m w))
  script-Skipped w h =
      let kept = files.makes_dir d.dir (path_of d) w ∙ h in
      elim (Bool-cases (m.exec ("mkdir" ∷ "-p" ∷ d.dir ∷ []) w).0) [
        | inr e ↦
            subst Skipped (sym (script-no_dir w e))
              (inr refl, kept, λ b i. elim i [ inl p ↦ cc | inr q ↦ absurd q ])
        | inl e ↦ subst Skipped (sym (script-present w e h)) (
          inl refl,
          kept,
          λ b i. elim i [
            | inl p ↦ cc
            | inr (inl p) ↦ cc
            | inr (inr (inl p)) ↦ cc
            | inr (inr (inr q)) ↦ absurd q
          ],
        )
      ]

-- What holds of the two descriptions holds of the two scripts.
each_script :
    (P : Block → Download → Type 0)
    → P (script_of llama) llama
    → P (script_of nomic) nomic
    → (script : Block) (d : Download) → In (script, d) downloads
    → P script d
each_script P l n script d (inl e) = subst (λ p. P p.0 p.1) (sym e) l
each_script P l n script d (inr (inl e)) = subst (λ p. P p.0 p.1) (sym e) n
each_script P l n script d (inr (inr h)) = absurd h

-- A run of a download script ends, on a machine with POSIX file tests: either it reaches its end and the
-- model's file is there, or it fails. So a unit that runs the script becomes active only with the file.
pub download-ends :
    (m : Machine) (files : Files m) (rounds : ℕ) (script : Block) (d : Download) (w : m.World)
    → In (script, d) downloads
    → Fetched m files rounds d (run_block m rounds script (start m w))
download-ends m files rounds script d w =
    each_script (λ b e. Fetched m files rounds e (run_block m rounds b (start m w)))
      (script-Fetched m files rounds llama w) (script-Fetched m files rounds nomic w) script d

-- When the model's file is there, a run of its script ends without a download, and the file stays: a
-- reboot does not fetch the model again.
pub download-skips :
    (m : Machine) (files : Files m) (rounds : ℕ) (script : Block) (d : Download) (w : m.World)
    → In (script, d) downloads
    → files.has_file (path_of d) w ≡ true
    → Skipped m files rounds d (run_block m rounds script (start m w))
download-skips m files rounds script d w i h =
    each_script
      (λ b e.
        files.has_file (path_of e) w ≡ true
        → Skipped m files rounds e (run_block m rounds b (start m w)))
      (script-Skipped m files rounds llama w) (script-Skipped m files rounds nomic w) script d i h
