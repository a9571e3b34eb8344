-- ===== src/Shell/Machine/Ends.antt =====
-- Scripts with no loop and no `exit 0`: they run to their end or fail.
use services_modulith_infra.Base.{
  ℕ, String, ◌≡◌, refl, Bool, true, false, not, ◌&&◌, List, [], ◌∷◌, inl, inr, ◌⊎◌, Bool-cases,
  if◌then◌else◌, ◌==◌, arith,
}
use services_modulith_infra.Shell.{Command, Block, run}
use services_modulith_infra.Shell.Machine.{
  Machine, Shell, Status, running, exited, waiting, sets_errexit, note, conclude, with_errexit,
  and_then, run_command, run_block,
}

unfoldable mutual
  pub plain_command : Command → Bool
  plain_command (Command.branch test a b) = plain_block a && plain_block b
  plain_command (Command.until test body) = false
  plain_command (Command.exit code) = not (code == "0")
  plain_command _ = true

  pub plain_block : Block → Bool
  plain_block Block.done = true
  plain_block (Block.step c b) = plain_command c && plain_block b

abbrev pub Ends : Status → Type 0
Ends status = (status ≡ running) ⊎ (status ≡ exited false)

false-ne : ¬ (false ≡ true)
false-ne h = cc

module _ (m : Machine) where
  conclude-Ends : (c : Command) (r : Bool × m.World) (s : Shell m) → Ends (conclude m c r s).0
  conclude-Ends c (true, w) s = inl refl
  conclude-Ends c (false, w) s = elim (Bool-cases s.errexit) [
    | inl e ↦ rw e (inr refl)
    | inr e ↦ rw e (inl refl)
  ]

  run-Ends :
      (ws : List String) (s : Shell m)
      → Ends
          (if sets_errexit ws
            then (running, with_errexit m s)
            else conclude m (run ws) (m.exec ws s.world) s).0
  run-Ends ws s = elim (Bool-cases (sets_errexit ws)) [
    | inl e ↦ rw e (inl refl)
    | inr e ↦ rw e (conclude-Ends (run ws) (m.exec ws s.world) s)
  ]

  choice-Ends :
      (b : Bool) (r r' : Status × Shell m)
      → Ends r.0
      → Ends r'.0
      → Ends (elim b as (λ _. Status × Shell m) [ true ↦ r | false ↦ r' ]).0
  choice-Ends true r r' h h' = h
  choice-Ends false r r' h h' = h'

  and_then-Ends :
      (r : Status × Shell m) (k : Shell m → Status × Shell m)
      → Ends r.0
      → ((s : Shell m) → Ends (k s).0)
      → Ends (and_then m r k).0
  and_then-Ends (running, s) k h hk = hk s
  and_then-Ends (exited b, s) k h hk = h
  and_then-Ends (waiting, s) k h hk = h

  mutual
    unfolding run_block plain_block

    command-Ends :
        (n : ℕ) (c : Command) (s : Shell m) → plain_command c ≡ true → Ends (run_command m n c s).0
    command-Ends n (Command.run ws) s h = run-Ends ws s
    command-Ends n (Command.assign v ws) s h =
        conclude-Ends (Command.assign v ws) (m.assign v ws s.world) s
    command-Ends n (Command.pipe ws vs) s h =
        conclude-Ends (Command.pipe ws vs) (m.pipe ws vs s.world) s
    command-Ends n (Command.branch test a b) s h =
        let s' = note m (run test) (m.exec test s.world) s in
        choice-Ends (m.exec test s.world).0 (run_block m n a s') (run_block m n b s')
          (block-Ends n a s' (ground arith)) (block-Ends n b s' (ground arith))
    command-Ends n (Command.check_file path) s h =
        conclude-Ends (Command.check_file path) (m.exec ("test" ∷ "-f" ∷ path ∷ []) s.world) s
    command-Ends n (Command.until test body) s h = cc
    command-Ends n (Command.exit code) s h = elim (Bool-cases (code == "0")) [
      | inl e ↦ absurd (false-ne (rw e at h))
      | inr e ↦ rw e (inr refl)
    ]
    command-Ends n (Command.tee_script path b) s h =
        conclude-Ends (Command.tee_script path b) (m.write_script path b s.world) s
    command-Ends n (Command.tee_unit path u) s h =
        conclude-Ends (Command.tee_unit path u) (m.write_unit path u s.world) s

    -- A block with no loop and no `exit 0` runs to its end or fails.
    pub block-Ends :
        (n : ℕ) (b : Block) (s : Shell m) → plain_block b ≡ true → Ends (run_block m n b s).0
    block-Ends n Block.done s h = inl refl
    block-Ends n (Block.step c b) s h =
        and_then-Ends (run_command m n c s) (run_block m n b) (command-Ends n c s (ground arith))
          (λ s'. block-Ends n b s' (ground arith))
