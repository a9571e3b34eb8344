-- ===== src/Shell/Machine/Keeps.antt =====
-- What a script keeps: a property of the machine that each of its commands keeps.
use services_modulith_infra.Base.{
  ℕ, zero, suc, String, Bool, true, false, List, [], ◌∷◌, Bool-cases, inl, inr, if◌then◌else◌,
}
use services_modulith_infra.Shell.{Command, Block, run}
use services_modulith_infra.Shell.Machine.{
  Machine, Shell, Status, running, exited, waiting, sets_errexit, note, conclude, with_errexit,
  and_then, repeat, run_command, run_block,
}

module _ (m : Machine) (P : m.World → Type 0) where
  abbrev pub KeepsExec : List String → Type 0
  KeepsExec ws = (w : m.World) → P w → P (m.exec ws w).1

  unfoldable mutual
    pub KeepsCommand : Command → Type 0
    KeepsCommand (Command.run ws) = KeepsExec ws
    KeepsCommand (Command.assign v ws) = (w : m.World) → P w → P (m.assign v ws w).1
    KeepsCommand (Command.pipe ws vs) = (w : m.World) → P w → P (m.pipe ws vs w).1
    KeepsCommand (Command.branch test a b) = KeepsExec test × KeepsBlock a × KeepsBlock b
    KeepsCommand (Command.check_file path) = KeepsExec ("test" ∷ "-f" ∷ path ∷ [])
    KeepsCommand (Command.until test body) = KeepsExec test × KeepsBlock body
    KeepsCommand (Command.exit code) = Unit
    KeepsCommand (Command.tee_script path b) = (w : m.World) → P w → P (m.write_script path b w).1
    KeepsCommand (Command.tee_unit path u) = (w : m.World) → P w → P (m.write_unit path u w).1

    pub KeepsBlock : Block → Type 0
    KeepsBlock Block.done = Unit
    KeepsBlock (Block.step c b) = KeepsCommand c × KeepsBlock b

  run-keeps :
      (ws : List String) (s : Shell m)
      → KeepsExec ws
      → P s.world
      → P
          (if sets_errexit ws
            then (running, with_errexit m s)
            else conclude m (run ws) (m.exec ws s.world) s).1.world
  run-keeps ws s k h = elim (Bool-cases (sets_errexit ws)) [
    | inl e ↦ rw e h
    | inr e ↦ rw e (k s.world h)
  ]

  choice-keeps :
      (b : Bool) (r r' : Status × Shell m)
      → P r.1.world
      → P r'.1.world
      → P (elim b as (λ _. Status × Shell m) [ true ↦ r | false ↦ r' ]).1.world
  choice-keeps true r r' h h' = h
  choice-keeps false r r' h h' = h'

  and_then-keeps :
      (r : Status × Shell m) (k : Shell m → Status × Shell m)
      → P r.1.world
      → ((s : Shell m) → P s.world → P (k s).1.world)
      → P (and_then m r k).1.world
  and_then-keeps (running, s) k h hk = hk s h
  and_then-keeps (exited b, s) k h hk = h
  and_then-keeps (waiting, s) k h hk = h

  repeat-keeps :
      (n : ℕ) (test : List String) (body : Shell m → Status × Shell m) (s : Shell m)
      → KeepsExec test
      → ((s' : Shell m) → P s'.world → P (body s').1.world)
      → P s.world
      → P (repeat m n test body s).1.world
  unfolding repeat
  repeat-keeps zero test body s kt kb h = h
  repeat-keeps (suc n) test body s kt kb h =
      let s' = note m (run test) (m.exec test s.world) s in
      choice-keeps (m.exec test s.world).0 (running, s')
        (and_then m (body s') (repeat m n test body)) (kt s.world h)
        (and_then-keeps (body s') (repeat m n test body) (kb s' (kt s.world h))
          (λ s₂ h₂. repeat-keeps n test body s₂ kt kb h₂))

  mutual
    unfolding run_block KeepsBlock

    command-keeps :
        (n : ℕ) (c : Command) (s : Shell m)
        → KeepsCommand c
        → P s.world
        → P (run_command m n c s).1.world
    command-keeps n (Command.run ws) s k h = run-keeps ws s k h
    command-keeps n (Command.assign v ws) s k h = k s.world h
    command-keeps n (Command.pipe ws vs) s k h = k s.world h
    command-keeps n (Command.branch test a b) s k h =
        let s' = note m (run test) (m.exec test s.world) s in
        choice-keeps (m.exec test s.world).0 (run_block m n a s') (run_block m n b s')
          (block-keeps n a s' k.1 (k.0 s.world h)) (block-keeps n b s' k.2 (k.0 s.world h))
    command-keeps n (Command.check_file path) s k h = k s.world h
    command-keeps n (Command.until test body) s k h =
        repeat-keeps n test (run_block m n body) s k.0 (λ s' h'. block-keeps n body s' k.1 h') h
    command-keeps n (Command.exit code) s k h = h
    command-keeps n (Command.tee_script path b) s k h = k s.world h
    command-keeps n (Command.tee_unit path u) s k h = k s.world h

    -- A run of the block keeps what each of its commands keeps.
    pub block-keeps :
        (n : ℕ) (b : Block) (s : Shell m) → KeepsBlock b → P s.world → P (run_block m n b s).1.world
    block-keeps n Block.done s k h = h
    block-keeps n (Block.step c b) s k h =
        and_then-keeps (run_command m n c s) (run_block m n b) (command-keeps n c s k.0 h)
          (λ s' h'. block-keeps n b s' k.1 h')
