-- ===== src/Shell/Machine/Errexit.antt =====
-- What `set -e` promises of a script that runs to its end.
use services_modulith_infra.Base.{
  ℕ, zero, suc, String, ◌≡◌, refl, Bool, true, false, List, [], ◌∷◌, ◌++◌, All, In, inl, inr,
  In-append_right, Bool-cases, if◌then◌else◌, not,
}
use services_modulith_infra.Shell.{Command, Block, run}
use services_modulith_infra.Shell.Machine.{
  Machine, Shell, Status, running, exited, waiting, sets_errexit, note, conclude, with_errexit,
  and_then, repeat, run_command, run_block,
}

In-append_left : {A : Type 0} (a : A) (xs ys : List A) → In a xs → In a (xs ++ ys)
In-append_left a [] ys h = absurd h
In-append_left a (x ∷ xs) ys (inl e) = inl e
In-append_left a (x ∷ xs) ys (inr h) = inr (In-append_left a xs ys h)

module _ (m : Machine) where
  -- The trace is kept, and so is `set -e`.
  pub record Grows (s s' : Shell m) : Type 0 where
    pub keeps_errexit : s.errexit ≡ true → s'.errexit ≡ true
    pub keeps_trace : (x : Command × Bool) → In x s.trace → In x s'.trace

  Grows-refl : (s : Shell m) → Grows s s
  Grows-refl s = record { keeps_errexit = λ h. h; keeps_trace = λ x h. h }

  Grows-trans : {s t u : Shell m} → Grows s t → Grows t u → Grows s u
  Grows-trans g h = record {
    keeps_errexit = λ e. h.keeps_errexit (g.keeps_errexit e);
    keeps_trace = λ x i. h.keeps_trace x (g.keeps_trace x i);
  }

  note-Grows : (c : Command) (r : Bool × m.World) (s : Shell m) → Grows s (note m c r s)
  note-Grows c r s = record {
    keeps_errexit = λ h. h;
    keeps_trace = λ x h. In-append_left x s.trace ((c, r.0) ∷ []) h;
  }

  with_errexit-Grows : (s : Shell m) → Grows s (with_errexit m s)
  with_errexit-Grows s = record { keeps_errexit = λ h. refl; keeps_trace = λ x h. h }

  abbrev Steps : Type 0
  Steps = Shell m → Status × Shell m

  abbrev AllGrow : Steps → Type 0
  AllGrow f = (s : Shell m) → Grows s (f s).1

  and_then-Grows : (r : Status × Shell m) (k : Steps) → AllGrow k → Grows r.1 (and_then m r k).1
  and_then-Grows (running, s) k h = h s
  and_then-Grows (exited b, s) k h = Grows-refl s
  and_then-Grows (waiting, s) k h = Grows-refl s

  choice-Grows :
      (s : Shell m) (b : Bool) (r r' : Status × Shell m)
      → Grows s r.1
      → Grows s r'.1
      → Grows s (elim b as (λ _. Status × Shell m) [ true ↦ r | false ↦ r' ]).1
  choice-Grows s true r r' h h' = h
  choice-Grows s false r r' h h' = h'

  repeat-Grows :
      (n : ℕ) (test : List String) (body : Steps) → AllGrow body → AllGrow (repeat m n test body)
  unfolding repeat
  repeat-Grows zero test body h s = Grows-refl s
  repeat-Grows (suc n) test body h s =
      let s' = note m (run test) (m.exec test s.world) s in
      let g = note-Grows (run test) (m.exec test s.world) s in
      choice-Grows s (m.exec test s.world).0 (running, s')
        (and_then m (body s') (repeat m n test body)) g
        (Grows-trans g (
          Grows-trans (h s')
            (and_then-Grows (body s') (repeat m n test body) (repeat-Grows n test body h))))

  set-Grows :
      (ws : List String) (s : Shell m)
      → Grows s
          (if sets_errexit ws
            then (running, with_errexit m s)
            else conclude m (run ws) (m.exec ws s.world) s).1
  set-Grows ws s = elim (Bool-cases (sets_errexit ws)) [
    | inl e ↦ rw e (with_errexit-Grows s)
    | inr e ↦ rw e (note-Grows (run ws) (m.exec ws s.world) s)
  ]

  mutual
    unfolding run_block

    command-Grows : (n : ℕ) (c : Command) → AllGrow (run_command m n c)
    command-Grows n (Command.run ws) s = set-Grows ws s
    command-Grows n (Command.assign v ws) s = note-Grows _ _ s
    command-Grows n (Command.pipe ws vs) s = note-Grows _ _ s
    command-Grows n (Command.branch test a b) s =
        let s' = note m (run test) (m.exec test s.world) s in
        let g = note-Grows (run test) (m.exec test s.world) s in
        choice-Grows s (m.exec test s.world).0 (run_block m n a s') (run_block m n b s')
          (Grows-trans g (block-Grows n a s')) (Grows-trans g (block-Grows n b s'))
    command-Grows n (Command.check_file path) s = note-Grows _ _ s
    command-Grows n (Command.until test body) s =
        repeat-Grows n test (run_block m n body) (block-Grows n body) s
    command-Grows n (Command.exit code) s = Grows-refl s
    command-Grows n (Command.tee_script path b) s = note-Grows _ _ s
    command-Grows n (Command.tee_unit path u) s = note-Grows _ _ s

    pub block-Grows : (n : ℕ) (b : Block) → AllGrow (run_block m n b)
    block-Grows n Block.done s = Grows-refl s
    block-Grows n (Block.step c b) s =
        Grows-trans (command-Grows n c s)
          (and_then-Grows (run_command m n c s) (run_block m n b) (block-Grows n b))

exited-ne : ¬ (exited false ≡ running)
exited-ne h = cc

false-ne : ¬ (false ≡ true)
false-ne h = cc

-- A command that is noted in the trace by itself.
abbrev pub is_simple : Command → Bool
is_simple (Command.run ws) = not (sets_errexit ws)
is_simple (Command.branch test a b) = false
is_simple (Command.until test body) = false
is_simple (Command.exit code) = false
is_simple _ = true

-- The commands that stand in no branch and no loop.
abbrev pub straight : Block → List Command
straight Block.done = []
straight (Block.step c b) = let rest = straight b in if is_simple c then c ∷ rest else rest

module _ (m : Machine) where
  conclude-running :
      (c : Command) (r : Bool × m.World) (s : Shell m)
      → s.errexit ≡ true
      → (conclude m c r s).0 ≡ running
      → In (c, true) (conclude m c r s).1.trace
  conclude-running c (true, w) s e h = In-append_right (c, true) s.trace _ (inl refl)
  conclude-running c (false, w) s e h = absurd (exited-ne (rw e at h))

  simple-running :
      (n : ℕ) (c : Command) (s : Shell m)
      → is_simple c ≡ true
      → s.errexit ≡ true
      → (run_command m n c s).0 ≡ running
      → In (c, true) (run_command m n c s).1.trace
  unfolding run_command
  simple-running n (Command.run ws) s i e h = elim (Bool-cases (sets_errexit ws)) [
    | inl set ↦ absurd (false-ne (rw set at i))
    | inr set ↦ rw set (conclude-running (run ws) (m.exec ws s.world) s e (rw set at h))
  ]
  simple-running n (Command.assign v ws) s i e h =
      conclude-running (Command.assign v ws) (m.assign v ws s.world) s e h
  simple-running n (Command.pipe ws vs) s i e h =
      conclude-running (Command.pipe ws vs) (m.pipe ws vs s.world) s e h
  simple-running n (Command.branch test a b) s i e h = cc
  simple-running n (Command.check_file path) s i e h =
      conclude-running (Command.check_file path) (m.exec ("test" ∷ "-f" ∷ path ∷ []) s.world) s e h
  simple-running n (Command.until test body) s i e h = cc
  simple-running n (Command.exit code) s i e h = cc
  simple-running n (Command.tee_script path b) s i e h =
      conclude-running (Command.tee_script path b) (m.write_script path b s.world) s e h
  simple-running n (Command.tee_unit path u) s i e h =
      conclude-running (Command.tee_unit path u) (m.write_unit path u s.world) s e h

  and_then-running :
      (r : Status × Shell m) (k : Shell m → Status × Shell m)
      → (and_then m r k).0 ≡ running
      → (r.0 ≡ running) × (and_then m r k ≡ k r.1)
  and_then-running (running, s) k h = (refl, refl)
  and_then-running (exited b, s) k h = cc
  and_then-running (waiting, s) k h = cc

  -- Under `set -e`, when a block is run to its end, the commands that stand in no branch and no loop
  -- have been run with success.
  pub run_block-succeeds :
      (n : ℕ) (b : Block) (s : Shell m)
      → s.errexit ≡ true
      → (run_block m n b s).0 ≡ running
      → All (λ c. In (c, true) (run_block m n b s).1.trace) (straight b)
  unfolding run_block
  run_block-succeeds n Block.done s e h = tt
  run_block-succeeds n (Block.step c b) s e h =
      let s₁ = (run_command m n c s).1 in
      let (ran, same) = and_then-running (run_command m n c s) (run_block m n b) h in
      let rest =
        run_block-succeeds n b s₁ ((command-Grows m n c s).keeps_errexit e) (rw same at h) in
      rw same (elim (Bool-cases (is_simple c)) [
        | inl i ↦
            rw i ((block-Grows m n b s₁).keeps_trace (c, true) (simple-running n c s i e ran), rest)
        | inr i ↦ rw i rest
      ])
