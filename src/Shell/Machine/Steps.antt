-- ===== src/Shell/Machine/Steps.antt =====
-- One step of a script, by what its first command does.
use services_modulith_infra.Base.{ℕ, suc, String, ◌≡◌, refl, ap, Bool, true, false, List}
use services_modulith_infra.Shell.{Block, run, branch, ◌⨟◌}
use services_modulith_infra.Shell.Machine.{
  Machine, Shell, Status, running, exited, sets_errexit, note, and_then, repeat, run_block,
}

module _ (m : Machine) (n : ℕ) where
  pub run-succeeds :
      (ws : List String) (b : Block) (s : Shell m) (w : m.World)
      → sets_errexit ws ≡ false
      → m.exec ws s.world ≡ (true, w)
      → run_block m n (run ws ⨟ b) s ≡ run_block m n b (note m (run ws) (true, w) s)
  unfolding run_block
  run-succeeds ws b s w h e = rw (h, e) refl

  pub run-fails :
      (ws : List String) (b : Block) (s : Shell m) (w : m.World)
      → sets_errexit ws ≡ false
      → s.errexit ≡ true
      → m.exec ws s.world ≡ (false, w)
      → run_block m n (run ws ⨟ b) s ≡ (exited false, note m (run ws) (false, w) s)
  unfolding run_block
  run-fails ws b s w h k e = rw (h, e, k) refl

  -- What a branch does with the result of its test.
  abbrev taken : List String → Block → Block → Block → Shell m → Bool × m.World → Status × Shell m
  taken test a b c s r =
      and_then m
        (elim r.0 as (λ _. Status × Shell m) [
          | true ↦ run_block m n a (note m (run test) r s)
          | false ↦ run_block m n b (note m (run test) r s)
        ])
        (run_block m n c)

  pub branch-true :
      (test : List String) (a b c : Block) (s : Shell m) (w : m.World)
      → m.exec test s.world ≡ (true, w)
      → run_block m n (branch test a b ⨟ c) s
        ≡ and_then m (run_block m n a (note m (run test) (true, w) s)) (run_block m n c)
  unfolding run_block
  branch-true test a b c s w e = ap (taken test a b c s) e

  pub branch-false :
      (test : List String) (a b c : Block) (s : Shell m) (w : m.World)
      → m.exec test s.world ≡ (false, w)
      → run_block m n (branch test a b ⨟ c) s
        ≡ and_then m (run_block m n b (note m (run test) (false, w) s)) (run_block m n c)
  unfolding run_block
  branch-false test a b c s w e = ap (taken test a b c s) e

module _ (m : Machine) (n : ℕ) (test : List String) (body : Shell m → Status × Shell m) where
  abbrev round : Shell m → Bool × m.World → Status × Shell m
  round s r = elim r.0 as (λ _. Status × Shell m) [
    | true ↦ (running, note m (run test) r s)
    | false ↦ and_then m (body (note m (run test) r s)) (repeat m n test body)
  ]

  pub repeat-true :
      (s : Shell m) (w : m.World)
      → m.exec test s.world ≡ (true, w)
      → repeat m (suc n) test body s ≡ (running, note m (run test) (true, w) s)
  unfolding repeat
  repeat-true s w e = ap (round s) e

  pub repeat-false :
      (s : Shell m) (w : m.World)
      → m.exec test s.world ≡ (false, w)
      → repeat m (suc n) test body s
        ≡ and_then m (body (note m (run test) (false, w) s)) (repeat m n test body)
  unfolding repeat
  repeat-false s w e = ap (round s) e
