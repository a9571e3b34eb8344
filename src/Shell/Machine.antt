-- ===== src/Shell/Machine.antt =====
-- How the shell runs a script: the commands in order, `set -e`, tests, loops and `exit`. What a command
-- does is a parameter.
pub mod Errexit
pub mod Ends
pub mod Steps
pub mod Keeps
use services_modulith_infra.Base.{
  ℕ, zero, suc, String, Bool, true, false, ◌||◌, ◌&&◌, List, [], ◌∷◌, ◌++◌, ◌==◌, if◌then◌else◌,
}
use services_modulith_infra.Shell.{UnitFile, Command, Block, run, check_file}

-- The programs and the file system: does a command succeed, and what does it leave?
pub record Machine : Type 1 where
  pub World : Type 0
  pub exec : List String → World → Bool × World
  -- `VAR=$(…)`
  pub assign : String → List String → World → Bool × World
  -- `a | b`
  pub pipe : List String → List String → World → Bool × World
  -- `sudo tee path`, with a script or a unit file
  pub write_script : String → Block → World → Bool × World
  pub write_unit : String → UnitFile → World → Bool × World

-- `errexit` says whether `set -e` was given; the trace has the commands run and tests made so far, in
-- order, with their success.
pub record Shell (m : Machine) : Type 0 where
  pub world : m.World
  pub errexit : Bool
  pub trace : List (Command × Bool)

-- `waiting` when the rounds of a loop are used up.
pub data Status : Type 0 where
  running : Status
  exited : (success : Bool) → Status
  waiting : Status

-- `set -e`, `set -euo pipefail`
abbrev pub sets_errexit : List String → Bool
sets_errexit (w ∷ flags ∷ ws) = w == "set" && (flags == "-e" || flags == "-euo")
sets_errexit _ = false

module _ (m : Machine) where
  open m use {World, exec}

  abbrev pub note : Command → Bool × World → Shell m → Shell m
  note c (success, w) s = record {
    world = w;
    errexit = s.errexit;
    trace = s.trace ++ (c, success) ∷ [];
  }

  -- A command that fails ends the script under `set -e`.
  abbrev pub conclude : Command → Bool × World → Shell m → Status × Shell m
  conclude c (success, w) s = (
    if success then running else (if s.errexit then exited false else running),
    note c (success, w) s,
  )

  abbrev pub with_errexit : Shell m → Shell m
  with_errexit s = record { world = s.world; errexit = true; trace = s.trace }

  abbrev pub and_then : Status × Shell m → (Shell m → Status × Shell m) → Status × Shell m
  and_then (running, s) k = k s
  and_then (exited success, s) k = (exited success, s)
  and_then (waiting, s) k = (waiting, s)

  -- At most so many rounds of `until test; do body; done`.
  unfoldable pub repeat :
      ℕ → List String → (Shell m → Status × Shell m) → Shell m → Status × Shell m
  repeat zero test body s = (waiting, s)
  repeat (suc n) test body s =
      let s' = note (run test) (exec test s.world) s in
      elim (exec test s.world).0 [
        | true ↦ (running, s')
        | false ↦ and_then (body s') (repeat n test body)
      ]

  unfoldable mutual
    unfolding repeat

    pub run_command : ℕ → Command → Shell m → Status × Shell m
    run_command n (Command.run ws) s =
        if sets_errexit ws then (running, with_errexit s) else conclude (run ws) (exec ws s.world) s
    run_command n (Command.assign v ws) s = conclude (Command.assign v ws) (m.assign v ws s.world) s
    run_command n (Command.pipe ws vs) s = conclude (Command.pipe ws vs) (m.pipe ws vs s.world) s
    run_command n (Command.branch test a b) s =
        let s' = note (run test) (exec test s.world) s in
        elim (exec test s.world).0 [ true ↦ run_block n a s' | false ↦ run_block n b s' ]
    run_command n (Command.check_file path) s =
        conclude (check_file path) (exec ("test" ∷ "-f" ∷ path ∷ []) s.world) s
    run_command n (Command.until test body) s = repeat n test (run_block n body) s
    run_command n (Command.exit code) s = (exited (code == "0"), s)
    run_command n (Command.tee_script path b) s =
        conclude (Command.tee_script path b) (m.write_script path b s.world) s
    run_command n (Command.tee_unit path u) s =
        conclude (Command.tee_unit path u) (m.write_unit path u s.world) s

    pub run_block : ℕ → Block → Shell m → Status × Shell m
    run_block n Block.done s = (running, s)
    run_block n (Block.step c b) s = and_then (run_command n c s) (run_block n b)

  -- A script starts without `set -e`.
  abbrev pub start : World → Shell m
  start w = record { world = w; errexit = false; trace = [] }
