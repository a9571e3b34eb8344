-- ===== src/Model/Build.antt =====
-- What the build script of ai_model_stack.py asks of the machine.
pub mod Rebuilds
pub mod Runs
mod Examples
use services_modulith_infra.Base.{
  ℕ, ◌≤◌, ◌-◌, String, ◌≡◌, Bool, true, false, List, [], ◌∷◌, words, eqb, ◌==◌,
}
use services_modulith_infra.Shell.Machine.{Machine}

abbrev pub server : String
server = "/home/ec2-user/llama.cpp/build/bin/llama-server"

abbrev pub directory : String
directory = "/home/ec2-user/llama.cpp"

abbrev pub first_word : List String → String
first_word [] = String.[]
first_word (w ∷ ws) = w

-- The driver is ready after at most so many more rounds of the loop, the file test and `cd` are those of POSIX,
-- no other command changes the directory, and a build that succeeds there leaves the server.
pub record Builds (m : Machine) : Type 0 where
  pub rounds_left : m.World → ℕ
  pub is_built : m.World → Bool
  pub directory_of : m.World → String
  pub probes : (w : m.World) → m.exec ("nvidia-smi" ∷ []) w ≡ (eqb (rounds_left w) 0, w)
  pub echoes : (text : String) (w : m.World) → m.exec ("echo" ∷ text ∷ []) w ≡ (true, w)
  pub makes_dir :
      (dir : String) (w : m.World)
      → rounds_left (m.exec ("mkdir" ∷ "-p" ∷ dir ∷ []) w).1 ≤ rounds_left w
  pub sleeps :
      (w : m.World)
      → (w' : m.World) × (m.exec ("sleep" ∷ "5" ∷ []) w ≡ (true, w'))
        × (rounds_left w' ≤ rounds_left w - 1)
  pub tests : (w : m.World) → m.exec ("[" ∷ "-x" ∷ server ∷ "]" ∷ []) w ≡ (is_built w, w)
  pub enters :
      (dir : String) (w : m.World)
      → (m.exec ("cd" ∷ dir ∷ []) w).0 ≡ true
      → directory_of (m.exec ("cd" ∷ dir ∷ []) w).1 ≡ dir
  pub stays :
      (ws : List String) (w : m.World)
      → (first_word ws == "cd") ≡ false
      → directory_of (m.exec ws w).1 ≡ directory_of w
  pub compiles :
      (w : m.World)
      → directory_of w ≡ directory
      → let r = m.exec (words "cmake --build build --config Release -j$(nproc)") w in
        r.0 ≡ true → is_built r.1 ≡ true
