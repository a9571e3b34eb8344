-- ===== src/Model/Build/Examples.antt =====
-- A machine whose driver is ready after two rounds, and a run of the build script on it.
use services_modulith_infra.Base.{
  ℕ, ◌-◌, String, ◌≡◌, refl, Bool, true, false, ◌&&◌, List, [], ◌∷◌, eqb, ◌==◌, if◌then◌else◌,
  arith, Bool-cases, inl, inr,
}
use services_modulith_infra.Shell.Machine.{Machine, run_block, start}
use services_modulith_infra.Model.Scripts.{build_llama}
use services_modulith_infra.Model.Build.{Builds, first_word}
use services_modulith_infra.Model.Build.Rebuilds.{Built}
use services_modulith_infra.Model.Build.Runs.{build-ends}

-- The rounds left, whether the server is built, and the directory.
abbrev World : Type 0
World = ℕ × Bool × String

abbrev second_word : List String → String
second_word (w ∷ ws) = first_word ws
second_word [] = String.[]

abbrev exec_other : List String → World → Bool × World
exec_other ws (left, built, dir) =
    if first_word ws == "nvidia-smi"
    then (eqb left 0, (left, built, dir))
    else (if first_word ws == "sleep"
        then (true, (left - 1, built, dir))
        else (if first_word ws == "[" then (built, (left, built, dir)) else (
          true,
          (
            left,
            (if first_word ws == "cmake" && second_word ws == "--build" then true else built),
            dir,
          ),
        )))

abbrev exec_small : List String → World → Bool × World
exec_small ws (left, built, dir) =
    if first_word ws == "cd"
    then (true, (left, built, second_word ws))
    else exec_other ws (left, built, dir)

abbrev small : Machine
small = record {
  World = World;
  exec = exec_small;
  assign = λ v ws w. (true, w);
  pipe = λ ws vs w. (true, w);
  write_script = λ path b w. (true, w);
  write_unit = λ path u w. (true, w);
}

other_stays :
    (ws : List String) (left : ℕ) (built : Bool) (dir : String)
    → (exec_other ws (left, built, dir)).1.2 ≡ dir
other_stays ws left built dir = elim (Bool-cases (first_word ws == "nvidia-smi")) [
  | inl e ↦ rw e refl
  | inr e ↦ elim (Bool-cases (first_word ws == "sleep")) [
    | inl e' ↦ rw (e, e') refl
    | inr e' ↦ elim (Bool-cases (first_word ws == "[")) [
      | inl e'' ↦ rw (e, e', e'') refl
      | inr e'' ↦ rw (e, e', e'') refl
    ]
  ]
]

small_stays :
    (ws : List String) (w : World) → (first_word ws == "cd") ≡ false → (exec_small ws w).1.2 ≡ w.2
small_stays ws (left, built, dir) h = rw h (other_stays ws left built dir)

small_builds : Builds small
small_builds = record {
  rounds_left = λ w. w.0;
  is_built = λ w. w.1;
  directory_of = λ w. w.2;
  probes = λ w. refl;
  echoes = λ text w. refl;
  makes_dir = λ dir w. omega arith;
  sleeps = λ w. ((w.0 - 1, w.1, w.2), refl, omega arith);
  tests = λ w. refl;
  enters = λ dir w h. refl;
  stays = small_stays;
  compiles = λ w d h. refl;
}

build-ends_example :
    Built small small_builds 3 (run_block small 3 build_llama (start small (2, false, "/")))
unfolding small_builds
build-ends_example = build-ends small small_builds 3 (2, false, "/") (omega arith)
