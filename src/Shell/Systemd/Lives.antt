-- ===== src/Shell/Systemd/Lives.antt =====
-- Boots with the machine: what the units that become active leave on it.
use services_modulith_infra.Base.{
  ℕ, String, ◌≡◌, sym, ap, subst, ◌∙◌, true, false, Bool-cases, ◌⊎◌, inl, inr, none, some, List, [],
  ◌∷◌, In, ◌==◌, eq_iff,
}
use mathlib.Core.Bool.{false≢true}
use mathlib.Core.Option.{some-injective, none-ne-some}
use services_modulith_infra.Base.Dict.{Dict, lookup}
use services_modulith_infra.Shell.{UnitFile, Block}
use services_modulith_infra.Shell.Systemd.{unit_path, Booted, power_on, next, starts}
use services_modulith_infra.Shell.Machine.{Machine, Status, running, exited, run_block, start}
use services_modulith_infra.Shell.Machine.Keeps.{KeepsExec, KeepsBlock, block-keeps}

abbrev first_of : List String → String
first_of [] = ""
first_of (w ∷ ws) = w

-- The file that the unit starts.
abbrev pub program : UnitFile → String
program u = first_of u.exec_start

abbrev pub Succeeds : Status → Type 0
Succeeds status = (status ≡ running) ⊎ (status ≡ exited true)

-- A unit starts after the units that it requires and stands after are active. A `oneshot` unit of a
-- script is active when the script has ended with success; a `simple` one of a program when the
-- program is started.
pub data Lives (m : Machine) (rounds : ℕ) (units : Dict UnitFile) (scripts : Dict Block)
    : List String → m.World → Type 0 where
  powered : (w : m.World) → Lives m rounds units scripts [] w
  ran :
      {active : List String} {w : m.World} (name : String) (u : UnitFile) (script : Block)
      → Lives m rounds units scripts active w
      → lookup (unit_path name) units ≡ some u
      → ((r : String) → In r u.requires → In r u.after → In r active)
      → u.service_type ≡ "oneshot"
      → lookup (program u) scripts ≡ some script
      → Succeeds (run_block m rounds script (start m w)).0
      → Lives m rounds units scripts (name ∷ active) (run_block m rounds script (start m w)).1.world
  started :
      {active : List String} {w : m.World} (name : String) (u : UnitFile)
      → Lives m rounds units scripts active w
      → lookup (unit_path name) units ≡ some u
      → ((r : String) → In r u.requires → In r u.after → In r active)
      → u.service_type ≡ "simple"
      → lookup (program u) scripts ≡ none
      → Lives m rounds units scripts (name ∷ active) (m.exec u.exec_start w).1

module _ (m : Machine) (rounds : ℕ) (units : Dict UnitFile) (scripts : Dict Block) where
  pub Lives-Booted :
      {active : List String} {w : m.World}
      → Lives m rounds units scripts active w
      → Booted units active
  Lives-Booted (powered w) = power_on
  Lives-Booted (ran name u script l e ready t p ok) =
      next (Lives-Booted l) (starts _ name u e ready)
  Lives-Booted (started name u l e ready t p) = next (Lives-Booted l) (starts _ name u e ready)

  module _ (P : m.World → Type 0) (unit : String) (u : UnitFile) (script : Block) where
    -- The unit's script leaves the property when it ends with success, and the other scripts and the
    -- programs keep it.
    pub record Establishes : Type 0 where
      pub written : lookup (unit_path unit) units ≡ some u
      pub scripted : lookup (program u) scripts ≡ some script
      pub leaves :
          (w : m.World)
          → Succeeds (run_block m rounds script (start m w)).0
          → P (run_block m rounds script (start m w)).1.world
      pub scripts_keep :
          (path : String) (b : Block)
          → lookup path scripts ≡ some b
          → (path == program u) ≡ false
          → KeepsBlock m P b
      pub programs_keep :
          (name : String) (v : UnitFile)
          → lookup (unit_path name) units ≡ some v
          → lookup (program v) scripts ≡ none
          → KeepsExec m P v.exec_start

    module _ (est : Establishes) where
      same_unit :
          (name : String) (v : UnitFile)
          → lookup (unit_path name) units ≡ some v
          → unit ≡ name
          → v ≡ u
      same_unit name v e same =
          some-injective v u (sym e ∙ ap (λ n. lookup (unit_path n) units) (sym same) ∙ est.written)

      after_script :
          (active : List String) (w : m.World) (name : String) (v : UnitFile) (b : Block)
          → lookup (unit_path name) units ≡ some v
          → lookup (program v) scripts ≡ some b
          → Succeeds (run_block m rounds b (start m w)).0
          → (In unit active → P w)
          → In unit (name ∷ active)
          → P (run_block m rounds b (start m w)).1.world
      after_script active w name v b e p ok before h = elim (Bool-cases (program v == program u)) [
        | inl t ↦
            let same_program : program v ≡ program u = (eq_iff (program v) (program u)).0 t in
            let same_script : script ≡ b =
              some-injective script b
                (sym est.scripted ∙ ap (λ x. lookup x scripts) (sym same_program) ∙ p) in
            subst
              (λ c.
                Succeeds (run_block m rounds c (start m w)).0
                → P (run_block m rounds c (start m w)).1.world)
              same_script (est.leaves w) ok
        | inr f ↦ elim h [
          | inl same ↦ absurd (
              false≢true
                (sym f ∙ (eq_iff (program v) (program u)).1 (ap program (same_unit name v e same))))
          | inr h' ↦
              block-keeps m P rounds b (start m w) (est.scripts_keep (program v) b p f) (before h')
        ]
      ]

      -- While the unit is active, the property holds.
      pub Lives-kept :
          {active : List String} {w : m.World}
          → Lives m rounds units scripts active w
          → In unit active
          → P w
      Lives-kept (powered w) h = absurd h
      Lives-kept (ran name v b l e ready t p ok) h =
          after_script _ _ name v b e p ok (Lives-kept l) h
      Lives-kept (started name v l e ready t p) (inl same) = absurd (
          none-ne-some script
            (sym p ∙ ap (λ x. lookup (program x) scripts) (same_unit name v e same) ∙ est.scripted))
      Lives-kept (started name v l e ready t p) (inr h) =
          est.programs_keep name v e p _ (Lives-kept l h)
