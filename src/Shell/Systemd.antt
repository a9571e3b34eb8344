-- ===== src/Shell/Systemd.antt =====
-- The systemd units that a script writes, and the order in which systemd starts them.
pub mod Lives
use services_modulith_infra.Base.{
  String, ◌≡◌, subst, some, List, [], ◌∷◌, In, inl, inr, ◌^^◌, ◌∙◌, sym,
}
use mathlib.Core.Option.{some-injective}
use services_modulith_infra.Base.Dict.{Dict, lookup}
use services_modulith_infra.Shell.{UnitFile, Block, done, step, tee_unit, tee_script}

-- The unit files that the commands of a block write, by their paths, those in branches left out.
abbrev pub units_written : Block → Dict UnitFile
units_written done = []
units_written (step (tee_unit path u) b) = (path, u) ∷ units_written b
units_written (step _ b) = units_written b

-- The scripts that the commands of a block write, by their paths, those in branches left out.
abbrev pub scripts_written : Block → Dict Block
scripts_written done = []
scripts_written (step (tee_script path s) b) = (path, s) ∷ scripts_written b
scripts_written (step _ b) = scripts_written b

abbrev pub unit_path : String → String
unit_path name = "/etc/systemd/system/" ^^ name

-- A unit starts after the units that it requires and stands after are active.
pub data Starts (units : Dict UnitFile) : List String → List String → Type 0 where
  starts :
      (active : List String) (name : String) (u : UnitFile)
      → lookup (unit_path name) units ≡ some u
      → ((r : String) → In r u.requires → In r u.after → In r active)
      → Starts units active (name ∷ active)

-- The units that are active, the last one started first.
pub data Booted (units : Dict UnitFile) : List String → Type 0 where
  power_on : Booted units []
  next :
      {active after : List String}
      → Booted units active
      → Starts units active after
      → Booted units after

-- In every boot, the units that an active unit requires and stands after are active.
pub Booted-closed :
    (units : Dict UnitFile) (name r : String) (u : UnitFile) {active : List String}
    → Booted units active
    → In name active
    → lookup (unit_path name) units ≡ some u
    → In r u.requires
    → In r u.after
    → In r active
Booted-closed units name r u power_on h e hr ha = absurd h
Booted-closed units name r u (next b (starts active other v ev ready)) (inl same) e hr ha =
    let e' : v ≡ u = some-injective v u (sym ev ∙ (rw (sym same) e)) in
    inr (ready r (subst (λ x. In r x.requires) (sym e') hr) (subst (λ x. In r x.after) (sym e') ha))
Booted-closed units name r u (next b (starts active other v ev ready)) (inr h) e hr ha =
    inr (Booted-closed units name r u b h e hr ha)
