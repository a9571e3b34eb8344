-- ===== src/App/Tree.antt =====
-- The construct tree: what a construct is created in.
use services_modulith_infra.Base.{
  String, ◌≡◌, refl, Bool, true, false, ◌&&◌, ◌⊎◌, inl, inr, Option, List, [], ◌∷◌, map, All,
  Before, ◌==◌, arith,
}
use services_modulith_infra.Cdk.{Handle, Cdk}
use services_modulith_infra.Cdk.Log.{created}
use services_modulith_infra.App.{app, getenv_or}
use services_modulith_infra.App.Names.{Segment, render_path}
use services_modulith_infra.App.Symbols.{before, before-Before}
use services_modulith_infra.App.Inventory.{inventory, created-app}

abbrev pub scope_of : {A : Type 0} → List A → List A
scope_of [] = []
scope_of (id ∷ scope) = scope

-- The scope is the root, or is created before.
abbrev pub IsScoped : List Handle → Handle → Type 0
IsScoped all_created h = (scope_of h ≡ []) ⊎ Before (scope_of h) h all_created

abbrev is_scoped : List (List Segment) → List Segment → Bool
is_scoped all_created (id ∷ []) = true
is_scoped all_created path = before (scope_of path) path all_created

abbrev all_scoped : List (List Segment) → List (List Segment) → Bool
all_scoped all_created [] = true
all_scoped all_created (x ∷ xs) = is_scoped all_created x && all_scoped all_created xs

is_scoped-IsScoped :
    (p : String) (all_created : List (List Segment)) (x : List Segment)
    → is_scoped all_created x ≡ true
    → IsScoped (map (render_path p) all_created) (render_path p x)
is_scoped-IsScoped p all_created [] h = inl refl
is_scoped-IsScoped p all_created (id ∷ []) h = inl refl
is_scoped-IsScoped p all_created (id ∷ scope ∷ rest) h =
    inr (before-Before p (scope ∷ rest) (id ∷ scope ∷ rest) all_created h)

all_scoped-IsScoped :
    (p : String) (all_created xs : List (List Segment))
    → all_scoped all_created xs ≡ true
    → All (IsScoped (map (render_path p) all_created)) (map (render_path p) xs)
all_scoped-IsScoped p all_created [] h = tt
all_scoped-IsScoped p all_created (x ∷ xs) h = (
  is_scoped-IsScoped p all_created x (ground arith),
  all_scoped-IsScoped p all_created xs (ground arith),
)

inventory_scoped : (dev : Bool) → all_scoped (inventory dev) (inventory dev) ≡ true
inventory_scoped true = refl
inventory_scoped false = refl

-- Under every value of ENVIRONMENT, each construct and container is created in the root or in a
-- construct that was created before it: the log builds a tree.
pub created-IsScoped :
    (cdk : Cdk) (variable : Option String)
    → let all_created = created (app cdk variable).calls in All (IsScoped all_created) all_created
created-IsScoped cdk variable =
    let p = getenv_or variable "prod" in
    let dev = p == "dev" in
    rw (created-app cdk variable dev refl)
      (all_scoped-IsScoped p (inventory dev) (inventory dev) (inventory_scoped dev))
