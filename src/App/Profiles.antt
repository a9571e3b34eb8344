-- ===== src/App/Profiles.antt =====
-- The applications of two values of ENVIRONMENT, compared by the symbols of their ids.
use services_modulith_infra.Base.{
  String, ◌≡◌, refl, ◌⊎◌, inl, inr, Bool, true, false, ◌&&◌, Option, List, [], ◌∷◌, ◌++◌, map, all,
  All, In, Bool-cases, ◌==◌, arith,
}
use services_modulith_infra.Cdk.{Cdk}
use services_modulith_infra.App.{app}
use services_modulith_infra.Cdk.Log.{created, dependencies}
use services_modulith_infra.App.Names.{Segment, render_path, differ_path, differ_all-not_In}
use services_modulith_infra.App.Symbols.{
  Edge, render_edge, listed, listed-In, has_edge, has_edge-In,
}
use services_modulith_infra.App.Inventory.{inventory, dev_only, created-app}
use services_modulith_infra.App.Order.{profile, edges, dependencies-app}

abbrev all_listed : List (List Segment) → List (List Segment) → Bool
all_listed xs [] = true
all_listed xs (h ∷ hs) = listed h xs && all_listed xs hs

all_listed-In :
    (p : String) (xs hs : List (List Segment))
    → all_listed xs hs ≡ true
    → All (λ h. In (render_path p h) (map (render_path p) xs)) hs
all_listed-In p xs [] e = tt
all_listed-In p xs (h ∷ hs) e =
    (listed-In p h xs (ground arith), all_listed-In p xs hs (ground arith))

all_listed-map :
    (p : String) (xs hs : List (List Segment))
    → all_listed xs hs ≡ true
    → All (λ h. In h (map (render_path p) xs)) (map (render_path p) hs)
all_listed-map p xs [] e = tt
all_listed-map p xs (h ∷ hs) e =
    (listed-In p h xs (ground arith), all_listed-map p xs hs (ground arith))

-- Every path stands in the second list and, under every profile, not in the first.
abbrev all_apart : (one other : List (List Segment)) → List (List Segment) → Bool
all_apart one other [] = true
all_apart one other (h ∷ hs) = (all (differ_path h) one && listed h other) && all_apart one other hs

all_apart-All :
    (p q : String) (one other hs : List (List Segment))
    → all_apart one other hs ≡ true
    → All
        (λ h.
          In (render_path q h) (map (render_path q) other)
          × ¬ In (render_path p h) (map (render_path p) one))
        hs
all_apart-All p q one other [] e = tt
all_apart-All p q one other (h ∷ hs) e = (
  (listed-In q h other (ground arith), differ_all-not_In p h one (ground arith)),
  all_apart-All p q one other hs (ground arith),
)

abbrev all_edges : List Edge → List Edge → Bool
all_edges es [] = true
all_edges es ((a, b) ∷ ds) = has_edge a b es && all_edges es ds

all_edges-In :
    (p : String) (es ds : List Edge)
    → all_edges es ds ≡ true
    → All (λ e. In (render_edge p e) (map (render_edge p) es)) ds
all_edges-In p es [] e = tt
all_edges-In p es ((a, b) ∷ ds) e =
    (has_edge-In p a b es (ground arith), all_edges-In p es ds (ground arith))

inventories : (dev : Bool) → all_listed (inventory dev) (inventory false) ≡ true
inventories true = refl
inventories false = refl

all_edges-edges : (dev : Bool) → all_edges (edges dev) (edges false) ≡ true
all_edges-edges true = refl
all_edges-edges false = refl

-- An application that is not for dev has the constructs and the dependencies of a template, in which the
-- name of the profile is left open: ids are fixed texts or the profile's name and a suffix. With its
-- own name in the template, every other application has them too, and no others unless it is for dev. One for
-- dev has also the constructs of the cache's inspection and of Mongo Express, which the first has not,
-- and no others.
pub profiles_agree :
    (cdk : Cdk) (first second : Option String)
    → (profile first == "dev") ≡ false
    → let one = (app cdk first).calls in
      let other = (app cdk second).calls in
      (template : List (List Segment)) × (ends : List Edge) × (created one
        ≡ map (render_path (profile first)) template)
      × (dependencies one ≡ map (render_edge (profile first)) ends)
      × All (λ h. In (render_path (profile second) h) (created other)) template
      × All (λ e. In (render_edge (profile second) e) (dependencies other)) ends
      × ((((profile second == "dev") ≡ true)
            × All
                (λ h.
                  In (render_path (profile second) h) (created other)
                  × ¬ In (render_path (profile first) h) (created one))
                dev_only
            × All
                (λ h. In h (map (render_path (profile second)) (template ++ dev_only)))
                (created other))
          ⊎ ((created other ≡ map (render_path (profile second)) template)
              × (dependencies other ≡ map (render_edge (profile second)) ends)))
profiles_agree cdk first second e =
    let dev = profile second == "dev" in
    let q = profile second in
    (
      inventory false,
      edges false,
      created-app cdk first false e,
      dependencies-app cdk first false e,
      rw (created-app cdk second dev refl)
          (all_listed-In q (inventory dev) (inventory false) (inventories dev)),
      rw (dependencies-app cdk second dev refl)
          (all_edges-In q (edges dev) (edges false) (all_edges-edges dev)),
      elim (Bool-cases dev) [
        | inl t ↦ inl (
          t,
          rw (created-app cdk first false e, created-app cdk second true t)
              (all_apart-All (profile first) q (inventory false) (inventory true) dev_only refl),
          rw (created-app cdk second true t)
              (all_listed-map q (inventory false ++ dev_only) (inventory true) refl),
        )
        | inr f ↦ inr (created-app cdk second false f, dependencies-app cdk second false f)
      ],
    )
