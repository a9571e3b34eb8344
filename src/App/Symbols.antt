-- ===== src/App/Symbols.antt =====
-- Checks on symbolic paths, and what they say of the paths under any profile.
use services_modulith_infra.Base.{
  String, ◌≡◌, refl, ap, Bool, true, false, ◌&&◌, ◌||◌, List, [], ◌∷◌, map, All, In, Before, eq_iff,
  ◌==◌, arith, Bool-cases, inl, inr,
}
use services_modulith_infra.Cdk.{Handle}
use services_modulith_infra.App.Names.{
  Segment, fixed, prefixed, render_path, differ_path, differ_path-ne,
}

abbrev pub Edge : Type 0
Edge = List Segment × List Segment

abbrev pub render_edge : String → Edge → Handle × Handle
render_edge p (a, b) = (render_path p a, render_path p b)

abbrev same : Segment → Segment → Bool
same (fixed s) (fixed t) = s == t
same (prefixed s) (prefixed t) = s == t
same _ _ = false

abbrev pub same_path : List Segment → List Segment → Bool
same_path [] [] = true
same_path (a ∷ xs) (b ∷ ys) = same a b && same_path xs ys
same_path _ _ = false

same-eq : (a b : Segment) → same a b ≡ true → a ≡ b
same-eq (fixed s) (fixed t) h = ground (arith, eq_iff s t)
same-eq (prefixed s) (prefixed t) h = ground (arith, eq_iff s t)
same-eq (fixed s) (prefixed t) h = cc
same-eq (prefixed s) (fixed t) h = cc

pub same_path-eq : (xs ys : List Segment) → same_path xs ys ≡ true → xs ≡ ys
same_path-eq [] [] h = refl
same_path-eq [] (b ∷ ys) h = cc
same_path-eq (a ∷ xs) [] h = cc
same_path-eq (a ∷ xs) (b ∷ ys) h = ground (arith, same-eq a b, same_path-eq xs ys)

abbrev pub listed : List Segment → List (List Segment) → Bool
listed a [] = false
listed a (x ∷ xs) = same_path a x || listed a xs

pub listed-In :
    (p : String) (a : List Segment) (xs : List (List Segment))
    → listed a xs ≡ true
    → In (render_path p a) (map (render_path p) xs)
listed-In p a [] h = cc
listed-In p a (x ∷ xs) h = elim (Bool-cases (same_path a x)) [
  | inl e ↦ inl (ap (render_path p) (same_path-eq a x e))
  | inr e ↦ inr (listed-In p a xs (ground arith))
]

abbrev pub before : List Segment → List Segment → List (List Segment) → Bool
before a b [] = false
before a b (x ∷ xs) = (same_path a x && listed b xs) || before a b xs

pub before-Before :
    (p : String) (a b : List Segment) (xs : List (List Segment))
    → before a b xs ≡ true
    → Before (render_path p a) (render_path p b) (map (render_path p) xs)
before-Before p a b [] h = cc
before-Before p a b (x ∷ xs) h = elim (Bool-cases (same_path a x && listed b xs)) [
  | inl e ↦
      inl (ap (render_path p) (same_path-eq a x (ground arith)), listed-In p b xs (ground arith))
  | inr e ↦ inr (before-Before p a b xs (ground arith))
]

-- Every edge out of `s` ends in the list.
abbrev pub ready : List Segment → List (List Segment) → List Edge → Bool
ready s done [] = true
ready s done ((a, b) ∷ es) = (differ_path s a || listed b done) && ready s done es

pub ready-In :
    (p : String) (s : List Segment) (done : List (List Segment)) (es : List Edge)
    → ready s done es ≡ true
    → (other : Handle) → In (render_path p s, other) (map (render_edge p) es)
    → In other (map (render_path p) done)
ready-In p s done [] h other m = absurd m
ready-In p s done ((a, b) ∷ es) h other (inr m) = ready-In p s done es (ground arith) other m
ready-In p s done ((a, b) ∷ es) h other (inl e) = elim (Bool-cases (differ_path s a)) [
  | inl d ↦ absurd (differ_path-ne p s a d (ap (λ t. t.0) e))
  | inr d ↦ rw (ap (λ (t : Handle × Handle). t.1) e) (listed-In p b done (ground arith))
]

abbrev pub all_before : List (List Segment) → List Edge → Bool
all_before xs [] = true
all_before xs ((a, b) ∷ es) = before b a xs && all_before xs es

pub all_before-Before :
    (p : String) (xs : List (List Segment)) (es : List Edge)
    → all_before xs es ≡ true
    → All (λ e. Before e.1 e.0 (map (render_path p) xs)) (map (render_edge p) es)
all_before-Before p xs [] h = tt
all_before-Before p xs ((a, b) ∷ es) h =
    (before-Before p b a xs (ground arith), all_before-Before p xs es (ground arith))

abbrev pub has_edge : List Segment → List Segment → List Edge → Bool
has_edge s t [] = false
has_edge s t ((a, b) ∷ es) = (same_path s a && same_path t b) || has_edge s t es

pub has_edge-In :
    (p : String) (s t : List Segment) (es : List Edge)
    → has_edge s t es ≡ true
    → In (render_path p s, render_path p t) (map (render_edge p) es)
has_edge-In p s t [] h = cc
has_edge-In p s t ((a, b) ∷ es) h = elim (Bool-cases (same_path s a && same_path t b)) [
  | inl e ↦ inl (cc (same_path-eq s a (ground arith), same_path-eq t b (ground arith)))
  | inr e ↦ inr (has_edge-In p s t es (ground arith))
]

-- Can the stacks of the list be deployed, from its end to its front?
abbrev pub is_schedule : List (List Segment) → List Edge → List (List Segment) → Bool
is_schedule stacks es [] = true
is_schedule stacks es (s ∷ done) =
    listed s stacks && (ready s done es && is_schedule stacks es done)
