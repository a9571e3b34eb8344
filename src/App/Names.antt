-- ===== src/App/Names.antt =====
-- The construct ids of the application as symbols: a text, or the profile and a suffix. A check
-- that runs on the symbols holds for the ids of every profile.
use Prim.Native.Char.{code}
use text.Mathlib.TextLemmas.{append_cancel_left, nil-append, cons-append}
use services_modulith_infra.Base.{
  String, ◌≡◌, ◌≢◌, ap, Bool, true, false, not, ◌&&◌, ◌||◌, List, [], ◌∷◌, map, all, All, In, eqb,
  eq_iff, ◌==◌, ◌^^◌, arith, Bool-cases, inl, inr,
}
use services_modulith_infra.Cdk.{Handle}

pub data Segment : Type 0 where
  fixed : String → Segment
  prefixed : String → Segment

abbrev pub render : String → Segment → String
render p (fixed s) = s
render p (prefixed s) = p ^^ s

abbrev pub render_path : String → List Segment → Handle
render_path p = map (render p)

abbrev has_dash : String → Bool
has_dash String.[] = false
has_dash (String.◌∷◌ c s) = eqb (code c) b'-' || has_dash s

has_dash-append : (p s : String) → has_dash s ≡ true → has_dash (p ^^ s) ≡ true
has_dash-append String.[] s h = rw nil-append h
has_dash-append (String.◌∷◌ c p) s h = rw cons-append (ground (arith, has_dash-append p s h))

-- Do the two ids differ under every profile?
abbrev differ : Segment → Segment → Bool
differ (fixed s) (fixed t) = not (s == t)
differ (prefixed s) (prefixed t) = not (s == t)
differ (fixed s) (prefixed t) = not (has_dash s) && has_dash t
differ (prefixed s) (fixed t) = has_dash s && not (has_dash t)

differ-ne : (p : String) (a b : Segment) → differ a b ≡ true → render p a ≢ render p b
differ-ne p (fixed s) (fixed t) h e = ground (arith, eq_iff s t)
differ-ne p (prefixed s) (prefixed t) h e = ground (arith, eq_iff s t, append_cancel_left p s t)
differ-ne p (fixed s) (prefixed t) h e = ground (arith, has_dash-append p t, ap has_dash e)
differ-ne p (prefixed s) (fixed t) h e = ground (arith, has_dash-append p s, ap has_dash e)

abbrev pub differ_path : List Segment → List Segment → Bool
differ_path [] [] = false
differ_path [] (b ∷ bs) = true
differ_path (a ∷ as₁) [] = true
differ_path (a ∷ as₁) (b ∷ bs) = differ a b || differ_path as₁ bs

cons-injective : {A : Type 0} {a b : A} {xs ys : List A} → a ∷ xs ≡ b ∷ ys → (a ≡ b) × (xs ≡ ys)
cons-injective e = ground arith

pub differ_path-ne :
    (p : String) (xs ys : List Segment)
    → differ_path xs ys ≡ true
    → render_path p xs ≢ render_path p ys
differ_path-ne p [] [] h e = cc
differ_path-ne p [] (b ∷ bs) h e = cc
differ_path-ne p (a ∷ as₁) [] h e = cc
differ_path-ne p (a ∷ as₁) (b ∷ bs) h e =
    let (head, tail) = cons-injective e in
    elim (Bool-cases (differ a b)) [
      | inl d ↦ differ-ne p a b d head
      | inr same ↦ differ_path-ne p as₁ bs (rw same at h) tail
    ]

-- No path stands twice in the list.
abbrev pub IsUnique : List Handle → Type 0
IsUnique [] = Unit
IsUnique (h ∷ hs) = All (λ k. h ≢ k) hs × IsUnique hs

abbrev pub all_differ : List (List Segment) → Bool
all_differ [] = true
all_differ (x ∷ xs) = all (differ_path x) xs && all_differ xs

differ_all :
    (p : String) (x : List Segment) (xs : List (List Segment))
    → all (differ_path x) xs ≡ true
    → All (λ k. render_path p x ≢ k) (map (render_path p) xs)
differ_all p x [] h = tt
differ_all p x (y ∷ xs) h = (differ_path-ne p x y (ground arith), differ_all p x xs (ground arith))

pub all_differ-IsUnique :
    (p : String) (xs : List (List Segment))
    → all_differ xs ≡ true
    → IsUnique (map (render_path p) xs)
all_differ-IsUnique p [] h = tt
all_differ-IsUnique p (x ∷ xs) h =
    (differ_all p x xs (ground arith), all_differ-IsUnique p xs (ground arith))

pub differ_all-not_In :
    (p : String) (x : List Segment) (xs : List (List Segment))
    → all (differ_path x) xs ≡ true
    → ¬ In (render_path p x) (map (render_path p) xs)
differ_all-not_In p x [] h m = absurd m
differ_all-not_In p x (y ∷ xs) h (inl e) = differ_path-ne p x y (ground arith) e
differ_all-not_In p x (y ∷ xs) h (inr m) = differ_all-not_In p x xs (ground arith) m
