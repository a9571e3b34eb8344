-- ===== src/Base/Lists.antt =====
-- Lists measured by native numbers, and predicates on lists by recursion.
use Prim.Native.Nat.{ℕ, zero, suc}
use mathlib.Core.Path.{◌≡◌, refl, subst, sym}
use mathlib.Core.Logic.{◌⊎◌, inl, inr}
use mathlib.Core.Bool.{Bool, true, false, ◌&&◌, ◌||◌}
use mathlib.Core.Option.{Option, none, some}
use mathlib.Core.List.{List, [], ◌∷◌, ◌++◌, reverse, reverse_aux}

module _ {ℓ} {A : Type ℓ} where
  abbrev pub length : List A → ℕ
  length [] = 0
  length (x ∷ xs) = suc (length xs)

  -- Does every element, some element, pass the test?
  abbrev pub all : (A → Bool) → List A → Bool
  all p [] = true
  all p (x ∷ xs) = p x && all p xs

  abbrev pub any : (A → Bool) → List A → Bool
  any p [] = false
  any p (x ∷ xs) = p x || any p xs

  abbrev pub All {κ} : (A → Type κ) → List A → Type κ
  All P [] = Unit
  All P (x ∷ xs) = P x × All P xs

module _ {A : Type 0} where
  -- Membership, and standing before another element, by recursion.
  abbrev pub In : A → List A → Type 0
  In a [] = ⊥
  In a (x ∷ xs) = (a ≡ x) ⊎ In a xs

  abbrev pub Before : A → A → List A → Type 0
  Before a b [] = ⊥
  Before a b (x ∷ xs) = ((a ≡ x) × In b xs) ⊎ Before a b xs

  -- Membership is decided where equality is.
  pub In-dec : Discrete A → (a : A) (xs : List A) → Dec (In a xs)
  In-dec dec a [] = no (λ h. h)
  In-dec dec a (x ∷ xs) = elim (dec a x) [
    | yes e ↦ yes (inl e)
    | no n ↦ elim (In-dec dec a xs) [
      | yes h ↦ yes (inr h)
      | no m ↦ no (λ h. elim h [ inl e ↦ n e | inr k ↦ m k ])
    ]
  ]

  pub In-append_right : (a : A) (xs ys : List A) → In a ys → In a (xs ++ ys)
  In-append_right a [] ys h = h
  In-append_right a (x ∷ xs) ys h = inr (In-append_right a xs ys h)

  pub All-In {κ} : (P : A → Type κ) (a : A) (xs : List A) → All P xs → In a xs → P a
  All-In P a (x ∷ xs) h (inl e) = subst P (sym e) h.0
  All-In P a (x ∷ xs) h (inr m) = All-In P a xs h.1 m
  All-In P a [] h m = absurd m

  pub All-of_In {κ} : (P : A → Type κ) (xs : List A) → ((a : A) → In a xs → P a) → All P xs
  All-of_In P [] f = tt
  All-of_In P (x ∷ xs) f = (f x (inl refl), All-of_In P xs (λ a m. f a (inr m)))

  abbrev pub get_elem? : List A → ℕ → Option A
  get_elem? [] i = none
  get_elem? (x ∷ xs) zero = some x
  get_elem? (x ∷ xs) (suc i) = get_elem? xs i

  pub In-get_elem? : (i : ℕ) (a : A) (xs : List A) → get_elem? xs i ≡ some a → In a xs
  In-get_elem? i a [] h = cc
  In-get_elem? zero a (x ∷ xs) h = inl (cc)
  In-get_elem? (suc i) a (x ∷ xs) h = inr (In-get_elem? i a xs h)

  pub All-map {κ μ} :
      (P : A → Type κ) (Q : A → Type μ) (xs : List A) → ((a : A) → P a → Q a) → All P xs → All Q xs
  All-map P Q [] f h = tt
  All-map P Q (x ∷ xs) f h = (f x h.0, All-map P Q xs f h.1)

  In-reverse_aux : (a : A) (xs acc : List A) → In a xs ⊎ In a acc → In a (reverse_aux xs acc)
  In-reverse_aux a [] acc (inl h) = absurd h
  In-reverse_aux a [] acc (inr h) = h
  In-reverse_aux a (x ∷ xs) acc (inl (inl e)) = In-reverse_aux a xs (x ∷ acc) (inr (inl e))
  In-reverse_aux a (x ∷ xs) acc (inl (inr h)) = In-reverse_aux a xs (x ∷ acc) (inl h)
  In-reverse_aux a (x ∷ xs) acc (inr h) = In-reverse_aux a xs (x ∷ acc) (inr (inr h))

  pub In-reverse : (a : A) (xs : List A) → In a xs → In a (reverse xs)
  In-reverse a xs h = In-reverse_aux a xs [] (inl h)
