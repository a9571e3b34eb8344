-- ===== src/Base/Names.antt =====
-- Texts: the f-strings of the source, and the words of a command line.
use Prim.Native.Nat.{ℕ, ◌+◌, ◌*◌, ◌-◌}
use Prim.Native.Char.{Char, code}
use Prim.Native.String.{String}
use Prim.Native.String
use mathlib.Core.Path.{◌≡◌, refl, sym, ◌∙◌}
use mathlib.Core.Logic.{inl, inr}
use mathlib.Core.Bool.{◌&&◌, false≢true}
use mathlib.Core.Option.{Option, none, some}
use mathlib.Core.List.{List, [], ◌∷◌}
use text.Mathlib.Text.{◌==◌}
use text.Mathlib.TextEquality.{eq_iff}
use services_modulith_infra.Base.Tests.{eqb, leb, if◌then◌else◌, Bool-cases}

-- f"{s}{t}"
infixr 68 ◌^^◌
abbrev pub ◌^^◌ : String → String → String
s ^^ t = String.◌++◌ s t

-- The texts one behind the other.
abbrev pub join_all : List String → String
join_all [] = String.[]
join_all (s ∷ ss) = s ^^ join_all ss

abbrev add_letter : Char → List String → List String
add_letter c [] = (String.◌∷◌ c String.[]) ∷ []
add_letter c (w ∷ ws) = String.◌∷◌ c w ∷ ws

-- The texts between the separators.
abbrev pub split : ℕ → String → List String
split sep String.[] = String.[] ∷ []
split sep (String.◌∷◌ c s) =
    let rest = split sep s in if eqb (code c) sep then String.[] ∷ rest else add_letter c rest

-- A command line with one space between its words.
abbrev pub words : String → List String
words s = split b' ' s

words_test : words "sudo dnf update -y" ≡ "sudo" ∷ "dnf" ∷ "update" ∷ "-y" ∷ []
words_test = refl

-- A decimal number; `none` where a letter is no digit.
abbrev digits_from : ℕ → String → Option ℕ
digits_from n String.[] = some n
digits_from n (String.◌∷◌ c s) =
    let rest = digits_from (n * 10 + (code c - b'0')) s in
    if leb b'0' (code c) && leb (code c) b'9' then rest else none

abbrev pub number : String → Option ℕ
number String.[] = none
number (String.◌∷◌ c s) = digits_from 0 (String.◌∷◌ c s)

number_test : number "6334" ≡ some 6334
number_test = refl

pub String-discrete : Discrete String
String-discrete s t = elim (Bool-cases (s == t)) [
  | inl e ↦ yes ((eq_iff s t).0 e)
  | inr n ↦ no (λ e. false≢true (sym n ∙ (eq_iff s t).1 e))
]
