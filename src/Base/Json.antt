-- ===== src/Base/Json.antt =====
-- JSON texts as the json module reads them, for objects, natural numbers, and texts without escapes.
-- A number may start with zeros, which the module does not read; every other text is `none`.
use Prim.Native.Nat.{ℕ, ◌+◌, ◌*◌, ◌-◌}
use Prim.Native.Char.{Char, code}
use Prim.Native.String.{String}
use text.Mathlib.TextLemmas.{nil-append, cons-append, append-nil}
use text.Mathlib.TextLemmas
use mathlib.Core.Path.{◌≡◌, refl, sym, ap, ◌∙◌}
use mathlib.Core.Bool.{Bool, true, false, ◌&&◌, ◌||◌, not, false≢true}
use mathlib.Core.Option.{Option, none, some}
use mathlib.Core.List.{List, [], ◌∷◌, ◌++◌, append_assoc}
use services_modulith_infra.Base.Tests.{eqb, leb, ltb, if◌then◌else◌}
use services_modulith_infra.Base.Names.{◌^^◌}
pub mod Read

pub data Token : Type 0 where
  lbrace rbrace colon comma : Token
  quoted : String → Token
  number : ℕ → Token

-- Between tokens, in a text (what is read of it so far), in a number.
pub data Mode : Type 0 where
  between : Mode
  in_text : String → Mode
  in_number : ℕ → Mode

abbrev pub letter : Char → String
letter c = String.◌∷◌ c String.[]

abbrev pub is_digit : Char → Bool
is_digit c = leb b'0' (code c) && leb (code c) b'9'

-- A character between tokens.
abbrev pub open_token : Char → Option (Mode × List Token)
open_token c =
    if eqb (code c) b'"'
    then some (in_text String.[], [])
    else (if eqb (code c) b' '
        then some (between, [])
        else (if eqb (code c) b'{'
            then some (between, lbrace ∷ [])
            else (if eqb (code c) b'}'
                then some (between, rbrace ∷ [])
                else (if eqb (code c) b':'
                    then some (between, colon ∷ [])
                    else (if eqb (code c) b','
                        then some (between, comma ∷ [])
                        else (if is_digit c
                            then some (in_number (code c - b'0'), [])
                            else none))))))

abbrev pub after_number : ℕ → Option (Mode × List Token) → Option (Mode × List Token)
after_number n none = none
after_number n (some (m, ts)) = some (m, number n ∷ ts)

-- A backslash, which starts an escape, and the control characters.
abbrev pub is_special : Char → Bool
is_special c = eqb (code c) b'\\' || ltb (code c) b' '

abbrev pub read_char : Mode → Char → Option (Mode × List Token)
read_char between c = open_token c
read_char (in_text t) c =
    if eqb (code c) b'"'
    then some (between, quoted t ∷ [])
    else (if is_special c then none else some (in_text (t ^^ letter c), []))
read_char (in_number n) c =
    if is_digit c
    then some (in_number (n * 10 + (code c - b'0')), [])
    else after_number n (open_token c)

abbrev pub prepend : List Token → Option (Mode × List Token) → Option (Mode × List Token)
prepend ts none = none
prepend ts (some (m, us)) = some (m, ts ++ us)

abbrev pub continue :
    Option (Mode × List Token) → (Mode → Option (Mode × List Token)) → Option (Mode × List Token)
continue none k = none
continue (some (m, ts)) k = prepend ts (k m)

-- The mode behind a text, and the tokens that it has ended.
unfoldable pub scan : Mode → String → Option (Mode × List Token)
scan m String.[] = some (m, [])
scan m (String.◌∷◌ c s) = continue (read_char m c) (λ m'. scan m' s)

abbrev pub finish : Option (Mode × List Token) → Option (List Token)
finish (some (between, ts)) = some ts
finish (some (in_number n, ts)) = some (ts ++ number n ∷ [])
finish _ = none

unfoldable pub tokens : String → Option (List Token)
unfolding scan
tokens s = finish (scan between s)

-- Neither a quotation mark nor a special character.
abbrev is_ordinary : Char → Bool
is_ordinary c = not (eqb (code c) b'"') && not (is_special c)

abbrev pub is_plain : String → Bool
is_plain String.[] = true
is_plain (String.◌∷◌ c s) = is_ordinary c && is_plain s

prepend-[] : (x : Option (Mode × List Token)) → prepend [] x ≡ x
prepend-[] none = refl
prepend-[] (some (m, ts)) = refl

prepend_append :
    (ts us : List Token) (x : Option (Mode × List Token))
    → prepend (ts ++ us) x ≡ prepend ts (prepend us x)
prepend_append ts us none = refl
prepend_append ts us (some (m, vs)) = ap (λ ws. some (m, ws)) (append_assoc ts us vs)

prepend-continue :
    (ts : List Token) (x : Option (Mode × List Token)) (g : Mode → Option (Mode × List Token))
    → prepend ts (continue x g) ≡ continue (prepend ts x) g
prepend-continue ts none g = refl
prepend-continue ts (some (m, us)) g = sym (prepend_append ts us (g m))

continue_assoc :
    (x : Option (Mode × List Token)) (f g : Mode → Option (Mode × List Token))
    → continue x (λ m. continue (f m) g) ≡ continue (continue x f) g
continue_assoc none f g = refl
continue_assoc (some (m, ts)) f g = prepend-continue ts (f m) g

-- Reading a text is reading its parts one behind the other.
pub scan_append :
    (m : Mode) (s t : String) → scan m (s ^^ t) ≡ continue (scan m s) (λ m'. scan m' t)
unfolding scan
scan_append m String.[] t = ap (scan m) (nil-append t) ∙ sym (prepend-[] (scan m t))
scan_append m (String.◌∷◌ c s) t =
    ap (scan m) (cons-append c s t)
    ∙ ap (continue (read_char m c)) (λ i m'. scan_append m' s t i)
    ∙ continue_assoc (read_char m c) (λ m'. scan m' s) (λ m'. scan m' t)

neither {ℓ} :
    {A : Type ℓ} (p q : Bool) (x y z : A)
    → not p && not q ≡ true
    → (if p then x else (if q then y else z)) ≡ z
neither false false x y z e = refl
neither false true x y z e = absurd (false≢true e)
neither true q x y z e = absurd (false≢true e)

both : (p q : Bool) → p && q ≡ true → (p ≡ true) × (q ≡ true)
both true q e = (refl, e)
both false q e = absurd (false≢true e)

-- A plain text is read to its end.
pub scan-plain :
    (a s : String) → is_plain s ≡ true → scan (in_text a) s ≡ some (in_text (a ^^ s), [])
unfolding scan
scan-plain a String.[] plain = ap (λ (t : String). some (in_text t, [])) (sym (append-nil a))
scan-plain a (String.◌∷◌ c s) plain =
    let both_ok = both (is_ordinary c) (is_plain s) plain in
    ap {B = Option (Mode × List Token)} (λ r. continue r (λ m'. scan m' s))
      (neither (eqb (code c) b'"') (is_special c) _ _ _ both_ok.0)
    ∙ prepend-[] _
    ∙ scan-plain (a ^^ letter c) s both_ok.1
    ∙ ap (λ (t : String). some (in_text t, []))
        (TextLemmas.append_assoc a (letter c) s
          ∙ ap (a ^^◌) (cons-append c String.[] s ∙ ap (String.◌∷◌ c) (nil-append s)))

pub scan_step :
    (m m' : Mode) (ts : List Token) (s t : String)
    → scan m s ≡ some (m', ts)
    → scan m (s ^^ t) ≡ prepend ts (scan m' t)
scan_step m m' ts s t e = scan_append m s t ∙ ap (λ r. continue r (λ n. scan n t)) e

-- A plain text between quotation marks: behind the first mark, and what follows the text.
pub scan_quoted :
    (s t : String) → is_plain s ≡ true → scan (in_text String.[]) (s ^^ t) ≡ scan (in_text s) t
scan_quoted s t plain =
    scan_step (in_text String.[]) (in_text s) [] s t
      (scan-plain String.[] s plain ∙ ap (λ (u : String). some (in_text u, [])) (nil-append s))
    ∙ prepend-[] (scan (in_text s) t)

-- A text that opens a quotation, a plain text in it, and what follows.
pub scan_member :
    (m : Mode) (ts : List Token) (opening x t : String)
    → scan m opening ≡ some (in_text String.[], ts)
    → is_plain x ≡ true
    → scan m (opening ^^ x ^^ t) ≡ prepend ts (scan (in_text x) t)
scan_member m ts opening x t e plain =
    scan_step m (in_text String.[]) ts opening (x ^^ t) e ∙ ap (prepend ts) (scan_quoted x t plain)
