-- ===== src/Base/Json/Read.antt =====
-- JSON values from their tokens: objects, texts and numbers; `none` for any other value.
use services_modulith_infra.Base.Json.{Token, lbrace, rbrace, colon, comma, quoted, number, tokens}
use Prim.Native.Nat.{ℕ}
use Prim.Native.String.{String}
use mathlib.Core.Option.{Option, none, some}
use mathlib.Core.List.{List, [], ◌∷◌}
use text.Mathlib.Text.{◌==◌}
use services_modulith_infra.Base.Tests.{if◌then◌else◌}

mutual
  pub data Json : Type 0 where
    string : String → Json
    int : ℕ → Json
    object : Fields → Json

  pub data Fields : Type 0 where
    end : Fields
    field : String → Json → Fields → Fields

abbrev pub add_field : Fields → String → Json → Fields
add_field end k v = field k v end
add_field (field k' v' fs) k v = field k' v' (add_field fs k v)

-- What is due: a value; a name or the end of an object; a name; the colon behind a name; what is
-- behind a member; nothing more.
pub data Due : Type 0 where
  value : Due
  first_name : Due
  name : Fields → Due
  colon_behind : Fields → String → Due
  next : Fields → Due
  done : Json → Due

-- The objects around, each with its members so far and the name of the member that is read.
abbrev pub Around : Type 0
Around = List (Fields × String)

abbrev pub put : Json → Around → Due × Around
put v [] = (done v, [])
put v ((fs, k) ∷ around) = (next (add_field fs k v), around)

abbrev pub read_token : Due → Around → Token → Option (Due × Around)
read_token value around lbrace = some (first_name, around)
read_token value around (quoted s) = some (put (string s) around)
read_token value around (number n) = some (put (int n) around)
read_token first_name around rbrace = some (put (object end) around)
read_token first_name around (quoted k) = some (colon_behind end k, around)
read_token (name fs) around (quoted k) = some (colon_behind fs k, around)
read_token (colon_behind fs k) around colon = some (value, (fs, k) ∷ around)
read_token (next fs) around comma = some (name fs, around)
read_token (next fs) around rbrace = some (put (object fs) around)
read_token _ _ _ = none

abbrev pub or_fail {ℓ} : {A B : Type ℓ} → Option A → (A → Option B) → Option B
or_fail none f = none
or_fail (some a) f = f a

abbrev pub read_tokens : List Token → Due × Around → Option Json
read_tokens [] (done v, []) = some v
read_tokens [] _ = none
read_tokens (t ∷ ts) (due, around) = or_fail (read_token due around t) (read_tokens ts)

unfoldable pub read_all : List Token → Option Json
read_all ts = read_tokens ts (value, [])

-- json.loads
unfoldable pub loads : String → Option Json
unfolding read_all
loads s = or_fail (tokens s) read_all

-- The last member of the name counts.
abbrev pub get_field : String → Fields → Option Json
get_field k end = none
get_field k (field k' v fs) = elim (get_field k fs) [
  | some w ↦ some w
  | none ↦ if k == k' then some v else none
]

-- v[k]
abbrev pub member : String → Json → Option Json
member k (object fs) = get_field k fs
member k _ = none

abbrev pub as_text : Json → Option String
as_text (string s) = some s
as_text _ = none

abbrev pub as_number : Json → Option ℕ
as_number (int n) = some n
as_number _ = none
