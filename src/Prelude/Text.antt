-- ===== src/Prelude/Text.antt =====
-- What the program uses of Python's `str`: `strip`, `len`, truthiness, and membership in a set.
use Prim.Native.Char.{Char, char, code, IsScalar}
use Prim.Native.Nat.{ℕ, zero, suc, ◌+◌, ◌-◌, ◌*◌, ◌/◌, ◌%◌, ◌<◌, compare, Ordering}
use native.Mathlib.Omega.{arith}
use native.Mathlib.Decide.{dec_lt, ℕ_discrete}
use Prim.Native.String.{String, ◌++◌ as append}
use mathlib.Core.Path.{◌≡◌, refl, ap}
use mathlib.Core.Logic.{inl, inr}
use mathlib.Core.Bool.{Bool, true, false, ◌&&◌, ◌||◌}
use mathlib.Core.Option.{Option, none, some}
use mathlib.Core.List.{List, [], ◌∷◌}
use text.Mathlib.Text.{◌==◌ as str_eq}
use eiraos_chat_backend.Prelude.Tests.{ltb, leb, ◌==◌, if◌then◌else◌, Bool-cases}

-- `str.isspace` of one character, by its code point
unfoldable pub is_space : ℕ → Bool
is_space c =
    leb 9 c && leb c 13
    || leb 28 c && leb c 32
    || c == 0x85
    || c == 0xa0
    || c == 0x1680
    || leb 0x2000 c && leb c 0x200a
    || c == 0x2028
    || c == 0x2029
    || c == 0x202f
    || c == 0x205f
    || c == 0x3000

-- `not s`
abbrev pub is_empty : String → Bool
is_empty String.[] = true
is_empty (String.◌∷◌ c s) = false

-- `s or None`
abbrev pub nonempty : String → Option String
nonempty String.[] = none
nonempty (String.◌∷◌ c s) = some (String.◌∷◌ c s)

-- `s or ""` where `s` may be `None`
abbrev pub or_empty : Option String → String
or_empty none = ""
or_empty (some s) = s

-- truthiness of `str | None`
abbrev pub is_truthy : Option String → Bool
is_truthy none = false
is_truthy (some String.[]) = false
is_truthy (some (String.◌∷◌ c s)) = true

-- `len(s)`: the number of code points
unfoldable pub char_count : String → ℕ
char_count String.[] = 0
char_count (String.◌∷◌ c s) = suc (char_count s)

unfoldable pub lstrip : String → String
lstrip String.[] = String.[]
lstrip (String.◌∷◌ c s) = let rest = lstrip s in if is_space (code c) then rest else String.◌∷◌ c s

abbrev pub drop_space : Char → String → String
drop_space c String.[] = if is_space (code c) then String.[] else String.◌∷◌ c String.[]
drop_space c (String.◌∷◌ d s) = String.◌∷◌ c (String.◌∷◌ d s)

unfoldable pub rstrip : String → String
rstrip String.[] = String.[]
rstrip (String.◌∷◌ c s) = drop_space c (rstrip s)

unfoldable pub strip : String → String
unfolding lstrip rstrip
strip s = rstrip (lstrip s)

-- `s in {…}`
unfoldable pub one_of : String → List String → Bool
one_of s [] = false
one_of s (t ∷ ts) = str_eq s t || one_of s ts

-- A text that begins with no white space is left alone by `lstrip`.
abbrev StartsBare : String → Type 0
StartsBare String.[] = Unit
StartsBare (String.◌∷◌ c s) = is_space (code c) ≡ false

StartsBare-lstrip : (s : String) → StartsBare (lstrip s)
unfolding lstrip
StartsBare-lstrip String.[] = tt
StartsBare-lstrip (String.◌∷◌ c s) = elim (Bool-cases (is_space (code c))) [
  | inl space ↦ rw space (StartsBare-lstrip s)
  | inr bare ↦ rw bare bare
]

lstrip_of_bare : (s : String) → StartsBare s → lstrip s ≡ s
unfolding lstrip
lstrip_of_bare String.[] h = refl
lstrip_of_bare (String.◌∷◌ c s) h = rw h

StartsBare-rstrip : (s : String) → StartsBare s → StartsBare (rstrip s)
unfolding rstrip
StartsBare-rstrip String.[] h = tt
StartsBare-rstrip (String.◌∷◌ c s) h = go (rstrip s)
  where
    go : (t : String) → StartsBare (drop_space c t)
    go String.[] = rw h h
    go (String.◌∷◌ d t) = h

rstrip-drop_space :
    (c : Char) (t : String) → rstrip t ≡ t → rstrip (drop_space c t) ≡ drop_space c t
unfolding rstrip
rstrip-drop_space c String.[] h = elim (Bool-cases (is_space (code c))) [
  | inl space ↦ rw space
  | inr bare ↦ rw bare (rw bare)
]
rstrip-drop_space c (String.◌∷◌ d t) h = ap (drop_space c) h

rstrip-rstrip : (s : String) → rstrip (rstrip s) ≡ rstrip s
unfolding rstrip
rstrip-rstrip String.[] = refl
rstrip-rstrip (String.◌∷◌ c s) = rstrip-drop_space c (rstrip s) (rstrip-rstrip s)

pub strip-strip : (s : String) → strip (strip s) ≡ strip s
unfolding strip
strip-strip s =
    rw (lstrip_of_bare (rstrip (lstrip s)) (StartsBare-rstrip (lstrip s) (StartsBare-lstrip s)))
      (rstrip-rstrip (lstrip s))

strip_tabs : strip "\t a b \n" ≡ "a b"
unfolding strip is_space
strip_tabs = refl

-- `str.lower`, for the Latin letters and the one other character whose lower case is one of them,
-- the Kelvin sign; every other character stands for itself. So a lowered text equals a text of
-- lower-case Latin letters exactly when Python's does.
IsScalar-shift : (n : ℕ) → n < 91 → IsScalar (n + 32)
IsScalar-shift n h = rw below tt
  where
    below : compare (n + 32) 55296 ≡ Ordering.lt
    below = ground arith

unfoldable pub lower_char : Char → Char
unfolding IsScalar-shift dec_lt ℕ_discrete
lower_char (char n p) = elim (ℕ_discrete n 0x212a) [
  | yes _ ↦ char 107 tt
  | no _ ↦ elim (dec_lt 64 n) [
    | no _ ↦ char n p
    | yes _ ↦ elim (dec_lt n 91) [ yes h ↦ char (n + 32) (IsScalar-shift n h) | no _ ↦ char n p ]
  ]
]

unfoldable pub lower : String → String
unfolding lower_char
lower String.[] = String.[]
lower (String.◌∷◌ c s) = String.◌∷◌ (lower_char c) (lower s)

lower_role : lower "Owner-É" ≡ "owner-É"
unfolding lower
lower_role = refl

-- `str.upper`, for the Latin letters and the other characters whose upper case is of ASCII letters;
-- every other character stands for itself.
IsScalar-unshift : (n : ℕ) → n < 123 → IsScalar (n - 32)
IsScalar-unshift n h = rw below tt
  where
    below : compare (n - 32) 55296 ≡ Ordering.lt
    below = ground arith

unfoldable pub upper_char : Char → Char
unfolding IsScalar-unshift dec_lt
upper_char (char n p) = elim (dec_lt 96 n) [
  | no _ ↦ char n p
  | yes _ ↦ elim (dec_lt n 123) [ yes h ↦ char (n - 32) (IsScalar-unshift n h) | no _ ↦ char n p ]
]

-- the sharp s, the dotless i, the long s and the ligatures
unfoldable pub upper_text : Char → String
unfolding upper_char
upper_text c =
    if code c == 0xdf
    then "SS"
    else if code c == 0x131
    then "I"
    else if code c == 0x17f
    then "S"
    else if code c == 0xfb00
    then "FF"
    else if code c == 0xfb01
    then "FI"
    else if code c == 0xfb02
    then "FL"
    else if code c == 0xfb03
    then "FFI"
    else if code c == 0xfb04
    then "FFL"
    else if code c == 0xfb05 || code c == 0xfb06
    then "ST"
    else String.◌∷◌ (upper_char c) String.[]

unfoldable pub upper : String → String
unfolding upper_text
upper String.[] = String.[]
upper (String.◌∷◌ c s) = append (upper_text c) (upper s)

upper_sharp : upper "paß" ≡ "PASS"
unfolding upper
upper_sharp = refl

abbrev prepend : Char → List String → List String
prepend c [] = String.◌∷◌ c String.[] ∷ []
prepend c (part ∷ parts) = String.◌∷◌ c part ∷ parts

-- `s.split(",")`
unfoldable pub split_commas : String → List String
split_commas String.[] = "" ∷ []
split_commas (String.◌∷◌ c s) =
    let rest = split_commas s in if code c == 44 then "" ∷ rest else prepend c rest

-- `s.split(c)` at a character, by its code point
unfoldable pub split_on : ℕ → String → List String
split_on separator String.[] = "" ∷ []
split_on separator (String.◌∷◌ c s) =
    let rest = split_on separator s in if code c == separator then "" ∷ rest else prepend c rest

-- `str(n)` of a number: the digits, on fuel that the number itself is enough for
IsScalar-digit : (n : ℕ) → IsScalar (48 + n % 10)
IsScalar-digit n = rw below tt
  where
    below : compare (48 + n % 10) 55296 ≡ Ordering.lt
    below = ground arith

abbrev digit : ℕ → Char
digit n = char (48 + n % 10) (IsScalar-digit n)

unfoldable pub digits : ℕ → ℕ → String → String
unfolding IsScalar-digit
digits zero n rest = String.◌∷◌ (digit n) rest
digits (suc fuel) n rest =
    let more = digits fuel (n / 10) (String.◌∷◌ (digit n) rest) in
    if ltb n 10 then String.◌∷◌ (digit n) rest else more

-- `int(s)` of a text of digits; `none` is the `ValueError`
unfoldable pub read_digits : ℕ → String → Option ℕ
read_digits n String.[] = some n
read_digits n (String.◌∷◌ c s) =
    let more = read_digits (n * 10 + (code c - 48)) s in
    if leb 48 (code c) && leb (code c) 57 then more else none

split_models : split_commas "a, b" ≡ "a" ∷ " b" ∷ []
unfolding split_commas
split_models = refl

digits_of : digits 1234 1234 "" ≡ "1234"
unfolding digits IsScalar-digit
digits_of = refl
