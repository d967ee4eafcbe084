-- ===== src/Prelude/Chars.antt =====
-- The number of characters of joined, cut and stripped texts.
use Prim.Native.Char.{code}
use Prim.Native.String.append
use Prim.Native.String.{String, ◌++◌ as join}
use Prim.Native.Nat.{ℕ, zero, suc, ◌+◌, ◌≤◌}
use mathlib.Core.Path.{◌≡◌}
use mathlib.Core.Logic.{inl, inr}
use native.Mathlib.Omega.{arith}
use eiraos_chat_backend.Prelude.Tests.{Bool-cases}
use eiraos_chat_backend.Prelude.Text.{char_count, rstrip, drop_space, is_space}

-- `s[:n]`
unfoldable pub first_chars : ℕ → String → String
first_chars zero s = String.[]
first_chars (suc n) String.[] = String.[]
first_chars (suc n) (String.◌∷◌ c s) = String.◌∷◌ c (first_chars n s)

pub char_count-append : (s t : String) → char_count (join s t) ≡ char_count s + char_count t
unfolding char_count
char_count-append String.[] t = rw (append.nil t) (omega arith)
char_count-append (String.◌∷◌ c s) t = rw (append.cons c s t) (omega (arith, char_count-append s t))

pub char_count-first_chars : (n : ℕ) (s : String) → char_count (first_chars n s) ≤ n
unfolding char_count first_chars
char_count-first_chars zero s = omega arith
char_count-first_chars (suc n) String.[] = omega arith
char_count-first_chars (suc n) (String.◌∷◌ c s) = omega (arith, char_count-first_chars n s)

pub char_count-rstrip : (s : String) → char_count (rstrip s) ≤ char_count s
unfolding char_count rstrip
char_count-rstrip String.[] = omega arith
char_count-rstrip (String.◌∷◌ c s) = go (rstrip s) (char_count-rstrip s)
  where
    go :
        (t : String)
        → char_count t ≤ char_count s
        → char_count (drop_space c t) ≤ suc (char_count s)
    go String.[] h = elim (Bool-cases (is_space (code c))) [
      | inl space ↦ rw space (omega arith)
      | inr bare ↦ rw bare (omega arith)
    ]
    go (String.◌∷◌ d t) h = omega (arith, h)
