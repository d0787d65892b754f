-- ===== src/Base/Texts.antt =====
-- Go's tests on strings, over the code points of a valid string.
use Prim.Native.Nat.{ℕ, ◌+◌}
use mathlib.Core.Bool.{Bool, false, true, ◌&&◌, ◌||◌}
use mathlib.Core.List.{List, [], ◌∷◌}
use qiniu_exporter.Base.Tests.{if◌then◌else◌, leb, ltb, ◌==◌}

-- unicode.IsSpace
abbrev pub is_space : ℕ → Bool
is_space c =
    (leb 9 c && leb c 13)
    || c == 32
    || c == 133
    || c == 160
    || c == 5760
    || (leb 8192 c && leb c 8202)
    || c == 8232
    || c == 8233
    || c == 8239
    || c == 8287
    || c == 12288

unfoldable pub last_is_space : ℕ → List ℕ → Bool
last_is_space c [] = is_space c
last_is_space c (d ∷ s) = last_is_space d s

-- `strings.TrimSpace(s) != s`
unfoldable pub has_outer_space : List ℕ → Bool
unfolding last_is_space
has_outer_space [] = false
has_outer_space (c ∷ s) = is_space c || last_is_space c s

-- unicode.IsControl
abbrev pub is_control : ℕ → Bool
is_control c = ltb c 32 || (leb 127 c && leb c 159)

unfoldable pub any_code : (ℕ → Bool) → List ℕ → Bool
any_code p [] = false
any_code p (c ∷ s) = p c || any_code p s

-- The bytes of a code point in UTF-8.
abbrev pub bytes_of : ℕ → ℕ
bytes_of c = if ltb c 128 then 1 else if ltb c 2048 then 2 else if ltb c 65536 then 3 else 4

-- `len(s)`
unfoldable pub byte_length : List ℕ → ℕ
byte_length [] = 0
byte_length (c ∷ s) = bytes_of c + byte_length s

-- Two texts are equal.
unfoldable pub same_codes : List ℕ → List ℕ → Bool
same_codes [] [] = true
same_codes (a ∷ s) (b ∷ t) = a == b && same_codes s t
same_codes _ _ = false

unfoldable pub has_key : List ℕ → List (List ℕ) → Bool
unfolding same_codes
has_key key [] = false
has_key key (k ∷ ks) = same_codes k key || has_key key ks
