-- ===== src/Prelude/Text.antt =====
-- Texts of C and PHP: lists of bytes, literals among them, and the string functions of the C
-- library that the sources call.
use Prim.Native.Nat.{ℕ, ◌+◌}
use Prim.Native.Char.{code}
use Prim.Native.String.{String}
use mathlib.Core.Path.{◌≡◌, refl}
use mathlib.Core.Logic.{◌≢◌}
use mathlib.Core.Bool.{Bool, true, false, ◌&&◌, ◌||◌}
use mathlib.Core.List.{List, [], ◌∷◌, map}
use native.Mathlib.Omega.{arith}
use dotdeb_php_mongodb.Prelude.Tests.{leb, ◌==◌, if◌then◌else◌}

abbrev pub Bytes : Type 0
Bytes = List ℕ

-- The bytes of a literal, which is ASCII in the sources.
abbrev pub codes : String → Bytes
codes String.[] = []
codes (String.◌∷◌ c s) = code c ∷ codes s

-- `strcmp (a, b) == 0` on texts with no NUL, and `memcmp` at equal lengths.
unfoldable pub bytes_eq : Bytes → Bytes → Bool
bytes_eq [] [] = true
bytes_eq [] (y ∷ ys) = false
bytes_eq (x ∷ xs) [] = false
bytes_eq (x ∷ xs) (y ∷ ys) = (x == y) && bytes_eq xs ys

pub bytes_eq_refl : (xs : Bytes) → bytes_eq xs xs ≡ true
unfolding bytes_eq
bytes_eq_refl [] = refl
bytes_eq_refl (x ∷ xs) = ground (arith, bytes_eq_refl xs)

pub eq_of_bytes_eq : (xs ys : Bytes) → bytes_eq xs ys ≡ true → xs ≡ ys
unfolding bytes_eq
eq_of_bytes_eq [] [] h = refl
eq_of_bytes_eq [] (y ∷ ys) h = cc
eq_of_bytes_eq (x ∷ xs) [] h = cc
eq_of_bytes_eq (x ∷ xs) (y ∷ ys) h = ground (arith, eq_of_bytes_eq xs ys)

pub bytes_eq-ne : (xs ys : Bytes) → xs ≢ ys → bytes_eq xs ys ≡ false
bytes_eq-ne xs ys h = ground (arith, eq_of_bytes_eq xs ys)

-- Whether `strlen (s)` falls short of the length: a NUL stands inside.
unfoldable pub has_nul : Bytes → Bool
has_nul [] = false
has_nul (c ∷ s) = (c == 0) || has_nul s

-- What a C function sees of a text that is passed with no length: the bytes before the first NUL.
unfoldable pub c_string : Bytes → Bytes
c_string [] = []
c_string (c ∷ s) = if c == 0 then [] else c ∷ c_string s

pub c_string_whole : (s : Bytes) → has_nul s ≡ false → c_string s ≡ s
unfolding has_nul c_string
c_string_whole [] h = refl
c_string_whole (c ∷ s) h = ground (arith, c_string_whole s)

-- `strchr (s, c) != NULL`, for a byte other than NUL, on a text with no NUL.
unfoldable pub has_byte : ℕ → Bytes → Bool
has_byte c [] = false
has_byte c (x ∷ s) = (x == c) || has_byte c s

-- `tolower` in the C locale.
unfoldable pub to_lower : ℕ → ℕ
to_lower c = if leb b'A' c && leb c b'Z' then c + 32 else c

-- `strcasecmp (a, b) == 0`.
unfoldable pub case_eq : Bytes → Bytes → Bool
unfolding bytes_eq to_lower
case_eq a b = bytes_eq (map to_lower a) (map to_lower b)
