-- ===== src/Double.antt =====
-- The `double` of C, as far as the sources compute with it: a finite number, to the nearest that has
-- 53 bits, and to the even one of two.
use dotdeb_php_mongodb.Prelude.{
  ℕ, suc, ◌+◌, ◌-◌, ◌*◌, ◌/◌, ◌%◌, ◌^◌, ℤ, pos, negsuc, sub_ℕ, ltb, ◌==◌, Bool, true, false, not,
  List, [], ◌∷◌, if◌then◌else◌,
}

-- The number `mantissa / 2 ^ scale`, below 0 if `negative`.
pub record Double : Type 0 where
  pub negative : Bool
  pub mantissa : ℕ
  pub scale : ℕ

-- How many bits a number below 2 ^ 4096 has, which is above what the operations on doubles need.
abbrev bits : List ℕ → ℕ → ℕ
bits [] n = n
bits (p ∷ ps) n =
    let small = ltb n (2 ^ p) in
    let rest = bits ps (if small then n else n / 2 ^ p) in if small then rest else p + rest

abbrev bit_length : ℕ → ℕ
bit_length n = bits (2048 ∷ 1024 ∷ 512 ∷ 256 ∷ 128 ∷ 64 ∷ 32 ∷ 16 ∷ 8 ∷ 4 ∷ 2 ∷ 1 ∷ []) n

-- The integer nearest to p / q, and of two the even one.
abbrev nearest : ℕ → ℕ → ℕ
nearest p q =
    let d = p / q in
    let r = 2 * (p % q) in if ltb r q then d else if ltb q r then d + 1 else d + d % 2

-- The double nearest to p / q: with k bits after the point, or a multiple of 2 ^ e.
abbrev at_scale : Bool → ℕ → ℕ → ℕ → ℕ → Double
at_scale negative p q k e = record {
  negative = negative;
  mantissa = nearest (p * 2 ^ k) (q * 2 ^ e) * 2 ^ e;
  scale = k;
}

abbrev rounded : Bool → ℕ → ℕ → Double
rounded negative p q =
    let k = 52 + bit_length q - bit_length p in
    let e = bit_length p - (52 + bit_length q) in
    if ltb (p * 2 ^ k) (q * 2 ^ (52 + e))
    then (if e == 0 then at_scale negative p q (k + 1) 0 else at_scale negative p q k (e - 1))
    else at_scale negative p q k e

abbrev rounded_ℤ : ℤ → ℕ → Double
rounded_ℤ (pos p) q = rounded false p q
rounded_ℤ (negsuc p) q = rounded true (suc p) q

-- `(double)` of an integer, `/`, `*`, `+` and `floor`, whose result is an integer here.
abbrev pub from_int : ℤ → Double
from_int v = rounded_ℤ v 1

abbrev same_sign : Bool → Bool → Bool
same_sign true b = b
same_sign false true = false
same_sign false false = true

abbrev pub divide : Double → Double → Double
divide a b =
    rounded (not (same_sign a.negative b.negative)) (a.mantissa * 2 ^ b.scale)
      (b.mantissa * 2 ^ a.scale)

abbrev pub multiply : Double → Double → Double
multiply a b =
    rounded (not (same_sign a.negative b.negative)) (a.mantissa * b.mantissa)
      (2 ^ (a.scale + b.scale))

abbrev plus_part : Double → ℕ
plus_part a = if a.negative then 0 else a.mantissa

abbrev minus_part : Double → ℕ
minus_part a = if a.negative then a.mantissa else 0

abbrev pub add : Double → Double → Double
add a b =
    rounded_ℤ
      (sub_ℕ (plus_part a * 2 ^ b.scale + plus_part b * 2 ^ a.scale)
        (minus_part a * 2 ^ b.scale + minus_part b * 2 ^ a.scale))
      (2 ^ (a.scale + b.scale))

abbrev pub floor : Double → ℤ
floor a =
    let n = a.mantissa in
    let q = 2 ^ a.scale in if a.negative then sub_ℕ 0 ((n + (q - 1)) / q) else pos (n / q)

abbrev pub half : Double
half = record { negative = false; mantissa = 1; scale = 1 }
