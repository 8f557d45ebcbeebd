-- ===== src/Prelude/Comparisons.antt =====
-- Comparisons as C and PHP make them: a number below 0, 0, or a number above 0.
use Prim.Native.Nat.{ℕ}
use mathlib.Core.Path.{◌≡◌, refl, subst}
use mathlib.Core.Logic.{◌↔◌}
use mathlib.Core.Bool.{Bool, true, false}
use mathlib.Core.List.{[], ◌∷◌}
use native.Mathlib.Omega.{arith}
use dotdeb_php_mongodb.Prelude.Tests.{ltb, ◌==◌, if◌then◌else◌}
use dotdeb_php_mongodb.Prelude.Int.{ℤ, pos, negsuc}
use dotdeb_php_mongodb.Prelude.Text.{Bytes}

abbrev pub is_below : ℤ → Bool
is_below (pos n) = false
is_below (negsuc n) = true

abbrev pub is_above : ℤ → Bool
is_above (pos n) = ltb 0 n
is_above (negsuc n) = false

-- A comparison that is a linear order.
pub record IsOrdering {ℓ} {A : Type ℓ} (cmp : A → A → ℤ) : Type ℓ where
  pub equal : (a b : A) → (cmp a b ≡ pos 0) ↔ (a ≡ b)
  pub swap : (a b : A) → is_below (cmp b a) ≡ is_above (cmp a b)
  pub below :
      (a b c : A)
      → is_below (cmp a b) ≡ true
      → is_below (cmp b c) ≡ true
      → is_below (cmp a c) ≡ true

-- The comparison of two numbers, and what follows it if they are equal.
abbrev pub compare_then : ℕ → ℕ → ℤ → ℤ
compare_then x y rest = if x == y then rest else if ltb x y then negsuc 0 else pos 1

-- `strcmp` on texts with no NUL, up to the size of its result.
unfoldable pub strcmp : Bytes → Bytes → ℤ
strcmp [] [] = pos 0
strcmp [] (y ∷ ys) = negsuc 0
strcmp (x ∷ xs) [] = pos 1
strcmp (x ∷ xs) (y ∷ ys) = let rest = strcmp xs ys in compare_then x y rest

strcmp_refl : (a : Bytes) → strcmp a a ≡ pos 0
unfolding strcmp
strcmp_refl [] = refl
strcmp_refl (x ∷ xs) = ground (arith, strcmp_refl xs)

strcmp_eq : (a b : Bytes) → strcmp a b ≡ pos 0 → a ≡ b
unfolding strcmp
strcmp_eq [] [] h = refl
strcmp_eq [] (y ∷ ys) h = ground arith
strcmp_eq (x ∷ xs) [] h = ground arith
strcmp_eq (x ∷ xs) (y ∷ ys) h = ground (arith, strcmp_eq xs ys)

strcmp_swap : (a b : Bytes) → is_below (strcmp b a) ≡ is_above (strcmp a b)
unfolding strcmp
strcmp_swap [] [] = refl
strcmp_swap [] (y ∷ ys) = refl
strcmp_swap (x ∷ xs) [] = refl
strcmp_swap (x ∷ xs) (y ∷ ys) = let h = strcmp_swap xs ys in ground arith

strcmp_below :
    (a b c : Bytes)
    → is_below (strcmp a b) ≡ true
    → is_below (strcmp b c) ≡ true
    → is_below (strcmp a c) ≡ true
unfolding strcmp
strcmp_below [] [] c h g = ground arith
strcmp_below [] (y ∷ ys) [] h g = ground arith
strcmp_below [] (y ∷ ys) (z ∷ zs) h g = refl
strcmp_below (x ∷ xs) [] c h g = ground arith
strcmp_below (x ∷ xs) (y ∷ ys) [] h g = ground arith
strcmp_below (x ∷ xs) (y ∷ ys) (z ∷ zs) h g = let i = strcmp_below xs ys zs in ground arith

pub strcmp-IsOrdering : IsOrdering strcmp
strcmp-IsOrdering = record {
  equal = λ a b. (strcmp_eq a b, λ e. subst (λ c. strcmp a c ≡ pos 0) e (strcmp_refl a));
  swap = strcmp_swap;
  below = strcmp_below;
}
