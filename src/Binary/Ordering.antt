-- ===== src/Binary/Ordering.antt =====
-- src/BSON/Binary.c, `php_phongo_binary_compare_objects`.
use dotdeb_php_mongodb.Prelude.{
  ℕ, ◌<◌, ◌⊎◌, ℤ, pos, Bytes, true, is_below, is_above, compare_then, IsOrdering, length, ◌≡◌, ◌↔◌,
  refl, ap₂, arith, sym, ◌∙◌,
}
use dotdeb_php_mongodb.Binary.{Binary, get_data, compare_binaries}

chain-equal :
    (x y t u : ℕ) (v : ℤ) → compare_then x y (compare_then t u v) ≡ pos 0 → (t ≡ u) × (v ≡ pos 0)
chain-equal x y t u v h = ground arith

chain-same : (x t : ℕ) (v : ℤ) → compare_then x x (compare_then t t v) ≡ v
chain-same x t v = ground arith

chain-swap :
    (x y t u : ℕ) (v w : ℤ)
    → is_below w ≡ is_above v
    → is_below (compare_then y x (compare_then u t w))
      ≡ is_above (compare_then x y (compare_then t u v))
chain-swap x y t u v w h = ground arith

step-below :
    (x y z : ℕ) (u v w : ℤ)
    → (is_below u ≡ true → is_below v ≡ true → is_below w ≡ true)
    → is_below (compare_then x y u) ≡ true
    → is_below (compare_then y z v) ≡ true
    → is_below (compare_then x z w) ≡ true
step-below x y z u v w i h g = ground arith

-- What stands before in a comparison by two numbers, and then by a value.
chain-below :
    (x y t u : ℕ) (v : ℤ)
    → (is_below (compare_then x y (compare_then t u v)) ≡ true)
      ↔ ((x < y) ⊎ ((x ≡ y) × ((t < u) ⊎ ((t ≡ u) × (is_below v ≡ true)))))
chain-below x y t u v = ground arith

-- That one Binary stands before another: its data is shorter, or as long with a smaller type, or as
-- long with the same type and before the other by the comparison of texts.
abbrev pub Precedes : (Bytes → Bytes → ℤ) → Binary → Binary → Type 0
Precedes cmp a b =
    (length (get_data a) < length (get_data b))
    ⊎ ((length (get_data a) ≡ length (get_data b))
        × ((a.type < b.type)
            ⊎ ((a.type ≡ b.type) × (is_below (cmp (get_data a) (get_data b)) ≡ true))))

-- The comparison of Binary objects is a linear order, if `zend_binary_strcmp` is one on texts: it is
-- below 0 exactly if the data of the first is shorter, or as long with a smaller type, or as long
-- with the same type and before the other's; it is 0 exactly if the types and the data are equal,
-- exchanging the two changes its sign, and what is below is transitive.
pub compare_binaries-linear :
    (binary_strcmp : Bytes → Bytes → ℤ)
    → IsOrdering binary_strcmp
    → (a b c : Binary)
    → ((is_below (compare_binaries binary_strcmp a b) ≡ true) ↔ Precedes binary_strcmp a b)
      × (((compare_binaries binary_strcmp a b ≡ pos 0)
            ↔ ((a.type ≡ b.type) × (get_data a ≡ get_data b)))
          × ((is_below (compare_binaries binary_strcmp b a)
                ≡ is_above (compare_binaries binary_strcmp a b))
              × (is_below (compare_binaries binary_strcmp a b) ≡ true
                  → is_below (compare_binaries binary_strcmp b c) ≡ true
                  → is_below (compare_binaries binary_strcmp a c) ≡ true)))
unfolding compare_binaries
compare_binaries-linear cmp lin a b c =
    let n = length (get_data a) in
    let m = length (get_data b) in
    let v = cmp (get_data a) (get_data b) in
    let equal = lin.equal (get_data a) in
    (
      chain-below n m a.type b.type v,
      (
        (
          λ h. let e = chain-equal n m a.type b.type v h in (e.0, (equal (get_data b)).0 e.1),
          λ e.
              ap₂ (λ t d. compare_then n (length d) (compare_then a.type t (cmp (get_data a) d)))
                (sym e.0) (sym e.1)
              ∙ chain-same n a.type (cmp (get_data a) (get_data a))
              ∙ (equal (get_data a)).1 refl,
        ),
        (
          chain-swap n m a.type b.type v _ (lin.swap (get_data a) (get_data b)),
          step-below n m (length (get_data c)) _ _ _ (
              step-below a.type b.type c.type _ _ _
                (lin.below (get_data a) (get_data b) (get_data c))),
        ),
      ),
    )
