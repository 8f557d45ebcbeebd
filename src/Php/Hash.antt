-- ===== src/Php/Hash.antt =====
-- PHP arrays as ordered maps: `zend_hash_update`, `zend_hash_next_index_insert`,
-- `zend_hash_find` and `zend_hash_del` as the language defines them.
use dotdeb_php_mongodb.Prelude.{
  ℕ, suc, pos, negsuc, ◌==ℤ◌, bytes_eq, Bool, true, false, Option, none, some, leb, if◌then◌else◌,
  ◌≡◌, refl, ap, arith, bytes_eq_refl, eq_of_bytes_eq, Bool-cases, inl, inr, ◌∙◌, sym, eq_of_==ℤ,
}
use dotdeb_php_mongodb.Php.{Key, index, name, Zval, Table, empty, entry}

unfoldable pub key_eq : Key → Key → Bool
key_eq (index i) (index j) = i ==ℤ j
key_eq (index i) (name s) = false
key_eq (name s) (index j) = false
key_eq (name s) (name t) = bytes_eq s t

unfoldable pub find : Table → Key → Option Zval
find empty k = none
find (entry j v t) k = if key_eq j k then some v else find t k

-- An old key keeps its place, a new one is added at the end.
unfoldable pub update : Table → Key → Zval → Table
update empty k v = entry k v empty
update (entry j w t) k v = if key_eq j k then entry j v t else entry j w (update t k v)

unfoldable pub delete : Table → Key → Table
delete empty k = empty
delete (entry j w t) k = if key_eq j k then t else entry j w (delete t k)

-- `nNextFreeElement`: one above the largest index, and 0 before there is one.
unfoldable pub after_key : Key → ℕ → ℕ
after_key (index (pos i)) n = if leb n i then suc i else n
after_key (index (negsuc i)) n = n
after_key (name s) n = n

unfoldable pub next_from : ℕ → Table → ℕ
unfolding after_key
next_from n empty = n
next_from n (entry k v t) = next_from (after_key k n) t

unfoldable pub next_index : Table → ℕ
unfolding next_from
next_index t = next_from 0 t

infixr 65 ◌⧺◌
unfoldable pub ◌⧺◌ : Table → Table → Table
empty ⧺ u = u
entry k v t ⧺ u = entry k v (t ⧺ u)

unfoldable pub add_next : Table → Zval → Table
unfolding ◌⧺◌ next_index
add_next t v = t ⧺ entry (index (pos (next_index t))) v empty

pub key_eq_refl : (k : Key) → key_eq k k ≡ true
unfolding key_eq
key_eq_refl (index (pos i)) = ground arith
key_eq_refl (index (negsuc i)) = ground arith
key_eq_refl (name s) = bytes_eq_refl s

pub ⧺-empty : (t : Table) → t ⧺ empty ≡ t
unfolding ◌⧺◌
⧺-empty empty = refl
⧺-empty (entry k v t) = ap (entry k v) (⧺-empty t)

pub ⧺_assoc : (a b c : Table) → (a ⧺ b) ⧺ c ≡ a ⧺ (b ⧺ c)
unfolding ◌⧺◌
⧺_assoc empty b c = refl
⧺_assoc (entry k v a) b c = ap (entry k v) (⧺_assoc a b c)

-- A key that is not there is added at the end.
pub update_new :
    (t : Table) (k : Key) (v : Zval) → find t k ≡ none → update t k v ≡ t ⧺ entry k v empty
unfolding find update ◌⧺◌
update_new empty k v h = refl
update_new (entry j w t) k v h = ground (arith, update_new t k v)

pub find-append_single :
    (t : Table) (k j : Key) (v : Zval)
    → find (t ⧺ entry k v empty) j
      ≡ elim (find t j) [ none ↦ (if key_eq k j then some v else none) | some w ↦ some w ]
unfolding find ◌⧺◌
find-append_single empty k j v = refl
find-append_single (entry i w t) k j v = ground (arith, find-append_single t k j v)

pub next_from-append : (n : ℕ) (t u : Table) → next_from n (t ⧺ u) ≡ next_from (next_from n t) u
unfolding next_from ◌⧺◌
next_from-append n empty u = refl
next_from-append n (entry k v t) u = next_from-append (after_key k n) t u

eq_of_key_eq : (i k : Key) → key_eq i k ≡ true → i ≡ k
unfolding key_eq
eq_of_key_eq (index i) (index j) h = ap index (eq_of_==ℤ i j h)
eq_of_key_eq (index i) (name s) h = cc
eq_of_key_eq (name s) (index j) h = cc
eq_of_key_eq (name s) (name t) h = ap name (eq_of_bytes_eq s t h)

other_key : (i k j : Key) → key_eq i k ≡ false → key_eq i j ≡ true → key_eq k j ≡ false
other_key i k j h g = elim (Bool-cases (key_eq k j)) [
  | inl e ↦
      let same = eq_of_key_eq i j g ∙ sym (eq_of_key_eq k j e) in
      let true_of = ap (key_eq i) (sym same) ∙ key_eq_refl i in cc
  | inr e ↦ e
]

-- Tests for the same key, of which the second need not be made after the first.
same_test :
    {A : Type 0} (a b : Bool) (v w x : A)
    → a ≡ b
    → (if a then v else x) ≡ (if b then v else if a then w else x)
same_test true true v w x h = refl
same_test true false v w x h = cc
same_test false true v w x h = cc
same_test false false v w x h = refl

-- Tests for two keys, in either order.
two_tests :
    {A : Type 0} (a b : Bool) (v w x y : A)
    → (a ≡ true → b ≡ false)
    → y ≡ (if b then v else x)
    → (if a then w else y) ≡ (if b then v else if a then w else x)
two_tests true true v w x y h e = let contrary = h refl in cc
two_tests true false v w x y h e = refl
two_tests false b v w x y h e = e

-- What is found after an update: the new value at its key, and what was there at any other.
pub find-update :
    (t : Table) (k j : Key) (v : Zval)
    → find (update t k v) j ≡ (if key_eq k j then some v else find t j)
unfolding find update
find-update empty k j v = refl
find-update (entry i w t) k j v = elim (Bool-cases (key_eq i k)) [
  | inl h ↦ rw (h) (same_test _ _ _ _ _ (ap (λ q. key_eq q j) (eq_of_key_eq i k h)))
  | inr h ↦ rw (h) (two_tests _ _ _ _ _ _ (other_key i k j h) (find-update t k j v))
]
