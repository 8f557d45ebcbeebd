-- ===== src/Regex/Sorting.antt =====
-- src/BSON/Regex.c: the flags of a Regex.
use dotdeb_php_mongodb.Php.Hash.{key_eq}
use mathlib.Core.Bool.{false≢true}
use dotdeb_php_mongodb.Prelude.{
  refl, none, ℕ, ◌+◌, leb, ◌==◌, Bytes, Bool, true, ◌&&◌, [], ◌∷◌, if◌then◌else◌, ◌≡◌, arith, false,
  has_nul, Option, Bool-cases, some, ◌∙◌, inl, ap, inr, bytes_eq,
}
use dotdeb_php_mongodb.Php.Hash.{find, key_eq}
use dotdeb_php_mongodb.Regex.{
  char_rank, compare_flags, not_above, insert_flag, sort_flags, regex_init, regex_init_from_hash,
  Regex, regex_properties, find,
}

-- Flags in ascending order of their bytes as signed characters.
abbrev pub is_sorted : Bytes → Bool
is_sorted [] = true
is_sorted (f ∷ []) = true
is_sorted (f ∷ g ∷ fs) = leb (char_rank f) (char_rank g) && is_sorted (g ∷ fs)

-- How often a byte occurs.
abbrev pub occurrences : ℕ → Bytes → ℕ
occurrences f [] = 0
occurrences f (g ∷ fs) = (if f == g then 1 else 0) + occurrences f fs

not_above_iff : (f g : ℕ) → not_above (compare_flags f g) ≡ leb (char_rank f) (char_rank g)
unfolding not_above compare_flags
not_above_iff f g = ground arith

insert_flag-first :
    (f g : ℕ) (fs : Bytes)
    → leb (char_rank f) (char_rank g) ≡ true
    → insert_flag f (g ∷ fs) ≡ f ∷ g ∷ fs
unfolding insert_flag
insert_flag-first f g fs h = rw (not_above_iff f g, h)

insert_flag-later :
    (f g : ℕ) (fs : Bytes)
    → leb (char_rank f) (char_rank g) ≡ false
    → insert_flag f (g ∷ fs) ≡ g ∷ insert_flag f fs
unfolding insert_flag
insert_flag-later f g fs h = rw (not_above_iff f g, h)

insert_flag-nil : (f : ℕ) → insert_flag f [] ≡ f ∷ []
unfolding insert_flag
insert_flag-nil f = refl

above : (m n : ℕ) → leb m n ≡ false → leb n m ≡ true
above m n h = ground arith

and_left : (a b : Bool) → (a && b) ≡ true → a ≡ true
and_left true b h = refl
and_left false b h = h

and_right : (a b : Bool) → (a && b) ≡ true → b ≡ true
and_right true b h = h
and_right false b h = absurd (false≢true h)

-- A flag that is not after `g` may be inserted behind it.
insert_flag-sorted_after :
    (f g : ℕ) (fs : Bytes)
    → leb (char_rank f) (char_rank g) ≡ false
    → is_sorted (g ∷ fs) ≡ true
    → is_sorted (g ∷ insert_flag f fs) ≡ true
insert_flag-sorted_after f g [] h s = rw (insert_flag-nil f, above (char_rank f) (char_rank g) h)
insert_flag-sorted_after f g (k ∷ fs) h s = elim (Bool-cases (leb (char_rank f) (char_rank k))) [
  | inl e ↦
      rw (insert_flag-first f k fs e, above (char_rank f) (char_rank g) h, e)
        (and_right (leb (char_rank g) (char_rank k)) (is_sorted (k ∷ fs)) s)
  | inr e ↦
      rw
        (
          insert_flag-later f k fs e,
          and_left (leb (char_rank g) (char_rank k)) (is_sorted (k ∷ fs)) s,
        )
        (insert_flag-sorted_after f k fs e
          (and_right (leb (char_rank g) (char_rank k)) (is_sorted (k ∷ fs)) s))
]

insert_flag-is_sorted :
    (f : ℕ) (fs : Bytes) → is_sorted fs ≡ true → is_sorted (insert_flag f fs) ≡ true
insert_flag-is_sorted f [] h = rw insert_flag-nil
insert_flag-is_sorted f (g ∷ fs) h = elim (Bool-cases (leb (char_rank f) (char_rank g))) [
  | inl e ↦ rw (insert_flag-first f g fs e, e) h
  | inr e ↦ rw (insert_flag-later f g fs e) (insert_flag-sorted_after f g fs e h)
]

insert_flag-occurrences :
    (k f : ℕ) (fs : Bytes) → occurrences k (insert_flag f fs) ≡ occurrences k (f ∷ fs)
insert_flag-occurrences k f [] = rw insert_flag-nil
insert_flag-occurrences k f (g ∷ fs) = elim (Bool-cases (leb (char_rank f) (char_rank g))) [
  | inl e ↦ rw (insert_flag-first f g fs e)
  | inr e ↦ rw (insert_flag-later f g fs e, insert_flag-occurrences k f fs) (omega arith)
]

sort_flags-cons : (f : ℕ) (fs : Bytes) → sort_flags (f ∷ fs) ≡ insert_flag f (sort_flags fs)
unfolding sort_flags
sort_flags-cons f fs = refl

sort_flags-nil : sort_flags [] ≡ []
unfolding sort_flags
sort_flags-nil = refl

-- Sorting the flags of a Regex puts them in ascending order, and keeps each flag as often as it
-- was given.
pub sort_flags-is_sorted :
    (fs : Bytes)
    → (is_sorted (sort_flags fs) ≡ true)
      × ((k : ℕ) → occurrences k (sort_flags fs) ≡ occurrences k fs)
sort_flags-is_sorted [] = rw sort_flags-nil (refl, λ k. refl)
sort_flags-is_sorted (f ∷ fs) =
    let (sorted, same) = sort_flags-is_sorted fs in
    rw (sort_flags-cons f fs) (
      insert_flag-is_sorted f (sort_flags fs) sorted,
      λ k.
          insert_flag-occurrences k f (sort_flags fs)
          ∙ ap (λ n. (if k == f then 1 else 0) + n) (same k),
    )

is_sorted-tail : (f : ℕ) (fs : Bytes) → is_sorted (f ∷ fs) ≡ true → is_sorted fs ≡ true
is_sorted-tail f [] h = refl
is_sorted-tail f (g ∷ fs) h = and_right (leb (char_rank f) (char_rank g)) (is_sorted (g ∷ fs)) h

insert_flag-front : (f : ℕ) (fs : Bytes) → is_sorted (f ∷ fs) ≡ true → insert_flag f fs ≡ f ∷ fs
insert_flag-front f [] h = insert_flag-nil f
insert_flag-front f (g ∷ fs) h =
    insert_flag-first f g fs (and_left (leb (char_rank f) (char_rank g)) (is_sorted (g ∷ fs)) h)

sort_flags-sorted : (fs : Bytes) → is_sorted fs ≡ true → sort_flags fs ≡ fs
sort_flags-sorted [] h = sort_flags-nil
sort_flags-sorted (f ∷ fs) h =
    sort_flags-cons f fs
    ∙ ap (insert_flag f) (sort_flags-sorted fs (is_sorted-tail f fs h))
    ∙ insert_flag-front f fs h

insert_flag-has_nul : (f : ℕ) (fs : Bytes) → has_nul (insert_flag f fs) ≡ has_nul (f ∷ fs)
unfolding has_nul
insert_flag-has_nul f [] = rw insert_flag-nil
insert_flag-has_nul f (g ∷ fs) = elim (Bool-cases (leb (char_rank f) (char_rank g))) [
  | inl e ↦ rw (insert_flag-first f g fs e)
  | inr e ↦ rw (insert_flag-later f g fs e, insert_flag-has_nul f fs) (ground arith)
]

sort_flags-has_nul : (fs : Bytes) → has_nul (sort_flags fs) ≡ has_nul fs
unfolding has_nul
sort_flags-has_nul [] = rw sort_flags-nil
sort_flags-has_nul (f ∷ fs) =
    rw (sort_flags-cons f fs, insert_flag-has_nul f (sort_flags fs), sort_flags-has_nul fs)

-- The text of a property; a property of a Regex that has been made is never NULL.
abbrev pub get_text : Option Bytes → Bytes
get_text none = []
get_text (some s) = s

regex_init-taken :
    (r : Regex) (pattern flags : Bytes)
    → has_nul pattern ≡ false
    → has_nul flags ≡ false
    → regex_init r pattern (some flags)
      ≡ (record { pattern = some pattern; flags = some (sort_flags flags) }, none)
unfolding regex_init
regex_init-taken r pattern flags hp hf = rw (hp, hf)

from_properties :
    (r : Regex) (pattern flags : Bytes)
    → regex_init_from_hash r (regex_properties pattern flags) ≡ regex_init r pattern (some flags)
unfolding regex_init_from_hash regex_properties find key_eq bytes_eq
from_properties r pattern flags = refl

-- A Regex that has been made from a pattern and flags without NUL bytes is made again, as it is, from
-- the properties that it has and that `serialize` writes; `unserialize`, `__set_state` and
-- `var_export` go through them.
pub regex_init_from_hash-properties :
    (r s : Regex) (pattern flags : Bytes)
    → has_nul pattern ≡ false
    → has_nul flags ≡ false
    → let made = (regex_init r pattern (some flags)).0 in
      regex_init_from_hash s (regex_properties (get_text made.pattern) (get_text made.flags))
      ≡ (made, none)
regex_init_from_hash-properties r s pattern flags hp hf =
    rw (regex_init-taken r pattern flags hp hf) (
      from_properties s pattern (sort_flags flags)
      ∙ regex_init-taken s pattern (sort_flags flags) hp (sort_flags-has_nul flags ∙ hf)
      ∙ ap (λ fs. (record { pattern = some pattern; flags = some fs }, none))
          (sort_flags-sorted (sort_flags flags) (sort_flags-is_sorted flags).0))
