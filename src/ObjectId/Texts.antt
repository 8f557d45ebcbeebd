-- ===== src/ObjectId/Texts.antt =====
-- src/BSON/ObjectID.c: the texts that give an ObjectID.
use mathlib.Core.List.{map}
use dotdeb_php_mongodb.Prelude.{
  ℕ, Bytes, bytes_eq, to_lower, Bool, true, Option, none, some, [], ◌∷◌, ◌≡◌, refl, ap, ap₂, sym,
  ◌∙◌, arith, Bool-cases, inl, inr, zero, suc,
}
use dotdeb_php_mongodb.Errors.{Fault}
use dotdeb_php_mongodb.Php.{Env}
use dotdeb_php_mongodb.Php.Hash.{find, key_eq}
use dotdeb_php_mongodb.ObjectId.{
  ObjectId, init_from_hex_string, init_from_oid, objectid_init_from_hash, construct_objectid,
  objectid_properties,
}

to_lower_twice : (c : ℕ) → to_lower (to_lower c) ≡ to_lower c
unfolding to_lower
to_lower_twice c = ground arith

lower_twice : (s : Bytes) → map to_lower (map to_lower s) ≡ map to_lower s
lower_twice [] = refl
lower_twice (c ∷ s) = ap₂ (λ x xs. x ∷ xs) (to_lower_twice c) (lower_twice s)

-- The first bytes of a text.
abbrev pub take : ℕ → Bytes → Bytes
take zero s = []
take (suc n) [] = []
take (suc n) (c ∷ s) = c ∷ take n s

pub take_twice : (n : ℕ) (s : Bytes) → take n (take n s) ≡ take n s
take_twice zero s = refl
take_twice (suc n) [] = refl
take_twice (suc n) (c ∷ s) = ap (λ t. c ∷ t) (take_twice n s)

map-take : (n : ℕ) (s : Bytes) → map to_lower (take n s) ≡ take n (map to_lower s)
map-take zero s = refl
map-take (suc n) [] = refl
map-take (suc n) (c ∷ s) = ap (λ t. to_lower c ∷ t) (map-take n s)

-- What libbson is asked for: of a text that is valid, which may have a NUL behind its 24 digits, the
-- first 24 bytes are valid too, and the ObjectID that is read from it is printed as these bytes, if
-- its letters are small.
pub record ReadsHex (env : Env) (is_valid : Bytes → Bool) : Type 0 where
  pub without_nul : (t : Bytes) → is_valid t ≡ true → is_valid (take 24 t) ≡ true
  pub prints_back :
      (t : Bytes)
      → is_valid t ≡ true
      → map to_lower t ≡ t
      → env.oid_to_string (env.oid_from_string t) ≡ take 24 t

abbrev pub holding : Bytes → ObjectId × Option Fault
holding t = (record { initialized = true; oid = take 24 t }, none)

valid-holding :
    (env : Env) (is_valid : Bytes → Bool)
    → ReadsHex env is_valid
    → (r : ObjectId) (s : Bytes) → is_valid (map to_lower s) ≡ true
    → init_from_hex_string env is_valid r s ≡ holding (map to_lower s)
unfolding init_from_hex_string
valid-holding env is_valid law r s h =
    rw (h, law.prints_back (map to_lower s) h (lower_twice s)) refl

-- An ObjectID that has been made without an exception came from a valid text.
success-valid :
    (env : Env) (is_valid : Bytes → Bool) (r x : ObjectId) (s : Bytes)
    → init_from_hex_string env is_valid r s ≡ (x, none)
    → is_valid (map to_lower s) ≡ true
unfolding init_from_hex_string
success-valid env is_valid r x s e = elim (Bool-cases (is_valid (map to_lower s))) [
  | inl h ↦ h
  | inr h ↦ ground (arith)
]

from_properties :
    (env : Env) (is_valid : Bytes → Bool) (r x : ObjectId)
    → objectid_init_from_hash env is_valid r (objectid_properties x)
      ≡ init_from_hex_string env is_valid r x.oid
unfolding objectid_init_from_hash objectid_properties find key_eq bytes_eq init_from_oid
from_properties env is_valid r x = refl

-- The text of an ObjectID is made again as it is.
own_text :
    (env : Env) (is_valid : Bytes → Bool)
    → ReadsHex env is_valid
    → (s : ObjectId) (t : Bytes) → is_valid (map to_lower t) ≡ true
    → init_from_hex_string env is_valid s (take 24 (map to_lower t)) ≡ holding (map to_lower t)
own_text env is_valid law s t h =
    let small : map to_lower (take 24 (map to_lower t)) ≡ take 24 (map to_lower t) =
      map-take 24 (map to_lower t) ∙ ap (take 24) (lower_twice t) in
    valid-holding env is_valid law s (take 24 (map to_lower t))
      (ap is_valid small ∙ law.without_nul (map to_lower t) h)
    ∙ ap holding small
    ∙ ap (λ o. (record { initialized = true; oid = o }, none)) (take_twice 24 (map to_lower t))

-- An ObjectID that `__construct` has made of a text holds its first 24 bytes in small letters, and is
-- made again, as it is, from every text that differs from it in the case of letters only, from its
-- own text, and from its properties. libbson is asked to take, with a valid text, its first 24 bytes
-- too, and to print the ObjectID of a valid text of small letters as these bytes.
pub construct_objectid-any_case :
    (env : Env) (is_valid : Bytes → Bool)
    → ReadsHex env is_valid
    → (r s x : ObjectId) (t u : Bytes) → construct_objectid env is_valid r (some t) ≡ (x, none)
    → map to_lower u ≡ map to_lower t
    → (x.oid ≡ take 24 (map to_lower t))
      × ((construct_objectid env is_valid s (some u) ≡ (x, none))
          × ((construct_objectid env is_valid s (some x.oid) ≡ (x, none))
              × (objectid_init_from_hash env is_valid s (objectid_properties x) ≡ (x, none))))
unfolding construct_objectid
construct_objectid-any_case env is_valid law r s x t u e f =
    let h = success-valid env is_valid r x t e in
    let made = sym (valid-holding env is_valid law r t h) ∙ e in
    let oid = sym (ap (λ p. p.0.oid) made) in
    let own =
      ap (init_from_hex_string env is_valid s) oid ∙ own_text env is_valid law s t h ∙ made in
    (
      oid,
      (
        valid-holding env is_valid law s u (ap is_valid f ∙ h) ∙ ap holding f ∙ made,
        (own, from_properties env is_valid s x ∙ own),
      ),
    )
