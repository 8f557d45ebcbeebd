-- ===== src/Binary/Fields.antt =====
-- src/BSON/Binary.c: what the ways to initialise a Binary leave.
use dotdeb_php_mongodb.Prelude.{
  ℕ, ◌≤◌, ◌≤ℤ◌, ◌⊎◌, ℤ, pos, negsuc, Bytes, bytes_eq, true, false, Option, none, some, ◌≡◌, refl,
  ◌∙◌, arith, Bool-cases, inl, inr,
}
use dotdeb_php_mongodb.Errors.{Fault}
use dotdeb_php_mongodb.Php.Hash.{find, key_eq}
use dotdeb_php_mongodb.Binary.{
  Binary, to_u8, is_no_byte, binary_init, binary_from_fields, binary_init_from_hash,
  construct_binary, binary_properties,
}

abbrev with_parts : Bytes → ℕ → Binary × Option Fault
with_parts s n = (record { bytes = some s; type = n }, none)

-- What an initialisation with some data and a type does: the type is a byte, and the object holds
-- both and is made again from its properties, or the type is below 0 or above 255, and the object is
-- as before.
pub data Outcome (r : Binary) (s : Bytes) (t : ℤ) : Binary × Option Fault → Type 0 where
  made :
      (b : Binary)
      → b.bytes ≡ some s
      → t ≡ pos b.type
      → b.type ≤ 255
      → ((other : Binary) → binary_init_from_hash other (binary_properties b) ≡ (b, none))
      → Outcome r s t (b, none)
  refused : (f : Fault) → (t ≤ℤ negsuc 0) ⊎ (pos 256 ≤ℤ t) → Outcome r s t (r, some f)

to_u8-byte : (t : ℤ) → is_no_byte t ≡ false → (t ≡ pos (to_u8 t)) × (to_u8 t ≤ 255)
to_u8-byte (pos n) h = ground arith
to_u8-byte (negsuc n) h = ground arith

no_byte_outside : (t : ℤ) → is_no_byte t ≡ true → (t ≤ℤ negsuc 0) ⊎ (pos 256 ≤ℤ t)
no_byte_outside (pos n) h = inr (ground arith)
no_byte_outside (negsuc n) h = inl (omega arith)

init-byte : (r : Binary) (s : Bytes) (n : ℕ) → n ≤ 255 → binary_init r s (pos n) ≡ with_parts s n
unfolding binary_init
init-byte r s n h = ground arith

from_properties :
    (r : Binary) (s : Bytes) (n : ℕ)
    → binary_init_from_hash r (binary_properties (record { bytes = some s; type = n }))
      ≡ binary_init r s (pos n)
unfolding binary_init_from_hash binary_properties find key_eq bytes_eq binary_from_fields
from_properties r s n = refl

-- `Binary::__construct` makes an object with the data and the type if the type is from 0 to 255, and
-- this object is made again, as it is, from its properties; with a type below 0 or above 255 it throws and leaves
-- the object as it was.
pub construct_binary-Outcome :
    (r : Binary) (s : Bytes) (t : ℤ) → Outcome r s t (construct_binary r s t)
unfolding construct_binary binary_init
construct_binary-Outcome r s t = elim (Bool-cases (is_no_byte t)) [
  | inl h ↦ rw (h) (refused _ (no_byte_outside t h))
  | inr h ↦ rw (h) (
      made _ refl (to_u8-byte t h).0 (to_u8-byte t h).1 (λ other.
        from_properties other s (to_u8 t) ∙ init-byte other s (to_u8 t) (to_u8-byte t h).1))
]
