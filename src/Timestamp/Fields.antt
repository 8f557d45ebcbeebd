-- ===== src/Timestamp/Fields.antt =====
-- src/BSON/Timestamp.c: what the constructor and the other ways to initialise a Timestamp leave.
use dotdeb_php_mongodb.Prelude.{
  ℕ, ◌≤◌, ℤ, pos, negsuc, Bytes, bytes_eq, Bool, true, false, Option, none, some, if◌then◌else◌,
  ◌≡◌, refl, ap, ◌∙◌, Option-cases, inl, inr, arith, sym, codes, leb, ap₂, ◌&&◌, ◌||◌,
}
use dotdeb_php_mongodb.Errors.{Fault}
use dotdeb_php_mongodb.Php.{Zval, Table, Env, name}
use dotdeb_php_mongodb.Php.Hash.{find, key_eq}
use dotdeb_php_mongodb.Timestamp.{
  Timestamp, to_u32, is_out_of_range, timestamp_init, init_from_string, init_from_fields,
  timestamp_init_from_hash, long_as_string, construct_from_strings, construct_timestamp,
  timestamp_properties,
}

-- An object that has been initialised, with its parts in the range of a `uint32_t`.
pub record IsStamp (s : Timestamp) : Type 0 where
  pub is_initialized : s.initialized ≡ true
  pub increment_fits : s.increment ≤ 4294967295
  pub timestamp_fits : s.timestamp ≤ 4294967295

-- Whether two integers are parts of a timestamp.
abbrev pub are_parts : Option (ℤ × ℤ) → Bool
are_parts (some (pos i, pos t)) = leb i 4294967295 && leb t 4294967295
are_parts _ = false

-- What an initialisation does with an increment and a time, if it gets them: it succeeds with these
-- if both are unsigned 32-bit integers, and otherwise it throws and leaves the object as it is.
pub data Attempt (r : Timestamp) (parts : Option (ℤ × ℤ)) : Timestamp × Option Fault → Type 0 where
  succeeded :
      (s : Timestamp)
      → IsStamp s
      → parts ≡ some (pos s.increment, pos s.timestamp)
      → Attempt r parts (s, none)
  refused : (f : Fault) → are_parts parts ≡ false → Attempt r parts (r, some f)

-- Two texts as numbers, if both are.
abbrev pub numbers : Option ℤ → Option ℤ → Option (ℤ × ℤ)
numbers (some i) (some t) = some (i, t)
numbers _ _ = none

abbrev pub read_texts : (Bytes → Option ℤ) → Option Bytes → Option Bytes → Option (ℤ × ℤ)
read_texts strtoll (some i) (some t) = numbers (strtoll i) (strtoll t)
read_texts strtoll _ _ = none

-- The text of an argument that is a long or a text.
abbrev pub argument_text : Env → Zval → Option Bytes
argument_text env (Zval.long v) = some (env.long_to_str v)
argument_text env (Zval.string s) = some s
argument_text env _ = none

-- The parts that two arguments are: two longs, or the numbers of their texts.
abbrev pub argument_parts : Env → (Bytes → Option ℤ) → Zval → Zval → Option (ℤ × ℤ)
argument_parts env strtoll (Zval.long i) (Zval.long t) = some (i, t)
argument_parts env strtoll i t = read_texts strtoll (argument_text env i) (argument_text env t)

-- The parts that two members of a table are: two longs, or the numbers of two texts.
abbrev pub member_parts : (Bytes → Option ℤ) → Option Zval → Option Zval → Option (ℤ × ℤ)
member_parts strtoll (some (Zval.long i)) (some (Zval.long t)) = some (i, t)
member_parts strtoll (some (Zval.string i)) (some (Zval.string t)) = numbers (strtoll i) (strtoll t)
member_parts strtoll _ _ = none

choice-Attempt :
    {parts : Option (ℤ × ℤ)} (r : Timestamp) (b : Bool) (x y : Timestamp × Option Fault)
    → (b ≡ true → Attempt r parts x)
    → (b ≡ false → Attempt r parts y)
    → Attempt r parts (if b then x else y)
choice-Attempt r true x y h i = h refl
choice-Attempt r false x y h i = i refl

to_u32-in_range :
    (v : ℤ) → is_out_of_range v ≡ false → (v ≡ pos (to_u32 v)) × (to_u32 v ≤ 4294967295)
to_u32-in_range (pos n) h = ground arith
to_u32-in_range (negsuc n) h = ground arith

out_of_range-parts :
    (i t : ℤ) → (is_out_of_range i || is_out_of_range t) ≡ true → are_parts (some (i, t)) ≡ false
out_of_range-parts (pos i) (pos t) h = ground arith
out_of_range-parts (pos i) (negsuc t) h = refl
out_of_range-parts (negsuc i) t h = refl

timestamp_init-Attempt : (r : Timestamp) (i t : ℤ) → Attempt r (some (i, t)) (timestamp_init r i t)
unfolding timestamp_init
timestamp_init-Attempt r i t =
    choice-Attempt r (is_out_of_range i) _ _
      (λ hi. refused _ (out_of_range-parts i t (ground (arith, hi))))
      (λ hi.
        choice-Attempt r (is_out_of_range t) _ _
          (λ ht. refused _ (out_of_range-parts i t (ground (arith, ht))))
          (λ ht.
            succeeded _
              (record {
                is_initialized = refl;
                increment_fits = (to_u32-in_range i hi).1;
                timestamp_fits = (to_u32-in_range t ht).1;
              })
              (ap₂ (λ a b. some (a, b)) (to_u32-in_range i hi).0 (to_u32-in_range t ht).0)))

init_from_string-Attempt :
    (strtoll : Bytes → Option ℤ) (r : Timestamp) (i t : Bytes)
    → Attempt r (numbers (strtoll i) (strtoll t)) (init_from_string strtoll r i t)
unfolding init_from_string
init_from_string-Attempt strtoll r i t = elim (Option-cases (strtoll i)) [
  | inl e ↦ rw (init_from_string, e) (refused _ refl)
  | inr (v, e) ↦ elim (Option-cases (strtoll t)) [
    | inl f ↦ rw (init_from_string, e, f) (refused _ refl)
    | inr (w, f) ↦ rw (init_from_string, e, f) (timestamp_init-Attempt r v w)
  ]
]

init_from_fields-Attempt :
    (strtoll : Bytes → Option ℤ) (r : Timestamp) (i t : Option Zval)
    → Attempt r (member_parts strtoll i t) (init_from_fields strtoll r i t)
unfolding init_from_fields
init_from_fields-Attempt strtoll r (some (Zval.long i)) (some (Zval.long t)) =
    timestamp_init-Attempt r i t
init_from_fields-Attempt strtoll r (some (Zval.string i)) (some (Zval.string t)) =
    init_from_string-Attempt strtoll r i t
init_from_fields-Attempt strtoll r _ _ = refused _ refl

construct_from_strings-Attempt :
    (env : Env) (strtoll : Bytes → Option ℤ) (r : Timestamp) (i t : Zval)
    → Attempt r
        (read_texts strtoll (argument_text env i) (argument_text env t))
        (construct_from_strings strtoll r (long_as_string env i) (long_as_string env t))
unfolding construct_from_strings long_as_string
construct_from_strings-Attempt env strtoll r (Zval.string i) (Zval.string t) =
    init_from_string-Attempt strtoll r i t
construct_from_strings-Attempt env strtoll r (Zval.string i) (Zval.long t) =
    init_from_string-Attempt strtoll r i (env.long_to_str t)
construct_from_strings-Attempt env strtoll r (Zval.long i) (Zval.string t) =
    init_from_string-Attempt strtoll r (env.long_to_str i) t
construct_from_strings-Attempt env strtoll r (Zval.long i) (Zval.long t) =
    init_from_string-Attempt strtoll r (env.long_to_str i) (env.long_to_str t)
construct_from_strings-Attempt env strtoll r (Zval.string i) _ = refused _ refl
construct_from_strings-Attempt env strtoll r (Zval.long i) _ = refused _ refl
construct_from_strings-Attempt env strtoll r _ t = refused _ refl

construct-Attempt :
    (env : Env) (strtoll : Bytes → Option ℤ) (r : Timestamp) (i t : Zval)
    → Attempt r (argument_parts env strtoll i t) (construct_timestamp env strtoll r i t)
unfolding construct_timestamp
construct-Attempt env strtoll r (Zval.long i) (Zval.long t) = timestamp_init-Attempt r i t
construct-Attempt env strtoll r i t = construct_from_strings-Attempt env strtoll r i t

-- `Timestamp::__construct` takes two longs as they are, and otherwise the numbers that the texts of
-- two longs or texts are; the initialisation from a table, which `__set_state` and `unserialize`
-- use, takes the members "increment" and "timestamp", both longs or both texts. Each succeeds with
-- exactly these parts if both are unsigned 32-bit integers, and throws and leaves the object as it
-- is if they are not, or if there are none.
pub construct_timestamp-Attempt :
    (env : Env) (strtoll : Bytes → Option ℤ) (r : Timestamp) (i t : Zval) (props : Table)
    → Attempt r (argument_parts env strtoll i t) (construct_timestamp env strtoll r i t)
      × Attempt r
          (member_parts strtoll
            (find props (name (codes "increment")))
            (find props (name (codes "timestamp"))))
          (timestamp_init_from_hash strtoll r props)
unfolding timestamp_init_from_hash
construct_timestamp-Attempt env strtoll r i t props = (
  construct-Attempt env strtoll r i t,
  init_from_fields-Attempt strtoll r (find props (name (codes "increment")))
      (find props (name (codes "timestamp"))),
)

to_u32-small : (n : ℕ) → n ≤ 4294967295 → to_u32 (pos n) ≡ n
to_u32-small n h = ground arith

in_range : (n : ℕ) → n ≤ 4294967295 → is_out_of_range (pos n) ≡ false
in_range n h = ground arith

timestamp_init-small :
    (r : Timestamp) (i t : ℕ)
    → i ≤ 4294967295
    → t ≤ 4294967295
    → timestamp_init r (pos i) (pos t)
      ≡ (record { initialized = true; increment = i; timestamp = t }, none)
unfolding timestamp_init
timestamp_init-small r i t hi ht =
    rw (in_range i hi, in_range t ht, to_u32-small i hi, to_u32-small t ht)

parsed :
    (strtoll : Bytes → Option ℤ) (s : Timestamp) (i t : Bytes) (m n : ℕ)
    → strtoll i ≡ some (pos m)
    → strtoll t ≡ some (pos n)
    → init_from_string strtoll s i t ≡ timestamp_init s (pos m) (pos n)
unfolding init_from_string
parsed strtoll s i t m n h g = rw (init_from_string, h, g)

from_properties :
    (strtoll : Bytes → Option ℤ) (print_u32 : ℕ → Bytes) (s r : Timestamp)
    → timestamp_init_from_hash strtoll s (timestamp_properties print_u32 r)
      ≡ init_from_string strtoll s (print_u32 r.increment) (print_u32 r.timestamp)
unfolding timestamp_init_from_hash timestamp_properties find key_eq bytes_eq init_from_fields
from_properties strtoll print_u32 s r = refl

-- A Timestamp whose parts fit into 32 bits is made again, as it is, from its properties, where
-- `strtoll` reads back what `print_u32` writes.
pub timestamp_init_from_hash-properties :
    (strtoll : Bytes → Option ℤ) (print_u32 : ℕ → Bytes)
    → ((n : ℕ) → n ≤ 4294967295 → strtoll (print_u32 n) ≡ some (pos n))
    → (s r : Timestamp) → IsStamp r
    → timestamp_init_from_hash strtoll s (timestamp_properties print_u32 r) ≡ (r, none)
timestamp_init_from_hash-properties strtoll print_u32 reads s r h =
    from_properties strtoll print_u32 s r
    ∙ parsed strtoll s (print_u32 r.increment) (print_u32 r.timestamp) r.increment r.timestamp
        (reads r.increment h.increment_fits) (reads r.timestamp h.timestamp_fits)
    ∙ timestamp_init-small s r.increment r.timestamp h.increment_fits h.timestamp_fits
    ∙ ap (λ b. (record { initialized = b; increment = r.increment; timestamp = r.timestamp }, none))
        (sym h.is_initialized)
