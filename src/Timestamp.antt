-- ===== src/Timestamp.antt =====
-- src/BSON/Timestamp.c: an increment and a time in seconds, both unsigned 32-bit integers.
--
-- `strtoll` is `bson_ascii_strtoll` where it takes the whole text and leaves `errno` alone;
-- `print_u32` is `snprintf` with the format of a `uint32_t`.
pub mod Fields
pub mod Ordering
pub mod Tests
use dotdeb_php_mongodb.Prelude.{
  ℕ, ◌-◌, ◌%◌, ℤ, pos, negsuc, ltb_ℤ, uint32_max, ltb, ◌==◌, Bytes, codes, Bool, true, false, ◌||◌,
  Option, none, some, ◌++◌, ◌∷◌, [], if◌then◌else◌,
}
use dotdeb_php_mongodb.Errors.{Fault, invalid_argument, throw}
use dotdeb_php_mongodb.Php.{name, Zval, Table, empty, entry, Env}
use dotdeb_php_mongodb.Php.Hash.{find}

-- `php_phongo_timestamp_t`.
pub record Timestamp : Type 0 where
  pub initialized : Bool
  pub increment : ℕ
  pub timestamp : ℕ

abbrev pub fresh_timestamp : Timestamp
fresh_timestamp = record { initialized = false; increment = 0; timestamp = 0 }

-- `(uint32_t)` of a 64-bit integer.
abbrev pub to_u32 : ℤ → ℕ
to_u32 (pos n) = n % 4294967296
to_u32 (negsuc n) = 4294967295 - n % 4294967296

abbrev pub is_out_of_range : ℤ → Bool
is_out_of_range v = ltb_ℤ v (pos 0) || ltb_ℤ uint32_max v

-- `php_phongo_timestamp_init`: the object after the call, and the exception if it failed.
unfoldable pub timestamp_init : Timestamp → ℤ → ℤ → Timestamp × Option Fault
timestamp_init intern increment timestamp =
    if is_out_of_range increment
    then (
      intern,
      some (
          throw invalid_argument "Expected increment to be an unsigned 32-bit integer, %lld given"),
    )
    else if is_out_of_range timestamp
    then (
      intern,
      some (
          throw invalid_argument "Expected timestamp to be an unsigned 32-bit integer, %lld given"),
    )
    else (
      record { initialized = true; increment = to_u32 increment; timestamp = to_u32 timestamp },
      none,
    )

-- `php_phongo_timestamp_init_from_string`.
unfoldable pub init_from_string :
    (Bytes → Option ℤ) → Timestamp → Bytes → Bytes → Timestamp × Option Fault
unfolding timestamp_init
init_from_string strtoll intern s_increment s_timestamp = elim (strtoll s_increment) [
  | none ↦ (
    intern,
    some (
        throw invalid_argument
          "Error parsing \"%s\" as 64-bit integer increment for %s initialization"),
  )
  | some increment ↦ elim (strtoll s_timestamp) [
    | none ↦ (
      intern,
      some (
          throw invalid_argument
            "Error parsing \"%s\" as 64-bit integer timestamp for %s initialization"),
    )
    | some timestamp ↦ timestamp_init intern increment timestamp
  ]
]

-- The two fields of a table, at the types that `php_phongo_timestamp_init_from_hash` asks for.
unfoldable pub init_from_fields :
    (Bytes → Option ℤ) → Timestamp → Option Zval → Option Zval → Timestamp × Option Fault
unfolding timestamp_init init_from_string
init_from_fields strtoll intern (some (Zval.long i)) (some (Zval.long t)) =
    timestamp_init intern i t
init_from_fields strtoll intern (some (Zval.string i)) (some (Zval.string t)) =
    init_from_string strtoll intern i t
init_from_fields strtoll intern _ _ = (
  intern,
  some (
      throw invalid_argument
        "%s initialization requires \"increment\" and \"timestamp\" integer or numeric string fields"),
)

-- `php_phongo_timestamp_init_from_hash`, also behind `__set_state` and `unserialize`.
unfoldable pub timestamp_init_from_hash :
    (Bytes → Option ℤ) → Timestamp → Table → Timestamp × Option Fault
unfolding init_from_fields
timestamp_init_from_hash strtoll intern props =
    init_from_fields strtoll intern (find props (name (codes "increment")))
      (find props (name (codes "timestamp")))

-- `convert_to_string` of a long; another value stays as it is.
unfoldable pub long_as_string : Env → Zval → Zval
long_as_string env (Zval.long v) = Zval.string (env.long_to_str v)
long_as_string env z = z

-- What `Timestamp::__construct` does with arguments that are not both longs.
unfoldable pub construct_from_strings :
    (Bytes → Option ℤ) → Timestamp → Zval → Zval → Timestamp × Option Fault
unfolding init_from_string
construct_from_strings strtoll intern (Zval.string i) (Zval.string t) =
    init_from_string strtoll intern i t
construct_from_strings strtoll intern (Zval.string i) _ = (
  intern,
  some (
      throw invalid_argument
        "Expected timestamp to be an unsigned 32-bit integer or string, %s given"),
)
construct_from_strings strtoll intern _ _ = (
  intern,
  some (
      throw invalid_argument
        "Expected increment to be an unsigned 32-bit integer or string, %s given"),
)

-- `Timestamp::__construct`.
unfoldable pub construct_timestamp :
    Env → (Bytes → Option ℤ) → Timestamp → Zval → Zval → Timestamp × Option Fault
unfolding timestamp_init construct_from_strings long_as_string
construct_timestamp env strtoll intern (Zval.long i) (Zval.long t) = timestamp_init intern i t
construct_timestamp env strtoll intern i t =
    construct_from_strings strtoll intern (long_as_string env i) (long_as_string env t)

-- `php_phongo_timestamp_get_properties` of an object that has been initialised, which is also the
-- array that `serialize` writes.
unfoldable pub timestamp_properties : (ℕ → Bytes) → Timestamp → Table
timestamp_properties print_u32 intern =
    entry (name (codes "increment")) (Zval.string (print_u32 intern.increment))
      (entry (name (codes "timestamp")) (Zval.string (print_u32 intern.timestamp)) empty)

-- `Timestamp::__toString`.
unfoldable pub timestamp_to_string : (ℕ → Bytes) → Timestamp → Bytes
timestamp_to_string print_u32 intern =
    (b'[' ∷ print_u32 intern.increment) ++ (b':' ∷ print_u32 intern.timestamp) ++ b']' ∷ []

-- `php_phongo_timestamp_compare_objects`.
unfoldable pub compare_timestamps : Timestamp → Timestamp → ℤ
compare_timestamps a b =
    if a.timestamp == b.timestamp
    then (if a.increment == b.increment
        then pos 0
        else if ltb a.increment b.increment
        then negsuc 0
        else pos 1)
    else if ltb a.timestamp b.timestamp
    then negsuc 0
    else pos 1
