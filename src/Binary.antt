-- ===== src/Binary.antt =====
-- src/BSON/Binary.c: data with a type, an unsigned 8-bit integer.
--
-- `binary_strcmp` is `zend_binary_strcmp`, `base64` is `php_base64_encode`, and `print_hex` is
-- `snprintf` with `%02x`.
pub mod Fields
pub mod Ordering
pub mod Tests
use dotdeb_php_mongodb.Prelude.{
  ℕ, ◌-◌, ◌%◌, ℤ, pos, negsuc, ltb_ℤ, ltb, ◌==◌, compare_then, length, Bytes, codes, Bool, ◌||◌,
  Option, none, some, [], if◌then◌else◌,
}
use dotdeb_php_mongodb.Errors.{Fault, invalid_argument, throw}
use dotdeb_php_mongodb.Php.{name, Zval, Table, empty, entry}
use dotdeb_php_mongodb.Php.Hash.{find}

-- `php_phongo_binary_t`; there is no data before the object has been initialised.
pub record Binary : Type 0 where
  pub bytes : Option Bytes
  pub type : ℕ

-- What is read of `data` and `byteslen`.
abbrev pub bytes_of : Option Bytes → Bytes
bytes_of none = []
bytes_of (some s) = s

-- `(uint8_t)` of a 64-bit integer.
abbrev pub to_u8 : ℤ → ℕ
to_u8 (pos n) = n % 256
to_u8 (negsuc n) = 255 - n % 256

abbrev pub is_no_byte : ℤ → Bool
is_no_byte v = ltb_ℤ v (pos 0) || ltb_ℤ (pos 255) v

-- `php_phongo_binary_init`: the object after the call, and the exception if it failed.
unfoldable pub binary_init : Binary → Bytes → ℤ → Binary × Option Fault
binary_init intern s t =
    if is_no_byte t
    then (
      intern,
      some (throw invalid_argument "Expected type to be an unsigned 8-bit integer, %lld given"),
    )
    else (record { bytes = some s; type = to_u8 t }, none)

-- The two fields of a table, at the types that `php_phongo_binary_init_from_hash` asks for.
unfoldable pub binary_from_fields : Binary → Option Zval → Option Zval → Binary × Option Fault
unfolding binary_init
binary_from_fields intern (some (Zval.string s)) (some (Zval.long t)) = binary_init intern s t
binary_from_fields intern _ _ = (
  intern,
  some (
      throw invalid_argument
        "%s initialization requires \"data\" string and \"type\" integer fields"),
)

-- `php_phongo_binary_init_from_hash`, also behind `__set_state` and `unserialize`.
unfoldable pub binary_init_from_hash : Binary → Table → Binary × Option Fault
unfolding binary_from_fields
binary_init_from_hash intern props =
    binary_from_fields intern (find props (name (codes "data"))) (find props (name (codes "type")))

-- `Binary::__construct`.
unfoldable pub construct_binary : Binary → Bytes → ℤ → Binary × Option Fault
unfolding binary_init
construct_binary intern s t = binary_init intern s t

-- `Binary::getData`, and `Binary::__toString`.
abbrev pub get_data : Binary → Bytes
get_data intern = bytes_of intern.bytes

-- `Binary::getType`.
abbrev pub get_type : Binary → ℤ
get_type intern = pos intern.type

-- `Binary::jsonSerialize`.
abbrev pub binary_json : (Bytes → Bytes) → (ℕ → Bytes) → Binary → Table
binary_json base64 print_hex intern =
    entry (name (codes "$binary")) (Zval.string (base64 (get_data intern)))
      (entry (name (codes "$type")) (Zval.string (print_hex intern.type)) empty)

-- The array that `php_phongo_binary_get_properties` makes.
abbrev pub properties_of : Option Bytes → ℕ → Table
properties_of none t = empty
properties_of (some s) t =
    entry (name (codes "data")) (Zval.string s)
      (entry (name (codes "type")) (Zval.long (pos t)) empty)

-- `php_phongo_binary_get_properties`, which is also the array that `serialize` writes of an object
-- that has been initialised.
unfoldable pub binary_properties : Binary → Table
binary_properties intern = properties_of intern.bytes intern.type

-- `php_phongo_binary_compare_objects`.
unfoldable pub compare_binaries : (Bytes → Bytes → ℤ) → Binary → Binary → ℤ
compare_binaries binary_strcmp a b =
    compare_then (length (get_data a)) (length (get_data b))
      (compare_then a.type b.type (binary_strcmp (get_data a) (get_data b)))
