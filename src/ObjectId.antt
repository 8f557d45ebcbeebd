-- ===== src/ObjectId.antt =====
-- src/BSON/ObjectID.c: an ObjectID as its 24 hexadecimal digits.
--
-- `is_valid` is `bson_oid_is_valid`; the other functions of libbson are in `Env`.
-- `zend_str_tolower_dup` makes each letter of ASCII small.
pub mod Texts
pub mod Tests
use mathlib.Core.List.{map}
use dotdeb_php_mongodb.Prelude.{
  ℤ, Bytes, codes, to_lower, strcmp, Bool, true, Option, none, some, if◌then◌else◌,
}
use dotdeb_php_mongodb.Errors.{Fault, invalid_argument, throw}
use dotdeb_php_mongodb.Php.{name, Zval, Table, empty, entry, Env}
use dotdeb_php_mongodb.Php.Hash.{find}

-- `php_phongo_objectid_t`.
pub record ObjectId : Type 0 where
  pub initialized : Bool
  pub oid : Bytes

-- `php_phongo_objectid_init`.
abbrev pub objectid_init : Env → ObjectId × Option Fault
objectid_init env = (record { initialized = true; oid = env.oid_to_string env.generated_oid }, none)

-- `php_phongo_objectid_init_from_hex_string`: the object after the call, and the exception if it
-- failed.
unfoldable pub init_from_hex_string :
    Env → (Bytes → Bool) → ObjectId → Bytes → ObjectId × Option Fault
init_from_hex_string env is_valid intern oid =
    let tid = map to_lower oid in
    if is_valid tid
    then (record { initialized = true; oid = env.oid_to_string (env.oid_from_string tid) }, none)
    else (intern, some (throw invalid_argument "Error parsing ObjectID string: %s"))

-- The one field of a table, at the type that `php_phongo_objectid_init_from_hash` asks for.
unfoldable pub init_from_oid :
    Env → (Bytes → Bool) → ObjectId → Option Zval → ObjectId × Option Fault
unfolding init_from_hex_string
init_from_oid env is_valid intern (some (Zval.string s)) =
    init_from_hex_string env is_valid intern s
init_from_oid env is_valid intern _ =
    (intern, some (throw invalid_argument "%s initialization requires \"oid\" string field"))

-- `php_phongo_objectid_init_from_hash`, also behind `__set_state` and `unserialize`.
unfoldable pub objectid_init_from_hash :
    Env → (Bytes → Bool) → ObjectId → Table → ObjectId × Option Fault
unfolding init_from_oid
objectid_init_from_hash env is_valid intern props =
    init_from_oid env is_valid intern (find props (name (codes "oid")))

-- `ObjectID::__construct`; `none` is no argument, or null.
unfoldable pub construct_objectid :
    Env → (Bytes → Bool) → ObjectId → Option Bytes → ObjectId × Option Fault
unfolding init_from_hex_string
construct_objectid env is_valid intern none = objectid_init env
construct_objectid env is_valid intern (some id) = init_from_hex_string env is_valid intern id

-- `ObjectID::__toString`.
abbrev pub objectid_to_string : ObjectId → Bytes
objectid_to_string intern = intern.oid

-- `ObjectID::getTimestamp`; `get_time_t` is `bson_oid_get_time_t`.
abbrev pub get_timestamp : Env → (Bytes → ℤ) → ObjectId → Zval
get_timestamp env get_time_t intern = Zval.long (get_time_t (env.oid_from_string intern.oid))

-- `ObjectID::jsonSerialize`.
abbrev pub objectid_json : ObjectId → Table
objectid_json intern = entry (name (codes "$oid")) (Zval.string intern.oid) empty

-- `php_phongo_objectid_get_properties`, which is also the array that `serialize` writes. Its test of
-- the array `oid` against NULL never holds.
unfoldable pub objectid_properties : ObjectId → Table
objectid_properties intern = entry (name (codes "oid")) (Zval.string intern.oid) empty

-- `php_phongo_objectid_compare_objects`.
abbrev pub compare_objectids : ObjectId → ObjectId → ℤ
compare_objectids a b = strcmp a.oid b.oid
