-- ===== src/Php.antt =====
-- The PHP values that the extension converts, as PHP 7 on a 64-bit platform has them, and the
-- functions of the engine and of libbson that the conversions call.
pub mod Hash
use dotdeb_php_mongodb.Prelude.{ℕ, ℤ, Bytes, Bool, List, Option}
use dotdeb_php_mongodb.Errors.{Fault}
use dotdeb_php_mongodb.Bson.{Doc}

-- What the extension asks of a `zend_class_entry`: its name, whether it can be instantiated, and
-- whether it is `stdClass` or a child of it, a `Type`, a `Serializable`, a `Persistable`, an
-- `Unserializable`.
pub record ClassEntry : Type 0 where
  pub name : Bytes
  pub instantiatable : Bool
  pub stdclass : Bool
  pub type : Bool
  pub serializable : Bool
  pub persistable : Bool
  pub unserializable : Bool

-- A key of a PHP array.
pub data Key : Type 0 where
  index : ℤ → Key
  name : Bytes → Key

-- An object of one of the final classes of MongoDB\BSON. An ObjectID holds its hex text; a
-- JavaScript its code and, maybe, its scope; a Timestamp its increment first.
pub data BsonObject : Type 0 where
  objectid : Bytes → BsonObject
  utcdatetime : ℤ → BsonObject
  binary : ℕ → Bytes → BsonObject
  decimal128 : ℕ → ℕ → BsonObject
  regex : Bytes → Bytes → BsonObject
  javascript : Bytes → Option Doc → BsonObject
  timestamp : ℕ → ℕ → BsonObject
  maxkey : BsonObject
  minkey : BsonObject

mutual
  -- `zval`. `unsupported` is a resource or any other type that a PHP value may have.
  pub data Zval : Type 0 where
    null : Zval
    bool : Bool → Zval
    long : ℤ → Zval
    double : ℕ → Zval
    string : Bytes → Zval
    array : Table → Zval
    bson : BsonObject → Zval
    object : ClassEntry → Table → Returned → Zval
    indirect : Zval → Zval
    reference : Zval → Zval
    unsupported : ℕ → Zval

  -- `HashTable`: the entries in order.
  pub data Table : Type 0 where
    empty : Table
    entry : Key → Zval → Table → Table

  -- What `bsonSerialize` of the object returns when it is called: nothing, if it throws.
  pub data Returned : Type 0 where
    failed : Fault → Returned
    returned : Zval → Returned

-- Functions that are not the extension's own. `long_to_str` is `zend_long_to_str`;
-- `handle_numeric` is the index that `zend_symtable_update` makes of a numeric key; `fetch_class`
-- is `zend_fetch_class`; `bson_unserialize` is the new object of a class after its
-- `bsonUnserialize` has had the array, with what that threw. `utf8_validate`, `oid_to_string` and
-- `oid_from_string` are libbson's; `generated_oid` is the ObjectID that `bson_oid_init` makes. `zval_to_string`, `zval_to_bool` and
-- `zval_to_long` are the conversions of src/contrib/php_array_api.h.
pub record Env : Type 0 where
  pub long_to_str : ℤ → Bytes
  pub handle_numeric : Bytes → Option ℤ
  pub fetch_class : Bytes → Option ClassEntry
  pub bson_unserialize : ClassEntry → Table → Zval × List Fault
  pub utf8_validate : Bytes → Bool
  pub oid_to_string : Bytes → Bytes
  pub oid_from_string : Bytes → Bytes
  pub generated_oid : Bytes
  pub zval_to_string : Zval → Bytes
  pub zval_to_bool : Zval → Bool
  pub zval_to_long : Zval → ℤ
