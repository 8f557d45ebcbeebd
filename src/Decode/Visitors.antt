-- ===== src/Decode/Visitors.antt =====
-- src/bson.c: the state of a visit, and the visitors of elements that hold no document.
use dotdeb_php_mongodb.Prelude.{
  ℕ, ◌%◌, ℤ, Bytes, bytes_eq, ◌==◌, Bool, false, ◌&&◌, Option, none, some, List, [], ◌∷◌, ◌++◌,
  if◌then◌else◌,
}
use dotdeb_php_mongodb.Errors.{Fault, unexpected_value, throw}
use dotdeb_php_mongodb.Bson.{Doc}
use dotdeb_php_mongodb.Php.{ClassEntry, Key, index, name, BsonObject, Zval, Table, empty, Env}
use dotdeb_php_mongodb.Php.Hash.{update, add_next}
use dotdeb_php_mongodb.Regex.{new_regex}
use dotdeb_php_mongodb.TypeMap.{TypeMap}
use dotdeb_php_mongodb.Encode.{odm_field_name}

-- `php_phongo_bson_state`, with the exceptions thrown so far, and the classes with which
-- `object_init_ex` has been called for a class of the type map or of the data: `none` is a NULL
-- pointer.
pub record State : Type 0 where
  pub zchild : Table
  pub map : TypeMap
  pub odm : Option ClassEntry
  pub is_visiting_array : Bool
  pub thrown : List Fault
  pub inits : List (Option ClassEntry)

-- A state with a map and with the class of an earlier document, if any, after `array_init`. That of
-- `PHONGO_BSON_STATE_INITIALIZER` has no class.
abbrev pub initial_state : TypeMap → Option ClassEntry → List Fault → State
initial_state map odm thrown = record {
  zchild = empty;
  map = map;
  odm = odm;
  is_visiting_array = false;
  thrown = thrown;
  inits = [];
}

-- The key of `add_assoc_*`: a decimal integer is an index.
unfoldable pub symtable_key : Env → Bytes → Key
symtable_key env k = elim (env.handle_numeric k) [ none ↦ name k | some i ↦ index i ]

-- `add_next_index_*` or `add_assoc_*`, as every visitor does.
unfoldable pub add : Env → State → Bytes → Zval → State
unfolding symtable_key
add env st k v =
    if st.is_visiting_array
    then record st { zchild = add_next st.zchild v }
    else record st { zchild = update st.zchild (symtable_key env k) v }

-- The visitors that do nothing but add a value.
unfoldable pub visit_double : Env → State → Bytes → ℕ → State × Bool
unfolding add
visit_double env st k v = (add env st k (Zval.double v), false)

unfoldable pub visit_utf8 : Env → State → Bytes → Bytes → State × Bool
unfolding add
visit_utf8 env st k v = (add env st k (Zval.string v), false)

-- `php_phongo_objectid_new_from_oid` makes the object.
unfoldable pub visit_oid : Env → State → Bytes → Bytes → State × Bool
unfolding add
visit_oid env st k oid =
    (add env st k (Zval.bson (BsonObject.objectid (env.oid_to_string oid))), false)

unfoldable pub visit_bool : Env → State → Bytes → Bool → State × Bool
unfolding add
visit_bool env st k v = (add env st k (Zval.bool v), false)

unfoldable pub visit_date_time : Env → State → Bytes → ℤ → State × Bool
unfolding add
visit_date_time env st k ms = (add env st k (Zval.bson (BsonObject.utcdatetime ms)), false)

unfoldable pub visit_decimal128 : Env → State → Bytes → ℕ → ℕ → State × Bool
unfolding add
visit_decimal128 env st k high low =
    (add env st k (Zval.bson (BsonObject.decimal128 high low)), false)

unfoldable pub visit_null : Env → State → Bytes → State × Bool
unfolding add
visit_null env st k = (add env st k Zval.null, false)

unfoldable pub visit_regex : Env → State → Bytes → Bytes → Bytes → State × Bool
unfolding add new_regex
visit_regex env st k pattern flags = (add env st k (Zval.bson (new_regex pattern flags)), false)

unfoldable pub visit_code : Env → State → Bytes → Bytes → State × Bool
unfolding add
visit_code env st k code = (add env st k (Zval.bson (BsonObject.javascript code none)), false)

unfoldable pub visit_codewscope : Env → State → Bytes → Bytes → Doc → State × Bool
unfolding add
visit_codewscope env st k code scope =
    (add env st k (Zval.bson (BsonObject.javascript code (some scope))), false)

unfoldable pub visit_int32 : Env → State → Bytes → ℤ → State × Bool
unfolding add
visit_int32 env st k v = (add env st k (Zval.long v), false)

unfoldable pub visit_timestamp : Env → State → Bytes → ℕ → ℕ → State × Bool
unfolding add
visit_timestamp env st k timestamp increment =
    (add env st k (Zval.bson (BsonObject.timestamp increment timestamp)), false)

unfoldable pub visit_int64 : Env → State → Bytes → ℤ → State × Bool
unfolding add
visit_int64 env st k v = (add env st k (Zval.long v), false)

unfoldable pub visit_maxkey : Env → State → Bytes → State × Bool
unfolding add
visit_maxkey env st k = (add env st k (Zval.bson BsonObject.maxkey), false)

unfoldable pub visit_minkey : Env → State → Bytes → State × Bool
unfolding add
visit_minkey env st k = (add env st k (Zval.bson BsonObject.minkey), false)

-- The class that a `__pclass` element names, if it can be made from BSON.
unfoldable pub find_odm : Env → Bytes → Option ClassEntry → Option ClassEntry
find_odm env classname old = elim (env.fetch_class classname) [
  | none ↦ old
  | some found ↦ if found.instantiatable && found.persistable then some found else old
]

unfoldable pub visit_binary : Env → State → Bytes → ℕ → Bytes → State × Bool
unfolding add find_odm
visit_binary env st k subtype bytes =
    let odm =
      if (subtype == 0x80) && bytes_eq k odm_field_name
      then find_odm env bytes st.odm
      else st.odm in
    (
      add env (record st { odm = odm }) k (Zval.bson (BsonObject.binary (subtype % 256) bytes)),
      false,
    )

-- `php_phongo_bson_visit_unsupported_type`.
unfoldable pub visit_unsupported_type : State → State
visit_unsupported_type st = record st {
  thrown =
      st.thrown
      ++ throw unexpected_value
          "Detected unknown BSON type 0x%02hhx for fieldname \"%s\". Are you using the latest driver?"
        ∷ [];
}
