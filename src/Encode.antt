-- ===== src/Encode.antt =====
-- src/bson.c, from PHP to BSON: `phongo_zval_to_bson` and what it calls. The result is the
-- sequence of elements that the calls of `bson_append_*` add, and the exceptions that are thrown;
-- an exception does not stop the conversion, except at a key with a NUL byte.
--
-- A value is a tree, in which no table holds itself, so the test against recursion (the apply count
-- of a table) never passes. The functions on the parts of an object take what the conversions of
-- its properties and of the value of its `bsonSerialize` give, so that the recursion is structural.
use dotdeb_php_mongodb.Prelude.{
  ℕ, zero, suc, ℤ, pos, ◌==ℤ◌, ltb_ℤ, int32_min, int32_max, Bytes, codes, bytes_eq, has_nul,
  c_string, Bool, true, false, ◌&&◌, ◌||◌, Option, none, some, List, [], ◌∷◌, ◌++◌, String,
  if◌then◌else◌,
}
use dotdeb_php_mongodb.Errors.{Fault, unexpected_value, throw}
use dotdeb_php_mongodb.Bson.{Bson, Doc, finish, ◌+++◌, single}
use dotdeb_php_mongodb.Php.{
  ClassEntry, index, name, BsonObject, objectid, utcdatetime, Zval, Table, empty, entry, Returned,
  failed, returned, Env,
}

-- `php_phongo_bson_flags_t`: `PHONGO_BSON_ADD_ID` and `PHONGO_BSON_RETURN_ID`.
pub record Flags : Type 0 where
  pub add_id : Bool
  pub return_id : Bool

-- `PHONGO_BSON_NONE`.
abbrev pub no_flags : Flags
no_flags = record { add_id = false; return_id = false }

-- `flags & ~PHONGO_BSON_ADD_ID`.
abbrev pub without_id : Flags → Flags
without_id fl = record fl { add_id = false }

-- What a conversion has done: the elements that it appended, the exceptions that it threw, and the
-- document that it put into `*bson_out`, by the ObjectID in it.
pub record Made : Type 0 where
  pub doc : Doc
  pub thrown : List Fault
  pub bson_out : Option Bytes

abbrev pub nothing : Made
nothing = record { doc = finish; thrown = []; bson_out = none }

-- A conversion that threw nothing.
abbrev pub converted : Doc → Made
converted d = record { doc = d; thrown = []; bson_out = none }

abbrev pub appended : Bytes → Bson → Made
appended k b = record { doc = single k b; thrown = []; bson_out = none }

abbrev pub raised : String → Made
raised message = record {
  doc = finish;
  thrown = throw unexpected_value message ∷ [];
  bson_out = none;
}

-- One conversion after another.
unfoldable pub both : Made → Made → Made
unfolding ◌+++◌
both a b = record { doc = a.doc +++ b.doc; thrown = a.thrown ++ b.thrown; bson_out = b.bson_out }

-- `bson_append_document_begin`, the conversion of the child, `bson_append_document_end`; or the
-- same for an array.
abbrev pub nested : Bytes → (Doc → Bson) → Made → Made
nested k wrap child = record {
  doc = single k (wrap child.doc);
  thrown = child.thrown;
  bson_out = none;
}

-- `PHONGO_ODM_FIELD_NAME`.
abbrev pub odm_field_name : Bytes
odm_field_name = codes "__pclass"

-- `IS_ARRAY` and `IS_OBJECT`, as `php_phongo_is_array_or_document` returns them.
pub data Shape : Type 0 where
  as_array as_document : Shape

-- The loop over the keys, with `idx`.
unfoldable pub keys_from : ℕ → Table → Shape
keys_from idx empty = as_array
keys_from idx (entry (name s) v t) = as_document
keys_from idx (entry (index i) v t) = if i ==ℤ pos idx then keys_from (suc idx) t else as_document

unfoldable pub is_array_or_document : Zval → Shape
unfolding keys_from
is_array_or_document (Zval.array t) = keys_from 0 t
is_array_or_document _ = as_document

unfoldable pub nested_as : Shape → Bytes → Made → Made
nested_as as_array k child = nested k Bson.array child
nested_as as_document k child = nested k Bson.document child

-- `BSON_APPEND_INT` where a long has 64 bits.
unfoldable pub append_int : Bytes → ℤ → Made
append_int k v =
    if ltb_ℤ int32_max v || ltb_ℤ v int32_min
    then appended k (Bson.int64 v)
    else appended k (Bson.int32 v)

-- `object_to_bson` at an object of a final class of MongoDB\BSON. libbson takes the increment and
-- the seconds of a timestamp in the other order; code, pattern and flags are C strings.
unfoldable pub bson_object_to_bson : Env → Bytes → BsonObject → Made
bson_object_to_bson env k (objectid h) = appended k (Bson.oid (env.oid_from_string h))
bson_object_to_bson env k (utcdatetime ms) = appended k (Bson.date_time ms)
bson_object_to_bson env k (BsonObject.binary t d) = appended k (Bson.binary t d)
bson_object_to_bson env k (BsonObject.decimal128 h l) = appended k (Bson.decimal128 h l)
bson_object_to_bson env k (BsonObject.regex p f) = appended k (Bson.regex (c_string p) (c_string f))
bson_object_to_bson env k (BsonObject.javascript c (some scope)) =
    appended k (Bson.codewscope (c_string c) scope)
bson_object_to_bson env k (BsonObject.javascript c none) = appended k (Bson.code (c_string c))
bson_object_to_bson env k (BsonObject.timestamp inc ts) = appended k (Bson.timestamp ts inc)
bson_object_to_bson env k BsonObject.maxkey = appended k Bson.maxkey
bson_object_to_bson env k BsonObject.minkey = appended k Bson.minkey

-- The `IS_OBJECT` case of `phongo_zval_to_bson`, from the conversions of the object's properties
-- and of what its `bsonSerialize` returns.
unfoldable pub object_root : ClassEntry → Made → Made → Made
object_root c properties serialized =
    if c.serializable
    then serialized
    else if c.type
    then raised "%s instance %s cannot be serialized as a root element"
    else properties

-- `object_to_bson` at any other object.
unfoldable pub object_to_bson : Bytes → ClassEntry → Made → Made → Made → Made
unfolding object_root
object_to_bson k c properties serialized child =
    if c.type
    then (if c.serializable then child else raised "Unexpected %s instance: %s")
    else nested k Bson.document (object_root c properties serialized)

-- The `__pclass` element of a `Persistable`, with its class name.
unfoldable pub pclass : ClassEntry → Made
pclass c = if c.persistable then appended odm_field_name (Bson.binary 0x80 c.name) else nothing

abbrev pub bad_return : Made
bad_return = raised "Expected %s::%s() to return an array or stdClass, %s given"

-- A key of a protected or private property.
unfoldable pub is_mangled : Bytes → Bool
is_mangled [] = false
is_mangled (zero ∷ s) = true
is_mangled (suc c ∷ s) = false

-- Which entries the loop of `phongo_zval_to_bson` leaves out: those of protected and private
-- properties, and the `__pclass` that is deleted from the table before the loop.
pub record Skips : Type 0 where
  pub from_properties : Bool
  pub odm_field : Bool

abbrev pub all_entries : Skips
all_entries = record { from_properties = false; odm_field = false }

abbrev pub public_entries : Skips
public_entries = record { from_properties = true; odm_field = false }

abbrev pub root_entries : ClassEntry → Skips
root_entries c = record { from_properties = false; odm_field = c.persistable }

unfoldable pub skips : Skips → Bytes → Bool
unfolding is_mangled
skips sk s = (sk.from_properties && is_mangled s) || (sk.odm_field && bytes_eq s odm_field_name)

-- The flags after a key: a document with an `_id` needs none.
unfoldable pub seen_key : Flags → Bytes → Flags
seen_key fl s = if fl.add_id && bytes_eq s (codes "_id") then without_id fl else fl

-- The end of `phongo_zval_to_bson`.
unfoldable pub append_id : Env → Flags → Made
append_id env fl =
    if fl.add_id
    then record {
      doc = single (codes "_id") (Bson.oid env.generated_oid);
      thrown = [];
      bson_out = if fl.return_id then some env.generated_oid else none;
    }
    else nothing

unfoldable mutual
  unfolding both is_array_or_document nested_as append_int bson_object_to_bson object_to_bson pclass
      skips seen_key append_id

  -- `phongo_bson_append`.
  pub bson_append : Env → Flags → Bytes → Zval → Made
  bson_append env fl k Zval.null = appended k Bson.null
  bson_append env fl k (Zval.bool b) = appended k (Bson.bool b)
  bson_append env fl k (Zval.long v) = append_int k v
  bson_append env fl k (Zval.double d) = appended k (Bson.double d)
  bson_append env fl k (Zval.string s) =
      if env.utf8_validate s
      then appended k (Bson.utf8 s)
      else raised "Got invalid UTF-8 value serializing '%s'"
  bson_append env fl k (Zval.array t) =
      nested_as (is_array_or_document (Zval.array t)) k (table_to_bson env fl all_entries t)
  bson_append env fl k (Zval.bson o) = bson_object_to_bson env k o
  bson_append env fl k (Zval.object c p r) =
      object_to_bson k c (table_to_bson env fl public_entries p) (serialized_root env fl c r)
        (serialized_child env fl k c r)
  bson_append env fl k (Zval.indirect z) = bson_append env fl k z
  bson_append env fl k (Zval.reference z) = bson_append env fl k z
  bson_append env fl k (Zval.unsupported n) = raised "Got unsupported type %d '%s'"

  -- The loop of `phongo_zval_to_bson` over `ht_data`, and what follows it.
  pub table_to_bson : Env → Flags → Skips → Table → Made
  table_to_bson env fl sk empty = append_id env fl
  table_to_bson env fl sk (entry (name s) v t) =
      let rest = table_to_bson env fl sk t in
      let stop = raised "BSON keys cannot contain null bytes. Unexpected null byte after \"%s\"." in
      let fl' = seen_key fl s in
      let here = both (bson_append env (without_id fl') s v) (table_to_bson env fl' sk t) in
      if skips sk s then rest else if has_nul s then stop else here
  table_to_bson env fl sk (entry (index i) v t) =
      both (bson_append env (without_id fl) (env.long_to_str i) v) (table_to_bson env fl sk t)

  -- `phongo_zval_to_bson` at a `Serializable`: the conversion of what `bsonSerialize` returned.
  pub serialized_root : Env → Flags → ClassEntry → Returned → Made
  serialized_root env fl c (failed f) = record nothing { thrown = f ∷ [] }
  serialized_root env fl c (returned (Zval.array t)) =
      both (pclass c) (table_to_bson env fl (root_entries c) t)
  serialized_root env fl c (returned (Zval.object d p r)) =
      if d.stdclass then both (pclass c) (table_to_bson env fl (root_entries c) p) else bad_return
  serialized_root env fl c (returned _) = bad_return

  -- `object_to_bson` at a `Serializable`.
  pub serialized_child : Env → Flags → Bytes → ClassEntry → Returned → Made
  serialized_child env fl k c (failed f) = record nothing { thrown = f ∷ [] }
  serialized_child env fl k c (returned (Zval.array t)) =
      let child = table_to_bson env fl all_entries t in
      if c.persistable
      then nested k Bson.document (both (pclass c) child)
      else nested_as (is_array_or_document (Zval.array t)) k child
  serialized_child env fl k c (returned (Zval.object d p r)) =
      let child =
        object_root d (table_to_bson env fl public_entries p) (serialized_root env fl d r) in
      if d.stdclass then nested k Bson.document (both (pclass c) child) else bad_return
  serialized_child env fl k c (returned _) = bad_return

-- `phongo_zval_to_bson`.
unfoldable pub zval_to_bson : Env → Flags → Zval → Made
unfolding bson_append object_root
zval_to_bson env fl (Zval.array t) = table_to_bson env fl all_entries t
zval_to_bson env fl (Zval.object c p r) =
    object_root c (table_to_bson env fl public_entries p) (serialized_root env fl c r)
zval_to_bson env fl (Zval.bson o) = raised "%s instance %s cannot be serialized as a root element"
zval_to_bson env fl _ = nothing

-- `fromPHP`: the bytes that it returns are those of the document, also when an exception is thrown.
unfoldable pub from_php : Env → Zval → Doc × List Fault
unfolding zval_to_bson
from_php env z = let made = zval_to_bson env no_flags z in (made.doc, made.thrown)
