-- ===== src/RoundTrip/Plain.antt =====
-- PHP values that BSON can hold as they are, with the elements that they become.
use dotdeb_php_mongodb.Prelude.{
  ◌<◌, ℤ, Bytes, true, false, none, some, has_nul, ◌≡◌, ltb_ℤ, int32_min, int32_max, ◌||◌,
  if◌then◌else◌,
}
use dotdeb_php_mongodb.Bson.{Bson, Doc, finish, element}
use dotdeb_php_mongodb.Php.{
  Key, index, name, BsonObject, objectid, utcdatetime, Zval, Table, empty, entry, Env,
}
use dotdeb_php_mongodb.Php.Hash.{find, ◌⧺◌}
use dotdeb_php_mongodb.Regex.{sort_flags}
use dotdeb_php_mongodb.Encode.{Shape, as_array, as_document, keys_from}
use dotdeb_php_mongodb.Decode.Visitors.{symtable_key}

-- The key of an element, from the key of an array.
abbrev pub key_text : Env → Key → Bytes
key_text env (index i) = env.long_to_str i
key_text env (name s) = s

abbrev pub HasNoNul : Key → Type 0
HasNoNul (index i) = Unit
HasNoNul (name s) = has_nul s ≡ false

-- The keys of a table that becomes a document: each is read back as it was, and is new among those
-- before it.
abbrev pub KeysFit : Env → Table → Table → Type 0
KeysFit env before empty = Unit
KeysFit env before (entry k v t) =
    HasNoNul k
    × (symtable_key env (key_text env k) ≡ k)
    × (find before k ≡ none)
    × KeysFit env (before ⧺ entry k v empty) t

-- An object of MongoDB\BSON whose parts libbson gives back.
abbrev pub IsStable : Env → BsonObject → Type 0
IsStable env (objectid h) = env.oid_to_string (env.oid_from_string h) ≡ h
IsStable env (BsonObject.binary t d) = t < 256
IsStable env (BsonObject.regex p f) = (has_nul p ≡ false) × (has_nul f ≡ false) × (sort_flags f ≡ f)
IsStable env (BsonObject.javascript c s) = has_nul c ≡ false
IsStable env _ = Unit

abbrev pub KeysFitAs : Env → Shape → Table → Type 0
KeysFitAs env as_array t = Unit
KeysFitAs env as_document t = KeysFit env empty t

-- Values made of scalars, valid UTF-8, arrays and the objects of MongoDB\BSON.
abbrev mutual
  pub IsPlain : Env → Zval → Type 0
  IsPlain env Zval.null = Unit
  IsPlain env (Zval.bool b) = Unit
  IsPlain env (Zval.long v) = Unit
  IsPlain env (Zval.double d) = Unit
  IsPlain env (Zval.string s) = env.utf8_validate s ≡ true
  IsPlain env (Zval.array t) = KeysFitAs env (keys_from 0 t) t × ArePlain env t
  IsPlain env (Zval.bson o) = IsStable env o
  IsPlain env (Zval.object c p r) = ⊥
  IsPlain env (Zval.indirect z) = ⊥
  IsPlain env (Zval.reference z) = ⊥
  IsPlain env (Zval.unsupported n) = ⊥

  pub ArePlain : Env → Table → Type 0
  ArePlain env empty = Unit
  ArePlain env (entry k v t) = IsPlain env v × ArePlain env t

unfoldable pub bson_of_object : Env → BsonObject → Bson
bson_of_object env (objectid h) = Bson.oid (env.oid_from_string h)
bson_of_object env (utcdatetime ms) = Bson.date_time ms
bson_of_object env (BsonObject.binary t d) = Bson.binary t d
bson_of_object env (BsonObject.decimal128 h l) = Bson.decimal128 h l
bson_of_object env (BsonObject.regex p f) = Bson.regex p f
bson_of_object env (BsonObject.javascript c (some s)) = Bson.codewscope c s
bson_of_object env (BsonObject.javascript c none) = Bson.code c
bson_of_object env (BsonObject.timestamp i t) = Bson.timestamp t i
bson_of_object env BsonObject.maxkey = Bson.maxkey
bson_of_object env BsonObject.minkey = Bson.minkey

unfoldable pub bson_of_int : ℤ → Bson
bson_of_int v = if ltb_ℤ int32_max v || ltb_ℤ v int32_min then Bson.int64 v else Bson.int32 v

unfoldable pub wrap : Shape → Doc → Bson
wrap as_array d = Bson.array d
wrap as_document d = Bson.document d

unfoldable mutual
  unfolding bson_of_object bson_of_int wrap

  pub bson_of : Env → Zval → Bson
  bson_of env (Zval.bool b) = Bson.bool b
  bson_of env (Zval.long v) = bson_of_int v
  bson_of env (Zval.double d) = Bson.double d
  bson_of env (Zval.string s) = Bson.utf8 s
  bson_of env (Zval.array t) = wrap (keys_from 0 t) (elements env t)
  bson_of env (Zval.bson o) = bson_of_object env o
  bson_of env _ = Bson.null

  pub elements : Env → Table → Doc
  elements env empty = finish
  elements env (entry k v t) = element (key_text env k) (bson_of env v) (elements env t)
