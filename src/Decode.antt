-- ===== src/Decode.antt =====
-- src/bson.c, from BSON to PHP: the visitors, `phongo_bson_to_zval_ex` and `toPHP`.
--
-- libbson walks a document and calls a visitor for each element, until one returns true or the data
-- end badly; it passes over an element whose visitor is NULL. `visit_all` follows that contract of
-- `bson_iter_visit_all`. Elements are read as well-formed: their keys are UTF-8, and a nested
-- document has a header, so that `bson_iter_init` succeeds on it.
pub mod Visitors
pub mod Documents
use dotdeb_php_mongodb.Prelude.{
  Bytes, Bool, true, false, Option, none, some, List, [], ◌∷◌, ◌++◌, ◌||◌, not, String,
  if◌then◌else◌,
}
use dotdeb_php_mongodb.Errors.{Fault, unexpected_value, throw, is_pending}
use dotdeb_php_mongodb.Bson.{Bson, Doc, finish, corrupt, unsupported, element}
use dotdeb_php_mongodb.Php.{Zval, Table, Env, ClassEntry}
use dotdeb_php_mongodb.TypeMap.{TypeMap, initial_map, typemap_to_state}
use Visitors.{
  State, initial_state, visit_double, visit_utf8, visit_oid, visit_bool, visit_date_time,
  visit_decimal128, visit_null, visit_regex, visit_code, visit_codewscope, visit_int32,
  visit_timestamp, visit_int64, visit_maxkey, visit_minkey, visit_binary, visit_unsupported_type,
}
use Documents.{with_odm, convert_document, child_state, visit_document, visit_array}

unfoldable mutual
  unfolding visit_double visit_utf8 visit_oid visit_bool visit_date_time visit_decimal128 visit_null
      visit_regex visit_code visit_codewscope visit_int32 visit_timestamp visit_int64 visit_maxkey
      visit_minkey visit_binary visit_unsupported_type child_state visit_document visit_array

  -- `php_bson_visitors`.
  pub visit : Env → State → Bytes → Bson → State × Bool
  visit env st k (Bson.double v) = visit_double env st k v
  visit env st k (Bson.utf8 v) = visit_utf8 env st k v
  visit env st k (Bson.document d) =
      visit_document env st k (visit_all env (child_state false st) d)
  visit env st k (Bson.array d) = visit_array env st k (visit_all env (child_state true st) d)
  visit env st k (Bson.binary t v) = visit_binary env st k t v
  visit env st k Bson.undefined = (st, false)
  visit env st k (Bson.oid v) = visit_oid env st k v
  visit env st k (Bson.bool v) = visit_bool env st k v
  visit env st k (Bson.date_time v) = visit_date_time env st k v
  visit env st k Bson.null = visit_null env st k
  visit env st k (Bson.regex p o) = visit_regex env st k p o
  visit env st k (Bson.dbpointer c o) = (st, false)
  visit env st k (Bson.code c) = visit_code env st k c
  visit env st k (Bson.symbol s) = (st, false)
  visit env st k (Bson.codewscope c s) = visit_codewscope env st k c s
  visit env st k (Bson.int32 v) = visit_int32 env st k v
  visit env st k (Bson.timestamp t i) = visit_timestamp env st k t i
  visit env st k (Bson.int64 v) = visit_int64 env st k v
  visit env st k (Bson.decimal128 h l) = visit_decimal128 env st k h l
  visit env st k Bson.maxkey = visit_maxkey env st k
  visit env st k Bson.minkey = visit_minkey env st k

  -- `bson_iter_visit_all`: the state after it, and whether a visitor returned true or `err_off` was
  -- set.
  pub visit_all : Env → State → Doc → State × Bool
  visit_all env st finish = (st, false)
  visit_all env st corrupt = (st, true)
  visit_all env st (unsupported k c) = (visit_unsupported_type st, true)
  visit_all env st (element k b d) =
      let (st', stop) = visit env st k b in
      let rest = visit_all env st' d in if stop then (st', true) else rest

-- What `bson_reader_t` makes of the input: the first document, whether an iterator can be made on
-- it, whether a second read finds a document, and `eof` after that read.
pub record Buffer : Type 0 where
  pub document : Option Doc
  pub iterable : Bool
  pub more : Bool
  pub eof : Bool

-- An input that holds one document and no more.
abbrev pub whole : Doc → Buffer
whole d = record { document = some d; iterable = true; more = false; eof = true }

-- What `phongo_bson_to_zval_ex` leaves: its result, the value in `zchild` (which is undefined
-- before there is one), the map and the class of the state, and the exceptions.
pub record Decoded : Type 0 where
  pub success : Bool
  pub value : Option Zval
  pub map : TypeMap
  pub odm : Option ClassEntry
  pub thrown : List Fault
  pub inits : List (Option ClassEntry)

-- The end of a call that fails.
abbrev pub failure : Option Zval → State → String → Decoded
failure value st message = record {
  success = false;
  value = value;
  map = st.map;
  odm = st.odm;
  thrown = st.thrown ++ throw unexpected_value message ∷ [];
  inits = st.inits;
}

-- A class that `__pclass` named supersedes a default type map, and stays in the state.
abbrev pub supersede : State → State
supersede st = record st {
  map = record st.map { root = record st.map.root { type = with_odm st.odm st.map.root.type } };
}

-- After the root has its value: the input must end here.
unfoldable pub finish_root : Buffer → Zval × State → Decoded
unfolding with_odm
finish_root buffer (v, st) =
    if buffer.more || not buffer.eof
    then failure (some v) (supersede st) "Reading document did not exhaust input buffer"
    else record {
      success = true;
      value = some v;
      map = (supersede st).map;
      odm = st.odm;
      thrown = st.thrown;
      inits = st.inits;
    }

-- After the visit of the root: an exception that has been thrown is not overwritten.
unfoldable pub root_to_zval : Env → Buffer → State × Bool → Decoded
unfolding convert_document finish_root
root_to_zval env buffer (st, true) =
    if is_pending st.thrown
    then record {
      success = false;
      value = some (Zval.array st.zchild);
      map = st.map;
      odm = st.odm;
      thrown = st.thrown;
      inits = st.inits;
    }
    else failure (some (Zval.array st.zchild)) st "Detected corrupt BSON data"
root_to_zval env buffer (st, false) = finish_root buffer (convert_document env st.map.root st)

-- `phongo_bson_to_zval_ex`, from the first document that the reader finds, in its first state.
unfoldable pub decode_document : Env → Buffer → State → Option Doc → Decoded
unfolding visit_all root_to_zval
decode_document env buffer st none = failure none st "Could not read document from BSON reader"
decode_document env buffer st (some d) =
    if buffer.iterable
    then root_to_zval env buffer (visit_all env st d)
    else failure none st "Could not initialize BSON iterator"

-- `phongo_bson_to_zval_ex`, with the type map of the state, the class that an earlier document has
-- left in it, and the exceptions thrown before.
unfoldable pub bson_to_zval_ex : Env → Buffer → TypeMap → Option ClassEntry → List Fault → Decoded
unfolding decode_document
bson_to_zval_ex env buffer map odm thrown =
    decode_document env buffer (initial_state map odm thrown) buffer.document

abbrev pub get_value : Option Zval → Zval
get_value none = Zval.null
get_value (some v) = v

-- `toPHP`, whose state has no class of an earlier document: a failed conversion returns NULL, with
-- the exception.
unfoldable pub to_php : Env → Buffer → Option Table → Zval × List Fault
unfolding bson_to_zval_ex typemap_to_state
to_php env buffer typemap =
    let (map, faults) = typemap_to_state env typemap initial_map in
    let decoded = bson_to_zval_ex env buffer map none faults in
    (if decoded.success then get_value decoded.value else Zval.null, decoded.thrown)
