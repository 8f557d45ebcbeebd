-- ===== src/WriteResult.antt =====
-- src/MongoDB/WriteResult.c, and `phongo_writeerror_init` and `phongo_writeconcernerror_init` of
-- php_phongo.c: what is read from the reply of libmongoc to a bulk operation. An array of objects of
-- the class WriteError is a list.
--
-- `bson_iter_recurse`, `bson_init_static` and the reader find the documents inside a reply whole,
-- since the iterator has tested their lengths.
pub mod Upserts
pub mod Tests
use dotdeb_php_mongodb.Prelude.{
  ℕ, ℤ, pos, Bytes, bytes_eq, codes, Bool, true, false, List, [], ◌∷◌, Option, none, some,
  if◌then◌else◌,
}
use dotdeb_php_mongodb.Errors.{Fault}
use dotdeb_php_mongodb.Bson.{Bson, Doc, element, finish}
use dotdeb_php_mongodb.Php.{Zval, Table, empty, index, objectid, Env}
use dotdeb_php_mongodb.Php.Hash.{update}
use dotdeb_php_mongodb.TypeMap.{initial_map}
use dotdeb_php_mongodb.Decode.{Decoded, whole, bson_to_zval_ex, get_value}
use dotdeb_php_mongodb.Timestamp.{to_u32}
use dotdeb_php_mongodb.WriteConcern.{WriteConcern}

-- `php_phongo_writeresult_t`, without the Manager. The functions below that read the reply have it
-- as their argument.
pub record WriteResult : Type 0 where
  pub reply : Doc
  pub server_id : ℤ
  pub write_concern : WriteConcern

-- `WriteResult::isAcknowledged`; `acknowledged` is `mongoc_write_concern_is_acknowledged`.
abbrev pub is_acknowledged : (WriteConcern → Bool) → WriteResult → Bool
is_acknowledged acknowledged intern = acknowledged intern.write_concern

-- `bson_iter_find`: the first element with the key, and what follows it.
unfoldable pub find_from : Bytes → Doc → Option (Bson × Doc)
unfolding bytes_eq
find_from key (element k b rest) = if bytes_eq key k then some (b, rest) else find_from key rest
find_from key _ = none

-- The value of that element.
abbrev pub value_at : Option (Bson × Doc) → Option Bson
value_at none = none
value_at (some p) = some p.0

-- `php_phongo_writeconcernerror_t`; the message and the information may be missing.
pub record WriteConcernError : Type 0 where
  pub code : ℤ
  pub message : Option Bytes
  pub info : Option Zval

-- `php_phongo_writeerror_t`.
pub record WriteError : Type 0 where
  pub code : ℤ
  pub message : Option Bytes
  pub info : Option Zval
  pub index : ℕ

-- A 32-bit integer, or what a new object has.
abbrev pub int32_of : Option Bson → ℤ
int32_of (some (Bson.int32 v)) = v
int32_of _ = pos 0

abbrev pub text_of : Option Bson → Option Bytes
text_of (some (Bson.utf8 s)) = some s
text_of _ = none

-- The member `info` after the test on `errInfo`, or nothing if its conversion failed, and the
-- exceptions.
abbrev pub converted_info : Decoded → Option (Option Zval) × List Fault
converted_info r = (if r.success then some (some (get_value r.value)) else none, r.thrown)

unfoldable pub read_info : Env → Option Bson → List Fault → Option (Option Zval) × List Fault
unfolding bson_to_zval_ex
read_info env (some (Bson.document d)) thrown =
    converted_info (bson_to_zval_ex env (whole d) initial_map none thrown)
read_info env _ thrown = (some none, thrown)

-- `phongo_writeconcernerror_init`: the object, if it returns true, and the exceptions.
unfoldable pub writeconcernerror_init :
    Env → Doc → List Fault → Option WriteConcernError × List Fault
unfolding find_from read_info
writeconcernerror_init env bson thrown =
    let code = int32_of (value_at (find_from (codes "code") bson)) in
    let message = text_of (value_at (find_from (codes "errmsg") bson)) in
    let (info, faults) = read_info env (value_at (find_from (codes "errInfo") bson)) thrown in
    (
      elim info as (λ _. Option WriteConcernError) [
        | none ↦ none
        | some i ↦ some (record { code = code; message = message; info = i })
      ],
      faults,
    )

-- `phongo_writeerror_init`.
unfoldable pub writeerror_init : Env → Doc → List Fault → Option WriteError × List Fault
unfolding find_from read_info
writeerror_init env bson thrown =
    let code = int32_of (value_at (find_from (codes "code") bson)) in
    let message = text_of (value_at (find_from (codes "errmsg") bson)) in
    let (info, faults) = read_info env (value_at (find_from (codes "errInfo") bson)) thrown in
    let at = to_u32 (int32_of (value_at (find_from (codes "index") bson))) in
    (
      elim info as (λ _. Option WriteError) [
        | none ↦ none
        | some i ↦ some (record { code = code; message = message; info = i; index = at })
      ],
      faults,
    )

-- The loop of `php_phongo_writeresult_get_writeconcernerror`, which ends at the first document; the
-- first part is what it returns, the second the object, if there is one.
unfoldable pub first_concern_error :
    Env → Doc → List Fault → Bool × (Option WriteConcernError × List Fault)
unfolding writeconcernerror_init
first_concern_error env (element k (Bson.document d) rest) thrown =
    let (error, faults) = writeconcernerror_init env d thrown in
    (elim error [ none ↦ false | some e ↦ true ], (error, faults))
first_concern_error env (element k b rest) thrown = first_concern_error env rest thrown
first_concern_error env _ thrown = (true, (none, thrown))

-- The elements of an array that a test has found, and none if it has not.
abbrev pub array_of : Option Bson → Doc
array_of (some (Bson.array d)) = d
array_of _ = finish

-- `php_phongo_writeresult_get_writeconcernerror`.
unfoldable pub get_writeconcernerror : Env → Doc → Bool × (Option WriteConcernError × List Fault)
unfolding find_from first_concern_error
get_writeconcernerror env reply =
    first_concern_error env (array_of (value_at (find_from (codes "writeConcernErrors") reply))) []

-- The loop of `php_phongo_writeresult_get_writeerrors`: an error whose information cannot be
-- converted is left out, and the exception stays.
unfoldable pub each_writeerror : Env → Doc → List Fault → List WriteError × List Fault
unfolding writeerror_init
each_writeerror env (element k (Bson.document d) rest) thrown =
    let (error, faults) = writeerror_init env d thrown in
    let (errors, after) = each_writeerror env rest faults in
    (elim error as (λ _. List WriteError) [ none ↦ errors | some e ↦ e ∷ errors ], after)
each_writeerror env (element k b rest) thrown = each_writeerror env rest thrown
each_writeerror env _ thrown = ([], thrown)

-- `php_phongo_writeresult_get_writeerrors`.
unfoldable pub get_writeerrors : Env → Doc → List WriteError × List Fault
unfolding find_from each_writeerror
get_writeerrors env reply =
    each_writeerror env (array_of (value_at (find_from (codes "writeErrors") reply))) []

-- `RETURN_LONG_FROM_BSON_INT32`, for the five counts.
abbrev pub count_of : Option Bson → Zval
count_of (some (Bson.int32 v)) = Zval.long v
count_of _ = Zval.null

unfoldable pub get_count : Bytes → Doc → Zval
unfolding find_from
get_count key reply = count_of (value_at (find_from key reply))

abbrev pub get_inserted_count : Doc → Zval
get_inserted_count reply = get_count (codes "nInserted") reply

abbrev pub get_matched_count : Doc → Zval
get_matched_count reply = get_count (codes "nMatched") reply

abbrev pub get_modified_count : Doc → Zval
get_modified_count reply = get_count (codes "nModified") reply

abbrev pub get_deleted_count : Doc → Zval
get_deleted_count reply = get_count (codes "nRemoved") reply

abbrev pub get_upserted_count : Doc → Zval
get_upserted_count reply = get_count (codes "nUpserted") reply

-- The value that `getUpsertedIds` makes of an `_id`: of an ObjectID or an integer, and none of
-- any other type.
abbrev pub upserted_id : Env → Option Bson → Option Zval
upserted_id env (some (Bson.oid o)) = some (Zval.bson (objectid (env.oid_to_string o)))
upserted_id env (some (Bson.int32 v)) = some (Zval.long v)
upserted_id env (some (Bson.int64 v)) = some (Zval.long v)
upserted_id env _ = none

-- `add_index_zval`, if there is a value.
abbrev pub add_index : Table → ℤ → Option Zval → Table
add_index t i none = t
add_index t i (some z) = update t (index i) z

-- One document of "upserted", after its "index" has been found: `_id` is looked for behind it.
unfoldable pub add_upserted : Env → Table → Option (Bson × Doc) → Table
unfolding find_from update
add_upserted env t (some (Bson.int32 i, outer)) =
    add_index t i (upserted_id env (value_at (find_from (codes "_id") outer)))
add_upserted env t _ = t

-- The loop of `getUpsertedIds`.
unfoldable pub each_upserted : Env → Doc → Table → Table
unfolding find_from add_upserted
each_upserted env (element k (Bson.document d) rest) t =
    each_upserted env rest (add_upserted env t (find_from (codes "index") d))
each_upserted env (element k b rest) t = each_upserted env rest t
each_upserted env _ t = t

-- `WriteResult::getUpsertedIds`.
unfoldable pub get_upserted_ids : Env → Doc → Table
unfolding find_from each_upserted
get_upserted_ids env reply =
    each_upserted env (array_of (value_at (find_from (codes "upserted") reply))) empty
