-- ===== src/Options.antt =====
-- The option macros and helpers of src/MongoDB/BulkWrite.c and src/MongoDB/Query.c: each one adds
-- at most one element to a document of options, or throws.
pub mod Extending
use dotdeb_php_mongodb.Prelude.{
  Bytes, String, Bool, true, false, List, [], ◌∷◌, Option, none, some, if◌then◌else◌,
}
use dotdeb_php_mongodb.Errors.{Fault, invalid_argument, throw, is_pending}
use dotdeb_php_mongodb.Bson.{Bson, Doc, ◌+++◌, single}
use dotdeb_php_mongodb.Php.{name, Zval, Table, Env}
use dotdeb_php_mongodb.Php.Hash.{find}
use dotdeb_php_mongodb.Encode.{no_flags, zval_to_bson}
use dotdeb_php_mongodb.Mongoc.{Mongoc}

-- The document of options after a helper, and whether the function goes on or returns false after
-- the exceptions.
pub data Applied : Type 0 where
  done : Doc → Applied
  stopped : Doc → List Fault → Applied

-- One helper after another.
unfoldable pub and_then : Applied → (Doc → Applied) → Applied
and_then (done d) f = f d
and_then (stopped d fs) f = stopped d fs

unfoldable pub run_steps : List (Doc → Applied) → Doc → Applied
unfolding and_then
run_steps [] d = done d
run_steps (f ∷ fs) d = and_then (f d) (run_steps fs)

abbrev pub refuse : Doc → String → Applied
refuse d message = stopped d (throw invalid_argument message ∷ [])

-- `BSON_APPEND_*`, and the exception if it returns false.
unfoldable pub append : Mongoc → Bytes → Bson → Doc → Applied
unfolding ◌+++◌
append m opt b d =
    if m.can_append d opt b
    then done (d +++ single opt b)
    else refuse d "Error appending \"%s\" option"

-- `php_array_fetchc`, on an array that may be NULL.
unfoldable pub fetch : Option Table → Bytes → Option Zval
unfolding find
fetch none key = none
fetch (some zarr) key = find zarr (name key)

-- What follows a key that is there, and what follows one that is not.
unfoldable pub when_found : Option Zval → (Zval → Doc → Applied) → (Doc → Applied) → Doc → Applied
when_found none found missing d = missing d
when_found (some z) found missing d = found z d

-- `IS_OBJECT` or `IS_ARRAY`.
unfoldable pub is_document : Zval → Bool
is_document (Zval.array t) = true
is_document (Zval.bson o) = true
is_document (Zval.object c p r) = true
is_document _ = false

-- `php_phongo_bulkwrite_opts_append_document` and `php_phongo_query_opts_append_document`.
unfoldable pub append_document : Env → Mongoc → Bytes → Zval → Doc → Applied
unfolding is_document zval_to_bson append
append_document env m opt value d =
    if is_document value
    then (let made = zval_to_bson env no_flags value in
        if is_pending made.thrown
        then stopped d made.thrown
        else append m opt (Bson.document made.doc) d)
    else refuse d "Expected \"%s\" option to be array or object, %s given"

-- `php_phongo_query_opts_append_string`.
unfoldable pub append_string : Mongoc → Bytes → Zval → Doc → Applied
unfolding append
append_string m opt (Zval.string s) d = append m opt (Bson.utf8 s) d
append_string m opt _ d = refuse d "Expected \"%s\" %s to be string, %s given"

-- `PHONGO_QUERY_OPT_BOOL` and its like: the option, the array and the key in it, and what stands
-- after `else`.
unfoldable pub opt_bool :
    Env → Mongoc → Bytes → Option Table → Bytes → (Doc → Applied) → Doc → Applied
unfolding append fetch when_found
opt_bool env m opt zarr key otherwise =
    when_found (fetch zarr key) (λ z. append m opt (Bson.bool (env.zval_to_bool z))) otherwise

unfoldable pub opt_int64 :
    Env → Mongoc → Bytes → Option Table → Bytes → (Doc → Applied) → Doc → Applied
unfolding append fetch when_found
opt_int64 env m opt zarr key otherwise =
    when_found (fetch zarr key) (λ z. append m opt (Bson.int64 (env.zval_to_long z))) otherwise

unfoldable pub opt_document :
    Env → Mongoc → Bytes → Option Table → Bytes → (Doc → Applied) → Doc → Applied
unfolding append_document fetch when_found
opt_document env m opt zarr key otherwise =
    when_found (fetch zarr key) (append_document env m opt) otherwise

unfoldable pub opt_string : Mongoc → Bytes → Option Table → Bytes → (Doc → Applied) → Doc → Applied
unfolding append_string fetch when_found
opt_string m opt zarr key otherwise = when_found (fetch zarr key) (append_string m opt) otherwise
