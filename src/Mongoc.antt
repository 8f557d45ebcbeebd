-- ===== src/Mongoc.antt =====
-- What the extension's own classes ask of libmongoc and libbson: the operations that are handed to
-- a bulk operation, and the answers of the libraries, which are parameters.
use dotdeb_php_mongodb.Prelude.{ℤ, Bytes, Bool, List, Option}
use dotdeb_php_mongodb.Errors.{Fault, BsonError}
use dotdeb_php_mongodb.Bson.{Bson, Doc}
use dotdeb_php_mongodb.WriteConcern.{WriteConcern}

-- `mongoc_bulk_operation_insert`, and the `_with_opts` functions: selector, document, options.
pub data Operation : Type 0 where
  insert_one : Doc → Operation
  update_one update_many replace_one : Doc → Doc → Doc → Operation
  remove_one remove_many : Doc → Doc → Operation

-- What `mongoc_bulk_operation_execute` gives back: its result, its error, and the exceptions that
-- were thrown meanwhile (by a stream callback, say); then the reply of the server, and the server that
-- `mongoc_bulk_operation_get_hint` gives.
pub record Reply : Type 0 where
  pub success : Bool
  pub error : BsonError
  pub raised : List Fault
  pub reply : Doc
  pub hint : ℤ

-- `can_append` is whether `bson_append_*` has room for an element; `validate` is `bson_validate`
-- with `BSON_VALIDATE_DOT_KEYS | BSON_VALIDATE_DOLLAR_KEYS`; `refuse` is the error of a function
-- that adds to a bulk operation, if it fails; `run` executes one, on a database and a
-- collection, with the write concern and the server that have been set for it.
pub record Mongoc : Type 0 where
  pub can_append : Doc → Bytes → Bson → Bool
  pub validate : Doc → Bool
  pub refuse : List Operation → Operation → Option BsonError
  pub run : List Operation → Bytes → Bytes → Option WriteConcern → Option ℤ → Reply
