-- ===== src/BulkWrite.antt =====
-- src/MongoDB/BulkWrite.c, and `phongo_execute_write` of php_phongo.c. Methods are called with
-- arguments that `zend_parse_parameters` takes. A bulk operation of libmongoc is kept as what it has
-- been given.
pub mod Outcomes
pub mod Counting
pub mod Namespaces
pub mod Ids
pub mod Tests
use dotdeb_php_mongodb.Prelude.{
  ℕ, suc, ◌==◌, ltb, Bytes, codes, has_byte, Bool, true, false, ◌&&◌, ◌||◌, List, [], ◌∷◌, ◌++◌,
  Option, none, some, if◌then◌else◌, ℤ, pos, ltb_ℤ, not,
}
use dotdeb_php_mongodb.Errors.{
  Fault, BsonError, invalid_argument, write_failed, throw, throw_from_bson_error, is_pending,
}
use dotdeb_php_mongodb.Bson.{Bson, Doc, finish, element, corrupt, unsupported}
use dotdeb_php_mongodb.Php.{Zval, Table, Env, objectid}
use dotdeb_php_mongodb.Encode.{no_flags, Flags, zval_to_bson}
use dotdeb_php_mongodb.Mongoc.{
  Mongoc, Operation, insert_one, update_one, update_many, replace_one, remove_one, remove_many,
  Reply,
}
use dotdeb_php_mongodb.WriteConcern.{WriteConcern}
use dotdeb_php_mongodb.WriteResult.{WriteResult}
use dotdeb_php_mongodb.Options.{Applied, done, stopped, run_steps, append, fetch, opt_document}

-- `php_phongo_bulkwrite_t`, with the operations in its `bulk`, and the databases and collections on
-- which that has been run.
pub record BulkWrite : Type 0 where
  pub queue : List Operation
  pub ordered : Bool
  pub bypass : Option Bool
  pub num_ops : ℕ
  pub executed : Bool
  pub database : Option Bytes
  pub collection : Option Bytes
  pub runs : List (Bytes × Bytes)

-- A new object.
abbrev pub fresh_bulk : BulkWrite
fresh_bulk = record {
  queue = [];
  ordered = false;
  bypass = none;
  num_ops = 0;
  executed = false;
  database = none;
  collection = none;
  runs = [];
}

-- `php_array_existsc (…) && php_array_fetchc_bool (…)`.
unfoldable pub is_set : Env → Option Table → Bytes → Bool
unfolding fetch
is_set env options key = elim (fetch options key) [ none ↦ false | some z ↦ env.zval_to_bool z ]

-- `BulkWrite::__construct`.
unfoldable pub construct : Env → Option Table → BulkWrite → BulkWrite
unfolding fetch
construct env options intern = record intern {
  queue = [];
  ordered = elim (fetch options (codes "ordered")) [ none ↦ true | some z ↦ env.zval_to_bool z ];
  bypass = elim (fetch options (codes "bypassDocumentValidation")) [
    | none ↦ none
    | some z ↦ some (env.zval_to_bool z)
  ];
  num_ops = 0;
}

-- `php_phongo_bulkwrite_update_has_operators`.
unfoldable pub has_operators : Doc → Bool
unfolding has_byte
has_operators (element k b d) = has_byte b'$' k || has_operators d
has_operators _ = false

-- `php_phongo_bulkwrite_update_apply_options`.
unfoldable pub update_apply_options : Env → Mongoc → Option Table → Applied
unfolding is_set append run_steps opt_document
update_apply_options env m zoptions =
    run_steps
      (append m (codes "multi") (Bson.bool (is_set env zoptions (codes "multi")))
        ∷ append m (codes "upsert") (Bson.bool (is_set env zoptions (codes "upsert")))
        ∷ opt_document env m (codes "collation") zoptions (codes "collation") done
        ∷ [])
      finish

-- `php_phongo_bulkwrite_delete_apply_options`.
unfoldable pub delete_apply_options : Env → Mongoc → Option Table → Applied
unfolding is_set append run_steps opt_document
delete_apply_options env m zoptions =
    let limit = if is_set env zoptions (codes "limit") then 1 else 0 in
    run_steps
      (append m (codes "limit") (Bson.int32 (pos limit))
        ∷ opt_document env m (codes "collation") zoptions (codes "collation") done
        ∷ [])
      finish

-- A call of a `mongoc_bulk_operation_*_with_opts`, and `num_ops++` unless it fails.
unfoldable pub enqueue : Mongoc → BulkWrite → Operation → BulkWrite × List Fault
enqueue m intern op = elim (m.refuse intern.queue op) [
  | none ↦ (record intern { queue = intern.queue ++ op ∷ []; num_ops = suc intern.num_ops }, [])
  | some e ↦ (intern, throw_from_bson_error e ∷ [])
]

-- `BulkWrite::insert`: the object, the exceptions, and the `_id` that it returns.
unfoldable pub insert : Env → BulkWrite → Zval → Bool → BulkWrite × List Fault × Option Zval
unfolding zval_to_bson
insert env intern document return_value_used =
    let made =
      zval_to_bson env (record { add_id = true; return_id = return_value_used }) document in
    (
      record intern {
        queue = intern.queue ++ insert_one made.doc ∷ [];
        num_ops = suc intern.num_ops;
      },
      made.thrown,
      elim made.bson_out [
        | none ↦ none
        | some oid ↦
            if return_value_used then some (Zval.bson (objectid (env.oid_to_string oid))) else none
      ],
    )

-- `BulkWrite::update`, from the three documents on.
unfoldable pub update_with :
    Env → Mongoc → BulkWrite → Option Table → Doc → Doc → Doc → BulkWrite × List Fault
unfolding is_set has_operators enqueue
update_with env m intern zoptions bquery bupdate boptions =
    if has_operators bupdate
    then (if is_set env zoptions (codes "multi")
        then enqueue m intern (update_many bquery bupdate boptions)
        else enqueue m intern (update_one bquery bupdate boptions))
    else if m.validate bupdate
    then (if is_set env zoptions (codes "multi")
        then (
          intern,
          throw invalid_argument "Replacement document conflicts with true \"multi\" option" ∷ [],
        )
        else enqueue m intern (replace_one bquery bupdate boptions))
    else (
      intern,
      throw invalid_argument "Replacement document may not contain \"$\" or \".\" in keys" ∷ [],
    )

-- What follows the options: `goto cleanup` if they failed.
unfoldable pub with_options :
    BulkWrite → Applied → (Doc → BulkWrite × List Fault) → BulkWrite × List Fault
with_options intern (done boptions) next = next boptions
with_options intern (stopped d faults) next = (intern, faults)

-- `BulkWrite::update`.
unfoldable pub update :
    Env → Mongoc → BulkWrite → Zval → Zval → Option Table → BulkWrite × List Fault
unfolding zval_to_bson update_apply_options update_with with_options
update env m intern zquery zupdate zoptions =
    let query = zval_to_bson env no_flags zquery in
    let document = zval_to_bson env no_flags zupdate in
    if is_pending query.thrown
    then (intern, query.thrown)
    else if is_pending document.thrown
    then (intern, document.thrown)
    else with_options intern (update_apply_options env m zoptions)
        (update_with env m intern zoptions query.doc document.doc)

-- `BulkWrite::delete`, from the documents on.
unfoldable pub delete_with :
    Env → Mongoc → BulkWrite → Option Table → Doc → Doc → BulkWrite × List Fault
unfolding is_set enqueue
delete_with env m intern zoptions bquery boptions =
    if is_set env zoptions (codes "limit")
    then enqueue m intern (remove_one bquery boptions)
    else enqueue m intern (remove_many bquery boptions)

-- `BulkWrite::delete`.
unfoldable pub delete : Env → Mongoc → BulkWrite → Zval → Option Table → BulkWrite × List Fault
unfolding zval_to_bson delete_apply_options delete_with with_options
delete env m intern zquery zoptions =
    let query = zval_to_bson env no_flags zquery in
    if is_pending query.thrown
    then (intern, query.thrown)
    else with_options intern (delete_apply_options env m zoptions)
        (delete_with env m intern zoptions query.doc)

-- `BulkWrite::count`.
unfoldable pub count : BulkWrite → ℕ
count intern = intern.num_ops

-- `phongo_split_namespace`, on a C string.
unfoldable pub split_namespace : Bytes → Option (Bytes × Bytes)
split_namespace [] = none
split_namespace (c ∷ s) =
    let rest = split_namespace s in
    if c == b'.'
    then some ([], s)
    else elim rest [ none ↦ none | some parts ↦ some (c ∷ parts.0, parts.1) ]

-- What `phongo_execute_write` leaves: the object, its result, the exceptions, and the WriteResult, if
-- one has been made.
pub record Executed : Type 0 where
  pub intern : BulkWrite
  pub success : Bool
  pub thrown : List Fault
  pub result : Option WriteResult

-- `phongo_writeresult_init`, and the write concern.
abbrev pub phongo_writeresult : Reply → WriteConcern → WriteResult
phongo_writeresult reply concern = record {
  reply = reply.reply;
  server_id = reply.hint;
  write_concern = concern;
}

-- The server that is set as a hint.
abbrev pub hint_of : ℤ → Option ℤ
hint_of server_id = if ltb_ℤ (pos 0) server_id then some server_id else none

-- The write concern of the call, or else the client's.
abbrev pub concern_or : WriteConcern → Option WriteConcern → WriteConcern
concern_or client_concern none = client_concern
concern_or client_concern (some c) = c

-- After `mongoc_bulk_operation_execute`. An error of the domain `MONGOC_ERROR_COMMAND` or
-- `MONGOC_ERROR_WRITE_CONCERN` is a BulkWriteException.
unfoldable pub finish_write : BulkWrite → Reply → WriteConcern → Bool → Executed
unfolding throw_from_bson_error
finish_write intern reply concern return_value_used =
    if reply.success && not return_value_used
    then record { intern = intern; success = true; thrown = reply.raised; result = none }
    else if is_pending reply.raised
    then record { intern = intern; success = false; thrown = reply.raised; result = none }
    else record {
      intern = intern;
      success = reply.success;
      thrown =
          if reply.success
          then []
          else if (reply.error.domain == 11) || (reply.error.domain == 16)
          then throw write_failed reply.error.message ∷ []
          else throw_from_bson_error reply.error ∷ [];
      result = some (phongo_writeresult reply concern);
    }

-- `phongo_execute_write`; `client_concern` is the write concern of the client.
unfoldable pub execute_write :
    Mongoc → WriteConcern → Bytes → BulkWrite → Option WriteConcern → ℤ → Bool → Executed
unfolding split_namespace finish_write
execute_write m client_concern namespace intern write_concern server_id return_value_used =
    if intern.executed
    then record {
      intern = intern;
      success = false;
      thrown =
          throw write_failed
            "BulkWrite objects may only be executed once and this instance has already been executed"
          ∷ [];
      result = none;
    }
    else elim (split_namespace namespace) [
      | none ↦ record {
        intern = intern;
        success = false;
        thrown = throw invalid_argument "%s: %s" ∷ [];
        result = none;
      }
      | some names ↦
          finish_write
            (record intern {
              database = some names.0;
              collection = some names.1;
              executed = true;
              runs = intern.runs ++ names ∷ [];
            })
            (m.run intern.queue names.0 names.1 write_concern (hint_of server_id))
            (concern_or client_concern write_concern) return_value_used
    ]
