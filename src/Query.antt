-- ===== src/Query.antt =====
-- src/MongoDB/Query.c: the filter and the options of a query.
pub mod Keys
pub mod Limit
pub mod Tests
use dotdeb_php_mongodb.Prelude.{
  ℤ, pos, ltb_ℤ, neg_ℤ, ◌==ℤ◌, int64_min, Bytes, String, codes, Bool, true, false, ◌&&◌, not, List,
  [], ◌∷◌, Option, none, some, if◌then◌else◌,
}
use dotdeb_php_mongodb.Errors.{Fault, invalid_argument, throw, is_pending}
use dotdeb_php_mongodb.Bson.{Bson, Doc, finish}
use dotdeb_php_mongodb.Php.{Zval, Table, Env}
use dotdeb_php_mongodb.Encode.{no_flags, zval_to_bson}
use dotdeb_php_mongodb.Mongoc.{Mongoc}
use dotdeb_php_mongodb.Options.{
  Applied, done, stopped, and_then, run_steps, refuse, append, append_document, append_string,
  fetch, is_document, when_found, opt_bool, opt_int64, opt_document, opt_string,
}

-- `php_phongo_query_t`. A read concern is its level, if it has one.
pub record Query : Type 0 where
  pub filter : Doc
  pub opts : Doc
  pub read_concern : Option (Option Bytes)

-- `-limit` of a 64-bit integer: INT64_MIN, for which C leaves the result open, comes back as it is on
-- two's complement.
unfoldable pub neg_long : ℤ → ℤ
neg_long v = if v ==ℤ int64_min then v else neg_ℤ v

-- A hint, or an exception with the message for the place where it was found.
unfoldable pub append_hint : Env → Mongoc → String → Zval → Doc → Applied
unfolding append_string append_document is_document
append_hint env m message (Zval.string s) d = append_string m (codes "hint") (Zval.string s) d
append_hint env m message z d =
    if is_document z then append_document env m (codes "hint") z d else refuse d message

-- `php_phongo_query_init_hint`.
unfoldable pub init_hint : Env → Mongoc → Table → Option Table → Doc → Applied
unfolding append_hint fetch when_found
init_hint env m options modifiers =
    when_found (fetch (some options) (codes "hint"))
      (append_hint env m "Expected \"hint\" option to be string, array, or object, %s given")
      (when_found (fetch modifiers (codes "$hint"))
        (append_hint env m "Expected \"$hint\" modifier to be string, array, or object, %s given")
        done)

-- The `limit` option, if it is there and negative.
unfoldable pub negative_limit : Env → Table → Option ℤ
unfolding fetch
negative_limit env options = elim (fetch (some options) (codes "limit")) [
  | none ↦ none
  | some z ↦ if ltb_ℤ (env.zval_to_long z) (pos 0) then some (env.zval_to_long z) else none
]

-- Whether `singleBatch` is there and false.
unfoldable pub is_single_batch_off : Env → Table → Bool
unfolding fetch
is_single_batch_off env options = elim (fetch (some options) (codes "singleBatch")) [
  | none ↦ false
  | some z ↦ not (env.zval_to_bool z)
]

-- The two branches of `php_phongo_query_init_limit_and_singlebatch`.
unfoldable pub limit_and_singlebatch : Env → Mongoc → Table → Option ℤ → Doc → Applied
unfolding neg_long is_single_batch_off and_then append opt_int64 opt_bool
limit_and_singlebatch env m options (some limit) d =
    and_then (append m (codes "limit") (Bson.int64 (neg_long limit)) d) (λ e.
      if is_single_batch_off env options
      then refuse e "Negative \"limit\" option conflicts with false \"singleBatch\" option"
      else append m (codes "singleBatch") (Bson.bool true) e)
limit_and_singlebatch env m options none d =
    and_then (opt_int64 env m (codes "limit") (some options) (codes "limit") done d)
      (opt_bool env m (codes "singleBatch") (some options) (codes "singleBatch") done)

-- `php_phongo_query_init_limit_and_singlebatch`.
unfoldable pub init_limit_and_singlebatch : Env → Mongoc → Table → Doc → Applied
unfolding negative_limit limit_and_singlebatch
init_limit_and_singlebatch env m options =
    limit_and_singlebatch env m options (negative_limit env options)

-- The option macros of `php_phongo_query_init`, in their order, and the calls for the hint and the
-- limit.
unfoldable pub query_steps : Env → Mongoc → Table → Option Table → List (Doc → Applied)
unfolding opt_bool opt_int64 opt_document opt_string init_hint init_limit_and_singlebatch
query_steps env m options modifiers =
    let bool : Bytes → (Doc → Applied) → Doc → Applied =
      λ key. opt_bool env m key (some options) key in
    let int64 : Bytes → (Doc → Applied) → Doc → Applied =
      λ key. opt_int64 env m key (some options) key in
    let document : Bytes → (Doc → Applied) → Doc → Applied =
      λ key. opt_document env m key (some options) key in
    bool (codes "allowPartialResults")
      (opt_bool env m (codes "allowPartialResults") (some options) (codes "partial") done)
    ∷ bool (codes "awaitData") done
    ∷ int64 (codes "batchSize") done
    ∷ document (codes "collation") done
    ∷ opt_string m (codes "comment") (some options) (codes "comment")
        (opt_string m (codes "comment") modifiers (codes "$comment") done)
    ∷ bool (codes "exhaust") done
    ∷ document (codes "max") (opt_document env m (codes "max") modifiers (codes "$max") done)
    ∷ int64 (codes "maxScan") (opt_int64 env m (codes "maxScan") modifiers (codes "$maxScan") done)
    ∷ int64 (codes "maxTimeMS")
        (opt_int64 env m (codes "maxTimeMS") modifiers (codes "$maxTimeMS") done)
    ∷ document (codes "min") (opt_document env m (codes "min") modifiers (codes "$min") done)
    ∷ bool (codes "noCursorTimeout") done
    ∷ bool (codes "oplogReplay") done
    ∷ document (codes "projection") done
    ∷ bool (codes "returnKey")
        (opt_bool env m (codes "returnKey") modifiers (codes "$returnKey") done)
    ∷ bool (codes "showRecordId")
        (opt_bool env m (codes "showRecordId") modifiers (codes "$showDiskLoc") done)
    ∷ int64 (codes "skip") done
    ∷ document (codes "sort") (opt_document env m (codes "sort") modifiers (codes "$orderby") done)
    ∷ bool (codes "snapshot") (opt_bool env m (codes "snapshot") modifiers (codes "$snapshot") done)
    ∷ bool (codes "tailable") done
    ∷ opt_bool env m (codes "explain") modifiers (codes "$explain") done
    ∷ init_hint env m options modifiers
    ∷ init_limit_and_singlebatch env m options
    ∷ []

-- `php_phongo_query_init_readconcern`, once the options are there; `concern_of` is the read concern
-- of a value that is a ReadConcern object.
unfoldable pub init_readconcern :
    (Zval → Option (Option Bytes)) → Table → Query → Query × List Fault
unfolding fetch
init_readconcern concern_of options intern = elim (fetch (some options) (codes "readConcern")) [
  | none ↦ (intern, [])
  | some z ↦ elim (concern_of z) [
    | none ↦
        (intern, throw invalid_argument "Expected \"readConcern\" option to be %s, %s given" ∷ [])
    | some level ↦ (record intern { read_concern = some level }, [])
  ]
]

-- `php_phongo_query_init` after the steps on the options.
unfoldable pub after_steps :
    (Zval → Option (Option Bytes)) → Table → Query → Applied → Query × List Fault
unfolding init_readconcern
after_steps concern_of options intern (done d) =
    init_readconcern concern_of options (record intern { opts = d })
after_steps concern_of options intern (stopped d faults) = (record intern { opts = d }, faults)

-- The `modifiers` option: what it is, or none if the options have none.
pub data Modifiers : Type 0 where
  given : Option Table → Modifiers
  mistyped : Modifiers

unfoldable pub modifiers_of : Option Zval → Modifiers
modifiers_of none = given none
modifiers_of (some (Zval.array t)) = given (some t)
modifiers_of (some _) = mistyped

unfoldable pub init_options :
    Env → Mongoc → (Zval → Option (Option Bytes)) → Table → Query → Modifiers → Query × List Fault
unfolding query_steps run_steps after_steps
init_options env m concern_of options intern (given modifiers) =
    after_steps concern_of options intern
      (run_steps (query_steps env m options modifiers) intern.opts)
init_options env m concern_of options intern mistyped =
    (intern, throw invalid_argument "Expected \"modifiers\" option to be array, %s given" ∷ [])

unfoldable pub with_filter :
    Env → Mongoc → (Zval → Option (Option Bytes)) → Option Table → Query → Query × List Fault
unfolding fetch modifiers_of init_options
with_filter env m concern_of none intern = (intern, [])
with_filter env m concern_of (some options) intern =
    init_options env m concern_of options intern
      (modifiers_of (fetch (some options) (codes "modifiers")))

-- `php_phongo_query_init`: the object, and the exceptions.
unfoldable pub query_init :
    Env → Mongoc → (Zval → Option (Option Bytes)) → Zval → Option Table → Query × List Fault
unfolding zval_to_bson with_filter
query_init env m concern_of filter options =
    let made = zval_to_bson env no_flags filter in
    let intern : Query = record { filter = made.doc; opts = finish; read_concern = none } in
    let rest = with_filter env m concern_of options intern in
    if is_pending made.thrown then (intern, made.thrown) else rest
