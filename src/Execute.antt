-- ===== src/Execute.antt =====
-- php_phongo.c, "CRUD": the execution of queries and commands. The functions of libmongoc that
-- make a cursor are parameters, and so is a read preference.
pub mod Queries
pub mod Failures
pub mod Tests
use dotdeb_php_mongodb.Prelude.{
  ℕ, suc, ◌==◌, ℤ, pos, ltb_ℤ, ◌&&◌, ◌||◌, not, Bytes, codes, bytes_eq, Bool, true, false, Option,
  none, some, List, [], ◌∷◌, ◌++◌, if◌then◌else◌,
}
use dotdeb_php_mongodb.Errors.{Fault, invalid_argument, mongoc_failed, throw, is_pending}
use dotdeb_php_mongodb.Bson.{Bson, Doc, element}
use dotdeb_php_mongodb.Decode.{Buffer}
use dotdeb_php_mongodb.BulkWrite.{split_namespace}
use dotdeb_php_mongodb.Query.{Query}
use dotdeb_php_mongodb.Cursor.{MongocCursor, Next, Cursor, cursor_init, error_faults}

-- `mongoc_collection_find_with_opts` on a collection of a database, with the read concern, the
-- filter, the options and the read preference; `mongoc_client_command`, which makes a cursor;
-- `mongoc_cursor_set_hint`, which may refuse; `mongoc_cursor_get_hint`; and
-- `mongoc_cursor_new_from_command_reply`.
pub record MongocClient (C P : Type 0) : Type 0 where
  pub find_with_opts : Bytes → Bytes → Option (Option Bytes) → Doc → Doc → Option P → Option C
  pub command : Bytes → Doc → Option P → C
  pub set_hint : C → ℤ → Option C
  pub get_hint : C → ℕ
  pub from_command_reply : Buffer → ℕ → C

-- The cursors of libmongoc that an execution makes, by their numbers: how many there have been,
-- which are not destroyed, and whether one has been destroyed that was not there.
pub record Heap : Type 0 where
  pub count : ℕ
  pub live : List ℕ
  pub misused : Bool

abbrev pub new_heap : Heap
new_heap = record { count = 0; live = []; misused = false }

-- The heap with a new cursor, whose number is the old count.
abbrev pub allocate : Heap → Heap
allocate heap = record heap { count = suc heap.count; live = heap.live ++ heap.count ∷ [] }

abbrev pub is_live : ℕ → List ℕ → Bool
is_live h [] = false
is_live h (x ∷ xs) = (x == h) || is_live h xs

abbrev pub without : ℕ → List ℕ → List ℕ
without h [] = []
without h (x ∷ xs) = let rest = without h xs in if x == h then xs else x ∷ rest

-- `mongoc_cursor_destroy`.
abbrev pub destroy : ℕ → Heap → Heap
destroy h heap = record heap {
  live = without h heap.live;
  misused = heap.misused || not (is_live h heap.live);
}

-- What an execution leaves: a cursor object with the number of the cursor that it owns, nothing
-- because none is wanted, or a failure; with the exceptions and the cursors of libmongoc. An
-- assertion of libbson that fails ends the process.
pub data Outcome (C : Type 0) : Type 0 where
  made : Cursor C → ℕ → List Fault → Heap → Outcome C
  unused : List Fault → Heap → Outcome C
  failed : List Fault → Heap → Outcome C
  aborted : Outcome C

-- What an advance leaves: whether there is no error, the exceptions, and the cursors.
pub record Checked : Type 0 where
  pub ok : Bool
  pub faults : List Fault
  pub heap : Heap

-- `phongo_advance_cursor_and_check_for_error`, on the cursor with a number; the exceptions thrown
-- before are among those it leaves. A cursor with an error is destroyed.
unfoldable pub check_for_error :
    {C : Type 0} → MongocCursor C → List Fault → Next C → ℕ → Heap → Checked
check_for_error mongoc thrown next h heap =
    let pending = thrown ++ next.raised in
    elim next.document [
      | some document ↦ record { ok = true; faults = pending; heap = heap }
      | none ↦
          if is_pending pending
          then record { ok = false; faults = pending; heap = destroy h heap }
          else elim (mongoc.error next.cursor) [
            | none ↦ record { ok = true; faults = []; heap = heap }
            | some e ↦ record { ok = false; faults = error_faults (some e); heap = destroy h heap }
          ]
    ]

-- `phongo_cursor_init_for_query`, with the namespace as it has been split.
abbrev pub init_for_query : {C : Type 0} → C → ℕ → Bytes × Bytes → Cursor C
init_for_query cursor hint names = record (cursor_init cursor hint) {
  database = some names.0;
  collection = some names.1;
}

-- `phongo_cursor_init_for_command`.
abbrev pub init_for_command : {C : Type 0} → C → ℕ → Bytes → Cursor C
init_for_command cursor hint db = record (cursor_init cursor hint) { database = some db }

-- `server_id > 0 && !mongoc_cursor_set_hint (…)`: the cursor with the hint, if that is taken.
unfoldable pub hinted : {C P : Type 0} → MongocClient C P → C → ℤ → Option C
hinted client cursor server_id =
    if ltb_ℤ (pos 0) server_id then client.set_hint cursor server_id else some cursor

-- The end of `phongo_execute_query`, once the cursor has its hint.
unfoldable pub finish_query :
    {C P : Type 0}
    → MongocClient C P
    → MongocCursor C
    → C
    → ℕ
    → Heap
    → Bytes × Bytes
    → Bool
    → Outcome C
unfolding check_for_error
finish_query client mongoc cursor h heap names return_value_used =
    let next = mongoc.next cursor in
    let checked = check_for_error mongoc [] next h heap in
    if checked.ok
    then (if return_value_used
        then made (init_for_query next.cursor (client.get_hint next.cursor) names) h checked.faults
            checked.heap
        else unused checked.faults (destroy h checked.heap))
    else failed checked.faults checked.heap

-- `phongo_execute_query`.
unfoldable pub execute_query :
    {C P : Type 0}
    → MongocClient C P
    → MongocCursor C
    → Bytes
    → Query
    → Option P
    → ℤ
    → Bool
    → Outcome C
unfolding split_namespace hinted finish_query
execute_query client mongoc namespace query preference server_id return_value_used =
    elim (split_namespace namespace) [
      | none ↦ failed (throw invalid_argument "%s: %s" ∷ []) new_heap
      | some names ↦
          elim (client.find_with_opts names.0 names.1 query.read_concern query.filter query.opts
            preference) [
              | none ↦ failed (throw mongoc_failed "%s" ∷ []) new_heap
              | some cursor ↦ elim (hinted client cursor server_id) [
                | none ↦ failed (throw mongoc_failed "%s" ∷ []) (allocate new_heap)
                | some cursor' ↦
                    finish_query client mongoc cursor' new_heap.count (allocate new_heap) names
                      return_value_used
              ]
            ]
    ]

-- `bson_iter_init_find` for "cursor", and `BSON_ITER_HOLDS_DOCUMENT`: the first element with that
-- key counts.
unfoldable pub has_cursor : Doc → Bool
has_cursor (element k (Bson.document d) rest) = bytes_eq k (codes "cursor") || has_cursor rest
has_cursor (element k b rest) = not (bytes_eq k (codes "cursor")) && has_cursor rest
has_cursor _ = false

abbrev pub holds_cursor : Buffer → Bool
holds_cursor reply = elim reply.document [ none ↦ false | some d ↦ has_cursor d ]

-- `phongo_execute_command` with a reply that has a cursor, after the cursor of the command is
-- destroyed: the new one is advanced; `thrown` is what the first advance has thrown.
unfoldable pub command_cursor :
    {C P : Type 0}
    → MongocClient C P
    → MongocCursor C
    → List Fault
    → Next C
    → ℕ
    → Heap
    → Bytes
    → Outcome C
unfolding check_for_error
command_cursor client mongoc thrown next h heap db =
    let checked = check_for_error mongoc thrown next h heap in
    if checked.ok
    then made (init_for_command next.cursor (client.get_hint next.cursor) db) h checked.faults
        checked.heap
    else failed checked.faults checked.heap

-- The end of `phongo_execute_command`, once the cursor has its hint.
unfoldable pub finish_command :
    {C P : Type 0} → MongocClient C P → MongocCursor C → C → ℕ → Heap → Bytes → Bool → Outcome C
unfolding check_for_error has_cursor command_cursor
finish_command client mongoc cursor h heap db return_value_used =
    let next = mongoc.next cursor in
    let checked = check_for_error mongoc [] next h heap in
    if not checked.ok
    then failed checked.faults checked.heap
    else if not return_value_used
    then unused checked.faults (destroy h checked.heap)
    else elim (mongoc.now next.cursor) [
      | none ↦ aborted
      | some reply ↦
          if holds_cursor reply
          then command_cursor client mongoc checked.faults
              (mongoc.next (client.from_command_reply reply (client.get_hint next.cursor)))
              checked.heap.count (destroy h (allocate checked.heap)) db
          else made (init_for_command next.cursor (client.get_hint next.cursor) db) h checked.faults
              checked.heap
    ]

-- `phongo_execute_command`.
unfoldable pub execute_command :
    {C P : Type 0}
    → MongocClient C P
    → MongocCursor C
    → Bytes
    → Doc
    → Option P
    → ℤ
    → Bool
    → Outcome C
unfolding hinted finish_command
execute_command client mongoc db bson preference server_id return_value_used =
    let cursor = client.command db bson preference in
    elim (hinted client cursor server_id) [
      | none ↦ failed (throw mongoc_failed "%s" ∷ []) (allocate new_heap)
      | some cursor' ↦
          finish_command client mongoc cursor' new_heap.count (allocate new_heap) db
            return_value_used
    ]
