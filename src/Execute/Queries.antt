-- ===== src/Execute/Queries.antt =====
-- php_phongo.c, `phongo_execute_query` and `phongo_execute_command`: what they give back.
use dotdeb_php_mongodb.Prelude.{
  ℤ, ℕ, suc, ◌<◌, length, Bytes, true, Option, none, some, List, [], ◌∷◌, ◌≡◌, refl, ap,
  if◌then◌else◌, subst,
}
use dotdeb_php_mongodb.Errors.{Fault, is_pending}
use dotdeb_php_mongodb.Php.{Zval, Env}
use dotdeb_php_mongodb.TypeMap.{initial_map}
use dotdeb_php_mongodb.Decode.{Buffer}
use dotdeb_php_mongodb.Cursor.{MongocCursor, Next, to_array}
use dotdeb_php_mongodb.Cursor.Contents.{Yields, given, standing, each_converted, listed}
use dotdeb_php_mongodb.Cursor.Arrays.{shown, to_array-each_converted}
use dotdeb_php_mongodb.Execute.{
  MongocClient, Outcome, Heap, new_heap, allocate, made, check_for_error, init_for_query,
  finish_query, execute_query, Query, split_namespace, hinted,
}

-- What `toArray` gives on the cursor object, if there is one.
abbrev pub array_of :
    {C : Type 0} → Env → MongocCursor C → ℕ → Outcome C → Option (Zval × List Fault)
array_of env mongoc fuel (made intern h faults heap) = shown (to_array env mongoc fuel intern)
array_of env mongoc fuel _ = none

module _ {C P : Type 0} (env : Env) (client : MongocClient C P) (mongoc : MongocCursor C)
    (law : (c : C) (b : Buffer)
      → (mongoc.next c).document ≡ some b
      → mongoc.now (mongoc.next c).cursor ≡ some b) where
  finish_query-given :
      (cursor c' : C) (h : ℕ) (heap : Heap) (document : Buffer) (names : Bytes × Bytes)
      → mongoc.next cursor ≡ record { document = some document; cursor = c'; raised = [] }
      → finish_query client mongoc cursor h heap names true
        ≡ made (init_for_query c' (client.get_hint c') names) h [] heap
  unfolding finish_query check_for_error
  finish_query-given cursor c' h heap document names e = rw e refl

  finish_query-to_array :
      (documents : List Buffer) (end : List Fault) (document : Buffer) (cursor c : C) (h : ℕ)
      (heap : Heap) (names : Bytes × Bytes) (fuel : ℕ)
      → Yields mongoc c (document ∷ documents) end
      → cursor ≡ c
      → suc (length documents) < fuel
      → array_of env mongoc fuel (finish_query client mongoc cursor h heap names true)
        ≡ some (
            let r = each_converted env initial_map none (document ∷ documents) end in
            (if is_pending r.1 then Zval.null else Zval.array (listed 0 r.0), r.1))
  finish_query-to_array _ end _ cursor _ h heap names fuel (given c c' document documents e n y)
        same enough =
      let now : mongoc.now c' ≡ some document =
        subst (λ (r : Next C). mongoc.now r.cursor ≡ some document) n
          (law c document (ap (λ (r : Next C). r.document) n)) in
      let intern = init_for_query c' (client.get_hint c') names in
      rw (same, finish_query-given c c' h heap document names n)
        (to_array-each_converted env mongoc (document ∷ documents) e fuel intern
          (standing c' document documents e now y) refl refl enough)

-- A query that libmongoc answers with some documents gives a cursor object, and `toArray` on that
-- gives the array of these documents, converted in order under the default type map, or NULL with
-- the exceptions if a conversion or the end throws; with any fuel above their number. The namespace
-- has a dot, libmongoc makes a cursor and takes the hint, the result is used, and a document that
-- `mongoc_cursor_next` gives is the current one.
pub execute_query-to_array :
    {C P : Type 0} (env : Env) (client : MongocClient C P) (mongoc : MongocCursor C)
    → ((c : C) (b : Buffer)
        → (mongoc.next c).document ≡ some b
        → mongoc.now (mongoc.next c).cursor ≡ some b)
    → (namespace : Bytes) (names : Bytes × Bytes) (query : Query) (preference : Option P)
      (server_id : ℤ) (fuel : ℕ) (found cursor : C) (document : Buffer) (documents : List Buffer)
      (end : List Fault)
    → split_namespace namespace ≡ some names
    → client.find_with_opts names.0 names.1 query.read_concern query.filter query.opts preference
      ≡ some found
    → hinted client found server_id ≡ some cursor
    → Yields mongoc cursor (document ∷ documents) end
    → suc (length documents) < fuel
    → array_of env mongoc fuel
        (execute_query client mongoc namespace query preference server_id true)
      ≡ some (
          let r = each_converted env initial_map none (document ∷ documents) end in
          (if is_pending r.1 then Zval.null else Zval.array (listed 0 r.0), r.1))
unfolding execute_query
execute_query-to_array env client mongoc law namespace names query preference server_id fuel found
      cursor document documents end split find hint y enough =
    rw (execute_query, split, find, hint)
      (finish_query-to_array env client mongoc law documents end document cursor cursor
        new_heap.count (allocate new_heap) names fuel y refl enough)
