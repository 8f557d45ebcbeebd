-- ===== src/Execute/Failures.antt =====
-- php_phongo.c, `phongo_execute_query` and `phongo_execute_command`: a failure has thrown.
use dotdeb_php_mongodb.Prelude.{
  ℤ, Bytes, true, Option, none, some, List, [], ◌≡◌, refl, if◌then◌else◌, arith, Option-cases, inl,
  inr, ℕ, ◌==◌, ◌++◌, ◌∷◌, false, Bool, Bool-cases,
}
use dotdeb_php_mongodb.Errors.{Fault, is_pending}
use dotdeb_php_mongodb.Cursor.{MongocCursor, Next, Cursor}
use dotdeb_php_mongodb.Execute.{
  MongocClient, Outcome, Heap, Checked, new_heap, allocate, destroy, made, check_for_error,
  finish_query, unused, hinted, failed, aborted, command_cursor, not, finish_command,
  execute_command, Doc, holds_cursor, Query, execute_query, split_namespace,
}

-- The cursors that are not destroyed are those that have an owner, and none has been destroyed
-- twice.
pub record Owns (owned : List ℕ) (heap : Heap) : Type 0 where
  pub is_owned : heap.live ≡ owned
  pub destroyed_once : heap.misused ≡ false

-- An execution that fails has thrown; the only cursor that is not destroyed is that of the cursor
-- object, and, where the server's hint was refused, the first one, which has no owner.
pub data IsAnswered {C : Type 0} (hint_taken : Bool) : Outcome C → Type 0 where
  with_cursor :
      (intern : Cursor C) (h : ℕ) (faults : List Fault) (heap : Heap)
      → Owns (h ∷ []) heap
      → IsAnswered hint_taken (made intern h faults heap)
  with_none :
      (faults : List Fault) (heap : Heap)
      → Owns [] heap
      → IsAnswered hint_taken (unused faults heap)
  by_exception :
      (faults : List Fault) (heap : Heap)
      → is_pending faults ≡ true
      → Owns (if hint_taken then [] else 0 ∷ []) heap
      → IsAnswered hint_taken (failed faults heap)
  by_assertion : IsAnswered hint_taken aborted

same_number : (h : ℕ) → (h == h) ≡ true
same_number h = ground arith

destroy-first :
    (h : ℕ) (rest : List ℕ) (heap : Heap) → Owns (h ∷ rest) heap → Owns rest (destroy h heap)
destroy-first h rest heap o = record {
  is_owned = rw o.is_owned (rw (same_number h) refl);
  destroyed_once = rw (o.is_owned, o.destroyed_once) (rw (same_number h) refl);
}

allocate-Owns :
    (owned : List ℕ) (heap : Heap)
    → Owns owned heap
    → Owns (owned ++ heap.count ∷ []) (allocate heap)
allocate-Owns owned heap o = record {
  is_owned = rw o.is_owned refl;
  destroyed_once = o.destroyed_once;
}

-- An advance goes well and leaves the cursors alone, or it has thrown and destroyed its cursor.
data Advanced (h : ℕ) : Checked → Type 0 where
  went_well :
      (faults : List Fault) (heap : Heap)
      → Owns (h ∷ []) heap
      → Advanced h (record { ok = true; faults = faults; heap = heap })
  went_wrong :
      (faults : List Fault) (heap : Heap)
      → is_pending faults ≡ true
      → Owns [] heap
      → Advanced h (record { ok = false; faults = faults; heap = heap })

check_for_error-Advanced :
    {C : Type 0} (mongoc : MongocCursor C) (thrown : List Fault) (next : Next C) (h : ℕ)
    (heap : Heap)
    → Owns (h ∷ []) heap
    → Advanced h (check_for_error mongoc thrown next h heap)
unfolding check_for_error
check_for_error-Advanced mongoc thrown next h heap o = elim (Option-cases next.document) [
  | inr (document, d) ↦ rw (check_for_error, d) (went_well _ heap o)
  | inl d ↦ elim (Bool-cases (is_pending (thrown ++ next.raised))) [
    | inl p ↦
        rw (check_for_error, d, p) (went_wrong _ (destroy h heap) p (destroy-first h [] heap o))
    | inr p ↦ elim (Option-cases (mongoc.error next.cursor)) [
      | inl e ↦ rw (check_for_error, d, p, e) (went_well _ heap o)
      | inr (error, e) ↦
          rw (check_for_error, d, p, e)
            (went_wrong _ (destroy h heap) refl (destroy-first h [] heap o))
    ]
  ]
]

answer_if :
    {C : Type 0} (h : ℕ) (c : Checked) (good : Outcome C)
    → Advanced h c
    → (Owns (h ∷ []) c.heap → IsAnswered true good)
    → IsAnswered true (if c.ok then good else failed c.faults c.heap)
answer_if h _ good (went_well faults heap o) i = i o
answer_if h _ good (went_wrong faults heap p o) i = by_exception faults heap p o

used_cases :
    {C : Type 0} (used : Bool) (intern : Cursor C) (h : ℕ) (faults : List Fault) (heap : Heap)
    → Owns (h ∷ []) heap
    → IsAnswered true (if used then made intern h faults heap else unused faults (destroy h heap))
used_cases true intern h faults heap o = with_cursor intern h faults heap o
used_cases false intern h faults heap o =
    with_none faults (destroy h heap) (destroy-first h [] heap o)

finish_query-IsAnswered :
    {C P : Type 0} (client : MongocClient C P) (mongoc : MongocCursor C) (cursor : C) (h : ℕ)
    (heap : Heap) (names : Bytes × Bytes) (used : Bool)
    → Owns (h ∷ []) heap
    → IsAnswered true (finish_query client mongoc cursor h heap names used)
unfolding finish_query
finish_query-IsAnswered client mongoc cursor h heap names used o =
    answer_if h (check_for_error mongoc [] (mongoc.next cursor) h heap) _
      (check_for_error-Advanced mongoc [] (mongoc.next cursor) h heap o) (used_cases used _ h _ _)

command_cursor-IsAnswered :
    {C P : Type 0} (client : MongocClient C P) (mongoc : MongocCursor C) (thrown : List Fault)
    (next : Next C) (h : ℕ) (heap : Heap) (db : Bytes)
    → Owns (h ∷ []) heap
    → IsAnswered true (command_cursor client mongoc thrown next h heap db)
unfolding command_cursor
command_cursor-IsAnswered client mongoc thrown next h heap db o =
    answer_if h (check_for_error mongoc thrown next h heap) _
      (check_for_error-Advanced mongoc thrown next h heap o) (with_cursor _ h _ _)

not_if : {C : Type 0} (b : Bool) (x y : Outcome C) → (if not b then x else y) ≡ (if b then y else x)
not_if true x y = refl
not_if false x y = refl

choice-IsAnswered :
    {C : Type 0} (b : Bool) (x y : Outcome C)
    → IsAnswered true x
    → IsAnswered true y
    → IsAnswered true (if b then x else y)
choice-IsAnswered true x y h i = h
choice-IsAnswered false x y h i = i

finish_command-IsAnswered :
    {C P : Type 0} (client : MongocClient C P) (mongoc : MongocCursor C) (cursor : C) (h : ℕ)
    (heap : Heap) (db : Bytes) (used : Bool)
    → Owns (h ∷ []) heap
    → IsAnswered true (finish_command client mongoc cursor h heap db used)
unfolding finish_command
finish_command-IsAnswered client mongoc cursor h heap db used o =
    let next = mongoc.next cursor in
    let c = check_for_error mongoc [] next h heap in
    rw (not_if c.ok) (
      answer_if h c _ (check_for_error-Advanced mongoc [] next h heap o) (λ o.
        choice-IsAnswered (not used) _ _
          (with_none c.faults (destroy h c.heap) (destroy-first h [] c.heap o))
          (elim (Option-cases (mongoc.now next.cursor)) [
            | inl e ↦ rw e by_assertion
            | inr (reply, e) ↦ rw e (
                choice-IsAnswered (holds_cursor reply) _ _
                  (command_cursor-IsAnswered client mongoc c.faults _ c.heap.count
                    (destroy h (allocate c.heap)) db
                    (destroy-first h (c.heap.count ∷ []) (allocate c.heap)
                      (allocate-Owns (h ∷ []) c.heap o)))
                  (with_cursor _ h c.faults c.heap o))
          ])))

first_Owns : Owns (new_heap.count ∷ []) (allocate new_heap)
first_Owns = record { is_owned = refl; destroyed_once = refl }

none_Owns : Owns [] new_heap
none_Owns = record { is_owned = refl; destroyed_once = refl }

abbrev pub is_taken : {C : Type 0} → Option C → Bool
is_taken none = false
is_taken (some c) = true

execute_command-IsAnswered :
    {C P : Type 0} (client : MongocClient C P) (mongoc : MongocCursor C) (db : Bytes) (bson : Doc)
    (preference : Option P) (server_id : ℤ) (used : Bool)
    → IsAnswered
        (is_taken (hinted client (client.command db bson preference) server_id))
        (execute_command client mongoc db bson preference server_id used)
unfolding execute_command
execute_command-IsAnswered client mongoc db bson preference server_id used =
    elim (Option-cases (hinted client (client.command db bson preference) server_id)) [
      | inl e ↦ rw (execute_command, e) (by_exception _ _ refl first_Owns)
      | inr (c, e) ↦
          rw (execute_command, e)
            (finish_command-IsAnswered client mongoc c new_heap.count (allocate new_heap) db used
              first_Owns)
    ]

-- Whether a query meets no refusal of the hint.
abbrev pub is_query_taken : {C P : Type 0} → MongocClient C P → Bytes → Query → Option P → ℤ → Bool
is_query_taken client namespace query preference server_id = elim (split_namespace namespace) [
  | none ↦ true
  | some names ↦
      elim (client.find_with_opts names.0 names.1 query.read_concern query.filter query.opts
        preference) [ none ↦ true | some cursor ↦ is_taken (hinted client cursor server_id) ]
]

execute_query-IsAnswered :
    {C P : Type 0} (client : MongocClient C P) (mongoc : MongocCursor C) (namespace : Bytes)
    (query : Query) (preference : Option P) (server_id : ℤ) (used : Bool)
    → IsAnswered
        (is_query_taken client namespace query preference server_id)
        (execute_query client mongoc namespace query preference server_id used)
unfolding execute_query
execute_query-IsAnswered client mongoc namespace query preference server_id used =
    elim (Option-cases (split_namespace namespace)) [
      | inl s ↦ rw (is_query_taken, execute_query, s) (by_exception _ _ refl none_Owns)
      | inr (names, s) ↦
          elim (Option-cases (
            client.find_with_opts names.0 names.1 query.read_concern query.filter query.opts
              preference)) [
                | inl f ↦ rw (is_query_taken, execute_query, s, f) (by_exception _ _ refl none_Owns)
                | inr (found, f) ↦ elim (Option-cases (hinted client found server_id)) [
                  | inl e ↦
                      rw (is_query_taken, execute_query, s, f, e) (by_exception _ _ refl first_Owns)
                  | inr (c, e) ↦
                      rw (is_query_taken, execute_query, s, f, e)
                        (finish_query-IsAnswered client mongoc c new_heap.count (allocate new_heap)
                          names used first_Owns)
                ]
              ]
    ]

-- A query or a command that fails has thrown an exception; and of the cursors that libmongoc has made
-- for it all are destroyed, once, but the one that the cursor object owns, if there is an object.
-- Only where the hint for the server is refused does the first cursor stay, with no owner. Where the
-- process ends in an assertion nothing is said.
pub execute-IsAnswered :
    {C P : Type 0} (client : MongocClient C P) (mongoc : MongocCursor C) (namespace db : Bytes)
    (query : Query) (bson : Doc) (preference : Option P) (server_id : ℤ) (used : Bool)
    → IsAnswered
        (is_query_taken client namespace query preference server_id)
        (execute_query client mongoc namespace query preference server_id used)
      × IsAnswered
          (is_taken (hinted client (client.command db bson preference) server_id))
          (execute_command client mongoc db bson preference server_id used)
execute-IsAnswered client mongoc namespace db query bson preference server_id used = (
  execute_query-IsAnswered client mongoc namespace query preference server_id used,
  execute_command-IsAnswered client mongoc db bson preference server_id used,
)
