-- ===== src/Cursor.antt =====
-- src/MongoDB/Cursor.c: a cursor and its iterator, on PHP 7. A cursor of libmongoc is a parameter,
-- with what the functions of libmongoc say of it. Each operation gives back the exceptions that it
-- throws; the engine calls none while one is pending.
pub mod Contents
pub mod Walking
pub mod Arrays
pub mod Alone
pub mod Leaving
pub mod Reached
pub mod Samples
pub mod Tests
use dotdeb_php_mongodb.Prelude.{
  ℕ, suc, zero, ltb, Bool, true, false, not, Option, none, some, List, [], ◌∷◌, ◌++◌, Bytes,
  if◌then◌else◌,
}
use dotdeb_php_mongodb.Errors.{Fault, BsonError, logic, throw, throw_from_bson_error, is_pending}
use dotdeb_php_mongodb.Php.{ClassEntry, Zval, Table, empty, Env}
use dotdeb_php_mongodb.Php.Hash.{add_next}
use dotdeb_php_mongodb.TypeMap.{TypeMap, initial_map, typemap_to_state}
use dotdeb_php_mongodb.Decode.{Buffer, bson_to_zval_ex}

-- What `mongoc_cursor_next` leaves: the document if it returns true, the cursor, and the exceptions
-- that were thrown meanwhile (by a stream callback, say).
pub record Next (C : Type 0) : Type 0 where
  pub document : Option Buffer
  pub cursor : C
  pub raised : List Fault

-- `mongoc_cursor_next`, `mongoc_cursor_current`, `mongoc_cursor_error` and
-- `mongoc_cursor_is_alive`.
pub record MongocCursor (C : Type 0) : Type 0 where
  pub next : C → Next C
  pub now : C → Option Buffer
  pub error : C → Option BsonError
  pub is_alive : C → Bool

-- `php_phongo_cursor_t`: the cursor of libmongoc; the map, the class and the value of
-- `visitor_data`, where no value is an undefined `zchild`; the rest by its names.
pub record Cursor (C : Type 0) : Type 0 where
  pub cursor : C
  pub map : TypeMap
  pub odm : Option ClassEntry
  pub zchild : Option Zval
  pub got_iterator : Bool
  pub current : ℕ
  pub server_id : ℕ
  pub database : Option Bytes
  pub collection : Option Bytes

-- `phongo_cursor_init`: all else in a new object is zero.
abbrev pub cursor_init : {C : Type 0} → C → ℕ → Cursor C
cursor_init cursor hint = record {
  cursor = cursor;
  map = initial_map;
  odm = none;
  zchild = none;
  got_iterator = false;
  current = 0;
  server_id = hint;
  database = none;
  collection = none;
}

-- `php_phongo_cursor_free_current`.
abbrev pub free_current : {C : Type 0} → Cursor C → Cursor C
free_current intern = record intern { zchild = none }

-- `phongo_bson_to_zval_ex` into `visitor_data`, with the exceptions thrown before.
unfoldable pub convert_into :
    {C : Type 0} → Env → Buffer → Cursor C → List Fault → Cursor C × List Fault
unfolding bson_to_zval_ex
convert_into env document intern thrown =
    let decoded = bson_to_zval_ex env document intern.map intern.odm thrown in
    (record intern { map = decoded.map; odm = decoded.odm; zchild = decoded.value }, decoded.thrown)

-- `mongoc_cursor_current`, and the conversion of what it gives.
unfoldable pub convert_current :
    {C : Type 0} → Env → MongocCursor C → Cursor C → List Fault → Cursor C × List Fault
unfolding convert_into
convert_current env mongoc intern thrown = elim (mongoc.now intern.cursor) [
  | none ↦ (intern, thrown)
  | some document ↦ convert_into env document intern thrown
]

-- `php_phongo_cursor_iterator_valid`.
abbrev pub is_valid : {C : Type 0} → Cursor C → Bool
is_valid intern = elim intern.zchild [ none ↦ false | some v ↦ true ]

-- `php_phongo_cursor_iterator_get_current_key` and `_data`.
abbrev pub get_current_key : {C : Type 0} → Cursor C → ℕ
get_current_key intern = intern.current

abbrev pub get_current_data : {C : Type 0} → Cursor C → Option Zval
get_current_data intern = intern.zchild

-- `mongoc_cursor_error`, thrown.
abbrev pub error_faults : Option BsonError → List Fault
error_faults none = []
error_faults (some e) = throw_from_bson_error e ∷ []

-- What `php_phongo_cursor_iterator_move_forward` does with what libmongoc gives.
unfoldable pub take_next :
    {C : Type 0} → Env → MongocCursor C → Cursor C → Next C → Cursor C × List Fault
unfolding convert_into
take_next env mongoc intern next =
    let moved = record intern {
      cursor = next.cursor;
      zchild = none;
      current = suc intern.current;
    } in
    elim next.document [
      | none ↦ (moved, next.raised ++ error_faults (mongoc.error next.cursor))
      | some document ↦ convert_into env document moved next.raised
    ]

-- `php_phongo_cursor_iterator_move_forward`.
unfoldable pub move_forward : {C : Type 0} → Env → MongocCursor C → Cursor C → Cursor C × List Fault
unfolding take_next
move_forward env mongoc intern = take_next env mongoc intern (mongoc.next intern.cursor)

-- `php_phongo_cursor_iterator_rewind`.
unfoldable pub rewind : {C : Type 0} → Env → MongocCursor C → Cursor C → Cursor C × List Fault
unfolding convert_current
rewind env mongoc intern =
    if ltb 0 intern.current
    then (intern, throw logic "Cursors cannot rewind after starting iteration" ∷ [])
    else convert_current env mongoc (free_current intern) []

-- `php_phongo_cursor_get_iterator`, not by reference; without an exception there is an iterator.
unfoldable pub get_iterator : {C : Type 0} → Cursor C → Cursor C × List Fault
get_iterator intern =
    if intern.got_iterator
    then (intern, throw logic "Cursors cannot yield multiple iterators" ∷ [])
    else (free_current (record intern { got_iterator = true }), [])

-- `Cursor::setTypeMap`: a new state, and the current element again.
unfoldable pub set_type_map :
    {C : Type 0} → Env → MongocCursor C → Option Table → Cursor C → Cursor C × List Fault
unfolding typemap_to_state convert_current
set_type_map env mongoc typemap intern =
    let (map, faults) = typemap_to_state env typemap initial_map in
    convert_current env mongoc (record intern { zchild = none; map = map; odm = none }) faults

-- What walking over the cursor leaves: the cursor, the values, and the exceptions.
pub record Walked (C : Type 0) : Type 0 where
  pub intern : Cursor C
  pub values : Table
  pub thrown : List Fault

-- One turn of the loop of `spl_iterator_apply`, up to the next: the value is added, and an
-- exception ends the loop.
abbrev pub next_turn :
    {C : Type 0} → Cursor C × List Fault → Table → Option (Walked C) → Option (Walked C)
next_turn moved values rest =
    if is_pending moved.1
    then some (record { intern = moved.0; values = values; thrown = moved.1 })
    else rest

-- The loop of `spl_iterator_apply` with `php_phongo_cursor_to_array_apply`, which keeps on; none is
-- that the fuel has run out.
unfoldable pub apply_loop :
    {C : Type 0} → Env → MongocCursor C → ℕ → Cursor C → Table → Option (Walked C)
unfolding move_forward add_next
apply_loop env mongoc zero intern values = none
apply_loop env mongoc (suc fuel) intern values =
    let moved = move_forward env mongoc intern in
    let rest = λ (v : Zval). apply_loop env mongoc fuel moved.0 (add_next values v) in
    elim (get_current_data intern) [
      | none ↦ some (record { intern = intern; values = values; thrown = [] })
      | some v ↦ next_turn moved (add_next values v) (rest v)
    ]

-- `spl_iterator_apply`, from `rewind` on.
unfoldable pub apply_from :
    {C : Type 0} → Env → MongocCursor C → ℕ → Cursor C × List Fault → Option (Walked C)
unfolding apply_loop
apply_from env mongoc fuel (intern, faults) =
    if is_pending faults
    then some (record { intern = intern; values = empty; thrown = faults })
    else apply_loop env mongoc fuel intern empty

-- `spl_iterator_apply`: `get_iterator`, `rewind`, and the loop.
unfoldable pub iterator_apply :
    {C : Type 0} → Env → MongocCursor C → ℕ → Cursor C → Option (Walked C)
unfolding get_iterator rewind apply_from
iterator_apply env mongoc fuel intern =
    let (started, faults) = get_iterator intern in
    if is_pending faults
    then some (record { intern = started; values = empty; thrown = faults })
    else apply_from env mongoc fuel (rewind env mongoc started)

-- `Cursor::toArray`: the cursor, the result, and the exceptions.
pub record ArrayResult (C : Type 0) : Type 0 where
  pub intern : Cursor C
  pub value : Zval
  pub thrown : List Fault

abbrev pub array_result : {C : Type 0} → Walked C → ArrayResult C
array_result walked = record {
  intern = walked.intern;
  value = if is_pending walked.thrown then Zval.null else Zval.array walked.values;
  thrown = walked.thrown;
}

unfoldable pub to_array :
    {C : Type 0} → Env → MongocCursor C → ℕ → Cursor C → Option (ArrayResult C)
unfolding iterator_apply
to_array env mongoc fuel intern = elim (iterator_apply env mongoc fuel intern) [
  | none ↦ none
  | some walked ↦ some (array_result walked)
]

-- `Cursor::isDead`.
unfoldable pub is_dead : {C : Type 0} → MongocCursor C → Cursor C → Bool
is_dead mongoc intern = not (mongoc.is_alive intern.cursor)
