-- ===== src/Cursor/Contents.antt =====
-- What a cursor of libmongoc holds, and what converting that gives, as lists.
use dotdeb_php_mongodb.Prelude.{
  ℕ, suc, pos, Option, none, some, List, [], ◌∷◌, ◌++◌, ◌≡◌, ◌∙◌, sym, if◌then◌else◌, arith,
}
use dotdeb_php_mongodb.Errors.{Fault, is_pending}
use dotdeb_php_mongodb.Php.{ClassEntry, Zval, Table, empty, entry, Env, index}
use dotdeb_php_mongodb.Php.Hash.{
  add_next, ◌⧺◌, next_index, next_from, after_key, next_from-append, ⧺_assoc, ⧺-empty,
}
use dotdeb_php_mongodb.TypeMap.{TypeMap}
use dotdeb_php_mongodb.Decode.{Buffer, bson_to_zval_ex, get_value}
use dotdeb_php_mongodb.Cursor.{MongocCursor, error_faults}

-- `mongoc_cursor_next` gives the documents in turn, and then none: with an error, with exceptions
-- of its own, or with neither.
pub data Yields {C : Type 0} (mongoc : MongocCursor C) : C → List Buffer → List Fault → Type 0 where
  ended :
      (c c' : C) (raised : List Fault)
      → mongoc.next c ≡ record { document = none; cursor = c'; raised = raised }
      → Yields mongoc c [] (raised ++ error_faults (mongoc.error c'))
  given :
      (c c' : C) (document : Buffer) (documents : List Buffer) (end : List Fault)
      → mongoc.next c ≡ record { document = some document; cursor = c'; raised = [] }
      → Yields mongoc c' documents end
      → Yields mongoc c (document ∷ documents) end

-- `mongoc_cursor_current` gives the first of the documents, and the next calls the others.
pub data Holds {C : Type 0} (mongoc : MongocCursor C) : C → List Buffer → List Fault → Type 0 where
  exhausted : (c : C) → mongoc.now c ≡ none → Holds mongoc c [] []
  standing :
      (c : C) (document : Buffer) (documents : List Buffer) (end : List Fault)
      → mongoc.now c ≡ some document
      → Yields mongoc c documents end
      → Holds mongoc c (document ∷ documents) end

-- The documents converted one after the other: the values up to the first conversion that throws,
-- and what that has thrown, or else what the end of the documents has. The map and the class that
-- one conversion leaves are those of the next.
abbrev pub each_converted :
    Env → TypeMap → Option ClassEntry → List Buffer → List Fault → List Zval × List Fault
each_converted env map odm [] end = ([], end)
each_converted env map odm (document ∷ documents) end =
    let r = bson_to_zval_ex env document map odm [] in
    let rest = each_converted env r.map r.odm documents end in
    if is_pending r.thrown then ([], r.thrown) else (get_value r.value ∷ rest.0, rest.1)

-- The PHP array of some values, from an index on.
abbrev pub listed : ℕ → List Zval → Table
listed n [] = empty
listed n (v ∷ vs) = entry (index (pos n)) v (listed (suc n) vs)

abbrev pub add_all : Table → List Zval → Table
add_all t [] = t
add_all t (v ∷ vs) = add_all (add_next t v) vs

next_index-add_next : (t : Table) (v : Zval) → next_index (add_next t v) ≡ suc (next_index t)
unfolding add_next next_index next_from after_key
next_index-add_next t v =
    next_from-append 0 t (entry (index (pos (next_index t))) v empty) ∙ ground arith

pub add_all-listed : (t : Table) (vs : List Zval) → add_all t vs ≡ t ⧺ listed (next_index t) vs
add_all-listed t [] = sym (⧺-empty t)
add_all-listed t (v ∷ vs) =
    add_all-listed (add_next t v) vs
    ∙ rw next_index-add_next (
        unfold add_next ◌⧺◌ in
        ⧺_assoc t (entry (index (pos (next_index t))) v empty) (listed (suc (next_index t)) vs))
