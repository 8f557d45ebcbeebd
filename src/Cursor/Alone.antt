-- ===== src/Cursor/Alone.antt =====
-- src/MongoDB/Cursor.c and src/bson.c: documents with no `__pclass` are converted on their own.
use dotdeb_php_mongodb.Cursor.Arrays.{to_array-each_converted, shown}
use dotdeb_php_mongodb.Cursor.Contents.{Holds, listed, each_converted}
use dotdeb_php_mongodb.Cursor.{MongocCursor, Cursor, to_array}
use mathlib.Core.Bool.{false≢true}
use dotdeb_php_mongodb.Prelude.{
  ℕ, ◌&&◌, ◌||◌, Bool, true, false, Option, none, some, List, [], ◌∷◌, ◌≡◌, refl, ◌∙◌,
  if◌then◌else◌, Bool-cases, inl, inr, not, ◌<◌, length,
}
use dotdeb_php_mongodb.Errors.{Fault, is_pending}
use dotdeb_php_mongodb.Bson.{Doc}
use dotdeb_php_mongodb.Php.{Zval, Env}
use dotdeb_php_mongodb.TypeMap.{TypeMap}
use dotdeb_php_mongodb.Decode.{
  Buffer, Decoded, bson_to_zval_ex, get_value, visit_all, decode_document, root_to_zval,
  finish_root, supersede, failure,
}
use dotdeb_php_mongodb.Decode.Visitors.{State, initial_state}
use dotdeb_php_mongodb.Decode.Documents.{convert_document, with_odm}
use dotdeb_php_mongodb.Reading.Keeping.{
  Kept, Kept-trans, convert_document-Kept, visit_all-Kept, has_pclass,
}

-- What a conversion leaves of the state with which it started, when that has no class.
record IsFresh (map : TypeMap) (r : Decoded) : Type 0 where
  map_kept : r.map ≡ map
  no_class : r.odm ≡ none

Kept-IsFresh :
    (env : Env) (start st : State)
    → Kept start st
    → start.odm ≡ none
    → ((supersede st).map ≡ start.map) × (st.odm ≡ none)
unfolding with_odm
Kept-IsFresh env start st h n = (rw (h.odm, n) h.map, h.odm ∙ n)

finish_root-IsFresh :
    (env : Env) (buffer : Buffer) (start st : State) (v : Zval)
    → Kept start st
    → start.odm ≡ none
    → IsFresh start.map (finish_root buffer (v, st))
unfolding finish_root
finish_root-IsFresh env buffer start st v h n =
    let kept = Kept-IsFresh env start st h n in
    elim (Bool-cases (buffer.more || not buffer.eof)) [
      | inl e ↦ rw e (record { map_kept = kept.0; no_class = kept.1 })
      | inr e ↦ rw e (record { map_kept = kept.0; no_class = kept.1 })
    ]

root_to_zval-IsFresh :
    (env : Env) (buffer : Buffer) (start : State) (r : State × Bool)
    → Kept start r.0
    → start.odm ≡ none
    → IsFresh start.map (root_to_zval env buffer r)
unfolding root_to_zval
root_to_zval-IsFresh env buffer start (st, true) h n = elim (Bool-cases (is_pending st.thrown)) [
  | inl e ↦ rw e (record { map_kept = h.map; no_class = h.odm ∙ n })
  | inr e ↦ rw e (record { map_kept = h.map; no_class = h.odm ∙ n })
]
root_to_zval-IsFresh env buffer start (st, false) h n =
    let r : Zval × State = convert_document env st.map.root st in
    finish_root-IsFresh env buffer start r.1 r.0
      (Kept-trans start st r.1 h (convert_document-Kept env st.map.root st)) n

choice-IsFresh :
    (map : TypeMap) (b : Bool) (r s : Decoded)
    → IsFresh map r
    → IsFresh map s
    → IsFresh map (if b then r else s)
choice-IsFresh map true r s h i = h
choice-IsFresh map false r s h i = i

-- Whether the document that the reader finds has a `__pclass`.
abbrev pub names_class : Option Doc → Bool
names_class none = false
names_class (some d) = has_pclass d

decode_document-IsFresh :
    (env : Env) (buffer : Buffer) (start : State) (o : Option Doc)
    → names_class o ≡ false
    → start.odm ≡ none
    → IsFresh start.map (decode_document env buffer start o)
unfolding decode_document
decode_document-IsFresh env buffer start none h n = record { map_kept = refl; no_class = n }
decode_document-IsFresh env buffer start (some d) h n =
    choice-IsFresh start.map buffer.iterable (root_to_zval env buffer (visit_all env start d))
      (failure none start "Could not initialize BSON iterator")
      (root_to_zval-IsFresh env buffer start (visit_all env start d) (visit_all-Kept env start d h)
        n)
      (record { map_kept = refl; no_class = n })

bson_to_zval_ex-IsFresh :
    (env : Env) (buffer : Buffer) (map : TypeMap) (thrown : List Fault)
    → names_class buffer.document ≡ false
    → IsFresh map (bson_to_zval_ex env buffer map none thrown)
unfolding bson_to_zval_ex
bson_to_zval_ex-IsFresh env buffer map thrown h =
    decode_document-IsFresh env buffer (initial_state map none thrown) buffer.document h refl

-- Every document is converted on its own, with one type map and no class: the values up to the
-- first conversion that throws, and what that has thrown, or else what the end has.
abbrev pub each_alone : Env → TypeMap → List Buffer → List Fault → List Zval × List Fault
each_alone env map [] end = ([], end)
each_alone env map (document ∷ documents) end =
    let r = bson_to_zval_ex env document map none [] in
    let rest = each_alone env map documents end in
    if is_pending r.thrown then ([], r.thrown) else (get_value r.value ∷ rest.0, rest.1)

abbrev pub none_named : List Buffer → Bool
none_named [] = true
none_named (document ∷ documents) = not (names_class document.document) && none_named documents

and_true : (a b : Bool) → (not a && b) ≡ true → (a ≡ false) × (b ≡ true)
and_true false b h = (refl, h)
and_true true b h = absurd (false≢true h)

each_converted-alone :
    (env : Env) (map : TypeMap) (documents : List Buffer) (end : List Fault)
    → none_named documents ≡ true
    → each_converted env map none documents end ≡ each_alone env map documents end
each_converted-alone env map [] end h = refl
each_converted-alone env map (document ∷ documents) end h =
    let parts = and_true (names_class document.document) (none_named documents) h in
    let fresh = bson_to_zval_ex-IsFresh env document map [] parts.0 in
    rw (fresh.map_kept, fresh.no_class)
      (rw (each_converted-alone env map documents end parts.1) refl)

-- When no document of a cursor has a `__pclass`, `toArray` converts each document on its own, under
-- the type map of the cursor. The cursor has no iterator, has not been advanced and has no class in
-- its state yet, and the fuel is above the number of documents.
pub to_array-each_alone :
    {C : Type 0} (env : Env) (mongoc : MongocCursor C) (documents : List Buffer) (end : List Fault)
    (fuel : ℕ) (intern : Cursor C)
    → Holds mongoc intern.cursor documents end
    → intern.got_iterator ≡ false
    → intern.current ≡ 0
    → intern.odm ≡ none
    → none_named documents ≡ true
    → length documents < fuel
    → shown (to_array env mongoc fuel intern)
      ≡ some (
          let r = each_alone env intern.map documents end in
          (if is_pending r.1 then Zval.null else Zval.array (listed 0 r.0), r.1))
to_array-each_alone env mongoc documents end fuel intern y g h n o enough =
    to_array-each_converted env mongoc documents end fuel intern y g h enough
    ∙ rw (n, each_converted-alone env intern.map documents end o) refl
