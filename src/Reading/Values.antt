-- ===== src/Reading/Values.antt =====
-- src/bson.c, `phongo_bson_to_zval_ex`: a conversion that throws nothing has a value.
use mathlib.Core.Bool.{false≢true}
use dotdeb_php_mongodb.Prelude.{
  Bool, true, false, ◌||◌, not, Option, none, some, List, Bool-cases, inl, inr, ◌≡◌, sym, ◌∙◌,
  if◌then◌else◌,
}
use dotdeb_php_mongodb.Errors.{Fault, is_pending}
use dotdeb_php_mongodb.Bson.{Doc}
use dotdeb_php_mongodb.Php.{ClassEntry, Zval, Env}
use dotdeb_php_mongodb.TypeMap.{TypeMap}
use dotdeb_php_mongodb.Decode.{
  Buffer, Decoded, bson_to_zval_ex, decode_document, root_to_zval, finish_root, visit_all,
  get_value, failure,
}
use dotdeb_php_mongodb.Decode.Visitors.{State, initial_state}
use dotdeb_php_mongodb.Decode.Documents.{convert_document}
use dotdeb_php_mongodb.Reading.Intact.{bson_to_zval_ex-raises}

-- There is a value, if the call succeeded.
abbrev HasValue : Decoded → Type 0
HasValue r = r.success ≡ true → r.value ≡ some (get_value r.value)

finish_root-HasValue : (buffer : Buffer) (r : Zval × State) → HasValue (finish_root buffer r)
unfolding finish_root
finish_root-HasValue buffer (v, st) h = elim (Bool-cases (buffer.more || not buffer.eof)) [
  | inl e ↦ rw e
  | inr e ↦ rw e
]

root_to_zval-HasValue :
    (env : Env) (buffer : Buffer) (r : State × Bool) → HasValue (root_to_zval env buffer r)
unfolding root_to_zval
root_to_zval-HasValue env buffer (st, true) h = elim (Bool-cases (is_pending st.thrown)) [
  | inl e ↦ rw e
  | inr e ↦ rw e
]
root_to_zval-HasValue env buffer (st, false) h =
    finish_root-HasValue buffer (convert_document env st.map.root st) h

choice-HasValue :
    (b : Bool) (r s : Decoded) → HasValue r → HasValue s → HasValue (if b then r else s)
choice-HasValue true r s h i = h
choice-HasValue false r s h i = i

decode_document-HasValue :
    (env : Env) (buffer : Buffer) (st : State) (o : Option Doc)
    → HasValue (decode_document env buffer st o)
unfolding decode_document
decode_document-HasValue env buffer st none h = absurd (false≢true h)
decode_document-HasValue env buffer st (some d) h =
    choice-HasValue buffer.iterable (root_to_zval env buffer (visit_all env st d))
      (failure none st "Could not initialize BSON iterator")
      (root_to_zval-HasValue env buffer (visit_all env st d)) (λ i. absurd (false≢true i)) h

bson_to_zval_ex-HasValue :
    (env : Env) (buffer : Buffer) (map : TypeMap) (odm : Option ClassEntry) (thrown : List Fault)
    → HasValue (bson_to_zval_ex env buffer map odm thrown)
unfolding bson_to_zval_ex
bson_to_zval_ex-HasValue env buffer map odm thrown =
    decode_document-HasValue env buffer (initial_state map odm thrown) buffer.document

-- A conversion with no exception at the end leaves a value.
pub bson_to_zval_ex-value :
    (env : Env) (buffer : Buffer) (map : TypeMap) (odm : Option ClassEntry) (thrown : List Fault)
    → is_pending (bson_to_zval_ex env buffer map odm thrown).thrown ≡ false
    → (bson_to_zval_ex env buffer map odm thrown).value
      ≡ some (get_value (bson_to_zval_ex env buffer map odm thrown).value)
bson_to_zval_ex-value env buffer map odm thrown h =
    elim (Bool-cases (bson_to_zval_ex env buffer map odm thrown).success) [
      | inl e ↦ bson_to_zval_ex-HasValue env buffer map odm thrown e
      | inr e ↦ absurd (false≢true (sym h ∙ bson_to_zval_ex-raises env buffer map odm thrown e))
    ]
