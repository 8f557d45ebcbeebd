-- ===== src/Reading/Intact.antt =====
-- Which inputs `phongo_bson_to_zval_ex` accepts, and that it throws on all others.
use mathlib.Core.Bool.{false≢true}
use dotdeb_php_mongodb.Prelude.{
  Bool, true, false, ◌&&◌, not, none, some, ◌≡◌, refl, arith, Bytes, List, ◌∙◌, ◌++◌, ◌∷◌, [],
  Option, if◌then◌else◌, inl, String, Bool-cases, inr, ◌||◌, sym,
}
use dotdeb_php_mongodb.Errors.{Fault, is_pending, throw, unexpected_value}
use dotdeb_php_mongodb.Bson.{Bson, Doc, finish, corrupt, unsupported, element}
use dotdeb_php_mongodb.Php.{Env, Zval, ClassEntry}
use dotdeb_php_mongodb.TypeMap.{TypeMap}
use dotdeb_php_mongodb.Decode.{
  visit, visit_all, bson_to_zval_ex, Buffer, failure, root_to_zval, finish_root, decode_document,
  Decoded, supersede,
}
use dotdeb_php_mongodb.Decode.Visitors.{State, initial_state}
use dotdeb_php_mongodb.Decode.Documents.{visit_document, visit_array, child_state, convert_document}

-- No corrupt data and no unknown type, at any depth of documents and arrays. The scope of a
-- JavaScript value is copied as it is.
unfoldable mutual
  pub intact_value : Bson → Bool
  intact_value (Bson.document d) = intact d
  intact_value (Bson.array d) = intact d
  intact_value _ = true

  pub intact : Doc → Bool
  intact finish = true
  intact corrupt = false
  intact (unsupported k c) = false
  intact (element k b d) = intact_value b && intact d

visit_document-stop :
    (env : Env) (st : State) (k : Bytes) (r : State × Bool) → (visit_document env st k r).1 ≡ r.1
unfolding visit_document
visit_document-stop env st k (child, true) = refl
visit_document-stop env st k (child, false) = refl

visit_array-stop :
    (env : Env) (st : State) (k : Bytes) (r : State × Bool) → (visit_array env st k r).1 ≡ r.1
unfolding visit_array
visit_array-stop env st k (child, true) = refl
visit_array-stop env st k (child, false) = refl

visit_all-cons :
    (env : Env) (st : State) (k : Bytes) (b : Bson) (d : Doc)
    → visit_all env st (element k b d)
      ≡ (let r = visit env st k b in if r.1 then (r.0, true) else visit_all env r.0 d)
unfolding visit_all
visit_all-cons env st k b d = refl

stop_cases :
    (r s : State × Bool) (v d : Bool)
    → r.1 ≡ not v
    → s.1 ≡ not d
    → (if r.1 then (r.0, true) else s).1 ≡ not (v && d)
stop_cases (r, true) (s, b) v d hv hd = ground arith
stop_cases (r, false) (s, b) v d hv hd = ground arith

mutual
  unfolding visit intact

  visit-stop :
      (env : Env) (st : State) (k : Bytes) (b : Bson) → (visit env st k b).1 ≡ not (intact_value b)
  visit-stop env st k (Bson.document d) =
      visit_document-stop env st k _ ∙ visit_all-stop env (child_state false st) d
  visit-stop env st k (Bson.array d) =
      visit_array-stop env st k _ ∙ visit_all-stop env (child_state true st) d
  visit-stop env st k _ = refl

  pub visit_all-stop : (env : Env) (st : State) (d : Doc) → (visit_all env st d).1 ≡ not (intact d)
  visit_all-stop env st finish = refl
  visit_all-stop env st corrupt = refl
  visit_all-stop env st (unsupported k c) = refl
  visit_all-stop env st (element k b d) = rw visit_all-cons (
      stop_cases (visit env st k b) (visit_all env (visit env st k b).0 d) (intact_value b)
        (intact d) (visit-stop env st k b) (visit_all-stop env (visit env st k b).0 d))

is_pending-append : (fs : List Fault) (f : Fault) → is_pending (fs ++ f ∷ []) ≡ true
is_pending-append [] f = refl
is_pending-append (g ∷ fs) f = refl

failure-raises :
    (v : Option Zval) (st : State) (m : String) → is_pending (failure v st m).thrown ≡ true
failure-raises v st m = is_pending-append st.thrown (throw unexpected_value m)

finish_root-success :
    (buffer : Buffer) (r : Zval × State)
    → (finish_root buffer r).success ≡ (not buffer.more && buffer.eof)
unfolding finish_root
finish_root-success buffer (v, st) = ground arith

finish_root-raises :
    (buffer : Buffer) (r : Zval × State)
    → (finish_root buffer r).success ≡ false
    → is_pending (finish_root buffer r).thrown ≡ true
unfolding finish_root
finish_root-raises buffer (v, st) h = elim (Bool-cases (buffer.more || not buffer.eof)) [
  | inl bad ↦
      rw bad
        (failure-raises (some v) (supersede st) "Reading document did not exhaust input buffer")
  | inr good ↦ absurd (false≢true (sym (rw good at h)))
]

pub root_to_zval-eq :
    (env : Env) (buffer : Buffer) (st : State)
    → root_to_zval env buffer (st, false) ≡ finish_root buffer (convert_document env st.map.root st)
unfolding root_to_zval
root_to_zval-eq env buffer st = refl

root_to_zval-success :
    (env : Env) (buffer : Buffer) (r : State × Bool)
    → (root_to_zval env buffer r).success ≡ (not r.1 && (not buffer.more && buffer.eof))
root_to_zval-success env buffer (st, true) = unfold root_to_zval in ground arith
root_to_zval-success env buffer (st, false) = rw root_to_zval-eq (finish_root-success buffer _)

root_to_zval-raises :
    (env : Env) (buffer : Buffer) (r : State × Bool)
    → (root_to_zval env buffer r).success ≡ false
    → is_pending (root_to_zval env buffer r).thrown ≡ true
root_to_zval-raises env buffer (st, true) h = elim (Bool-cases (is_pending st.thrown)) [
  | inl e ↦ unfold root_to_zval in rw e e
  | inr e ↦
      unfold root_to_zval in
      rw e (failure-raises (some (Zval.array st.zchild)) st "Detected corrupt BSON data")
]
root_to_zval-raises env buffer (st, false) h =
    rw root_to_zval-eq (finish_root-raises buffer _ (rw root_to_zval-eq at h))

stop-not : (s v rest : Bool) → s ≡ not v → (not s && rest) ≡ (v && rest)
stop-not s true rest h = rw h
stop-not s false rest h = rw h

-- Whether the reader has found a document that is intact, and an iterator can be made on it.
abbrev pub is_readable : Bool → Option Doc → Bool
is_readable iterable none = false
is_readable iterable (some d) = iterable && intact d

decode_document-success :
    (env : Env) (buffer : Buffer) (start : State) (o : Option Doc)
    → (decode_document env buffer start o).success
      ≡ (is_readable buffer.iterable o && (not buffer.more && buffer.eof))
decode_document-success env buffer start none = unfold decode_document in refl
decode_document-success env buffer start (some d) = elim (Bool-cases buffer.iterable) [
  | inl e ↦
      unfold decode_document in
      rw e (
        root_to_zval-success env buffer (visit_all env start d)
        ∙ stop-not (visit_all env start d).1 (intact d) (not buffer.more && buffer.eof)
            (visit_all-stop env start d))
  | inr e ↦ unfold decode_document in rw e
]

choice-raises :
    (b : Bool) (r s : Decoded)
    → (r.success ≡ false → is_pending r.thrown ≡ true)
    → is_pending s.thrown ≡ true
    → (if b then r else s).success ≡ false
    → is_pending (if b then r else s).thrown ≡ true
choice-raises true r s hr hs h = hr h
choice-raises false r s hr hs h = hs

decode_document-raises :
    (env : Env) (buffer : Buffer) (start : State) (o : Option Doc)
    → (decode_document env buffer start o).success ≡ false
    → is_pending (decode_document env buffer start o).thrown ≡ true
decode_document-raises env buffer start none = λ _.
    unfold decode_document in failure-raises none start "Could not read document from BSON reader"
decode_document-raises env buffer start (some d) =
    unfold decode_document in
    choice-raises buffer.iterable (root_to_zval env buffer (visit_all env start d))
      (failure none start "Could not initialize BSON iterator")
      (root_to_zval-raises env buffer (visit_all env start d))
      (failure-raises none start "Could not initialize BSON iterator")

-- A conversion succeeds exactly when the input holds a document on which an iterator can be made,
-- with no corrupt data and no unknown type at any depth of its documents and arrays, and the input
-- ends with it. The type map, the classes that it names
-- and a class that an earlier document has left make no difference.
pub bson_to_zval_ex-success :
    (env : Env) (buffer : Buffer) (map : TypeMap) (odm : Option ClassEntry) (thrown : List Fault)
    → (bson_to_zval_ex env buffer map odm thrown).success
      ≡ (is_readable buffer.iterable buffer.document && (not buffer.more && buffer.eof))
bson_to_zval_ex-success env buffer map odm thrown =
    unfold bson_to_zval_ex in
    decode_document-success env buffer (initial_state map odm thrown) buffer.document

-- A conversion that fails has thrown an exception.
pub bson_to_zval_ex-raises :
    (env : Env) (buffer : Buffer) (map : TypeMap) (odm : Option ClassEntry) (thrown : List Fault)
    → (bson_to_zval_ex env buffer map odm thrown).success ≡ false
    → is_pending (bson_to_zval_ex env buffer map odm thrown).thrown ≡ true
bson_to_zval_ex-raises env buffer map odm thrown h =
    unfold bson_to_zval_ex in
    decode_document-raises env buffer (initial_state map odm thrown) buffer.document h
