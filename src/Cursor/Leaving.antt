-- ===== src/Cursor/Leaving.antt =====
-- src/MongoDB/Cursor.c and src/bson.c: the class that a document of a cursor leaves for the next.
use mathlib.Core.Bool.{false≢true}
use dotdeb_php_mongodb.Prelude.{
  Bool, true, false, ◌||◌, not, some, [], ◌≡◌, refl, ◌∙◌, ap, sym, Bool-cases, inl, inr,
}
use dotdeb_php_mongodb.Bson.{Doc}
use dotdeb_php_mongodb.Php.{ClassEntry, Zval, Table, Env}
use dotdeb_php_mongodb.TypeMap.{Target, class}
use dotdeb_php_mongodb.Decode.{
  Buffer, Decoded, bson_to_zval_ex, visit_all, decode_document, root_to_zval, finish_root,
}
use dotdeb_php_mongodb.Decode.Visitors.{State, initial_state}
use dotdeb_php_mongodb.Decode.Documents.{convert_document, instantiate, with_odm}
use dotdeb_php_mongodb.Reading.Keeping.{
  Kept, Kept-trans, convert_document-Kept, visit_all-Kept, has_pclass,
}
use dotdeb_php_mongodb.Reading.Intact.{intact, visit_all-stop, root_to_zval-eq}
use dotdeb_php_mongodb.Cursor.{Cursor, convert_into}

-- A class in the state, and a root type that it supersedes, make the root an object of that class.
convert_document-class :
    (env : Env) (c : ClassEntry) (target : Target) (st : State)
    → st.odm ≡ some c
    → with_odm (some c) target.type ≡ class
    → (convert_document env target st).0 ≡ (env.bson_unserialize c st.zchild).0
unfolding convert_document instantiate
convert_document-class env c target st h r = simp (convert_document, h, r) refl

-- The value and the state of a root that is an object of class `c`.
record IsObjectOf (env : Env) (c : ClassEntry) (t : Table) (r : Decoded) : Type 0 where
  value : r.value ≡ some (env.bson_unserialize c t).0
  odm : r.odm ≡ some c
  type : r.map.root.type ≡ class

finish_root-IsObjectOf :
    (env : Env) (c : ClassEntry) (buffer : Buffer) (v : Zval) (st : State) (t : Table)
    → v ≡ (env.bson_unserialize c t).0
    → st.odm ≡ some c
    → with_odm (some c) st.map.root.type ≡ class
    → IsObjectOf env c t (finish_root buffer (v, st))
unfolding finish_root
finish_root-IsObjectOf env c buffer v st t h o r =
    elim (Bool-cases (buffer.more || not buffer.eof)) [
      | inl e ↦ rw e (record { value = ap some h; odm = o; type = rw o r })
      | inr e ↦ rw e (record { value = ap some h; odm = o; type = rw o r })
    ]

root_to_zval-IsObjectOf :
    (env : Env) (c : ClassEntry) (buffer : Buffer) (start : State) (r : State × Bool)
    → r.1 ≡ false
    → Kept start r.0
    → start.odm ≡ some c
    → with_odm (some c) start.map.root.type ≡ class
    → IsObjectOf env c r.0.zchild (root_to_zval env buffer r)
root_to_zval-IsObjectOf env c buffer start (st, true) g h o t = absurd (false≢true (sym g))
root_to_zval-IsObjectOf env c buffer start (st, false) g h o t =
    let r : Zval × State = convert_document env st.map.root st in
    let kept = Kept-trans start st r.1 h (convert_document-Kept env st.map.root st) in
    rw root_to_zval-eq (
      finish_root-IsObjectOf env c buffer r.0 r.1 st.zchild
        (convert_document-class env c st.map.root st (h.odm ∙ o) (rw h.map t)) (kept.odm ∙ o)
        (rw kept.map t))

decode_document-IsObjectOf :
    (env : Env) (c : ClassEntry) (buffer : Buffer) (start : State) (d : Doc)
    → buffer.iterable ≡ true
    → intact d ≡ true
    → has_pclass d ≡ false
    → start.odm ≡ some c
    → with_odm (some c) start.map.root.type ≡ class
    → IsObjectOf env c (visit_all env start d).0.zchild (decode_document env buffer start (some d))
unfolding decode_document root_to_zval
decode_document-IsObjectOf env c buffer start d i w n o t =
    rw (decode_document, i)
      (root_to_zval-IsObjectOf env c buffer start (visit_all env start d)
        (visit_all-stop env start d ∙ ap not w) (visit_all-Kept env start d n) o t)

-- Once a class is in the state of a cursor, and the root type is the one that it has set or the
-- default, a document that is intact and has no `__pclass` becomes an object of that class all the
-- same; and class and root type stay in the state, so that the next such document does too.
pub convert_into-left_class :
    {C : Type 0} (env : Env) (c : ClassEntry) (intern : Cursor C) (document : Buffer) (d : Doc)
    → document.document ≡ some d
    → document.iterable ≡ true
    → intact d ≡ true
    → has_pclass d ≡ false
    → intern.odm ≡ some c
    → with_odm (some c) intern.map.root.type ≡ class
    → let after : Cursor C = (convert_into env document intern []).0 in
      (after.zchild
        ≡ some
            (env.bson_unserialize c
              (visit_all env (initial_state intern.map intern.odm []) d).0.zchild).0)
      × ((after.odm ≡ some c) × (after.map.root.type ≡ class))
unfolding convert_into
convert_into-left_class env c intern document d e i w n o t =
    let start : State = initial_state intern.map intern.odm [] in
    let made = decode_document-IsObjectOf env c document start d i w n o t in
    unfold bson_to_zval_ex in rw e (made.value, (made.odm, made.type))
