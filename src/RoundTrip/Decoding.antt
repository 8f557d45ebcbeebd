-- ===== src/RoundTrip/Decoding.antt =====
-- The visitors on the elements of plain values, with native arrays for everything.
use mathlib.Core.Path.{subst}
use dotdeb_php_mongodb.Prelude.{
  ℕ, suc, ap, pos, Bytes, Bool, true, false, ◌≡◌, refl, arith, sym, ℤ, ◌∙◌, negsuc,
}
use dotdeb_php_mongodb.Php.{Key, index, name, Zval, Table, empty, entry, Env}
use dotdeb_php_mongodb.Php.Hash.{◌⧺◌, next_index, next_from-append, next_from}
use dotdeb_php_mongodb.Encode.{Shape, as_array, as_document, keys_from}
use dotdeb_php_mongodb.Decode.{visit, visit_all}
use dotdeb_php_mongodb.Decode.Visitors.{State}
use dotdeb_php_mongodb.Decode.Documents.{child_state}
use dotdeb_php_mongodb.RoundTrip.Plain.{
  IsPlain, ArePlain, KeysFit, KeysFitAs, wrap, bson_of, elements, key_text,
}
use dotdeb_php_mongodb.RoundTrip.Reads.{
  native_map, Reads, Adds, Adds-array, Adds-document, Reads-nil, Reads-add, Reads-cons,
}
use dotdeb_php_mongodb.RoundTrip.Children.{
  visit_object-Reads, visit_int-Reads, visit_array-Reads, visit_document-Reads,
}

visit_wrapped :
    (env : Env) (st : State) (k : Bytes) (key : Key) (t : Table) (s : Shape)
    → st.map ≡ native_map
    → Adds env st k key
    → (keys_from 0 t ≡ as_array
        → 0 ≡ next_index (child_state true st).zchild
        → (child_state true st).is_visiting_array ≡ true
        → Reads (child_state true st) t (visit_all env (child_state true st) (elements env t)))
    → (KeysFit env (child_state false st).zchild t
        → (child_state false st).is_visiting_array ≡ false
        → Reads (child_state false st) t (visit_all env (child_state false st) (elements env t)))
    → keys_from 0 t ≡ s
    → KeysFitAs env s t
    → Reads st (entry key (Zval.array t) empty) (visit env st k (wrap s (elements env t)))
unfolding visit wrap
visit_wrapped env st k key t as_array m a in_array in_document e h =
    visit_array-Reads env st k key t m a _
      (in_array e (unfold next_index next_from child_state in refl) (unfold child_state in refl))
visit_wrapped env st k key t as_document m a in_array in_document e h =
    visit_document-Reads env st k key t m a _
      (in_document (unfold child_state in h) (unfold child_state in refl))

-- The index that the next value of an array has.
next_index-add :
    (t : Table) (v : Zval)
    → next_index (t ⧺ entry (index (pos (next_index t))) v empty) ≡ suc (next_index t)
unfolding next_index
next_index-add t v = rw next_from-append (unfold next_from in ground arith)

keys_from-index :
    (n : ℕ) (i : ℤ) (v : Zval) (t : Table)
    → keys_from n (entry (index i) v t) ≡ as_array
    → (i ≡ pos n) × (keys_from (suc n) t ≡ as_array)
unfolding keys_from
keys_from-index n (pos i) v t h = ground arith
keys_from-index n (negsuc i) v t h = ground arith

keys_from-name :
    (n : ℕ) (s : Bytes) (v : Zval) (t : Table) → ¬ (keys_from n (entry (name s) v t) ≡ as_array)
unfolding keys_from
keys_from-name n s v t h = cc

-- The next entry of an array stands at the next index.
Adds-next :
    (env : Env) (st : State) (k : Bytes) (n : ℕ) (i : ℤ)
    → i ≡ pos n
    → n ≡ next_index st.zchild
    → st.is_visiting_array ≡ true
    → Adds env st k (index i)
Adds-next env st k n i e next b =
    subst (Adds env st k) (ap index (sym (e ∙ ap pos next))) (Adds-array env st k b)

next_after :
    (st : State) (n : ℕ) (i : ℤ) (v : Zval) (r : State × Bool)
    → i ≡ pos n
    → n ≡ next_index st.zchild
    → Reads st (entry (index i) v empty) r
    → suc n ≡ next_index r.0.zchild
next_after st n i v r e next one = rw (one.zchild, e, next, next_index-add)

mutual
  unfolding bson_of visit

  visit-plain :
      (env : Env) (st : State) (k : Bytes) (key : Key) (z : Zval)
      → st.map ≡ native_map
      → IsPlain env z
      → Adds env st k key
      → Reads st (entry key z empty) (visit env st k (bson_of env z))
  visit-plain env st k key Zval.null m h a = Reads-add env st k key _ st.odm a
  visit-plain env st k key (Zval.bool b) m h a = Reads-add env st k key _ st.odm a
  visit-plain env st k key (Zval.long v) m h a = visit_int-Reads env st k key v a
  visit-plain env st k key (Zval.double d) m h a = Reads-add env st k key _ st.odm a
  visit-plain env st k key (Zval.string s) m h a = Reads-add env st k key _ st.odm a
  visit-plain env st k key (Zval.array t) m h a =
      visit_wrapped env st k key t (keys_from 0 t) m a
        (visit_array-plain env (child_state true st) t 0 m h.1)
        (visit_document-plain env (child_state false st) t m h.1) refl h.0
  visit-plain env st k key (Zval.bson o) m h a = visit_object-Reads env st k key o h a
  visit-plain env st k key (Zval.object c p r) m h a = absurd h
  visit-plain env st k key (Zval.indirect z) m h a = absurd h
  visit-plain env st k key (Zval.reference z) m h a = absurd h
  visit-plain env st k key (Zval.unsupported n) m h a = absurd h

  visit_array-plain :
      (env : Env) (st : State) (t : Table) (n : ℕ)
      → st.map ≡ native_map
      → ArePlain env t
      → keys_from n t ≡ as_array
      → n ≡ next_index st.zchild
      → st.is_visiting_array ≡ true
      → Reads st t (visit_all env st (elements env t))
  visit_array-plain env st empty n m h e next b = Reads-nil st
  visit_array-plain env st (entry (name s) v t) n m h e next b = absurd (keys_from-name n s v t e)
  visit_array-plain env st (entry (index i) v t) n m h e next b =
      let (at, e') = keys_from-index n i v t e in
      let k = env.long_to_str i in
      let one = visit-plain env st k (index i) v m h.0 (Adds-next env st k n i at next b) in
      Reads-cons env st k (bson_of env v) (elements env t) (index i) v t one (
        visit_array-plain env (visit env st k (bson_of env v)).0 t (suc n) (one.map ∙ m) h.1 e'
          (next_after st n i v _ at next one) (one.in_array ∙ b))

  pub visit_document-plain :
      (env : Env) (st : State) (t : Table)
      → st.map ≡ native_map
      → ArePlain env t
      → KeysFit env st.zchild t
      → st.is_visiting_array ≡ false
      → Reads st t (visit_all env st (elements env t))
  visit_document-plain env st empty m h f b = Reads-nil st
  visit_document-plain env st (entry k v t) m h f b =
      let s = key_text env k in
      let one = visit-plain env st s k v m h.0 (Adds-document env st s k b f.1 f.2) in
      Reads-cons env st s (bson_of env v) (elements env t) k v t one (
        visit_document-plain env (visit env st s (bson_of env v)).0 t (one.map ∙ m) h.1
          (subst (λ (u : Table). KeysFit env u t) (sym one.zchild) f.3) (one.in_array ∙ b))
