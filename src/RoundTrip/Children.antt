-- ===== src/RoundTrip/Children.antt =====
-- The visitors of single values, and of the nested documents and arrays that have been read.
use mathlib.Core.Bool.{false≢true}
use native.Mathlib.Nat.{mod-eq_of_lt}
use dotdeb_php_mongodb.Prelude.{
  some, none, inl, inr, Option-cases, Bool-cases, ap, Bytes, Bool, true, false, ◌≡◌, refl, none,
  sym, ℤ, Bool-cases, ltb_ℤ, int32_max, ◌||◌, int32_min,
}
use dotdeb_php_mongodb.Php.{Key, BsonObject, objectid, Zval, Table, empty, entry, Env, utcdatetime}
use dotdeb_php_mongodb.Php.Hash.{◌⧺◌}
use dotdeb_php_mongodb.Regex.{new_regex}
use dotdeb_php_mongodb.TypeMap.{native_array, Target, TypeMap}
use dotdeb_php_mongodb.Decode.{visit}
use dotdeb_php_mongodb.Decode.Visitors.{State, add}
use dotdeb_php_mongodb.Decode.Documents.{
  child_state, visit_array, convert_array, convert_document, keep_child, visit_document, with_odm,
}
use dotdeb_php_mongodb.RoundTrip.Plain.{IsStable, bson_of_object, bson_of_int}
use dotdeb_php_mongodb.RoundTrip.Reads.{native_map, Reads, Adds, Reads-add}

pub visit_object-Reads :
    (env : Env) (st : State) (k : Bytes) (key : Key) (o : BsonObject)
    → IsStable env o
    → Adds env st k key
    → Reads st (entry key (Zval.bson o) empty) (visit env st k (bson_of_object env o))
unfolding visit bson_of_object
visit_object-Reads env st k key (objectid h) s a = rw s (Reads-add env st k key _ st.odm a)
visit_object-Reads env st k key (BsonObject.binary t d) s a =
    rw (mod-eq_of_lt s) (Reads-add env st k key _ _ a)
visit_object-Reads env st k key (BsonObject.regex p f) s a =
    unfold new_regex in rw s.2 (Reads-add env st k key _ st.odm a)
visit_object-Reads env st k key (BsonObject.javascript c none) s a =
    Reads-add env st k key _ st.odm a
visit_object-Reads env st k key (BsonObject.javascript c (some d)) s a =
    Reads-add env st k key _ st.odm a
visit_object-Reads env st k key (utcdatetime ms) s a = Reads-add env st k key _ st.odm a
visit_object-Reads env st k key _ s a = Reads-add env st k key _ st.odm a

pub visit_int-Reads :
    (env : Env) (st : State) (k : Bytes) (key : Key) (v : ℤ)
    → Adds env st k key
    → Reads st (entry key (Zval.long v) empty) (visit env st k (bson_of_int v))
unfolding visit bson_of_int
visit_int-Reads env st k key v a = elim (Bool-cases (ltb_ℤ int32_max v || ltb_ℤ v int32_min)) [
  | inl wide ↦ rw wide (Reads-add env st k key _ st.odm a)
  | inr narrow ↦ rw narrow (Reads-add env st k key _ st.odm a)
]

convert_array-native :
    (env : Env) (target : Target) (child : State)
    → target.type ≡ native_array
    → convert_array env target child ≡ (Zval.array child.zchild, child)
unfolding convert_array
convert_array-native env target child h = rw h

pub convert_document-native :
    (env : Env) (target : Target) (child : State)
    → target.type ≡ native_array
    → convert_document env target child ≡ (Zval.array child.zchild, child)
unfolding convert_document with_odm
convert_document-native env target child h = elim (Option-cases child.odm) [
  | inl e ↦ rw (h, e)
  | inr (c, e) ↦ rw (h, e)
]

keep_child-same :
    (st child : State)
    → child.thrown ≡ st.thrown
    → child.inits ≡ st.inits
    → keep_child st child ≡ st
unfolding keep_child
keep_child-same st child t n = rw (t, n)

pub visit_array-eq :
    (env : Env) (st child : State) (k : Bytes)
    → visit_array env st k (child, false) ≡ (
      add env
          (keep_child st (convert_array env st.map.array child).1)
          k
          (convert_array env st.map.array child).0,
      false,
    )
unfolding visit_array
visit_array-eq env st child k = refl

pub visit_document-eq :
    (env : Env) (st child : State) (k : Bytes)
    → visit_document env st k (child, false) ≡ (
      add env
          (keep_child st (convert_document env st.map.document child).1)
          k
          (convert_document env st.map.document child).0,
      false,
    )
unfolding visit_document
visit_document-eq env st child k = refl

module _ (env : Env) (st : State) (k : Bytes) (key : Key) (t : Table) (native : st.map ≡ native_map)
    (adds : Adds env st k key) where
  -- What a child context has read, in its parent.
  child-Reads :
      (b : Bool) (child : State)
      → Reads (child_state b st) t (child, false)
      → Reads st
          (entry key (Zval.array t) empty)
          (add env (keep_child st child) k (Zval.array child.zchild), false)
  unfolding child_state ◌⧺◌
  child-Reads b child h =
      let whole : child.zchild ≡ t = h.zchild in
      rw (keep_child-same st child h.thrown h.inits, whole)
        (Reads-add env st k key (Zval.array t) st.odm adds)

  pub visit_array-Reads :
      (r : State × Bool)
      → Reads (child_state true st) t r
      → Reads st (entry key (Zval.array t) empty) (visit_array env st k r)
  visit_array-Reads (child, true) h = absurd (false≢true (sym h.goes_on))
  visit_array-Reads (child, false) h =
      rw
        (
          visit_array-eq,
          convert_array-native env st.map.array child (ap (λ (m : TypeMap). m.array.type) native),
        )
        (child-Reads true child h)

  pub visit_document-Reads :
      (r : State × Bool)
      → Reads (child_state false st) t r
      → Reads st (entry key (Zval.array t) empty) (visit_document env st k r)
  visit_document-Reads (child, true) h = absurd (false≢true (sym h.goes_on))
  visit_document-Reads (child, false) h =
      rw
        (
          visit_document-eq,
          convert_document-native env st.map.document child
              (ap (λ (m : TypeMap). m.document.type) native),
        )
        (child-Reads false child h)
