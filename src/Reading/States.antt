-- ===== src/Reading/States.antt =====
-- src/bson.c: the states of a visit, with the classes of which objects have been made.
use dotdeb_php_mongodb.Encode.{odm_field_name}
use mathlib.Core.Bool.{false≢true}
use dotdeb_php_mongodb.Prelude.{
  Bool, true, false, ◌&&◌, Bytes, List, [], ◌∷◌, ◌++◌, Option, none, some, Option-cases, Bool-cases,
  inl, inr, ◌≡◌, refl, arith, if◌then◌else◌, ℕ, ◌==◌, bytes_eq, ◌%◌,
}
use dotdeb_php_mongodb.Php.{Env, Zval, ClassEntry, Table, BsonObject}
use dotdeb_php_mongodb.TypeMap.{
  TypeMap, Target, TypemapType, unset, native_array, native_object, class,
}
use dotdeb_php_mongodb.Decode.Visitors.{State, add, visit_binary, find_odm}
use dotdeb_php_mongodb.Decode.Documents.{
  instantiate, with_odm, convert_document, convert_array, child_state, keep_child, visit_document,
  visit_array, standard_object,
}
use dotdeb_php_mongodb.Reading.Ready.{is_usable, are_usable, is_ready, IsReady}

-- A class that `__pclass` named.
abbrev pub is_usable_odm : Option ClassEntry → Bool
is_usable_odm none = true
is_usable_odm (some c) = is_usable (some c)

-- The states of a visit with a map.
pub record IsSound (map : TypeMap) (st : State) : Type 0 where
  pub map_kept : st.map ≡ map
  pub odm_usable : is_usable_odm st.odm ≡ true
  pub inits_usable : are_usable st.inits ≡ true

are_usable-append :
    (cs : List (Option ClassEntry)) (c : Option ClassEntry)
    → are_usable cs ≡ true
    → is_usable c ≡ true
    → are_usable (cs ++ c ∷ []) ≡ true
are_usable-append [] c h i = rw i
are_usable-append (d ∷ cs) c h i = ground (arith, are_usable-append cs c)

both_true : (a b c : Bool) → (a && b) ≡ true → (b ≡ true → c ≡ true) → (a && c) ≡ true
both_true true b c h i = i h
both_true false b c h i = h

usable_at :
    (target : Target)
    → is_ready target ≡ true
    → target.type ≡ class
    → is_usable target.class_entry ≡ true
unfolding is_ready
usable_at target h e = rw e at h

class_without_odm :
    (odm : Option ClassEntry) (type : TypemapType)
    → with_odm odm type ≡ class
    → odm ≡ none
    → type ≡ class
unfolding with_odm
class_without_odm none unset h e = h
class_without_odm none native_array h e = h
class_without_odm none native_object h e = h
class_without_odm none class h e = h
class_without_odm (some c) type h e = cc

choice_usable :
    (b : Bool) (c d : Option ClassEntry)
    → is_usable_odm c ≡ true
    → is_usable_odm d ≡ true
    → is_usable_odm (if b then c else d) ≡ true
choice_usable true c d h i = h
choice_usable false c d h i = i

found-usable :
    (c : ClassEntry) (old : Option ClassEntry)
    → is_usable_odm old ≡ true
    → (c.persistable ≡ true → c.unserializable ≡ true)
    → is_usable_odm (if c.instantiatable && c.persistable then some c else old) ≡ true
found-usable c old h i = elim (Bool-cases (c.instantiatable && c.persistable)) [
  | inl e ↦ rw e (both_true c.instantiatable c.persistable c.unserializable e i)
  | inr e ↦ rw e h
]

-- A `Persistable` has `bsonUnserialize`.
module _ (env : Env)
    (unserializable_if_persistable : (s : Bytes) (c : ClassEntry)
      → env.fetch_class s ≡ some c
      → c.persistable ≡ true
      → c.unserializable ≡ true)
    (map : TypeMap) (ready : IsReady map) where
  document_cases :
      (type : TypemapType) (a b c : Zval × State)
      → IsSound map a.1
      → (type ≡ class → IsSound map b.1)
      → IsSound map c.1
      → IsSound map (elim type as (λ _. Zval × State) [ native_array ↦ a | class ↦ b | _ ↦ c ]).1
  document_cases native_array a b c ha hb hc = ha
  document_cases class a b c ha hb hc = hb refl
  document_cases unset a b c ha hb hc = hc
  document_cases native_object a b c ha hb hc = hc

  array_cases :
      (type : TypemapType) (b c a : Zval × State)
      → (type ≡ class → IsSound map b.1)
      → IsSound map c.1
      → IsSound map a.1
      → IsSound map (elim type as (λ _. Zval × State) [ class ↦ b | native_object ↦ c | _ ↦ a ]).1
  array_cases native_array b c a hb hc ha = ha
  array_cases class b c a hb hc ha = hb refl
  array_cases unset b c a hb hc ha = ha
  array_cases native_object b c a hb hc ha = hc

  pub stop_choice :
      (r s : State × Bool)
      → IsSound map r.0
      → IsSound map s.0
      → IsSound map (if r.1 then (r.0, true) else s).0
  stop_choice (st, true) s h i = h
  stop_choice (st, false) s h i = i

  pub add-IsSound :
      (st : State) (k : Bytes) (v : Zval) → IsSound map st → IsSound map (add env st k v)
  unfolding add
  add-IsSound st k v h = elim (Bool-cases st.is_visiting_array) [
    | inl e ↦
        rw e (record {
          map_kept = h.map_kept;
          odm_usable = h.odm_usable;
          inits_usable = h.inits_usable;
        })
    | inr e ↦
        rw e (record {
          map_kept = h.map_kept;
          odm_usable = h.odm_usable;
          inits_usable = h.inits_usable;
        })
  ]

  find_odm-usable :
      (s : Bytes) (old : Option ClassEntry)
      → is_usable_odm old ≡ true
      → is_usable_odm (find_odm env s old) ≡ true
  unfolding find_odm
  find_odm-usable s old h = elim (Option-cases (env.fetch_class s)) [
    | inl e ↦ rw (find_odm, e) h
    | inr (c, e) ↦ rw (find_odm, e) (found-usable c old h (unserializable_if_persistable s c e))
  ]

  instantiate-IsSound :
      (odm c : Option ClassEntry) (t : Table) (st : State)
      → is_usable_odm odm ≡ true
      → (odm ≡ none → is_usable c ≡ true)
      → IsSound map st
      → IsSound map (instantiate env odm c t st).1
  unfolding instantiate
  instantiate-IsSound (some odm) c t st ho hc h = record {
    map_kept = h.map_kept;
    odm_usable = h.odm_usable;
    inits_usable = are_usable-append st.inits (some odm) h.inits_usable ho;
  }
  instantiate-IsSound none (some c) t st ho hc h = record {
    map_kept = h.map_kept;
    odm_usable = h.odm_usable;
    inits_usable = are_usable-append st.inits (some c) h.inits_usable (hc refl);
  }
  instantiate-IsSound none none t st ho hc h = absurd (false≢true (hc refl))

  pub convert_document-IsSound :
      (target : Target) (st : State)
      → is_ready target ≡ true
      → IsSound map st
      → IsSound map (convert_document env target st).1
  unfolding convert_document
  convert_document-IsSound target st r h =
      document_cases (with_odm st.odm target.type) (Zval.array st.zchild, st)
        (instantiate env st.odm target.class_entry st.zchild st) (standard_object st.zchild, st) h
        (λ e.
          instantiate-IsSound st.odm target.class_entry st.zchild st h.odm_usable
            (λ n. usable_at target r (class_without_odm st.odm target.type e n)) h)
        h

  convert_array-IsSound :
      (target : Target) (st : State)
      → is_ready target ≡ true
      → IsSound map st
      → IsSound map (convert_array env target st).1
  unfolding convert_array
  convert_array-IsSound target st r h =
      array_cases target.type (instantiate env none target.class_entry st.zchild st)
        (standard_object st.zchild, st) (Zval.array st.zchild, st)
        (λ e.
          instantiate-IsSound none target.class_entry st.zchild st refl (λ _. usable_at target r e)
            h)
        h h

  keep_child-IsSound :
      (st child : State) → IsSound map st → IsSound map child → IsSound map (keep_child st child)
  unfolding keep_child
  keep_child-IsSound st child h i = record {
    map_kept = h.map_kept;
    odm_usable = h.odm_usable;
    inits_usable = i.inits_usable;
  }

  pub child_state-IsSound :
      (b : Bool) (st : State) → IsSound map st → IsSound map (child_state b st)
  unfolding child_state
  child_state-IsSound b st h = record {
    map_kept = h.map_kept;
    odm_usable = refl;
    inits_usable = h.inits_usable;
  }

  pub visit_document-IsSound :
      (st : State) (k : Bytes) (r : State × Bool)
      → IsSound map st
      → IsSound map r.0
      → IsSound map (visit_document env st k r).0
  unfolding visit_document
  visit_document-IsSound st k (child, true) h i = keep_child-IsSound st child h i
  visit_document-IsSound st k (child, false) h i =
      let (v, child') = convert_document env st.map.document child in
      add-IsSound (keep_child st child') k v (
        keep_child-IsSound st child' h
          (convert_document-IsSound st.map.document child (rw h.map_kept ready.document) i))

  pub visit_array-IsSound :
      (st : State) (k : Bytes) (r : State × Bool)
      → IsSound map st
      → IsSound map r.0
      → IsSound map (visit_array env st k r).0
  unfolding visit_array
  visit_array-IsSound st k (child, true) h i = keep_child-IsSound st child h i
  visit_array-IsSound st k (child, false) h i =
      let (v, child') = convert_array env st.map.array child in
      add-IsSound (keep_child st child') k v (
        keep_child-IsSound st child' h
          (convert_array-IsSound st.map.array child (rw h.map_kept ready.array) i))

  pub visit_binary-IsSound :
      (st : State) (k : Bytes) (t : ℕ) (v : Bytes)
      → IsSound map st
      → IsSound map (visit_binary env st k t v).0
  unfolding visit_binary
  visit_binary-IsSound st k t v h =
      let b : Bool = (t == 0x80) && bytes_eq k odm_field_name in
      add-IsSound (record st { odm = if b then find_odm env v st.odm else st.odm }) k
        (Zval.bson (BsonObject.binary (t % 256) v))
        (record {
          map_kept = h.map_kept;
          odm_usable =
              choice_usable b (find_odm env v st.odm) st.odm (find_odm-usable v st.odm h.odm_usable)
                h.odm_usable;
          inits_usable = h.inits_usable;
        })
