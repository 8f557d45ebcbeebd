-- ===== src/Reading/Keeping.antt =====
-- src/bson.c: what a visit leaves of the map and of the class of its state.
use mathlib.Core.Bool.{false≢true}
use dotdeb_php_mongodb.Prelude.{
  ◌==◌, ◌&&◌, ◌||◌, Bool, true, false, Bytes, bytes_eq, Option, none, some, ◌≡◌, refl, ◌∙◌, sym,
  if◌then◌else◌, Bool-cases, inl, inr,
}
use dotdeb_php_mongodb.Bson.{Bson, Doc, finish, corrupt, unsupported, element}
use dotdeb_php_mongodb.Php.{ClassEntry, Zval, Table, Env}
use dotdeb_php_mongodb.TypeMap.{Target, class, unset, native_array, native_object, TypemapType}
use dotdeb_php_mongodb.Encode.{odm_field_name}
use dotdeb_php_mongodb.Decode.{visit, visit_all}
use dotdeb_php_mongodb.Decode.Visitors.{State, add, visit_unsupported_type}
use dotdeb_php_mongodb.Decode.Documents.{
  convert_document, convert_array, instantiate, with_odm, keep_child, visit_document, visit_array,
}

-- Whether an element is a `__pclass`.
abbrev pub is_pclass : Bytes → Bson → Bool
is_pclass k (Bson.binary t v) = (t == 0x80) && bytes_eq k odm_field_name
is_pclass k b = false

-- Whether an element of the document itself is a `__pclass`.
abbrev pub has_pclass : Doc → Bool
has_pclass (element k b d) = is_pclass k b || has_pclass d
has_pclass _ = false

-- The map and the class of a state are those of another.
pub record Kept (st st' : State) : Type 0 where
  pub map : st'.map ≡ st.map
  pub odm : st'.odm ≡ st.odm

pub Kept-trans : (a b c : State) → Kept a b → Kept b c → Kept a c
Kept-trans a b c h i = record { map = i.map ∙ h.map; odm = i.odm ∙ h.odm }

add-Kept : (env : Env) (st : State) (k : Bytes) (v : Zval) → Kept st (add env st k v)
unfolding add
add-Kept env st k v = elim (Bool-cases st.is_visiting_array) [
  | inl e ↦ rw e (record { map = refl; odm = refl })
  | inr e ↦ rw e (record { map = refl; odm = refl })
]

instantiate-Kept :
    (env : Env) (odm c : Option ClassEntry) (t : Table) (st : State)
    → Kept st (instantiate env odm c t st).1
unfolding instantiate
instantiate-Kept env (some o) c t st = record { map = refl; odm = refl }
instantiate-Kept env none (some c) t st = record { map = refl; odm = refl }
instantiate-Kept env none none t st = record { map = refl; odm = refl }

document-Kept :
    (type : TypemapType) (a b c : Zval × State) (st : State)
    → Kept st a.1
    → Kept st b.1
    → Kept st c.1
    → Kept st (elim type as (λ _. Zval × State) [ native_array ↦ a | class ↦ b | _ ↦ c ]).1
document-Kept native_array a b c st h i j = h
document-Kept class a b c st h i j = i
document-Kept unset a b c st h i j = j
document-Kept native_object a b c st h i j = j

pub convert_document-Kept :
    (env : Env) (target : Target) (st : State) → Kept st (convert_document env target st).1
unfolding convert_document
convert_document-Kept env target st =
    document-Kept (with_odm st.odm target.type) _ _ _ st (record { map = refl; odm = refl })
      (instantiate-Kept env st.odm target.class_entry st.zchild st)
      (record { map = refl; odm = refl })

keep_child-Kept : (st child : State) → Kept st (keep_child st child)
unfolding keep_child
keep_child-Kept st child = record { map = refl; odm = refl }

visit_document-Kept :
    (env : Env) (st : State) (k : Bytes) (r : State × Bool) → Kept st (visit_document env st k r).0
unfolding visit_document
visit_document-Kept env st k (child, true) = keep_child-Kept st child
visit_document-Kept env st k (child, false) =
    let r : Zval × State = convert_document env st.map.document child in
    Kept-trans st (keep_child st r.1) (add env (keep_child st r.1) k r.0) (keep_child-Kept st r.1)
      (add-Kept env (keep_child st r.1) k r.0)

visit_array-Kept :
    (env : Env) (st : State) (k : Bytes) (r : State × Bool) → Kept st (visit_array env st k r).0
unfolding visit_array
visit_array-Kept env st k (child, true) = keep_child-Kept st child
visit_array-Kept env st k (child, false) =
    let r : Zval × State = convert_array env st.map.array child in
    Kept-trans st (keep_child st r.1) (add env (keep_child st r.1) k r.0) (keep_child-Kept st r.1)
      (add-Kept env (keep_child st r.1) k r.0)

visit-Kept :
    (env : Env) (st : State) (k : Bytes) (b : Bson)
    → is_pclass k b ≡ false
    → Kept st (visit env st k b).0
unfolding visit
visit-Kept env st k (Bson.document d) h = visit_document-Kept env st k _
visit-Kept env st k (Bson.array d) h = visit_array-Kept env st k _
visit-Kept env st k (Bson.binary t v) h = rw h (add-Kept env st k _)
visit-Kept env st k Bson.undefined h = record { map = refl; odm = refl }
visit-Kept env st k (Bson.dbpointer c o) h = record { map = refl; odm = refl }
visit-Kept env st k (Bson.symbol s) h = record { map = refl; odm = refl }
visit-Kept env st k _ h = add-Kept env st k _

or_false : (a b : Bool) → (a || b) ≡ false → (a ≡ false) × (b ≡ false)
or_false false b h = (refl, h)
or_false true b h = absurd (false≢true (sym h))

stop_choice :
    (st : State) (r s : State × Bool)
    → Kept st r.0
    → Kept st s.0
    → Kept st (if r.1 then (r.0, true) else s).0
stop_choice st (a, true) s h i = h
stop_choice st (a, false) s h i = i

pub visit_all-Kept :
    (env : Env) (st : State) (d : Doc) → has_pclass d ≡ false → Kept st (visit_all env st d).0
unfolding visit_all visit_unsupported_type
visit_all-Kept env st finish h = record { map = refl; odm = refl }
visit_all-Kept env st corrupt h = record { map = refl; odm = refl }
visit_all-Kept env st (unsupported k c) h = record { map = refl; odm = refl }
visit_all-Kept env st (element k b d) h =
    let parts = or_false (is_pclass k b) (has_pclass d) h in
    let first = visit-Kept env st k b parts.0 in
    stop_choice st (visit env st k b) (visit_all env (visit env st k b).0 d) first (
      Kept-trans st (visit env st k b).0 (visit_all env (visit env st k b).0 d).0 first
        (visit_all-Kept env (visit env st k b).0 d parts.1))
