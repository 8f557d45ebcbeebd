-- ===== src/Reading/Ready.antt =====
-- src/bson.c, `phongo_bson_typemap_to_state`: the classes that a type map can name.
use dotdeb_php_mongodb.Prelude.{
  Bool, true, false, ◌&&◌, Bytes, List, [], ◌∷◌, Option, none, some, Option-cases, inl, inr, ◌≡◌,
  refl, arith,
}
use dotdeb_php_mongodb.Php.Hash.{find}
use dotdeb_php_mongodb.Php.{name, Env, ClassEntry, Table}
use dotdeb_php_mongodb.TypeMap.{
  TypeMap, Target, class, initial_map, apply_classname, apply_text, apply_field, typemap_to_state,
}

-- A class pointer that is not NULL, of a class with instances that has `bsonUnserialize`.
abbrev pub is_usable : Option ClassEntry → Bool
is_usable none = false
is_usable (some c) = c.instantiatable && c.unserializable

abbrev pub are_usable : List (Option ClassEntry) → Bool
are_usable [] = true
are_usable (c ∷ cs) = is_usable c && are_usable cs

-- A target that asks for objects of a class has one.
unfoldable pub is_ready : Target → Bool
is_ready target = elim target.type [ class ↦ is_usable target.class_entry | _ ↦ true ]

pub record IsReady (map : TypeMap) : Type 0 where
  pub document : is_ready map.document ≡ true
  pub array : is_ready map.array ≡ true
  pub root : is_ready map.root ≡ true

apply_classname-ready :
    (env : Env) (classname : Bytes) (target : Target)
    → is_ready target ≡ true
    → is_ready (apply_classname env classname target).0 ≡ true
unfolding apply_classname is_ready
apply_classname-ready env classname target h = ground arith

apply_text-ready :
    (env : Env) (s : Bytes) (target : Target)
    → is_ready target ≡ true
    → is_ready (apply_text env s target).0 ≡ true
unfolding apply_text
apply_text-ready env [] target h = h
apply_text-ready env (c ∷ s) target h = apply_classname-ready env (c ∷ s) target h

apply_field-ready :
    (env : Env) (field : Bytes) (typemap : Table) (target : Target)
    → is_ready target ≡ true
    → is_ready (apply_field env field typemap target).0 ≡ true
unfolding apply_field
apply_field-ready env field typemap target h = elim (Option-cases (find typemap (name field))) [
  | inl e ↦ rw (apply_field, e) h
  | inr (z, e) ↦ rw (apply_field, e) (apply_text-ready env (env.zval_to_string z) target h)
]

-- Whatever the type map names, each of its targets that asks for a class has a class with
-- instances that has `bsonUnserialize`, if that was so before.
pub typemap_to_state-IsReady :
    (env : Env) (typemap : Option Table) (map : TypeMap)
    → IsReady map
    → IsReady (typemap_to_state env typemap map).0
unfolding typemap_to_state
typemap_to_state-IsReady env none map h = h
typemap_to_state-IsReady env (some typemap) map h = record {
  document = apply_field-ready env _ typemap map.document h.document;
  array = apply_field-ready env _ typemap map.array h.array;
  root = apply_field-ready env _ typemap map.root h.root;
}

pub initial_map-IsReady : IsReady initial_map
initial_map-IsReady = unfold is_ready in record { document = refl; array = refl; root = refl }
