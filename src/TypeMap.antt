-- ===== src/TypeMap.antt =====
-- src/bson.c and php_bson.h: the type map, which says what the documents and arrays of a BSON
-- document become in PHP.
use dotdeb_php_mongodb.Prelude.{
  Bytes, codes, case_eq, ◌||◌, Option, none, some, List, [], ◌∷◌, ◌++◌, if◌then◌else◌,
}
use dotdeb_php_mongodb.Errors.{Fault, invalid_argument, throw}
use dotdeb_php_mongodb.Php.{ClassEntry, name, Table, Env}
use dotdeb_php_mongodb.Php.Hash.{find}

-- `php_phongo_bson_typemap_types`.
pub data TypemapType : Type 0 where
  unset native_array native_object class : TypemapType

-- A type and the class that goes with it, which is NULL unless the type is `class`.
pub record Target : Type 0 where
  pub type : TypemapType
  pub class_entry : Option ClassEntry

abbrev pub unset_target : Target
unset_target = record { type = unset; class_entry = none }

-- `php_phongo_bson_typemap`.
pub record TypeMap : Type 0 where
  pub document : Target
  pub array : Target
  pub root : Target

-- The type map of `PHONGO_BSON_STATE_INITIALIZER`.
abbrev pub initial_map : TypeMap
initial_map = record { document = unset_target; array = unset_target; root = unset_target }

-- `apply_classname_to_state`: an error throws and leaves the target alone.
unfoldable pub apply_classname : Env → Bytes → Target → Target × List Fault
apply_classname env classname target =
    if case_eq classname (codes "array")
    then (record { type = native_array; class_entry = none }, [])
    else if case_eq classname (codes "stdclass") || case_eq classname (codes "object")
    then (record { type = native_object; class_entry = none }, [])
    else elim (env.fetch_class classname) [
      | none ↦ (target, throw invalid_argument "Class %s does not exist" ∷ [])
      | some found ↦
          if found.instantiatable
          then (if found.unserializable
              then (record { type = class; class_entry = some found }, [])
              else (target, throw invalid_argument "Class %s does not implement %s" ∷ []))
          else (target, throw invalid_argument "Class %s is not instantiatable" ∷ [])
    ]

-- An empty class name leaves the target alone.
unfoldable pub apply_text : Env → Bytes → Target → Target × List Fault
unfolding apply_classname
apply_text env [] target = (target, [])
apply_text env (c ∷ s) target = apply_classname env (c ∷ s) target

-- One field of the type map. One that is not there leaves the target alone.
unfoldable pub apply_field : Env → Bytes → Table → Target → Target × List Fault
unfolding apply_text
apply_field env field typemap target = elim (find typemap (name field)) [
  | none ↦ (target, [])
  | some z ↦ apply_text env (env.zval_to_string z) target
]

-- `phongo_bson_typemap_to_state`.
unfoldable pub typemap_to_state : Env → Option Table → TypeMap → TypeMap × List Fault
unfolding apply_field
typemap_to_state env none map = (map, [])
typemap_to_state env (some typemap) map =
    let (array, faults) = apply_field env (codes "array") typemap map.array in
    let (document, faults') = apply_field env (codes "document") typemap map.document in
    let (root, faults'') = apply_field env (codes "root") typemap map.root in
    (record { document = document; array = array; root = root }, faults ++ faults' ++ faults'')
