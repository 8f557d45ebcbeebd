-- ===== src/Decode/Documents.antt =====
-- src/bson.c: what a document or an array becomes in PHP, once its elements have been visited.
use dotdeb_php_mongodb.Prelude.{Bytes, codes, Bool, true, false, Option, none, some, ◌++◌, ◌∷◌, []}
use dotdeb_php_mongodb.Php.{ClassEntry, Zval, Table, empty, returned, Env}
use dotdeb_php_mongodb.TypeMap.{TypemapType, unset, native_array, native_object, class, Target}
use dotdeb_php_mongodb.Decode.Visitors.{State, add}

-- `object_init_ex (state.odm ? state.odm : class)`, then `bsonUnserialize`: the object, and the
-- state with what the call threw.
unfoldable pub instantiate :
    Env → Option ClassEntry → Option ClassEntry → Table → State → Zval × State
instantiate env (some odm) class_entry t st =
    let (obj, faults) = env.bson_unserialize odm t in
    (obj, record st { thrown = st.thrown ++ faults; inits = st.inits ++ some odm ∷ [] })
instantiate env none (some c) t st =
    let (obj, faults) = env.bson_unserialize c t in
    (obj, record st { thrown = st.thrown ++ faults; inits = st.inits ++ some c ∷ [] })
instantiate env none none t st = (Zval.null, record st { inits = st.inits ++ none ∷ [] })

-- `stdClass`.
abbrev pub standard_class : ClassEntry
standard_class = record {
  name = codes "stdClass";
  instantiatable = true;
  stdclass = true;
  type = false;
  serializable = false;
  persistable = false;
  unserializable = false;
}

-- `object_and_properties_init` of a `stdClass` object, which has no `bsonSerialize`.
abbrev pub standard_object : Table → Zval
standard_object t = Zval.object standard_class t (returned Zval.null)

-- A class that `__pclass` named supersedes a default type.
unfoldable pub with_odm : Option ClassEntry → TypemapType → TypemapType
with_odm (some odm) unset = class
with_odm _ type = type

-- What a document, or the root, becomes: the value, and the state with what was thrown.
unfoldable pub convert_document : Env → Target → State → Zval × State
unfolding instantiate with_odm
convert_document env target child = elim (with_odm child.odm target.type) [
  | native_array ↦ (Zval.array child.zchild, child)
  | class ↦ instantiate env child.odm target.class_entry child.zchild child
  | _ ↦ (standard_object child.zchild, child)
]

unfoldable pub convert_array : Env → Target → State → Zval × State
unfolding instantiate
convert_array env target child = elim target.type [
  | class ↦ instantiate env none target.class_entry child.zchild child
  | native_object ↦ (standard_object child.zchild, child)
  | _ ↦ (Zval.array child.zchild, child)
]

-- The state of a child context, and what the parent keeps of it.
unfoldable pub child_state : Bool → State → State
child_state visiting_array st = record {
  zchild = empty;
  map = st.map;
  odm = none;
  is_visiting_array = visiting_array;
  thrown = st.thrown;
  inits = st.inits;
}

unfoldable pub keep_child : State → State → State
keep_child st child = record st { thrown = child.thrown; inits = child.inits }

-- `php_phongo_bson_visit_document`, after the visit of the child: true if that stopped.
unfoldable pub visit_document : Env → State → Bytes → State × Bool → State × Bool
unfolding add keep_child convert_document
visit_document env st k (child, true) = (keep_child st child, true)
visit_document env st k (child, false) =
    let (v, child') = convert_document env st.map.document child in
    (add env (keep_child st child') k v, false)

-- `php_phongo_bson_visit_array`, likewise.
unfoldable pub visit_array : Env → State → Bytes → State × Bool → State × Bool
unfolding add keep_child convert_array
visit_array env st k (child, true) = (keep_child st child, true)
visit_array env st k (child, false) =
    let (v, child') = convert_array env st.map.array child in
    (add env (keep_child st child') k v, false)
