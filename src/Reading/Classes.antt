-- ===== src/Reading/Classes.antt =====
-- src/bson.c: the classes of which reading BSON makes objects.
use dotdeb_php_mongodb.Regex.{new_regex}
use dotdeb_php_mongodb.Prelude.{
  Bool, true, false, Bytes, List, Option, none, some, Bool-cases, inl, inr, ◌≡◌, refl, arith,
  if◌then◌else◌,
}
use dotdeb_php_mongodb.Errors.{Fault, is_pending}
use dotdeb_php_mongodb.Bson.{Bson, Doc, finish, corrupt, unsupported, element}
use dotdeb_php_mongodb.Php.{Env, Zval, ClassEntry, Table, objectid, utcdatetime, BsonObject}
use dotdeb_php_mongodb.TypeMap.{TypeMap, initial_map, typemap_to_state}
use dotdeb_php_mongodb.Decode.{
  visit, visit_all, bson_to_zval_ex, Buffer, root_to_zval, finish_root, decode_document, Decoded,
  failure,
}
use dotdeb_php_mongodb.Decode.Visitors.{State, initial_state, visit_unsupported_type}
use dotdeb_php_mongodb.Decode.Documents.{convert_document, child_state}
use dotdeb_php_mongodb.Reading.Ready.{
  are_usable, IsReady, typemap_to_state-IsReady, initial_map-IsReady,
}
use dotdeb_php_mongodb.Reading.States.{
  IsSound, stop_choice, add-IsSound, child_state-IsSound, convert_document-IsSound,
  visit_document-IsSound, visit_array-IsSound, visit_binary-IsSound,
}

iterable_choice :
    (b : Bool) (r s : Decoded)
    → are_usable r.inits ≡ true
    → are_usable s.inits ≡ true
    → are_usable (if b then r else s).inits ≡ true
iterable_choice true r s h i = h
iterable_choice false r s h i = i

finish_root-inits : (buffer : Buffer) (r : Zval × State) → (finish_root buffer r).inits ≡ r.1.inits
unfolding finish_root
finish_root-inits buffer (v, st) = ground arith

-- A `Persistable` has `bsonUnserialize`.
module _ (env : Env)
    (unserializable_if_persistable : (s : Bytes) (c : ClassEntry)
      → env.fetch_class s ≡ some c
      → c.persistable ≡ true
      → c.unserializable ≡ true)
    (map : TypeMap) (ready : IsReady map) where
  visit_unsupported_type-IsSound :
      (st : State) → IsSound map st → IsSound map (visit_unsupported_type st)
  unfolding visit_unsupported_type
  visit_unsupported_type-IsSound st h = record {
    map_kept = h.map_kept;
    odm_usable = h.odm_usable;
    inits_usable = h.inits_usable;
  }

  mutual
    unfolding visit

    visit-IsSound :
        (st : State) (k : Bytes) (b : Bson) → IsSound map st → IsSound map (visit env st k b).0
    visit-IsSound st k (Bson.document d) h =
        (visit_document-IsSound env unserializable_if_persistable map ready) st k
          (visit_all env (child_state false st) d) h
          (visit_all-IsSound (child_state false st) d
            ((child_state-IsSound env unserializable_if_persistable map ready) false st h))
    visit-IsSound st k (Bson.array d) h =
        (visit_array-IsSound env unserializable_if_persistable map ready) st k
          (visit_all env (child_state true st) d) h
          (visit_all-IsSound (child_state true st) d
            ((child_state-IsSound env unserializable_if_persistable map ready) true st h))
    visit-IsSound st k (Bson.binary t v) h =
        (visit_binary-IsSound env unserializable_if_persistable map ready) st k t v h
    visit-IsSound st k Bson.undefined h = h
    visit-IsSound st k (Bson.dbpointer c o) h = h
    visit-IsSound st k (Bson.symbol s) h = h
    visit-IsSound st k (Bson.double v) h =
        (add-IsSound env unserializable_if_persistable map ready) st k (Zval.double v) h
    visit-IsSound st k (Bson.utf8 v) h =
        (add-IsSound env unserializable_if_persistable map ready) st k (Zval.string v) h
    visit-IsSound st k (Bson.oid v) h =
        (add-IsSound env unserializable_if_persistable map ready) st k
          (Zval.bson (objectid (env.oid_to_string v))) h
    visit-IsSound st k (Bson.bool v) h =
        (add-IsSound env unserializable_if_persistable map ready) st k (Zval.bool v) h
    visit-IsSound st k (Bson.date_time v) h =
        (add-IsSound env unserializable_if_persistable map ready) st k (Zval.bson (utcdatetime v)) h
    visit-IsSound st k Bson.null h =
        (add-IsSound env unserializable_if_persistable map ready) st k Zval.null h
    visit-IsSound st k (Bson.regex p o) h =
        (add-IsSound env unserializable_if_persistable map ready) st k (Zval.bson (new_regex p o)) h
    visit-IsSound st k (Bson.code c) h =
        (add-IsSound env unserializable_if_persistable map ready) st k
          (Zval.bson (BsonObject.javascript c none)) h
    visit-IsSound st k (Bson.codewscope c s) h =
        (add-IsSound env unserializable_if_persistable map ready) st k
          (Zval.bson (BsonObject.javascript c (some s))) h
    visit-IsSound st k (Bson.int32 v) h =
        (add-IsSound env unserializable_if_persistable map ready) st k (Zval.long v) h
    visit-IsSound st k (Bson.timestamp t i) h =
        (add-IsSound env unserializable_if_persistable map ready) st k
          (Zval.bson (BsonObject.timestamp i t)) h
    visit-IsSound st k (Bson.int64 v) h =
        (add-IsSound env unserializable_if_persistable map ready) st k (Zval.long v) h
    visit-IsSound st k (Bson.decimal128 a b) h =
        (add-IsSound env unserializable_if_persistable map ready) st k
          (Zval.bson (BsonObject.decimal128 a b)) h
    visit-IsSound st k Bson.maxkey h =
        (add-IsSound env unserializable_if_persistable map ready) st k (Zval.bson BsonObject.maxkey)
          h
    visit-IsSound st k Bson.minkey h =
        (add-IsSound env unserializable_if_persistable map ready) st k (Zval.bson BsonObject.minkey)
          h

    visit_all-IsSound : (st : State) (d : Doc) → IsSound map st → IsSound map (visit_all env st d).0
    visit_all-IsSound st finish h = h
    visit_all-IsSound st corrupt h = h
    visit_all-IsSound st (unsupported k c) h = visit_unsupported_type-IsSound st h
    visit_all-IsSound st (element k b d) h =
        (stop_choice env unserializable_if_persistable map ready) (visit env st k b)
          (visit_all env (visit env st k b).0 d) (visit-IsSound st k b h)
          (visit_all-IsSound (visit env st k b).0 d (visit-IsSound st k b h))

  root_to_zval-usable :
      (buffer : Buffer) (r : State × Bool)
      → IsSound map r.0
      → are_usable (root_to_zval env buffer r).inits ≡ true
  unfolding root_to_zval
  root_to_zval-usable buffer (st, true) h = elim (Bool-cases (is_pending st.thrown)) [
    | inl e ↦ rw e h.inits_usable
    | inr e ↦ rw e h.inits_usable
  ]
  root_to_zval-usable buffer (st, false) h =
      rw (finish_root-inits buffer (convert_document env st.map.root st))
        ((convert_document-IsSound env unserializable_if_persistable map ready) st.map.root st
          (rw h.map_kept ready.root) h).inits_usable

  decode_document-usable :
      (buffer : Buffer) (start : State) (o : Option Doc)
      → IsSound map start
      → are_usable (decode_document env buffer start o).inits ≡ true
  unfolding decode_document
  decode_document-usable buffer start none h = h.inits_usable
  decode_document-usable buffer start (some d) h =
      iterable_choice buffer.iterable (root_to_zval env buffer (visit_all env start d))
        (failure none start "Could not initialize BSON iterator")
        (root_to_zval-usable buffer (visit_all env start d) (visit_all-IsSound start d h))
        h.inits_usable

-- With a type map that `typemap_to_state` has made, whatever it names, whatever `__pclass` the data
-- hold, and no class left by an earlier document, every object that reading BSON makes for a named class is of a class that has
-- instances and `bsonUnserialize`; `object_init_ex` never gets a NULL pointer. That rests on each
-- `Persistable` class being an `Unserializable` one, as the interfaces are declared.
pub bson_to_zval_ex-usable :
    (env : Env)
    → ((s : Bytes) (c : ClassEntry)
        → env.fetch_class s ≡ some c
        → c.persistable ≡ true
        → c.unserializable ≡ true)
    → (buffer : Buffer) (typemap : Option Table) (thrown : List Fault)
    → are_usable
        (bson_to_zval_ex env buffer (typemap_to_state env typemap initial_map).0 none thrown).inits
      ≡ true
unfolding bson_to_zval_ex
bson_to_zval_ex-usable env law buffer typemap thrown =
    let map = (typemap_to_state env typemap initial_map).0 in
    decode_document-usable env law map
      (typemap_to_state-IsReady env typemap initial_map initial_map-IsReady) buffer
      (initial_state map none thrown) buffer.document
      (record { map_kept = refl; odm_usable = refl; inits_usable = refl })
