-- ===== src/RoundTrip/Reads.antt =====
-- What a visit of some elements does to the state, and how such visits join.
use dotdeb_php_mongodb.Prelude.{
  none, pos, Bytes, Bool, true, false, Option, ◌≡◌, refl, none, sym, ◌∙◌,
}
use dotdeb_php_mongodb.Bson.{Bson, Doc, element}
use dotdeb_php_mongodb.Php.{ClassEntry, Key, index, Zval, Table, empty, entry, Env}
use dotdeb_php_mongodb.Php.Hash.{◌⧺◌, find, add_next, next_index, update_new, ⧺_assoc, ⧺-empty}
use dotdeb_php_mongodb.TypeMap.{native_array, Target, TypeMap}
use dotdeb_php_mongodb.Decode.{visit, visit_all}
use dotdeb_php_mongodb.Decode.Visitors.{State, add, symtable_key}

-- `['root' => 'array', 'document' => 'array', 'array' => 'array']`.
abbrev pub native_map : TypeMap
native_map =
    let native : Target = record { type = native_array; class_entry = none } in
    record { document = native; array = native; root = native }

-- A visit that started in `st` added the entries of `t`, went on, and threw nothing. It may have
-- found an ODM class.
pub record Reads (st : State) (t : Table) (r : State × Bool) : Type 0 where
  pub goes_on : r.1 ≡ false
  pub zchild : r.0.zchild ≡ st.zchild ⧺ t
  pub map : r.0.map ≡ st.map
  pub in_array : r.0.is_visiting_array ≡ st.is_visiting_array
  pub thrown : r.0.thrown ≡ st.thrown
  pub inits : r.0.inits ≡ st.inits

-- In `st` a value with the key text `k` becomes the new entry at `key`.
abbrev pub Adds : Env → State → Bytes → Key → Type 0
Adds env st k key =
    (v : Zval) (o : Option ClassEntry)
    → add env (record st { odm = o }) k v
      ≡ record st { odm = o; zchild = st.zchild ⧺ entry key v empty }

pub Adds-array :
    (env : Env) (st : State) (k : Bytes)
    → st.is_visiting_array ≡ true
    → Adds env st k (index (pos (next_index st.zchild)))
unfolding add add_next
Adds-array env st k h v o = rw h

pub Adds-document :
    (env : Env) (st : State) (k : Bytes) (key : Key)
    → st.is_visiting_array ≡ false
    → symtable_key env k ≡ key
    → find st.zchild key ≡ none
    → Adds env st k key
unfolding add
Adds-document env st k key h e new v o = rw (h, e, update_new st.zchild key v new)

pub Reads-nil : (st : State) → Reads st empty (st, false)
Reads-nil st = record {
  goes_on = refl;
  zchild = sym (⧺-empty st.zchild);
  map = refl;
  in_array = refl;
  thrown = refl;
  inits = refl;
}

-- Adding one value.
pub Reads-add :
    (env : Env) (st : State) (k : Bytes) (key : Key) (v : Zval) (o : Option ClassEntry)
    → Adds env st k key
    → Reads st (entry key v empty) (add env (record st { odm = o }) k v, false)
Reads-add env st k key v o adds = rw (adds v o) (record {
  goes_on = refl;
  zchild = refl;
  map = refl;
  in_array = refl;
  thrown = refl;
  inits = refl;
})

-- One element before the rest of a document.
pub Reads-cons :
    (env : Env) (st : State) (k : Bytes) (b : Bson) (d : Doc) (key : Key) (v : Zval) (t : Table)
    → Reads st (entry key v empty) (visit env st k b)
    → Reads (visit env st k b).0 t (visit_all env (visit env st k b).0 d)
    → Reads st (entry key v t) (visit_all env st (element k b d))
unfolding visit_all ◌⧺◌
Reads-cons env st k b d key v t one rest = rw one.goes_on (record {
  goes_on = rest.goes_on;
  zchild = rest.zchild ∙ cc (one.zchild, ⧺_assoc st.zchild (entry key v empty) t);
  map = rest.map ∙ one.map;
  in_array = rest.in_array ∙ one.in_array;
  thrown = rest.thrown ∙ one.thrown;
  inits = rest.inits ∙ one.inits;
})
