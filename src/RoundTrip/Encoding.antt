-- ===== src/RoundTrip/Encoding.antt =====
-- The encoder on plain values: no exception, and the elements of the value.
use dotdeb_php_mongodb.Prelude.{
  Bytes, false, none, some, ◌≡◌, refl, arith, c_string_whole, ℤ, has_nul, ℕ, suc,
}
use dotdeb_php_mongodb.Bson.{Bson, Doc, element}
use dotdeb_php_mongodb.Php.{index, name, BsonObject, objectid, Zval, Table, empty, entry, Env}
use dotdeb_php_mongodb.Php.Hash.{◌⧺◌}
use dotdeb_php_mongodb.Encode.{
  Flags, Shape, converted, appended, as_array, as_document, all_entries, both, nested_as, keys_from,
  is_array_or_document, append_int, bson_object_to_bson, seen_key, append_id, bson_append,
  table_to_bson, without_id,
}
use dotdeb_php_mongodb.RoundTrip.Plain.{
  IsPlain, ArePlain, IsStable, KeysFit, KeysFitAs, wrap, bson_of_object, bson_of_int, bson_of,
  elements,
}

bson_object-eq :
    (env : Env) (k : Bytes) (o : BsonObject)
    → IsStable env o
    → bson_object_to_bson env k o ≡ appended k (bson_of_object env o)
unfolding bson_object_to_bson bson_of_object
bson_object-eq env k (objectid h) s = refl
bson_object-eq env k (BsonObject.regex p f) s = rw (c_string_whole p s.0, c_string_whole f s.1)
bson_object-eq env k (BsonObject.javascript c none) s = rw (c_string_whole c s)
bson_object-eq env k (BsonObject.javascript c (some sc)) s = rw (c_string_whole c s)
bson_object-eq env k _ s = refl

append_int-eq : (k : Bytes) (v : ℤ) → append_int k v ≡ appended k (bson_of_int v)
unfolding append_int bson_of_int
append_int-eq k v = ground arith

nested_as-eq :
    (s : Shape) (k : Bytes) (d : Doc) → nested_as s k (converted d) ≡ appended k (wrap s d)
unfolding nested_as wrap
nested_as-eq as_array k d = refl
nested_as-eq as_document k d = refl

-- The keys of a table that `skips` and the test for NUL bytes let through.
abbrev pub Keyed : Table → Type 0
Keyed empty = Unit
Keyed (entry (index i) v t) = Keyed t
Keyed (entry (name s) v t) = (has_nul s ≡ false) × Keyed t

seen_key-eq : (fl : Flags) (s : Bytes) → fl.add_id ≡ false → seen_key fl s ≡ fl
unfolding seen_key
seen_key-eq fl s h = ground arith

both-appended :
    (k : Bytes) (b : Bson) (d : Doc) → both (appended k b) (converted d) ≡ converted (element k b d)
unfolding both
both-appended k b d = refl

Keyed-of_array : (n : ℕ) (t : Table) → keys_from n t ≡ as_array → Keyed t
unfolding keys_from
Keyed-of_array n empty h = tt
Keyed-of_array n (entry (index i) v t) h = Keyed-of_array (suc n) t (ground arith)
Keyed-of_array n (entry (name s) v t) h = cc

pub Keyed-of_fit : (env : Env) (before t : Table) → KeysFit env before t → Keyed t
Keyed-of_fit env before empty h = tt
Keyed-of_fit env before (entry (index i) v t) h =
    Keyed-of_fit env (before ⧺ entry (index i) v empty) t h.3
Keyed-of_fit env before (entry (name s) v t) h =
    (h.0, Keyed-of_fit env (before ⧺ entry (name s) v empty) t h.3)

Keyed-of_shape :
    (env : Env) (s : Shape) (t : Table) → keys_from 0 t ≡ s → KeysFitAs env s t → Keyed t
Keyed-of_shape env as_array t e h = Keyed-of_array 0 t e
Keyed-of_shape env as_document t e h = Keyed-of_fit env empty t h

mutual
  unfolding bson_append is_array_or_document bson_of append_id

  bson_append-plain :
      (env : Env) (fl : Flags) (k : Bytes) (z : Zval)
      → fl.add_id ≡ false
      → IsPlain env z
      → bson_append env fl k z ≡ appended k (bson_of env z)
  bson_append-plain env fl k Zval.null f h = refl
  bson_append-plain env fl k (Zval.bool b) f h = refl
  bson_append-plain env fl k (Zval.long v) f h = append_int-eq k v
  bson_append-plain env fl k (Zval.double d) f h = refl
  bson_append-plain env fl k (Zval.string s) f h = rw h
  bson_append-plain env fl k (Zval.array t) f h =
      rw (table_to_bson-plain env fl t f (Keyed-of_shape env (keys_from 0 t) t refl h.0) h.1)
        (nested_as-eq (keys_from 0 t) k (elements env t))
  bson_append-plain env fl k (Zval.bson o) f h = bson_object-eq env k o h
  bson_append-plain env fl k (Zval.object c p r) f h = absurd h
  bson_append-plain env fl k (Zval.indirect z) f h = absurd h
  bson_append-plain env fl k (Zval.reference z) f h = absurd h
  bson_append-plain env fl k (Zval.unsupported n) f h = absurd h

  pub table_to_bson-plain :
      (env : Env) (fl : Flags) (t : Table)
      → fl.add_id ≡ false
      → Keyed t
      → ArePlain env t
      → table_to_bson env fl all_entries t ≡ converted (elements env t)
  table_to_bson-plain env fl empty f n h = rw f
  table_to_bson-plain env fl (entry (index i) v t) f n h =
      rw
        (
          bson_append-plain env (without_id fl) (env.long_to_str i) v refl h.0,
          table_to_bson-plain env fl t f n h.1,
        )
        (both-appended _ _ _)
  table_to_bson-plain env fl (entry (name s) v t) f n h =
      rw
        (
          n.0,
          seen_key-eq fl s f,
          bson_append-plain env (without_id fl) s v refl h.0,
          table_to_bson-plain env fl t f n.1 h.1,
        )
        (both-appended _ _ _)
