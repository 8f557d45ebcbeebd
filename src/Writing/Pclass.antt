-- ===== src/Writing/Pclass.antt =====
-- src/bson.c, `phongo_zval_to_bson`: the `__pclass` of a `Persistable`.
use mathlib.Core.Bool.{false≢true}
use dotdeb_php_mongodb.Prelude.{
  ℕ, ◌+◌, Bool, true, false, ◌||◌, ℤ, Bytes, bytes_eq, has_nul, none, some, if◌then◌else◌, ◌≡◌,
  refl, Bool-cases, inl, inr, arith, String, sym,
}
use dotdeb_php_mongodb.Bson.{Bson, Doc, finish, corrupt, unsupported, element, ◌+++◌}
use dotdeb_php_mongodb.Php.{
  index, name, Table, empty, entry, Env, Zval, ClassEntry, Returned, failed, returned, BsonObject,
}
use dotdeb_php_mongodb.Encode.{
  Flags, without_id, Made, both, Skips, skips, seen_key, append_id, Shape, as_array, as_document,
  nested_as, append_int, bson_object_to_bson, object_root, object_to_bson, pclass, table_to_bson,
  bson_append, serialized_root, serialized_child, zval_to_bson, is_array_or_document,
  public_entries, all_entries, odm_field_name, raised, appended,
}

-- How many elements of a document, not of those in it, have a key.
unfoldable pub count_key : Bytes → Doc → ℕ
count_key k (element j b d) = if bytes_eq j k then 1 + count_key k d else count_key k d
count_key k _ = 0

count_key-append :
    (k : Bytes) (d e : Doc) → count_key k d ≡ 0 → count_key k e ≡ 0 → count_key k (d +++ e) ≡ 0
unfolding count_key ◌+++◌
count_key-append k finish e h i = i
count_key-append k corrupt e h i = refl
count_key-append k (unsupported j c) e h i = refl
count_key-append k (element j b d) e h i = elim (Bool-cases (bytes_eq j k)) [
  | inl y ↦ omega (arith, rw y at h)
  | inr n ↦ rw n (count_key-append k d e (rw n at h) i)
]

-- A conversion that adds no element with a key.
abbrev Avoids : Bytes → Made → Type 0
Avoids q a = count_key q a.doc ≡ 0

choice-Avoids :
    (q : Bytes) (b : Bool) (x y : Made)
    → (b ≡ true → Avoids q x)
    → (b ≡ false → Avoids q y)
    → Avoids q (if b then x else y)
choice-Avoids q true x y h i = h refl
choice-Avoids q false x y h i = i refl

raised-Avoids : (q : Bytes) (message : String) → Avoids q (raised message)
raised-Avoids q message = unfold count_key in refl

single-Avoids :
    (q k : Bytes) (b : Bson) → bytes_eq k q ≡ false → count_key q (element k b finish) ≡ 0
unfolding count_key
single-Avoids q k b h = rw h

nested_as-Avoids :
    (q : Bytes) (shape : Shape) (k : Bytes) (child : Made)
    → bytes_eq k q ≡ false
    → Avoids q (nested_as shape k child)
unfolding nested_as
nested_as-Avoids q as_array k child h = single-Avoids q k (Bson.array child.doc) h
nested_as-Avoids q as_document k child h = single-Avoids q k (Bson.document child.doc) h

append_int-Avoids : (q k : Bytes) (v : ℤ) → bytes_eq k q ≡ false → Avoids q (append_int k v)
unfolding append_int
append_int-Avoids q k v h =
    choice-Avoids q _ _ _ (λ _. single-Avoids q k (Bson.int64 v) h)
      (λ _. single-Avoids q k (Bson.int32 v) h)

bson_object_to_bson-Avoids :
    (env : Env) (q k : Bytes) (o : BsonObject)
    → bytes_eq k q ≡ false
    → Avoids q (bson_object_to_bson env k o)
unfolding bson_object_to_bson count_key
bson_object_to_bson-Avoids env q k (BsonObject.javascript c (some scope)) h = rw h
bson_object_to_bson-Avoids env q k (BsonObject.javascript c none) h = rw h
bson_object_to_bson-Avoids env q k _ h = rw h

serialized_child-Avoids :
    (env : Env) (fl : Flags) (q k : Bytes) (c : ClassEntry) (r : Returned)
    → bytes_eq k q ≡ false
    → Avoids q (serialized_child env fl k c r)
unfolding serialized_child nested_as count_key
serialized_child-Avoids env fl q k c (failed f) h = refl
serialized_child-Avoids env fl q k c (returned (Zval.array t)) h =
    choice-Avoids q c.persistable
      (nested_as as_document k (both (pclass c) (table_to_bson env fl all_entries t)))
      (nested_as (is_array_or_document (Zval.array t)) k (table_to_bson env fl all_entries t))
      (λ _.
        nested_as-Avoids q as_document k (both (pclass c) (table_to_bson env fl all_entries t)) h)
      (λ _.
        nested_as-Avoids q (is_array_or_document (Zval.array t)) k
          (table_to_bson env fl all_entries t) h)
serialized_child-Avoids env fl q k c (returned (Zval.object d p r)) h = ground arith
serialized_child-Avoids env fl q k c (returned _) h = refl

object_to_bson-Avoids :
    (q k : Bytes) (c : ClassEntry) (a b child : Made)
    → bytes_eq k q ≡ false
    → Avoids q child
    → Avoids q (object_to_bson k c a b child)
unfolding object_to_bson nested_as count_key
object_to_bson-Avoids q k c a b child h hc =
    choice-Avoids q c.type (if c.serializable then child else raised "Unexpected %s instance: %s")
      (nested_as as_document k (object_root c a b))
      (λ _.
        choice-Avoids q c.serializable child (raised "Unexpected %s instance: %s") (λ _. hc)
          (λ _. refl))
      (λ _. nested_as-Avoids q as_document k (object_root c a b) h)

bson_append-Avoids :
    (env : Env) (fl : Flags) (q k : Bytes) (z : Zval)
    → bytes_eq k q ≡ false
    → Avoids q (bson_append env fl k z)
unfolding bson_append count_key
bson_append-Avoids env fl q k (Zval.long v) h = append_int-Avoids q k v h
bson_append-Avoids env fl q k (Zval.string s) h =
    choice-Avoids q (env.utf8_validate s) (appended k (Bson.utf8 s))
      (raised "Got invalid UTF-8 value serializing '%s'") (λ _. single-Avoids q k (Bson.utf8 s) h)
      (λ _. refl)
bson_append-Avoids env fl q k (Zval.array t) h =
    nested_as-Avoids q (is_array_or_document (Zval.array t)) k (table_to_bson env fl all_entries t)
      h
bson_append-Avoids env fl q k (Zval.bson o) h = bson_object_to_bson-Avoids env q k o h
bson_append-Avoids env fl q k (Zval.object c p r) h =
    object_to_bson-Avoids q k c (table_to_bson env fl public_entries p) (serialized_root env fl c r)
      (serialized_child env fl k c r) h (serialized_child-Avoids env fl q k c r h)
bson_append-Avoids env fl q k (Zval.indirect z) h = bson_append-Avoids env fl q k z h
bson_append-Avoids env fl q k (Zval.reference z) h = bson_append-Avoids env fl q k z h
bson_append-Avoids env fl q k (Zval.unsupported n) h = refl
bson_append-Avoids env fl q k Zval.null h = rw h
bson_append-Avoids env fl q k (Zval.bool b) h = rw h
bson_append-Avoids env fl q k (Zval.double b) h = rw h

both-Avoids : (q : Bytes) (a b : Made) → Avoids q a → Avoids q b → Avoids q (both a b)
unfolding both
both-Avoids q a b h i = count_key-append q a.doc b.doc h i

append_id-Avoids : (env : Env) (fl : Flags) → Avoids odm_field_name (append_id env fl)
unfolding append_id count_key bytes_eq
append_id-Avoids env fl = choice-Avoids odm_field_name fl.add_id _ _ (λ _. refl) (λ _. refl)

last_false : (a b : Bool) → (a || b) ≡ false → b ≡ false
last_false true b h = absurd (false≢true (sym h))
last_false false b h = h

not_skipped :
    (sk : Skips) (s : Bytes)
    → sk.odm_field ≡ true
    → skips sk s ≡ false
    → bytes_eq s odm_field_name ≡ false
unfolding skips
not_skipped sk s h e = last_false _ _ (rw h at e)

-- An entry with a textual key, as the loop treats it.
name_entry-Avoids :
    (q : Bytes) (skipped : Bool) (s : Bytes) (rest here after : Made)
    → Avoids q rest
    → (skipped ≡ false → Avoids q here)
    → Avoids q after
    → Avoids q (
        if skipped
        then rest
        else if has_nul s
        then raised "BSON keys cannot contain null bytes. Unexpected null byte after \"%s\"."
        else both here after)
name_entry-Avoids q skipped s rest here after hr hh ha =
    choice-Avoids q skipped rest _ (λ _. hr)
      (λ kept.
        choice-Avoids q (has_nul s) _ (both here after)
          (λ _.
            raised-Avoids q
              "BSON keys cannot contain null bytes. Unexpected null byte after \"%s\".")
          (λ _. both-Avoids q here after (hh kept) ha))

-- No decimal integer is `__pclass`.
module _ (env : Env)
    (other_index : (i : ℤ) → bytes_eq (env.long_to_str i) odm_field_name ≡ false) where
  table_to_bson-Avoids :
      (fl : Flags) (sk : Skips) (t : Table)
      → sk.odm_field ≡ true
      → Avoids odm_field_name (table_to_bson env fl sk t)
  unfolding table_to_bson
  table_to_bson-Avoids fl sk empty h = append_id-Avoids env fl
  table_to_bson-Avoids fl sk (entry (index i) v t) h =
      both-Avoids odm_field_name (bson_append env (without_id fl) (env.long_to_str i) v)
        (table_to_bson env fl sk t)
        (bson_append-Avoids env (without_id fl) odm_field_name (env.long_to_str i) v
          (other_index i))
        (table_to_bson-Avoids fl sk t h)
  table_to_bson-Avoids fl sk (entry (name s) v t) h =
      name_entry-Avoids odm_field_name (skips sk s) s (table_to_bson env fl sk t)
        (bson_append env (without_id (seen_key fl s)) s v) (table_to_bson env (seen_key fl s) sk t)
        (table_to_bson-Avoids fl sk t h)
        (λ kept.
          bson_append-Avoids env (without_id (seen_key fl s)) odm_field_name s v
            (not_skipped sk s h kept))
        (table_to_bson-Avoids (seen_key fl s) sk t h)

  -- If the engine makes no integer key `__pclass`, then a `Persistable` that is a `Serializable`
  -- and whose `bsonSerialize` returns an array becomes, as a root, a document with exactly one
  -- `__pclass`, and it comes first: a binary of subtype 0x80 that holds the name of its class.
  -- That holds whatever the array has under that key itself.
  pub zval_to_bson-pclass :
      (fl : Flags) (c : ClassEntry) (p t : Table)
      → c.serializable ≡ true
      → c.persistable ≡ true
      → let made = zval_to_bson env fl (Zval.object c p (returned (Zval.array t))) in
        (rest : Doc) × ((made.doc ≡ element odm_field_name (Bson.binary 0x80 c.name) rest)
          × (count_key odm_field_name rest ≡ 0))
  unfolding zval_to_bson object_root bson_append pclass both ◌+++◌
  zval_to_bson-pclass fl c p t hs hp =
      let sk : Skips = record { from_properties = false; odm_field = true } in
      rw (hs, hp) ((table_to_bson env fl sk t).doc, (refl, table_to_bson-Avoids fl sk t refl))
