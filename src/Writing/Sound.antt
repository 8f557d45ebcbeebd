-- ===== src/Writing/Sound.antt =====
-- src/bson.c, `phongo_zval_to_bson`: what is handed to libbson is what libbson takes.
use mathlib.Core.Bool.{false≢true}
use dotdeb_php_mongodb.Prelude.{
  Bool, [], ◌∷◌, arith, true, false, ◌&&◌, ◌||◌, not, ℤ, ltb_ℤ, int32_min, int32_max, Bytes,
  has_nul, c_string, none, some, if◌then◌else◌, ◌≡◌, refl, Bool-cases, inl, inr, String,
}
use dotdeb_php_mongodb.Bson.{Bson, Doc, finish, corrupt, unsupported, element, ◌+++◌}
use dotdeb_php_mongodb.Php.{
  index, name, Table, empty, entry, Env, Zval, ClassEntry, Returned, failed, returned, BsonObject,
}
use dotdeb_php_mongodb.Encode.{
  Flags, without_id, Made, both, Skips, skips, seen_key, append_id, Shape, as_array, as_document,
  nested_as, append_int, bson_object_to_bson, object_root, object_to_bson, pclass, table_to_bson,
  bson_append, serialized_root, serialized_child, zval_to_bson, is_array_or_document,
  public_entries, all_entries, root_entries, raised, nested, appended, bad_return,
}

-- What libbson takes: no key, pattern, flag or code with a NUL byte, strings of valid UTF-8, 32-bit
-- integers that fit, and the same in every document and array. The scope of a JavaScript object
-- was converted when the object was made.
unfoldable mutual
  pub is_sound_value : Env → Bson → Bool
  is_sound_value env (Bson.utf8 s) = env.utf8_validate s
  is_sound_value env (Bson.document d) = is_sound env d
  is_sound_value env (Bson.array d) = is_sound env d
  is_sound_value env (Bson.regex p o) = not (has_nul p) && not (has_nul o)
  is_sound_value env (Bson.code c) = not (has_nul c)
  is_sound_value env (Bson.codewscope c scope) = not (has_nul c)
  is_sound_value env (Bson.int32 v) = not (ltb_ℤ int32_max v || ltb_ℤ v int32_min)
  is_sound_value env _ = true

  pub is_sound : Env → Doc → Bool
  is_sound env finish = true
  is_sound env corrupt = false
  is_sound env (unsupported k c) = false
  is_sound env (element k b d) = not (has_nul k) && (is_sound_value env b && is_sound env d)

last_of_three :
    (a b c d : Bool) → (c ≡ true → d ≡ true) → (a && (b && c)) ≡ true → (a && (b && d)) ≡ true
last_of_three true true c d f h = f h
last_of_three true false c d f h = h
last_of_three false b c d f h = h

is_sound-append :
    (env : Env) (d e : Doc)
    → is_sound env d ≡ true
    → is_sound env e ≡ true
    → is_sound env (d +++ e) ≡ true
unfolding is_sound ◌+++◌
is_sound-append env finish e h i = i
is_sound-append env corrupt e h i = absurd (false≢true h)
is_sound-append env (unsupported k c) e h i = absurd (false≢true h)
is_sound-append env (element k b d) e h i =
    last_of_three (not (has_nul k)) (is_sound_value env b) (is_sound env d) (is_sound env (d +++ e))
      (λ hd. is_sound-append env d e hd i) h

is_sound-both :
    (env : Env) (a b : Made)
    → is_sound env a.doc ≡ true
    → is_sound env b.doc ≡ true
    → is_sound env (both a b).doc ≡ true
unfolding both
is_sound-both env a b h i = is_sound-append env a.doc b.doc h i

has_nul-c_string : (s : Bytes) → has_nul (c_string s) ≡ false
unfolding has_nul c_string
has_nul-c_string [] = refl
has_nul-c_string (c ∷ s) = ground (arith, has_nul-c_string s)

choice_sound :
    (env : Env) (b : Bool) (x y : Made)
    → (b ≡ true → is_sound env x.doc ≡ true)
    → (b ≡ false → is_sound env y.doc ≡ true)
    → is_sound env (if b then x else y).doc ≡ true
choice_sound env true x y h i = h refl
choice_sound env false x y h i = i refl

raised_sound : (env : Env) (message : String) → is_sound env (raised message).doc ≡ true
raised_sound env message = unfold is_sound in refl

single_sound :
    (env : Env) (k : Bytes) (b : Bson)
    → has_nul k ≡ false
    → is_sound_value env b ≡ true
    → is_sound env (element k b finish) ≡ true
unfolding is_sound
single_sound env k b hk hb = rw (hk, hb)

nested_as_sound :
    (env : Env) (shape : Shape) (k : Bytes) (child : Made)
    → has_nul k ≡ false
    → is_sound env child.doc ≡ true
    → is_sound env (nested_as shape k child).doc ≡ true
nested_as_sound env as_array k child hk hc =
    unfold nested_as is_sound in single_sound env k (Bson.array child.doc) hk hc
nested_as_sound env as_document k child hk hc =
    unfold nested_as is_sound in single_sound env k (Bson.document child.doc) hk hc

append_int_sound :
    (env : Env) (k : Bytes) (v : ℤ) → has_nul k ≡ false → is_sound env (append_int k v).doc ≡ true
unfolding append_int is_sound
append_int_sound env k v hk = elim (Bool-cases (ltb_ℤ int32_max v || ltb_ℤ v int32_min)) [
  | inl e ↦ rw (e, hk)
  | inr e ↦ rw (e, hk, e)
]

bson_object_to_bson_sound :
    (env : Env) (k : Bytes) (o : BsonObject)
    → has_nul k ≡ false
    → is_sound env (bson_object_to_bson env k o).doc ≡ true
unfolding bson_object_to_bson is_sound
bson_object_to_bson_sound env k (BsonObject.regex p f) hk =
    rw (hk, has_nul-c_string p, has_nul-c_string f)
bson_object_to_bson_sound env k (BsonObject.javascript c (some scope)) hk =
    rw (hk, has_nul-c_string c)
bson_object_to_bson_sound env k (BsonObject.javascript c none) hk = rw (hk, has_nul-c_string c)
bson_object_to_bson_sound env k _ hk = rw hk

object_root_sound :
    (env : Env) (c : ClassEntry) (a b : Made)
    → is_sound env a.doc ≡ true
    → is_sound env b.doc ≡ true
    → is_sound env (object_root c a b).doc ≡ true
unfolding object_root
object_root_sound env c a b ha hb =
    choice_sound env c.serializable b _ (λ _. hb)
      (λ _.
        choice_sound env c.type _ a
          (λ _. raised_sound env "%s instance %s cannot be serialized as a root element") (λ _. ha))

object_to_bson_sound :
    (env : Env) (k : Bytes) (c : ClassEntry) (a b child : Made)
    → has_nul k ≡ false
    → is_sound env a.doc ≡ true
    → is_sound env b.doc ≡ true
    → is_sound env child.doc ≡ true
    → is_sound env (object_to_bson k c a b child).doc ≡ true
unfolding nested_as object_to_bson
object_to_bson_sound env k c a b child hk ha hb hc =
    choice_sound env c.type (if c.serializable then child else raised "Unexpected %s instance: %s")
      (nested k Bson.document (object_root c a b))
      (λ _.
        choice_sound env c.serializable child (raised "Unexpected %s instance: %s") (λ _. hc)
          (λ _. raised_sound env "Unexpected %s instance: %s"))
      (λ _.
        nested_as_sound env as_document k (object_root c a b) hk
          (object_root_sound env c a b ha hb))

pclass_sound : (env : Env) (c : ClassEntry) → is_sound env (pclass c).doc ≡ true
unfolding pclass is_sound has_nul
pclass_sound env c = choice_sound env c.persistable _ _ (λ _. refl) (λ _. refl)

append_id_sound : (env : Env) (fl : Flags) → is_sound env (append_id env fl).doc ≡ true
unfolding append_id is_sound has_nul
append_id_sound env fl = choice_sound env fl.add_id _ _ (λ _. refl) (λ _. refl)

-- An entry with a textual key, as the loop treats it.
name_entry_sound :
    (env : Env) (skipped : Bool) (s : Bytes) (rest here after : Made)
    → is_sound env rest.doc ≡ true
    → (has_nul s ≡ false → is_sound env here.doc ≡ true)
    → is_sound env after.doc ≡ true
    → is_sound env
        (if skipped
          then rest
          else if has_nul s
          then raised "BSON keys cannot contain null bytes. Unexpected null byte after \"%s\"."
          else both here after).doc
      ≡ true
name_entry_sound env skipped s rest here after hr hh ha =
    choice_sound env skipped rest _ (λ _. hr)
      (λ _.
        choice_sound env (has_nul s) _ (both here after)
          (λ _.
            raised_sound env
              "BSON keys cannot contain null bytes. Unexpected null byte after \"%s\".")
          (λ n. is_sound-both env here after (hh n) ha))

-- Keys that the engine makes of integers have no NUL byte.
module _ (env : Env) (clean_index : (i : ℤ) → has_nul (env.long_to_str i) ≡ false) where
  mutual
    unfolding bson_append is_sound nested_as

    bson_append_sound :
        (fl : Flags) (k : Bytes) (z : Zval)
        → has_nul k ≡ false
        → is_sound env (bson_append env fl k z).doc ≡ true
    bson_append_sound fl k Zval.null h = single_sound env k Bson.null h refl
    bson_append_sound fl k (Zval.bool b) h = single_sound env k (Bson.bool b) h refl
    bson_append_sound fl k (Zval.long v) h = append_int_sound env k v h
    bson_append_sound fl k (Zval.double d) h = single_sound env k (Bson.double d) h refl
    bson_append_sound fl k (Zval.string s) h =
        choice_sound env (env.utf8_validate s) (appended k (Bson.utf8 s))
          (raised "Got invalid UTF-8 value serializing '%s'")
          (λ valid. single_sound env k (Bson.utf8 s) h valid)
          (λ _. raised_sound env "Got invalid UTF-8 value serializing '%s'")
    bson_append_sound fl k (Zval.array t) h =
        nested_as_sound env (is_array_or_document (Zval.array t)) k
          (table_to_bson env fl all_entries t) h (table_to_bson_sound fl all_entries t)
    bson_append_sound fl k (Zval.bson o) h = bson_object_to_bson_sound env k o h
    bson_append_sound fl k (Zval.object c p r) h =
        object_to_bson_sound env k c (table_to_bson env fl public_entries p)
          (serialized_root env fl c r) (serialized_child env fl k c r) h
          (table_to_bson_sound fl public_entries p) (serialized_root_sound fl c r)
          (serialized_child_sound fl k c r h)
    bson_append_sound fl k (Zval.indirect z) h = bson_append_sound fl k z h
    bson_append_sound fl k (Zval.reference z) h = bson_append_sound fl k z h
    bson_append_sound fl k (Zval.unsupported n) h = raised_sound env "Got unsupported type %d '%s'"

    pub table_to_bson_sound :
        (fl : Flags) (sk : Skips) (t : Table) → is_sound env (table_to_bson env fl sk t).doc ≡ true
    table_to_bson_sound fl sk empty = append_id_sound env fl
    table_to_bson_sound fl sk (entry (index i) v t) =
        is_sound-both env (bson_append env (without_id fl) (env.long_to_str i) v)
          (table_to_bson env fl sk t)
          (bson_append_sound (without_id fl) (env.long_to_str i) v (clean_index i))
          (table_to_bson_sound fl sk t)
    table_to_bson_sound fl sk (entry (name s) v t) =
        name_entry_sound env (skips sk s) s (table_to_bson env fl sk t)
          (bson_append env (without_id (seen_key fl s)) s v)
          (table_to_bson env (seen_key fl s) sk t) (table_to_bson_sound fl sk t)
          (bson_append_sound (without_id (seen_key fl s)) s v)
          (table_to_bson_sound (seen_key fl s) sk t)

    serialized_root_sound :
        (fl : Flags) (c : ClassEntry) (r : Returned)
        → is_sound env (serialized_root env fl c r).doc ≡ true
    serialized_root_sound fl c (failed f) = refl
    serialized_root_sound fl c (returned (Zval.array t)) =
        is_sound-both env (pclass c) (table_to_bson env fl (root_entries c) t) (pclass_sound env c)
          (table_to_bson_sound fl (root_entries c) t)
    serialized_root_sound fl c (returned (Zval.object d p r)) =
        choice_sound env d.stdclass (both (pclass c) (table_to_bson env fl (root_entries c) p))
          bad_return
          (λ _.
            is_sound-both env (pclass c) (table_to_bson env fl (root_entries c) p)
              (pclass_sound env c) (table_to_bson_sound fl (root_entries c) p))
          (λ _. refl)
    serialized_root_sound fl c (returned _) = refl

    serialized_child_sound :
        (fl : Flags) (k : Bytes) (c : ClassEntry) (r : Returned)
        → has_nul k ≡ false
        → is_sound env (serialized_child env fl k c r).doc ≡ true
    serialized_child_sound fl k c (failed f) h = refl
    serialized_child_sound fl k c (returned (Zval.array t)) h =
        choice_sound env c.persistable
          (nested_as as_document k (both (pclass c) (table_to_bson env fl all_entries t)))
          (nested_as (is_array_or_document (Zval.array t)) k (table_to_bson env fl all_entries t))
          (λ _.
            nested_as_sound env as_document k (both (pclass c) (table_to_bson env fl all_entries t))
              h
              (is_sound-both env (pclass c) (table_to_bson env fl all_entries t)
                (pclass_sound env c) (table_to_bson_sound fl all_entries t)))
          (λ _.
            nested_as_sound env (is_array_or_document (Zval.array t)) k
              (table_to_bson env fl all_entries t) h (table_to_bson_sound fl all_entries t))
    serialized_child_sound fl k c (returned (Zval.object d p r)) h =
        choice_sound env d.stdclass
          (nested_as as_document k (
            both (pclass c)
              (object_root d (table_to_bson env fl public_entries p) (serialized_root env fl d r))))
          bad_return
          (λ _.
            nested_as_sound env as_document k
              (both (pclass c) (
                object_root d (table_to_bson env fl public_entries p) (serialized_root env fl d r)))
              h
              (is_sound-both env (pclass c)
                (object_root d (table_to_bson env fl public_entries p) (serialized_root env fl d r))
                (pclass_sound env c)
                (object_root_sound env d (table_to_bson env fl public_entries p)
                  (serialized_root env fl d r) (table_to_bson_sound fl public_entries p)
                  (serialized_root_sound fl d r))))
          (λ _. refl)
    serialized_child_sound fl k c (returned _) h = refl

  -- If the keys that the engine makes of integers have no NUL byte, then, whatever the value, the
  -- flags and the classes are, what `phongo_zval_to_bson` appends is sound, also when it throws:
  -- at any depth of documents and arrays, libbson gets no key with a NUL byte, no string that is
  -- not UTF-8 and no 32-bit integer out of range. The scope of a JavaScript object is not looked
  -- into.
  pub zval_to_bson_sound : (fl : Flags) (z : Zval) → is_sound env (zval_to_bson env fl z).doc ≡ true
  unfolding zval_to_bson is_sound
  zval_to_bson_sound fl (Zval.array t) = table_to_bson_sound fl all_entries t
  zval_to_bson_sound fl (Zval.object c p r) =
      object_root_sound env c (table_to_bson env fl public_entries p) (serialized_root env fl c r)
        (table_to_bson_sound fl public_entries p) (serialized_root_sound fl c r)
  zval_to_bson_sound fl _ = refl
