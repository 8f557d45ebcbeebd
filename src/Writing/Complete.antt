-- ===== src/Writing/Complete.antt =====
-- src/bson.c, `phongo_zval_to_bson`: what a conversion that throws nothing has written.
use dotdeb_php_mongodb.Prelude.{
  Bool, true, false, Bytes, has_nul, List, [], ◌∷◌, ◌++◌, none, some, if◌then◌else◌, ◌≡◌, refl, ap,
  ◌∙◌, ℤ, String, c_string,
}
use dotdeb_php_mongodb.Errors.{Fault}
use dotdeb_php_mongodb.Bson.{Bson, ◌+++◌, single}
use dotdeb_php_mongodb.Php.{
  index, name, Table, empty, entry, Env, Zval, ClassEntry, Returned, failed, returned, BsonObject,
  objectid, utcdatetime,
}
use dotdeb_php_mongodb.Encode.{
  Flags, without_id, Made, both, raised, Skips, skips, seen_key, append_id, Shape, as_array,
  as_document, nested_as, append_int, bson_object_to_bson, object_root, object_to_bson, pclass,
  table_to_bson, bson_append, serialized_root, serialized_child, is_array_or_document,
  public_entries, all_entries, bad_return, appended,
}
use dotdeb_php_mongodb.Options.Extending.{keys}

-- The keys of the entries that the loop converts, as texts.
abbrev pub converted_keys : Env → Skips → Table → List Bytes
converted_keys env sk empty = []
converted_keys env sk (entry (name s) v t) =
    let rest = converted_keys env sk t in if skips sk s then rest else s ∷ rest
converted_keys env sk (entry (index i) v t) = env.long_to_str i ∷ converted_keys env sk t

-- A conversion that has appended one element with a key, unless it has thrown.
abbrev IsShown : Bytes → Made → Type 0
IsShown k a = a.thrown ≡ [] → (b : Bson) × (a.doc ≡ single k b)

cons≢nil : {f : Fault} {fs : List Fault} → f ∷ fs ≡ [] → ⊥
cons≢nil h = cc

nil_left : (a b : List Fault) → a ++ b ≡ [] → a ≡ []
nil_left [] b h = refl
nil_left (f ∷ a) b h = absurd (cons≢nil h)

nil_right : (a b : List Fault) → a ++ b ≡ [] → b ≡ []
nil_right [] b h = h
nil_right (f ∷ a) b h = absurd (cons≢nil h)

choice-IsShown :
    (k : Bytes) (c : Bool) (x y : Made) → IsShown k x → IsShown k y → IsShown k (if c then x else y)
choice-IsShown k true x y h i = h
choice-IsShown k false x y h i = i

raised-IsShown : (k : Bytes) (message : String) → IsShown k (raised message)
raised-IsShown k message h = absurd (cons≢nil h)

nested_as-IsShown : (k : Bytes) (shape : Shape) (child : Made) → IsShown k (nested_as shape k child)
unfolding nested_as
nested_as-IsShown k as_array child h = (Bson.array child.doc, refl)
nested_as-IsShown k as_document child h = (Bson.document child.doc, refl)

append_int-IsShown : (k : Bytes) (v : ℤ) → IsShown k (append_int k v)
unfolding append_int
append_int-IsShown k v =
    choice-IsShown k _ (appended k (Bson.int64 v)) (appended k (Bson.int32 v))
      (λ _. (Bson.int64 v, refl)) (λ _. (Bson.int32 v, refl))

bson_object_to_bson-IsShown :
    (env : Env) (k : Bytes) (o : BsonObject) → IsShown k (bson_object_to_bson env k o)
unfolding bson_object_to_bson
bson_object_to_bson-IsShown env k (BsonObject.javascript c (some scope)) h =
    (Bson.codewscope (c_string c) scope, refl)
bson_object_to_bson-IsShown env k (BsonObject.javascript c none) h = (Bson.code (c_string c), refl)
bson_object_to_bson-IsShown env k (objectid i) h = (Bson.oid (env.oid_from_string i), refl)
bson_object_to_bson-IsShown env k (utcdatetime ms) h = (Bson.date_time ms, refl)
bson_object_to_bson-IsShown env k (BsonObject.binary t d) h = (Bson.binary t d, refl)
bson_object_to_bson-IsShown env k (BsonObject.decimal128 i l) h = (Bson.decimal128 i l, refl)
bson_object_to_bson-IsShown env k (BsonObject.regex p f) h =
    (Bson.regex (c_string p) (c_string f), refl)
bson_object_to_bson-IsShown env k (BsonObject.timestamp i t) h = (Bson.timestamp t i, refl)
bson_object_to_bson-IsShown env k BsonObject.maxkey h = (Bson.maxkey, refl)
bson_object_to_bson-IsShown env k BsonObject.minkey h = (Bson.minkey, refl)

serialized_child-IsShown :
    (env : Env) (fl : Flags) (k : Bytes) (c : ClassEntry) (r : Returned)
    → IsShown k (serialized_child env fl k c r)
unfolding serialized_child nested_as
serialized_child-IsShown env fl k c (failed f) = λ h. absurd (cons≢nil h)
serialized_child-IsShown env fl k c (returned (Zval.array t)) =
    choice-IsShown k c.persistable
      (nested_as as_document k (both (pclass c) (table_to_bson env fl all_entries t)))
      (nested_as (is_array_or_document (Zval.array t)) k (table_to_bson env fl all_entries t))
      (nested_as-IsShown k as_document (both (pclass c) (table_to_bson env fl all_entries t)))
      (nested_as-IsShown k (is_array_or_document (Zval.array t))
        (table_to_bson env fl all_entries t))
serialized_child-IsShown env fl k c (returned (Zval.object d p r)) =
    let child =
      both (pclass c)
        (object_root d (table_to_bson env fl public_entries p) (serialized_root env fl d r)) in
    choice-IsShown k d.stdclass (nested_as as_document k child) bad_return
      (nested_as-IsShown k as_document child) (raised-IsShown k _)
serialized_child-IsShown env fl k c (returned _) = λ h. absurd (cons≢nil h)

object_to_bson-IsShown :
    (k : Bytes) (c : ClassEntry) (a b child : Made)
    → IsShown k child
    → IsShown k (object_to_bson k c a b child)
unfolding object_to_bson nested_as
object_to_bson-IsShown k c a b child h =
    choice-IsShown k c.type (if c.serializable then child else raised "Unexpected %s instance: %s")
      (nested_as as_document k (object_root c a b))
      (choice-IsShown k c.serializable child (raised "Unexpected %s instance: %s") h
        (raised-IsShown k "Unexpected %s instance: %s"))
      (nested_as-IsShown k as_document (object_root c a b))

bson_append-IsShown :
    (env : Env) (fl : Flags) (k : Bytes) (z : Zval) → IsShown k (bson_append env fl k z)
unfolding bson_append
bson_append-IsShown env fl k Zval.null = λ h. (Bson.null, refl)
bson_append-IsShown env fl k (Zval.bool b) = λ h. (Bson.bool b, refl)
bson_append-IsShown env fl k (Zval.double d) = λ h. (Bson.double d, refl)
bson_append-IsShown env fl k (Zval.long v) = append_int-IsShown k v
bson_append-IsShown env fl k (Zval.string s) =
    choice-IsShown k (env.utf8_validate s) (appended k (Bson.utf8 s))
      (raised "Got invalid UTF-8 value serializing '%s'") (λ _. (Bson.utf8 s, refl))
      (raised-IsShown k "Got invalid UTF-8 value serializing '%s'")
bson_append-IsShown env fl k (Zval.array t) =
    nested_as-IsShown k (is_array_or_document (Zval.array t)) (table_to_bson env fl all_entries t)
bson_append-IsShown env fl k (Zval.bson o) = bson_object_to_bson-IsShown env k o
bson_append-IsShown env fl k (Zval.object c p r) =
    object_to_bson-IsShown k c (table_to_bson env fl public_entries p) (serialized_root env fl c r)
      (serialized_child env fl k c r) (serialized_child-IsShown env fl k c r)
bson_append-IsShown env fl k (Zval.indirect z) = bson_append-IsShown env fl k z
bson_append-IsShown env fl k (Zval.reference z) = bson_append-IsShown env fl k z
bson_append-IsShown env fl k (Zval.unsupported n) = λ h. absurd (cons≢nil h)

-- One entry and the rest of the table.
both-keys :
    (k : Bytes) (ks : List Bytes) (a b : Made)
    → IsShown k a
    → (b.thrown ≡ [] → keys b.doc ≡ ks)
    → (both a b).thrown ≡ []
    → keys (both a b).doc ≡ k ∷ ks
unfolding both ◌+++◌
both-keys k ks a b h i t =
    let (v, shown) = h (nil_left a.thrown b.thrown t) in
    ap (λ d. keys (d +++ b.doc)) shown ∙ ap (λ xs. k ∷ xs) (i (nil_right a.thrown b.thrown t))

-- An entry with a textual key, as the loop treats it.
name_entry-keys :
    (skipped nul : Bool) (s : Bytes) (ks : List Bytes) (rest a b : Made) (message : String)
    → (rest.thrown ≡ [] → keys rest.doc ≡ ks)
    → IsShown s a
    → (b.thrown ≡ [] → keys b.doc ≡ ks)
    → (if skipped then rest else if nul then raised message else both a b).thrown ≡ []
    → keys (if skipped then rest else if nul then raised message else both a b).doc
      ≡ (if skipped then ks else s ∷ ks)
name_entry-keys true nul s ks rest a b message hr ha hb t = hr t
name_entry-keys false true s ks rest a b message hr ha hb t = absurd (cons≢nil t)
name_entry-keys false false s ks rest a b message hr ha hb t = both-keys s ks a b ha hb t

-- A conversion of a table that throws nothing loses nothing: without `PHONGO_BSON_ADD_ID`, the
-- document has one element for each entry that is not skipped, under the text of its key, in the order
-- of the table, and no other.
pub table_to_bson-keys :
    (env : Env) (fl : Flags) (sk : Skips) (t : Table)
    → (table_to_bson env (without_id fl) sk t).thrown ≡ []
    → keys (table_to_bson env (without_id fl) sk t).doc ≡ converted_keys env sk t
unfolding table_to_bson append_id seen_key
table_to_bson-keys env fl sk empty h = refl
table_to_bson-keys env fl sk (entry (index i) v t) h =
    both-keys (env.long_to_str i) (converted_keys env sk t)
      (bson_append env (without_id fl) (env.long_to_str i) v)
      (table_to_bson env (without_id fl) sk t)
      (bson_append-IsShown env (without_id fl) (env.long_to_str i) v)
      (table_to_bson-keys env fl sk t) h
table_to_bson-keys env fl sk (entry (name s) v t) h =
    name_entry-keys (skips sk s) (has_nul s) s (converted_keys env sk t)
      (table_to_bson env (without_id fl) sk t) (bson_append env (without_id fl) s v)
      (table_to_bson env (without_id fl) sk t)
      "BSON keys cannot contain null bytes. Unexpected null byte after \"%s\"."
      (table_to_bson-keys env fl sk t) (bson_append-IsShown env (without_id fl) s v)
      (table_to_bson-keys env fl sk t) h
