-- ===== src/Writing/Tests.antt =====
-- Instances of the theorems on writing.
use dotdeb_php_mongodb.Prelude.{
  ℕ, zero, suc, pos, negsuc, ℤ, Bytes, codes, Bool, true, false, ◌&&◌, [], ◌∷◌, ◌≡◌, refl, arith,
  leb, ltb, has_nul, bytes_eq, ◌/◌, ◌%◌, ◌+◌, Bool-cases, inl, inr,
}
use dotdeb_php_mongodb.Bson.{Bson, Doc, element}
use dotdeb_php_mongodb.Php.{index, name, Zval, Table, empty, entry, returned}
use dotdeb_php_mongodb.Encode.{
  Flags, table_to_bson, both, without_id, no_flags, all_entries, zval_to_bson, odm_field_name,
  skips,
}
use dotdeb_php_mongodb.Writing.Ids.{table_to_bson-add_id, id_after}
use dotdeb_php_mongodb.Writing.Sound.{zval_to_bson_sound, is_sound}
use dotdeb_php_mongodb.Writing.Pclass.{zval_to_bson-pclass, count_key}
use dotdeb_php_mongodb.Encode.{seen_key, append_int}
use dotdeb_php_mongodb.Options.Extending.{keys}
use dotdeb_php_mongodb.Writing.Complete.{table_to_bson-keys, converted_keys}
use dotdeb_php_mongodb.Samples.{sample_env, digits, decimal, user_class}

-- Only digits and signs.
unfoldable is_numeral : Bytes → Bool
is_numeral [] = true
is_numeral (c ∷ s) = leb 45 c && leb c 57 && is_numeral s

digit-numeral :
    (d : ℕ) (rest : Bytes)
    → ltb d 10 ≡ true
    → is_numeral rest ≡ true
    → is_numeral ((48 + d) ∷ rest) ≡ true
unfolding is_numeral
digit-numeral d rest h i = ground arith

small_digit : (n : ℕ) → ltb (n % 10) 10 ≡ true
small_digit n = ground arith

digits-numeral :
    (f n : ℕ) (rest : Bytes) → is_numeral rest ≡ true → is_numeral (digits f n rest) ≡ true
unfolding digits is_numeral
digits-numeral zero n rest h = h
digits-numeral (suc f) n rest h = elim (Bool-cases (ltb n 10)) [
  | inl e ↦ rw e (digit-numeral n rest e h)
  | inr e ↦ rw e (
      digits-numeral f (n / 10) ((48 + n % 10) ∷ rest)
        (digit-numeral (n % 10) rest (small_digit n) h))
]

minus-numeral : (s : Bytes) → is_numeral s ≡ true → is_numeral (45 ∷ s) ≡ true
unfolding is_numeral
minus-numeral s h = h

decimal-numeral : (i : ℤ) → is_numeral (decimal i) ≡ true
decimal-numeral (pos n) = digits-numeral (suc n) n [] (unfold is_numeral in refl)
decimal-numeral (negsuc n) =
    minus-numeral (digits (suc (suc n)) (suc n) [])
      (digits-numeral (suc (suc n)) (suc n) [] (unfold is_numeral in refl))

numeral-has_nul : (s : Bytes) → is_numeral s ≡ true → has_nul s ≡ false
unfolding is_numeral has_nul
numeral-has_nul [] h = refl
numeral-has_nul (c ∷ s) h = ground (arith, numeral-has_nul s)

numeral-odm : (s : Bytes) → is_numeral s ≡ true → bytes_eq s odm_field_name ≡ false
unfolding is_numeral bytes_eq
numeral-odm [] h = refl
numeral-odm (c ∷ s) h = ground arith

abbrev insert_flags : Flags
insert_flags = record { add_id = true; return_id = true }

-- An object with an ObjectID in a table, and one without.
abbrev with_no_id : Table
with_no_id = entry (name (codes "x")) (Zval.long (pos 1)) empty

table_to_bson-add_id_example :
    table_to_bson sample_env insert_flags all_entries with_no_id
    ≡ both
        (table_to_bson sample_env (without_id insert_flags) all_entries with_no_id)
        (id_after sample_env insert_flags all_entries with_no_id)
unfolding has_nul skips
table_to_bson-add_id_example =
    table_to_bson-add_id sample_env insert_flags all_entries with_no_id refl refl

abbrev user_table : Table
user_table =
    entry (name odm_field_name) (Zval.long (pos 1))
      (entry (index (negsuc 4)) (Zval.string (codes "v")) empty)

zval_to_bson_sound_example :
    is_sound sample_env (zval_to_bson sample_env no_flags (Zval.array user_table)).doc ≡ true
zval_to_bson_sound_example =
    zval_to_bson_sound sample_env (λ i. numeral-has_nul (decimal i) (decimal-numeral i)) no_flags
      (Zval.array user_table)

zval_to_bson-pclass_example :
    let made =
      zval_to_bson sample_env no_flags
        (Zval.object user_class empty (returned (Zval.array user_table))) in
    (rest : Doc) × ((made.doc ≡ element odm_field_name (Bson.binary 0x80 (codes "User")) rest)
      × (count_key odm_field_name rest ≡ 0))
zval_to_bson-pclass_example =
    zval_to_bson-pclass sample_env (λ i. numeral-odm (decimal i) (decimal-numeral i)) no_flags
      user_class empty user_table refl refl

table_to_bson-keys_example :
    keys (table_to_bson sample_env (without_id no_flags) all_entries user_table).doc
    ≡ converted_keys sample_env all_entries user_table
unfolding table_to_bson append_int skips has_nul seen_key
table_to_bson-keys_example = table_to_bson-keys sample_env no_flags all_entries user_table refl
