-- ===== src/Writing/Ids.antt =====
-- src/bson.c, `phongo_zval_to_bson`: the `_id` that `PHONGO_BSON_ADD_ID` asks for.
use mathlib.Core.Bool.{false≢true}
use dotdeb_php_mongodb.Prelude.{
  Bool, true, false, ◌&&◌, ◌||◌, not, codes, bytes_eq, has_nul, none, if◌then◌else◌, ◌≡◌, refl,
  Bool-cases, inl, inr, ap, append_assoc, append-nil, ℤ, sym, Bytes, ap₂,
}
use dotdeb_php_mongodb.Bson.{+++-finish, +++_assoc}
use dotdeb_php_mongodb.Php.{index, name, Table, empty, entry, Env, Zval}
use dotdeb_php_mongodb.Encode.{
  Flags, without_id, Made, nothing, both, Skips, skips, seen_key, append_id, table_to_bson,
  bson_append,
}

-- Whether the loop meets an entry with the key `_id`.
abbrev pub holds_id : Skips → Table → Bool
holds_id sk empty = false
holds_id sk (entry (name s) v t) = (not (skips sk s) && bytes_eq s (codes "_id")) || holds_id sk t
holds_id sk (entry (index i) v t) = holds_id sk t

-- Whether the loop runs to its end.
abbrev pub has_clean_keys : Skips → Table → Bool
has_clean_keys sk empty = true
has_clean_keys sk (entry (name s) v t) = (skips sk s || not (has_nul s)) && has_clean_keys sk t
has_clean_keys sk (entry (index i) v t) = has_clean_keys sk t

if_true : {A : Type 0} (b : Bool) (x y : A) → b ≡ true → (if b then x else y) ≡ x
if_true b x y h = rw h

if_false : {A : Type 0} (b : Bool) (x y : A) → b ≡ false → (if b then x else y) ≡ y
if_false b x y h = rw h

and_false : (a b : Bool) → b ≡ false → (a && b) ≡ false
and_false true b h = h
and_false false b h = refl

both_assoc : (a b c : Made) → both (both a b) c ≡ both a (both b c)
unfolding both
both_assoc a b c = rw (+++_assoc a.doc b.doc c.doc, append_assoc a.thrown b.thrown c.thrown)

both-nothing : (a : Made) → a.bson_out ≡ none → both a nothing ≡ a
unfolding both
both-nothing a h = rw (+++-finish a.doc, append-nil a.thrown, h)

seen_key-id :
    (fl : Flags) (s : Bytes)
    → fl.add_id ≡ true
    → bytes_eq s (codes "_id") ≡ true
    → seen_key fl s ≡ without_id fl
seen_key-id fl s h e =
    unfold seen_key in
    if_true (fl.add_id && bytes_eq s (codes "_id")) (without_id fl) fl (ap₂ ◌&&◌ h e)

seen_key-other : (fl : Flags) (s : Bytes) → bytes_eq s (codes "_id") ≡ false → seen_key fl s ≡ fl
seen_key-other fl s e =
    unfold seen_key in
    if_false (fl.add_id && bytes_eq s (codes "_id")) (without_id fl) fl (and_false fl.add_id _ e)

without_id-seen_key : (fl : Flags) (s : Bytes) → without_id (seen_key fl s) ≡ without_id fl
unfolding seen_key
without_id-seen_key fl s = elim (Bool-cases (fl.add_id && bytes_eq s (codes "_id"))) [
  | inl e ↦ ap without_id (if_true _ (without_id fl) fl e)
  | inr e ↦ ap without_id (if_false _ (without_id fl) fl e)
]

table_to_bson-name :
    (env : Env) (fl : Flags) (sk : Skips) (s : Bytes) (v : Zval) (t : Table)
    → skips sk s ≡ false
    → has_nul s ≡ false
    → table_to_bson env fl sk (entry (name s) v t)
      ≡ both (bson_append env (without_id fl) s v) (table_to_bson env (seen_key fl s) sk t)
table_to_bson-name env fl sk s v t hs hn =
    unfold table_to_bson in rw (hs, hn, without_id-seen_key fl s)

table_to_bson-skipped :
    (env : Env) (fl : Flags) (sk : Skips) (s : Bytes) (v : Zval) (t : Table)
    → skips sk s ≡ true
    → table_to_bson env fl sk (entry (name s) v t) ≡ table_to_bson env fl sk t
table_to_bson-skipped env fl sk s v t hs = unfold table_to_bson in rw hs

table_to_bson-index :
    (env : Env) (fl : Flags) (sk : Skips) (i : ℤ) (v : Zval) (t : Table)
    → table_to_bson env fl sk (entry (index i) v t)
      ≡ both (bson_append env (without_id fl) (env.long_to_str i) v) (table_to_bson env fl sk t)
unfolding table_to_bson
table_to_bson-index env fl sk i v t = refl

table_to_bson-stop :
    (env : Env) (fl : Flags) (sk : Skips) (s : Bytes) (v : Zval) (t : Table)
    → skips sk s ≡ false
    → has_nul s ≡ true
    → (table_to_bson env fl sk (entry (name s) v t)).bson_out ≡ none
table_to_bson-stop env fl sk s v t hs hn = unfold table_to_bson in rw (hs, hn)

both-no_out : (a b : Made) → b.bson_out ≡ none → (both a b).bson_out ≡ none
unfolding both
both-no_out a b h = h

-- Without the flag, no document is put into `*bson_out`.
table_to_bson-no_out :
    (env : Env) (fl : Flags) (sk : Skips) (t : Table)
    → (table_to_bson env (without_id fl) sk t).bson_out ≡ none
unfolding seen_key
table_to_bson-no_out env fl sk empty = unfold table_to_bson append_id in refl
table_to_bson-no_out env fl sk (entry (index i) v t) =
    rw table_to_bson-index (both-no_out _ _ (table_to_bson-no_out env fl sk t))
table_to_bson-no_out env fl sk (entry (name s) v t) = elim (Bool-cases (skips sk s)) [
  | inl e ↦
      rw (table_to_bson-skipped env (without_id fl) sk s v t e) (table_to_bson-no_out env fl sk t)
  | inr e ↦ elim (Bool-cases (has_nul s)) [
    | inl n ↦ table_to_bson-stop env (without_id fl) sk s v t e n
    | inr n ↦ rw (table_to_bson-name env (without_id fl) sk s v t e n) (
        both-no_out (bson_append env (without_id fl) s v) (table_to_bson env (without_id fl) sk t)
          (table_to_bson-no_out env fl sk t))
  ]
]

clean_name :
    (skipped nul rest : Bool)
    → skipped ≡ false
    → ((skipped || not nul) && rest) ≡ true
    → nul ≡ false
clean_name true nul rest e h = absurd (false≢true (sym e))
clean_name false true rest e h = absurd (false≢true h)
clean_name false false rest e h = refl

clean_rest : (b rest : Bool) → (b && rest) ≡ true → rest ≡ true
clean_rest true rest h = h
clean_rest false rest h = absurd (false≢true h)

seen_key-without : (fl : Flags) (s : Bytes) → seen_key (without_id fl) s ≡ without_id fl
unfolding seen_key
seen_key-without fl s = refl

-- The elements that the entries of a table make, and then an `_id`, unless one of them has it.
abbrev pub id_after : Env → Flags → Skips → Table → Made
id_after env fl sk t = if holds_id sk t then nothing else append_id env fl

table_to_bson-add_id_kept :
    (env : Env) (fl : Flags) (sk : Skips) (s : Bytes) (v : Zval) (t : Table)
    → fl.add_id ≡ true
    → skips sk s ≡ false
    → has_nul s ≡ false
    → table_to_bson env fl sk t
      ≡ both (table_to_bson env (without_id fl) sk t) (id_after env fl sk t)
    → table_to_bson env fl sk (entry (name s) v t)
      ≡ both
          (table_to_bson env (without_id fl) sk (entry (name s) v t))
          (id_after env fl sk (entry (name s) v t))
table_to_bson-add_id_kept env fl sk s v t h e n ih = elim (Bool-cases (bytes_eq s (codes "_id"))) [
  | inl i ↦
      rw
        (
          table_to_bson-name env fl sk s v t e n,
          table_to_bson-name env (without_id fl) sk s v t e n,
          seen_key-without fl s,
          seen_key-id fl s h i,
          e,
          i,
        )
        (sym (
          both-nothing
            (both (bson_append env (without_id fl) s v) (table_to_bson env (without_id fl) sk t))
            (both-no_out (bson_append env (without_id fl) s v)
              (table_to_bson env (without_id fl) sk t) (table_to_bson-no_out env fl sk t))))
  | inr i ↦
      rw
        (
          table_to_bson-name env fl sk s v t e n,
          table_to_bson-name env (without_id fl) sk s v t e n,
          seen_key-without fl s,
          seen_key-other fl s i,
          ih,
          e,
          i,
        )
        (sym (both_assoc _ _ _))
]

-- With `PHONGO_BSON_ADD_ID`, a table whose keys have no NUL byte is converted as it is without the
-- flag; then a generated `_id` is appended, and returned if it was asked for, exactly if no entry
-- that is converted has the key `_id`.
pub table_to_bson-add_id :
    (env : Env) (fl : Flags) (sk : Skips) (t : Table)
    → fl.add_id ≡ true
    → has_clean_keys sk t ≡ true
    → table_to_bson env fl sk t
      ≡ both (table_to_bson env (without_id fl) sk t) (id_after env fl sk t)
table_to_bson-add_id env fl sk empty h c = unfold table_to_bson append_id both in rw h
table_to_bson-add_id env fl sk (entry (index i) v t) h c =
    rw
      (
        table_to_bson-index env fl sk i v t,
        table_to_bson-index env (without_id fl) sk i v t,
        table_to_bson-add_id env fl sk t h c,
      )
      (sym (both_assoc _ _ _))
table_to_bson-add_id env fl sk (entry (name s) v t) h c = elim (Bool-cases (skips sk s)) [
  | inl e ↦ rw (
    table_to_bson-skipped env fl sk s v t e,
    table_to_bson-skipped env (without_id fl) sk s v t e,
    table_to_bson-add_id env fl sk t h (rw e at c),
    e,
  )
  | inr e ↦
      table_to_bson-add_id_kept env fl sk s v t h e
        (clean_name (skips sk s) (has_nul s) (has_clean_keys sk t) e c)
        (table_to_bson-add_id env fl sk t h
          (clean_rest (skips sk s || not (has_nul s)) (has_clean_keys sk t) c))
]
