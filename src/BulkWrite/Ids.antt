-- ===== src/BulkWrite/Ids.antt =====
-- src/MongoDB/BulkWrite.c, `BulkWrite::insert`: the `_id` of the document.
use dotdeb_php_mongodb.Prelude.{
  Bool, true, codes, Option, none, some, if◌then◌else◌, [], ◌∷◌, ◌++◌, ◌≡◌, refl, Bool-cases, inl,
  inr, Bytes, ◌∙◌, ap,
}
use dotdeb_php_mongodb.Bson.{Bson, Doc, finish, ◌+++◌, single}
use dotdeb_php_mongodb.Php.{Zval, Table, Env, objectid}
use dotdeb_php_mongodb.Encode.{
  Flags, without_id, Made, both, all_entries, append_id, table_to_bson, zval_to_bson,
}
use dotdeb_php_mongodb.Mongoc.{insert_one}
use dotdeb_php_mongodb.BulkWrite.{BulkWrite, insert}
use dotdeb_php_mongodb.Writing.Ids.{holds_id, has_clean_keys, id_after, table_to_bson-add_id}

-- The flags of `BulkWrite::insert`.
abbrev pub insert_flags : Bool → Flags
insert_flags used = record { add_id = true; return_id = used }

-- The elements that `BulkWrite::insert` adds to those of the document.
abbrev pub id_element : Env → Table → Doc
id_element env t =
    if holds_id all_entries t then finish else single (codes "_id") (Bson.oid env.generated_oid)

abbrev returned_id : Env → Option Bytes → Bool → Option Zval
returned_id env none used = none
returned_id env (some oid) used =
    if used then some (Zval.bson (objectid (env.oid_to_string oid))) else none

returned_id-elim :
    (env : Env) (o : Option Bytes) (used : Bool)
    → elim o as (λ _. Option Zval) [
      | none ↦ none
      | some oid ↦ if used then some (Zval.bson (objectid (env.oid_to_string oid))) else none
    ]
      ≡ returned_id env o used
returned_id-elim env none used = refl
returned_id-elim env (some oid) used = refl

insert-made :
    (env : Env) (intern : BulkWrite) (t : Table) (used : Bool) (made : Made)
    → table_to_bson env (insert_flags used) all_entries t ≡ made
    → ((insert env intern (Zval.array t) used).0.queue ≡ intern.queue ++ insert_one made.doc ∷ [])
      × ((insert env intern (Zval.array t) used).2 ≡ returned_id env made.bson_out used)
unfolding insert zval_to_bson
insert-made env intern t used made h = (
  ap (λ (a : Made). intern.queue ++ insert_one a.doc ∷ []) h,
  returned_id-elim env (table_to_bson env (insert_flags used) all_entries t).bson_out used
      ∙ ap (λ (a : Made). returned_id env a.bson_out used) h,
)

id_after-doc :
    (env : Env) (t : Table) (plain : Made)
    → (both plain (id_after env (insert_flags true) all_entries t)).doc
      ≡ plain.doc +++ id_element env t
unfolding both append_id
id_after-doc env t plain = elim (Bool-cases (holds_id all_entries t)) [
  | inl e ↦ rw e
  | inr e ↦ rw e
]

id_after-returned :
    (env : Env) (t : Table) (plain : Made)
    → returned_id env (both plain (id_after env (insert_flags true) all_entries t)).bson_out true
      ≡ (if holds_id all_entries t
          then none
          else some (Zval.bson (objectid (env.oid_to_string env.generated_oid))))
unfolding both append_id
id_after-returned env t plain = elim (Bool-cases (holds_id all_entries t)) [
  | inl e ↦ rw e
  | inr e ↦ rw e
]

-- `BulkWrite::insert` of an array whose keys have no NUL byte queues the document that the array makes; if
-- it has no key `_id`, a generated ObjectID is appended under that key, and it is what `insert` returns to a
-- caller that uses the result; otherwise nothing is appended, and nothing returned.
pub insert-id :
    (env : Env) (intern : BulkWrite) (t : Table)
    → has_clean_keys all_entries t ≡ true
    → ((insert env intern (Zval.array t) true).0.queue
        ≡ intern.queue
          ++ insert_one (
              (table_to_bson env (without_id (insert_flags true)) all_entries t).doc
              +++ id_element env t)
            ∷ [])
      × ((insert env intern (Zval.array t) true).2 ≡ (
          if holds_id all_entries t
          then none
          else some (Zval.bson (objectid (env.oid_to_string env.generated_oid)))))
insert-id env intern t h =
    let plain = table_to_bson env (without_id (insert_flags true)) all_entries t in
    let made = both plain (id_after env (insert_flags true) all_entries t) in
    let (queued, result) =
      insert-made env intern t true made
        (table_to_bson-add_id env (insert_flags true) all_entries t refl h) in
    (
      queued ∙ ap (λ d. intern.queue ++ insert_one d ∷ []) (id_after-doc env t plain),
      result ∙ id_after-returned env t plain,
    )
