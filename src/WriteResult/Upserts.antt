-- ===== src/WriteResult/Upserts.antt =====
-- src/MongoDB/WriteResult.c, `getUpsertedIds`: which ids are found under which index.
use dotdeb_php_mongodb.Prelude.{
  ℤ, ◌==ℤ◌, Bytes, codes, List, [], ◌∷◌, Option, none, some, if◌then◌else◌,
}
use dotdeb_php_mongodb.Bson.{Bson, Doc, element, finish}
use dotdeb_php_mongodb.Php.{Zval, Env}
use dotdeb_php_mongodb.WriteResult.{upserted_id}

-- An upsert in a reply: its key in the array, the position of its operation, and the `_id`.
pub record Upsert : Type 0 where
  pub key : Bytes
  pub at : ℤ
  pub id : Bson

-- The array that libmongoc makes of upserts.
abbrev pub listed : List Upsert → Doc
listed [] = finish
listed (u ∷ us) =
    element u.key
      (Bson.document
        (element (codes "index") (Bson.int32 u.at) (element (codes "_id") u.id finish)))
      (listed us)

-- The first value, or else the second.
abbrev pub or_else : Option Zval → Option Zval → Option Zval
or_else none w = w
or_else (some z) w = some z

-- The last id that can be shown among the upserts with an index.
abbrev pub last_id : Env → ℤ → List Upsert → Option Zval
last_id env j [] = none
last_id env j (u ∷ us) =
    or_else (last_id env j us) (if u.at ==ℤ j then upserted_id env (some u.id) else none)
