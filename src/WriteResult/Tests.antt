-- ===== src/WriteResult/Tests.antt =====
-- An instance of the theorem on write results.
use dotdeb_php_mongodb.Prelude.{pos, codes, List, [], ◌∷◌}
use dotdeb_php_mongodb.Bson.{Bson, Doc, element, finish}
use dotdeb_php_mongodb.WriteResult.Upserts.{Upsert, listed}

-- Two upserts, the second with a text as its `_id`.
abbrev two_upserts : List Upsert
two_upserts =
    record { key = codes "0"; at = pos 2; id = Bson.int32 (pos 7) }
    ∷ record { key = codes "1"; at = pos 3; id = Bson.utf8 (codes "seven") }
    ∷ []

abbrev sample_reply : Doc
sample_reply =
    element (codes "nUpserted") (Bson.int32 (pos 2))
      (element (codes "upserted") (Bson.array (listed two_upserts)) finish)
