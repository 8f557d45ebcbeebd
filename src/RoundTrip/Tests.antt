-- ===== src/RoundTrip/Tests.antt =====
-- Instances of the round trip.
use dotdeb_php_mongodb.Prelude.{pos, negsuc, codes, true}
use dotdeb_php_mongodb.Php.{index, name, objectid, Zval, Table, empty, entry}

abbrev numbers : Table
numbers =
    entry (index (pos 0)) (Zval.long (pos 5))
      (entry (index (pos 1)) (Zval.long (negsuc 4294967296)) empty)

-- A document with a list, an empty array, a nested document and an ObjectID in it.
abbrev order : Table
order = entry (name (codes "_id")) (Zval.bson (objectid (codes "0123456789ab"))) (
    entry (name (codes "items")) (Zval.array numbers) (
      entry (index (pos 7)) (Zval.array empty) (
        entry (name (codes "sub")) (Zval.array (entry (name (codes "ok")) (Zval.bool true) empty))
          empty)))
