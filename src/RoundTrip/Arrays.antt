-- ===== src/RoundTrip/Arrays.antt =====
-- `fromPHP` and `toPHP` are inverse on PHP arrays that BSON can hold.
use dotdeb_php_mongodb.Prelude.{codes, Bool}
use dotdeb_php_mongodb.Php.{name, Zval, Table, empty, entry}
use dotdeb_php_mongodb.TypeMap.{TypeMap}
use dotdeb_php_mongodb.RoundTrip.Reads.{Reads}

-- The type map that asks for arrays everywhere.
abbrev pub native_typemap : Table
native_typemap = entry (name (codes "root")) (Zval.string (codes "array")) (
    entry (name (codes "document")) (Zval.string (codes "array"))
      (entry (name (codes "array")) (Zval.string (codes "array")) empty))
