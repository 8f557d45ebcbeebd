-- ===== src/ReadConcern.antt =====
-- src/MongoDB/ReadConcern.c, and the functions of php_phongo.c on read concerns. A read concern of
-- libmongoc is kept as its level, if it has one, as everywhere. A method is called with arguments
-- that `zend_parse_parameters` takes.
use dotdeb_php_mongodb.Prelude.{Bytes, codes, c_string, [], ◌∷◌, Option, none, some, if◌then◌else◌}
use dotdeb_php_mongodb.Errors.{mongoc_failed, throw}
use dotdeb_php_mongodb.Bson.{Bson, Doc}
use dotdeb_php_mongodb.Php.{name, Zval, Table, empty, entry}
use dotdeb_php_mongodb.Uri.{find_case, Setting, kept, set, failed}
use dotdeb_php_mongodb.ReadPreference.{is_empty}

-- `ReadConcern::__construct`, with `mongoc_read_concern_set_level`, which copies a C string.
unfoldable pub construct_read_concern : Option Bytes → Option Bytes
unfolding c_string
construct_read_concern none = none
construct_read_concern (some level) = some (c_string level)

-- `ReadConcern::getLevel`.
unfoldable pub get_level : Option Bytes → Zval
get_level none = Zval.null
get_level (some level) = Zval.string level

-- `php_phongo_read_concern_to_zval`.
unfoldable pub read_concern_to_zval : Option Bytes → Table
read_concern_to_zval none = empty
read_concern_to_zval (some level) = entry (name (codes "level")) (Zval.string level) empty

-- The level of the new read concern, where the option is there.
unfoldable pub set_level : Option Bytes → Option Bson → Setting (Option Bytes)
set_level old none = kept
set_level old (some (Bson.utf8 str)) = set (some str)
set_level old (some b) = set old

-- `php_phongo_apply_rc_options_to_uri`, with the read concern of the URI.
unfoldable pub apply_rc_options : Option (Option Bytes) → Doc → Setting (Option Bytes)
unfolding find_case set_level
apply_rc_options none options =
    failed (throw mongoc_failed "mongoc_uri_t does not have a read concern" ∷ [])
apply_rc_options (some old) options =
    if is_empty options then kept else set_level old (find_case (codes "readconcernlevel") options)
