-- ===== src/WriteConcern/Tests.antt =====
-- Instances of the theorems on write concerns.
use dotdeb_php_mongodb.Prelude.{
  pos, case_eq, bytes_eq, to_lower, codes, true, none, some, ◌≡◌, refl, ◌&&◌,
}
use dotdeb_php_mongodb.Php.{Zval}
use dotdeb_php_mongodb.Samples.{sample_env}
use dotdeb_php_mongodb.WriteConcern.{construct_write_concern, to_int32}
use dotdeb_php_mongodb.WriteConcern.Arguments.{Shows, construct_write_concern-Shows}
use dotdeb_php_mongodb.WriteConcern.Aborting.{is_aborted, construct_write_concern-aborts}
use dotdeb_php_mongodb.WriteConcern.Consistent.{Sets, is_settled, apply_wc_options-settled}
use dotdeb_php_mongodb.WriteConcern.{new_concern}
use dotdeb_php_mongodb.WriteConcern.Uri.{apply_wc_options}
use dotdeb_php_mongodb.Uri.{find_case}
use dotdeb_php_mongodb.Bson.{Bson, Doc, element, finish}

construct_write_concern-Shows_example :
    Shows (Zval.long (pos 2)) (Zval.long (pos 1000)) (Zval.bool true) (
      construct_write_concern sample_env
        (Zval.long (pos 2))
        (some (pos 1000, some (Zval.bool true))))
construct_write_concern-Shows_example =
    construct_write_concern-Shows sample_env (Zval.long (pos 2)) (pos 1000) (some (Zval.bool true))
      refl refl refl

-- The least number that the class hands over as one that libmongoc does not take.
construct_write_concern-aborts_example :
    is_aborted (construct_write_concern sample_env (Zval.long (pos 2147483648)) none) ≡ true
unfolding to_int32
construct_write_concern-aborts_example =
    construct_write_concern-aborts sample_env (Zval.long (pos 2147483648)) none

-- `w=3&wtimeoutMS=500&journal=true`.
abbrev three_servers : Doc
three_servers = element (codes "w") (Bson.int32 (pos 3)) (
    element (codes "wtimeoutMS") (Bson.int32 (pos 500))
      (element (codes "journal") (Bson.bool true) finish))

apply_wc_options-settled_example :
    Sets
      (λ wc. is_settled (pos 500) wc && true)
      (apply_wc_options (λ wc. true) (some new_concern) three_servers)
unfolding find_case case_eq bytes_eq to_lower
apply_wc_options-settled_example =
    apply_wc_options-settled (λ wc. true) (some new_concern) three_servers
