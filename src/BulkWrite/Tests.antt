-- ===== src/BulkWrite/Tests.antt =====
-- Instances of the theorems on BulkWrite.
use dotdeb_php_mongodb.Prelude.{
  codes, has_byte, Bool, true, false, ◌&&◌, not, [], ◌∷◌, ◌++◌, Option, none, some, pos, ◌≡◌, ◌↔◌,
}
use dotdeb_php_mongodb.Bson.{Doc, element, finish}
use dotdeb_php_mongodb.Php.{name, Zval, Table, empty, entry}
use dotdeb_php_mongodb.WriteConcern.{new_concern}
use dotdeb_php_mongodb.Mongoc.{Mongoc}
use dotdeb_php_mongodb.BulkWrite.{
  BulkWrite, fresh_bulk, construct, insert, update, delete, execute_write, split_namespace,
}
use dotdeb_php_mongodb.BulkWrite.Outcomes.{Outcome, update-Outcome, delete-Outcome}
use dotdeb_php_mongodb.BulkWrite.Counting.{
  new, constructed, inserted, updated, executed_on, IsCounted, Reached-IsCounted,
}
use dotdeb_php_mongodb.Prelude.{refl, if◌then◌else◌, has_nul}
use dotdeb_php_mongodb.Bson.{◌+++◌}
use dotdeb_php_mongodb.Php.{objectid}
use dotdeb_php_mongodb.Mongoc.{insert_one}
use dotdeb_php_mongodb.Encode.{table_to_bson, without_id, all_entries, skips}
use dotdeb_php_mongodb.Writing.Ids.{holds_id}
use dotdeb_php_mongodb.BulkWrite.Ids.{insert-id, insert_flags, id_element}
use dotdeb_php_mongodb.BulkWrite.Namespaces.{split_namespace_iff}
use dotdeb_php_mongodb.Samples.{sample_env}

unfoldable has_clean_names : Doc → Bool
has_clean_names (element k b d) =
    not (has_byte b'$' k) && not (has_byte b'.' k) && has_clean_names d
has_clean_names _ = true

abbrev sample_mongoc : Mongoc
sample_mongoc = record {
  can_append = λ d k b. true;
  validate = has_clean_names;
  refuse = λ ops op. none;
  run = λ ops d c w h. record {
    reply = finish;
    hint = pos 1;
    success = true;
    error = record { domain = 0; code = 0; message = "" };
    raised = [];
  };
}

abbrev selector : Zval
selector = Zval.array (entry (name (codes "x")) (Zval.long (pos 1)) empty)

abbrev changes_table : Table
changes_table = entry (name (codes "$set")) selector empty

abbrev changes : Zval
changes = Zval.array changes_table

abbrev many : Option Table
many = some (entry (name (codes "multi")) (Zval.bool true) empty)

-- An object to which an insert and an update have been added, and which has been run.
abbrev filled : BulkWrite
filled =
    (update sample_env sample_mongoc
      (insert sample_env (construct sample_env none fresh_bulk) selector false).0 selector changes
      many).0

update-Outcome_example :
    Outcome sample_mongoc fresh_bulk
      (update sample_env sample_mongoc fresh_bulk selector changes many)
update-Outcome_example = update-Outcome sample_env sample_mongoc fresh_bulk selector changes many

delete-Outcome_example :
    Outcome sample_mongoc filled (delete sample_env sample_mongoc filled selector none)
delete-Outcome_example = delete-Outcome sample_env sample_mongoc filled selector none

-- The object after it has been executed, and after a second attempt with a write concern and a
-- server.
abbrev executed_once : BulkWrite
executed_once =
    (execute_write sample_mongoc new_concern (codes "db.c") filled none (pos 0) true).intern

abbrev executed_twice : BulkWrite
executed_twice =
    (execute_write sample_mongoc new_concern (codes "db.c") executed_once (some new_concern) (pos 1)
      true).intern

Reached-IsCounted_example : IsCounted sample_mongoc executed_twice
Reached-IsCounted_example = Reached-IsCounted sample_env sample_mongoc executed_twice (
    executed_on new_concern executed_once (codes "db.c") (some new_concern) (pos 1) true (
      executed_on new_concern filled (codes "db.c") none (pos 0) true (
        updated _ selector changes many
          (inserted _ selector false (constructed fresh_bulk none new)))))

split_namespace_iff_example :
    (split_namespace (codes "db.c.d") ≡ some (codes "db", codes "c.d"))
    ↔ ((codes "db.c.d" ≡ codes "db" ++ b'.' ∷ codes "c.d") × (has_byte b'.' (codes "db") ≡ false))
split_namespace_iff_example = split_namespace_iff (codes "db.c.d") (codes "db") (codes "c.d")

insert-id_example :
    ((insert sample_env filled (Zval.array changes_table) true).0.queue
      ≡ filled.queue
        ++ insert_one (
            (table_to_bson sample_env
              (without_id (insert_flags true))
              all_entries
              changes_table).doc
            +++ id_element sample_env changes_table)
          ∷ [])
    × ((insert sample_env filled (Zval.array changes_table) true).2 ≡ (
        if holds_id all_entries changes_table
        then none
        else some (Zval.bson (objectid (codes "0123456789ab")))))
unfolding has_nul skips
insert-id_example = insert-id sample_env filled changes_table refl
