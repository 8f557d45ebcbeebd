-- ===== src/Execute/Tests.antt =====
-- Instances of the theorems on queries and commands.
use dotdeb_php_mongodb.Prelude.{
  pos, ltb_ℤ, ℕ, codes, true, none, some, [], ◌∷◌, ◌≡◌, refl, arith, if◌then◌else◌,
}
use dotdeb_php_mongodb.Errors.{is_pending}
use dotdeb_php_mongodb.Bson.{finish}
use dotdeb_php_mongodb.Php.{Zval}
use dotdeb_php_mongodb.TypeMap.{initial_map}
use dotdeb_php_mongodb.Decode.{whole}
use dotdeb_php_mongodb.Samples.{sample_env}
use dotdeb_php_mongodb.BulkWrite.{split_namespace}
use dotdeb_php_mongodb.Query.{Query}
use dotdeb_php_mongodb.Cursor.Contents.{given, ended, each_converted, listed}
use dotdeb_php_mongodb.Cursor.Samples.{
  ListCursor, list_cursor, list_next-now, number_document, user_document,
}
use dotdeb_php_mongodb.Execute.{
  MongocClient, hinted, execute_query, execute_command, split_namespace,
}
use dotdeb_php_mongodb.Execute.Queries.{array_of, execute_query-to_array}
use dotdeb_php_mongodb.Execute.Failures.{IsAnswered, is_taken, is_query_taken, execute-IsAnswered}

-- A client that finds two documents in every collection, and knows the servers 1 and 2.
abbrev found : ListCursor
found = (none, whole user_document ∷ whole number_document ∷ [])

abbrev client : MongocClient ListCursor ℕ
client = record {
  find_with_opts = λ db collection concern filter opts preference. some found;
  command = λ db bson preference. found;
  set_hint = λ cursor id. if ltb_ℤ id (pos 3) then some cursor else none;
  get_hint = λ cursor. 1;
  from_command_reply = λ reply id. found;
}

abbrev empty_query : Query
empty_query = record { filter = finish; opts = finish; read_concern = none }

execute_query-to_array_example :
    array_of sample_env list_cursor 5
      (execute_query client list_cursor (codes "db.users") empty_query none (pos 2) true)
    ≡ some (
        let r =
          each_converted sample_env initial_map none
            (whole user_document ∷ whole number_document ∷ [])
            [] in
        (if is_pending r.1 then Zval.null else Zval.array (listed 0 r.0), r.1))
unfolding hinted split_namespace
execute_query-to_array_example =
    execute_query-to_array sample_env client list_cursor list_next-now (codes "db.users")
      (codes "db", codes "users") empty_query none (pos 2) 5 found found (whole user_document)
      (whole number_document ∷ []) [] refl refl refl
      (given found (some (whole user_document), whole number_document ∷ []) (whole user_document)
        (whole number_document ∷ []) [] refl
        (given (some (whole user_document), whole number_document ∷ [])
          (some (whole number_document), []) (whole number_document) [] [] refl
          (ended (some (whole number_document), []) (none, []) [] refl)))
      (omega arith)

execute-IsAnswered_example :
    IsAnswered
      (is_query_taken client (codes "users") empty_query none (pos 3))
      (execute_query client list_cursor (codes "users") empty_query none (pos 3) true)
    × IsAnswered
        (is_taken (hinted client (client.command (codes "db") number_document none) (pos 3)))
        (execute_command client list_cursor (codes "db") number_document none (pos 3) true)
execute-IsAnswered_example =
    execute-IsAnswered client list_cursor (codes "users") (codes "db") empty_query number_document
      none (pos 3) true
