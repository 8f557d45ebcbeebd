-- ===== src/Cursor/Tests.antt =====
-- Instances of the theorems on cursors, for a cursor of libmongoc that is a list of documents.
use dotdeb_php_mongodb.Prelude.{if◌then◌else◌, none, some, [], ◌∷◌, ◌≡◌, refl, arith}
use dotdeb_php_mongodb.Php.{Zval}
use dotdeb_php_mongodb.TypeMap.{initial_map, class}
use dotdeb_php_mongodb.Decode.{Buffer, whole, visit_all}
use dotdeb_php_mongodb.Decode.Documents.{with_odm}
use dotdeb_php_mongodb.Decode.Visitors.{initial_state}
use dotdeb_php_mongodb.Samples.{sample_env, user_class}
use dotdeb_php_mongodb.Reading.Intact.{intact}
use dotdeb_php_mongodb.Cursor.{
  Cursor, cursor_init, to_array, convert_into, get_iterator, is_pending,
}
use dotdeb_php_mongodb.Cursor.Samples.{
  ListCursor, list_cursor, list_next-now, number_document, user_document,
}
use dotdeb_php_mongodb.Cursor.Contents.{Holds, standing, given, ended, each_converted, listed}
use dotdeb_php_mongodb.Cursor.Arrays.{shown, to_array-each_converted}
use dotdeb_php_mongodb.Cursor.Alone.{to_array-each_alone, each_alone}
use dotdeb_php_mongodb.Cursor.Leaving.{convert_into-left_class}
use dotdeb_php_mongodb.Cursor.Reached.{
  created, called, advance, iterate, restart, Reached-IsTracked, IsTracked, call,
}

abbrev user_first : Cursor ListCursor
user_first = cursor_init (some (whole user_document), whole number_document ∷ []) 1

abbrev numbers : Cursor ListCursor
numbers = cursor_init (some (whole number_document), whole number_document ∷ []) 1

two_held :
    (first second : Buffer) → Holds list_cursor (some first, second ∷ []) (first ∷ second ∷ []) []
two_held first second =
    standing (some first, second ∷ []) first (second ∷ []) [] refl
      (given (some first, second ∷ []) (some second, []) second [] [] refl
        (ended (some second, []) (none, []) [] refl))

to_array-each_converted_example :
    shown (to_array sample_env list_cursor 3 user_first)
    ≡ some (
        let r =
          each_converted sample_env initial_map none
            (whole user_document ∷ whole number_document ∷ [])
            [] in
        (if is_pending r.1 then Zval.null else Zval.array (listed 0 r.0), r.1))
to_array-each_converted_example =
    to_array-each_converted sample_env list_cursor
      (whole user_document ∷ whole number_document ∷ []) [] 3 user_first
      (two_held (whole user_document) (whole number_document)) refl refl (omega arith)

to_array-each_alone_example :
    shown (to_array sample_env list_cursor 3 numbers)
    ≡ some (
        let r =
          each_alone sample_env initial_map
            (whole number_document ∷ whole number_document ∷ [])
            [] in
        (if is_pending r.1 then Zval.null else Zval.array (listed 0 r.0), r.1))
to_array-each_alone_example =
    to_array-each_alone sample_env list_cursor (whole number_document ∷ whole number_document ∷ [])
      [] 3 numbers (two_held (whole number_document) (whole number_document)) refl refl refl refl
      (omega arith)

-- The state after the document of a user.
abbrev with_user : Cursor ListCursor
with_user = record user_first { odm = some user_class }

convert_into-left_class_example :
    let after : Cursor ListCursor =
      (convert_into sample_env (whole number_document) with_user []).0 in
    (after.zchild
      ≡ some
          (sample_env.bson_unserialize user_class
            (visit_all sample_env
              (initial_state initial_map (some user_class) [])
              number_document).0.zchild).0)
    × ((after.odm ≡ some user_class) × (after.map.root.type ≡ class))
unfolding intact with_odm
convert_into-left_class_example =
    convert_into-left_class sample_env user_class with_user (whole number_document) number_document
      refl refl refl refl refl refl

-- A run: the iterator, its first element, and the next.
abbrev after_three : Cursor ListCursor
after_three =
    (call sample_env list_cursor advance
      (call sample_env list_cursor restart (call sample_env list_cursor iterate numbers).0).0).0

Reached-IsTracked_example : IsTracked list_cursor after_three 1 1
unfolding get_iterator
Reached-IsTracked_example = Reached-IsTracked sample_env list_cursor list_next-now after_three 1 1 (
    called _ _ _ advance (
      called _ _ _ restart (
        called numbers 0 0 iterate
          (created (some (whole number_document), whole number_document ∷ []) 1))))
