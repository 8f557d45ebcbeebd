-- ===== src/Cursor/Samples.antt =====
-- A cursor of libmongoc that is a list of documents, for the tests.
use dotdeb_php_mongodb.Prelude.{pos, codes, Option, none, some, List, [], ◌∷◌, ◌≡◌}
use dotdeb_php_mongodb.Bson.{Bson, Doc, finish, element}
use dotdeb_php_mongodb.Decode.{Buffer}
use dotdeb_php_mongodb.Cursor.{MongocCursor, Next, true}

-- The current document, and the documents to come.
abbrev pub ListCursor : Type 0
ListCursor = Option Buffer × List Buffer

abbrev pub list_next : ListCursor → Next ListCursor
list_next (now, []) = record { document = none; cursor = (none, []); raised = [] }
list_next (now, d ∷ ds) = record { document = some d; cursor = (some d, ds); raised = [] }

abbrev pub list_cursor : MongocCursor ListCursor
list_cursor = record { next = list_next; now = λ c. c.0; error = λ c. none; is_alive = λ c. true }

abbrev pub user_document : Doc
user_document = element (codes "__pclass") (Bson.binary 0x80 (codes "User")) finish

abbrev pub number_document : Doc
number_document = element (codes "n") (Bson.int32 (pos 7)) finish

-- A document that it gives is the current one.
pub list_next-now :
    (c : ListCursor) (b : Buffer)
    → (list_cursor.next c).document ≡ some b
    → list_cursor.now (list_cursor.next c).cursor ≡ some b
list_next-now (now, []) b h = h
list_next-now (now, d ∷ ds) b h = h
