-- ===== src/Query/Tests.antt =====
-- Instances of the theorems on queries.
use dotdeb_php_mongodb.Prelude.{bytes_eq, pos, negsuc, codes, true, some, none, ◌≡◌, refl, []}
use dotdeb_php_mongodb.Bson.{Bson, Doc, finish, element, single, ◌+++◌}
use dotdeb_php_mongodb.Php.{name, Zval, Table, empty, entry}
use dotdeb_php_mongodb.Php.Hash.{key_eq}
use dotdeb_php_mongodb.Mongoc.{Mongoc}
use dotdeb_php_mongodb.Options.{fetch}
use dotdeb_php_mongodb.Options.Extending.{Within, keys}
use dotdeb_php_mongodb.Query.{query_init, init_limit_and_singlebatch}
use dotdeb_php_mongodb.Query.Keys.{query_init-keys, option_names}
use dotdeb_php_mongodb.Query.Limit.{init_limit_and_singlebatch-magnitude, limited}
use dotdeb_php_mongodb.Samples.{sample_env}

abbrev roomy : Mongoc
roomy = record {
  can_append = λ d k b. true;
  validate = λ d. true;
  refuse = λ ops op. none;
  run = λ ops d c w h. record {
    reply = finish;
    hint = pos 1;
    success = true;
    error = record { domain = 0; code = 0; message = "" };
    raised = [];
  };
}

-- A negative limit, and a sort in the modifiers.
abbrev limit_options : Table
limit_options = entry (name (codes "limit")) (Zval.long (negsuc 4)) (
    entry (name (codes "modifiers"))
      (Zval.array (entry (name (codes "$orderby")) (Zval.array empty) empty)) empty)

query_init-keys_example :
    Within
      (keys
        (query_init sample_env roomy (λ z. none) (Zval.array empty) (some limit_options)).0.opts)
      option_names
query_init-keys_example =
    query_init-keys sample_env roomy (λ z. none) (Zval.array empty) (some limit_options)

abbrev taken_options : Doc
taken_options =
    element (codes "limit") (Bson.int64 (pos 5))
      (element (codes "singleBatch") (Bson.bool true) finish)

init_limit_and_singlebatch-magnitude_example :
    (rest : Doc) × ((finish +++ limited (negsuc 4) rest ≡ taken_options)
      × (true ≡ true → rest ≡ single (codes "singleBatch") (Bson.bool true)))
unfolding fetch init_limit_and_singlebatch key_eq bytes_eq
init_limit_and_singlebatch-magnitude_example =
    init_limit_and_singlebatch-magnitude sample_env roomy limit_options (Zval.long (negsuc 4))
      finish taken_options refl refl refl
