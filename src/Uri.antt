-- ===== src/Uri.antt =====
-- php_phongo.c: what the functions share that apply the options of a Manager to a URI.
use dotdeb_php_mongodb.Prelude.{
  Bytes, case_eq, Option, none, some, List, if◌then◌else◌, Bool, false, true,
}
use dotdeb_php_mongodb.Errors.{Fault}
use dotdeb_php_mongodb.Bson.{Bson, Doc, element}

-- `bson_iter_init_find_case`: the first element with the key, in any case.
unfoldable pub find_case : Bytes → Doc → Option Bson
unfolding case_eq
find_case key (element k b rest) = if case_eq k key then some b else find_case key rest
find_case key _ = none

-- What a function that applies options to a URI leaves: it returns true and sets nothing, returns
-- true with a new value, or returns false.
pub data Setting {ℓ} (A : Type ℓ) : Type ℓ where
  kept : Setting A
  set : A → Setting A
  failed : List Fault → Setting A

-- The value of a named option, where there is one.
abbrev pub is_given : Option Bson → Bool
is_given none = false
is_given (some b) = true
