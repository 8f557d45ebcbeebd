-- ===== src/Reading/Tests.antt =====
-- Instances of the theorems on reading.
use mathlib.Core.Bool.{false≢true}
use mathlib.Core.Bool.{false≢true}
use dotdeb_php_mongodb.Reading.Classes.{bson_to_zval_ex-usable}
use dotdeb_php_mongodb.Reading.Ready.{are_usable, typemap_to_state-IsReady, is_ready}
use dotdeb_php_mongodb.Reading.Ready.{IsReady}
use dotdeb_php_mongodb.Php.{Table, ClassEntry, entry, name, Zval, empty}
use dotdeb_php_mongodb.Prelude.{
  false, none, pos, codes, true, [], ◌≡◌, refl, Bytes, some, bytes_eq, Bool, Option, if◌then◌else◌,
  ap, sym, ◌∙◌,
}
use dotdeb_php_mongodb.Errors.{is_pending}
use dotdeb_php_mongodb.Bson.{Bson, Doc, finish, corrupt, element}
use dotdeb_php_mongodb.TypeMap.{initial_map, typemap_to_state}
use dotdeb_php_mongodb.Decode.{whole, bson_to_zval_ex}
use dotdeb_php_mongodb.Reading.Intact.{bson_to_zval_ex-success, bson_to_zval_ex-raises, intact}
use dotdeb_php_mongodb.Samples.{sample_env, sample_class, user_class, plain_class}

-- An array inside a document, and one that ends badly.
abbrev nested_array : Doc
nested_array =
    element (codes "a") (Bson.array (element (codes "0") (Bson.int32 (pos 1)) finish)) finish

abbrev bad_array : Doc
bad_array =
    element (codes "a") (Bson.array (element (codes "0") (Bson.int32 (pos 1)) corrupt)) finish

bson_to_zval_ex-success_example :
    (bson_to_zval_ex sample_env (whole nested_array) initial_map none []).success ≡ true
unfolding intact
bson_to_zval_ex-success_example =
    bson_to_zval_ex-success sample_env (whole nested_array) initial_map none []

bson_to_zval_ex-raises_example :
    is_pending (bson_to_zval_ex sample_env (whole bad_array) initial_map none []).thrown ≡ true
unfolding bson_to_zval_ex
bson_to_zval_ex-raises_example =
    bson_to_zval_ex-raises sample_env (whole bad_array) initial_map none [] refl

abbrev unserializable_or : Bool → Option ClassEntry → Bool
unserializable_or b none = b
unserializable_or b (some c) = c.unserializable

abbrev persistable_or : Bool → Option ClassEntry → Bool
persistable_or b none = b
persistable_or b (some c) = c.persistable

law_at :
    (a b : Bool) (c : ClassEntry)
    → (if a then some user_class else if b then some plain_class else none) ≡ some c
    → c.persistable ≡ true
    → c.unserializable ≡ true
law_at true b c h p = ap (unserializable_or true) (sym h)
law_at false true c h p = absurd (false≢true (ap (persistable_or false) h ∙ p))
law_at false false c h p = ap (unserializable_or true) (sym h)

-- The only classes of the sample are fit for their use.
sample_law :
    (s : Bytes) (c : ClassEntry)
    → sample_class s ≡ some c
    → c.persistable ≡ true
    → c.unserializable ≡ true
sample_law s c h p = law_at (bytes_eq s (codes "User")) (bytes_eq s (codes "Plain")) c h p

-- A map that names a class for documents and two that do not serve.
abbrev class_typemap : Table
class_typemap = entry (name (codes "root")) (Zval.string (codes "Plain")) (
    entry (name (codes "document")) (Zval.string (codes "User"))
      (entry (name (codes "array")) (Zval.string (codes "Missing")) empty))

typemap_to_state-IsReady_example :
    IsReady (typemap_to_state sample_env (some class_typemap) initial_map).0
typemap_to_state-IsReady_example =
    typemap_to_state-IsReady sample_env (some class_typemap) initial_map
      (unfold is_ready in record { document = refl; array = refl; root = refl })

bson_to_zval_ex-usable_example :
    are_usable
      (bson_to_zval_ex sample_env
        (whole nested_array)
        (typemap_to_state sample_env (some class_typemap) initial_map).0
        none
        []).inits
    ≡ true
bson_to_zval_ex-usable_example =
    bson_to_zval_ex-usable sample_env sample_law (whole nested_array) (some class_typemap) []
