-- ===== src/ReadPreference.antt =====
-- src/MongoDB/ReadPreference.c, and the functions of php_phongo.c on read preferences. A read
-- preference of libmongoc is kept as what it has been given; `mongoc_read_prefs_is_valid` is a
-- parameter. A method is called with arguments that `zend_parse_parameters` takes.
pub mod Uri
pub mod Consistent
pub mod Constructed
pub mod Tests
use dotdeb_php_mongodb.Prelude.{
  ℤ, pos, negsuc, ◌==ℤ◌, ltb_ℤ, int32_max, Bytes, codes, case_eq, Bool, true, false, ◌&&◌, ◌||◌,
  not, List, [], ◌∷◌, ◌++◌, Option, none, some, if◌then◌else◌,
}
use dotdeb_php_mongodb.Errors.{Fault, invalid_argument, mongoc_failed, throw}
use dotdeb_php_mongodb.Bson.{Bson, Doc, finish, corrupt, unsupported, element}
use dotdeb_php_mongodb.Php.{name, Zval, Table, empty, entry, Env}
use dotdeb_php_mongodb.Php.Hash.{find, update}
use dotdeb_php_mongodb.Encode.{Made, no_flags, zval_to_bson}
use dotdeb_php_mongodb.TypeMap.{TypeMap, initial_map, native_array}
use dotdeb_php_mongodb.Decode.{whole, bson_to_zval_ex, get_value}
use dotdeb_php_mongodb.Decode.Documents.{standard_object}

-- `mongoc_read_mode_t`.
pub data ReadMode : Type 0 where
  primary secondary primary_preferred secondary_preferred nearest : ReadMode

-- `mongoc_read_prefs_t`, as the getters show it.
pub record ReadPrefs : Type 0 where
  pub mode : ReadMode
  pub tags : Doc
  pub max_staleness_seconds : ℤ

-- `MONGOC_NO_MAX_STALENESS` and `MONGOC_SMALLEST_MAX_STALENESS_SECONDS`.
abbrev pub no_max_staleness : ℤ
no_max_staleness = negsuc 0

abbrev pub smallest_max_staleness : ℤ
smallest_max_staleness = pos 90

-- `mongoc_read_prefs_new`.
abbrev pub new_prefs : ReadMode → ReadPrefs
new_prefs mode = record { mode = mode; tags = finish; max_staleness_seconds = no_max_staleness }

-- The values of the modes, as the class constants of PHP have them.
unfoldable pub mode_of : ℤ → Option ReadMode
mode_of mode =
    if mode ==ℤ pos 1
    then some primary
    else if mode ==ℤ pos 2
    then some secondary
    else if mode ==ℤ pos 5
    then some primary_preferred
    else if mode ==ℤ pos 6
    then some secondary_preferred
    else if mode ==ℤ pos 10
    then some nearest
    else none

abbrev pub is_primary : ReadMode → Bool
is_primary primary = true
is_primary _ = false

-- `bson_empty`.
abbrev pub is_empty : Doc → Bool
is_empty finish = true
is_empty _ = false

-- `php_phongo_read_preference_prep_tagsets`: each array in the set becomes an object.
unfoldable pub prep_tag_set : Zval → Zval
prep_tag_set (Zval.array t) = standard_object t
prep_tag_set (Zval.reference (Zval.array t)) = Zval.reference (standard_object t)
prep_tag_set z = z

unfoldable pub prep_tagsets : Table → Table
unfolding prep_tag_set
prep_tagsets empty = empty
prep_tagsets (entry k z t) = entry k (prep_tag_set z) (prep_tagsets t)

-- `php_phongo_read_preference_tags_are_valid`: the walk ends at the end of the data, or at data
-- that are bad.
unfoldable pub tags_are_valid : Doc → Bool
tags_are_valid (element k (Bson.document d) rest) = tags_are_valid rest
tags_are_valid (element k b rest) = false
tags_are_valid finish = true
tags_are_valid corrupt = true
tags_are_valid (unsupported k c) = true

-- A step on a read preference: it goes on, or returns with an exception; with what was thrown.
pub data Step : Type 0 where
  goes_on ends : ReadPrefs → List Fault → Step

abbrev pub then_step : Step → (ReadPrefs → List Fault → Step) → Step
then_step (goes_on rp thrown) next = next rp thrown
then_step (ends rp thrown) next = ends rp thrown

-- The tag sets of the constructor. An exception of the conversion to BSON does not stop it.
unfoldable pub set_tag_sets : Made → ReadPrefs → Step
unfolding tags_are_valid
set_tag_sets made rp =
    if not (tags_are_valid made.doc)
    then ends rp (
        made.thrown
        ++ throw invalid_argument "tagSets must be an array of zero or more documents" ∷ [])
    else if not (is_empty made.doc) && is_primary rp.mode
    then ends rp
        (made.thrown ++ throw invalid_argument "tagSets may not be used with primary mode" ∷ [])
    else goes_on (record rp { tags = made.doc }) made.thrown

unfoldable pub apply_tag_sets : Env → Option Table → ReadPrefs → Step
unfolding prep_tagsets zval_to_bson set_tag_sets
apply_tag_sets env none rp = goes_on rp []
apply_tag_sets env (some tag_sets) rp =
    set_tag_sets (zval_to_bson env no_flags (Zval.array (prep_tagsets tag_sets))) rp

-- `maxStalenessSeconds` of the constructor, once it is there.
unfoldable pub set_max_staleness : ℤ → ReadPrefs → List Fault → Step
set_max_staleness seconds rp thrown =
    if seconds ==ℤ no_max_staleness
    then goes_on (record rp { max_staleness_seconds = seconds }) thrown
    else if ltb_ℤ seconds smallest_max_staleness
    then ends rp (
        thrown ++ throw invalid_argument "Expected maxStalenessSeconds to be >= %d, %ld given" ∷ [])
    else if ltb_ℤ int32_max seconds
    then ends rp (
        thrown ++ throw invalid_argument "Expected maxStalenessSeconds to be <= %d, %ld given" ∷ [])
    else if is_primary rp.mode
    then ends rp (
        thrown
        ++ throw invalid_argument "maxStalenessSeconds may not be used with primary mode" ∷ [])
    else goes_on (record rp { max_staleness_seconds = seconds }) thrown

unfoldable pub apply_max_staleness : Env → Option Table → ReadPrefs → List Fault → Step
unfolding set_max_staleness
apply_max_staleness env none rp thrown = goes_on rp thrown
apply_max_staleness env (some options) rp thrown =
    elim (find options (name (codes "maxStalenessSeconds"))) [
      | none ↦ goes_on rp thrown
      | some z ↦ set_max_staleness (env.zval_to_long z) rp thrown
    ]

-- `mongoc_read_prefs_is_valid`, at the end.
unfoldable pub check_valid : (ReadPrefs → Bool) → ReadPrefs → List Fault → Step
check_valid is_valid rp thrown =
    if is_valid rp
    then goes_on rp thrown
    else ends rp (thrown ++ throw invalid_argument "Read preference is not valid" ∷ [])

-- `ReadPreference::__construct`: the read preference of the object, if it has one, and what was
-- thrown.
abbrev pub constructed : Step → Option ReadPrefs × List Fault
constructed (goes_on rp thrown) = (some rp, thrown)
constructed (ends rp thrown) = (some rp, thrown)

unfoldable pub construct_read_preference :
    Env → (ReadPrefs → Bool) → ℤ → Option Table → Option Table → Option ReadPrefs × List Fault
unfolding mode_of apply_tag_sets apply_max_staleness check_valid
construct_read_preference env is_valid mode tag_sets options = elim (mode_of mode) [
  | none ↦ (none, throw invalid_argument "Invalid mode: %ld" ∷ [])
  | some m ↦ constructed (
      then_step (apply_tag_sets env tag_sets (new_prefs m))
        (λ rp thrown. then_step (apply_max_staleness env options rp thrown) (check_valid is_valid)))
]

-- The name of a mode, as the server has it.
abbrev pub mode_name : ReadMode → Bytes
mode_name primary = codes "primary"
mode_name primary_preferred = codes "primaryPreferred"
mode_name secondary = codes "secondary"
mode_name secondary_preferred = codes "secondaryPreferred"
mode_name nearest = codes "nearest"

-- The tags as an array of PHP, with what their conversion throws; it starts with no class.
unfoldable pub tags_to_zval : Env → Doc → Zval × List Fault
unfolding bson_to_zval_ex
tags_to_zval env tags =
    let map = record initial_map { root = record { type = native_array; class_entry = none } } in
    let decoded = bson_to_zval_ex env (whole tags) map none [] in
    (get_value decoded.value, decoded.thrown)

-- `php_phongo_read_preference_to_zval`.
unfoldable pub read_preference_to_zval : Env → ReadPrefs → Table × List Fault
unfolding tags_to_zval update
read_preference_to_zval env rp =
    let start = entry (name (codes "mode")) (Zval.string (mode_name rp.mode)) empty in
    let (tags, faults) = tags_to_zval env rp.tags in
    let tagged = if is_empty rp.tags then start else update start (name (codes "tags")) tags in
    (
      if rp.max_staleness_seconds ==ℤ no_max_staleness
          then tagged
          else update tagged (name (codes "maxStalenessSeconds"))
              (Zval.long rp.max_staleness_seconds),
      if is_empty rp.tags then [] else faults,
    )
