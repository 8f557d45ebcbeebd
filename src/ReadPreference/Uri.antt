-- ===== src/ReadPreference/Uri.antt =====
-- php_phongo.c, `php_phongo_apply_rp_options_to_uri`.
use dotdeb_php_mongodb.Prelude.{
  ℤ, ◌==ℤ◌, ltb_ℤ, Bytes, codes, case_eq, Bool, ◌&&◌, ◌||◌, not, [], ◌∷◌, Option, none, some,
  if◌then◌else◌, String, inl, inr, ◌⊎◌,
}
use dotdeb_php_mongodb.Errors.{Fault, invalid_argument, mongoc_failed, throw}
use dotdeb_php_mongodb.Bson.{Bson, Doc}
use dotdeb_php_mongodb.Uri.{find_case, Setting, kept, set, failed, is_given}
use dotdeb_php_mongodb.ReadPreference.{
  ReadPrefs, ReadMode, primary, primary_preferred, secondary, secondary_preferred, nearest,
  is_primary, is_empty, tags_are_valid, no_max_staleness, smallest_max_staleness,
}

-- The steps of `php_phongo_apply_rp_options_to_uri`, each with the next.
unfoldable pub mode_named : Bytes → Option ReadMode
unfolding case_eq
mode_named str =
    if case_eq (codes "primary") str
    then some primary
    else if case_eq (codes "primarypreferred") str
    then some primary_preferred
    else if case_eq (codes "secondary") str
    then some secondary
    else if case_eq (codes "secondarypreferred") str
    then some secondary_preferred
    else if case_eq (codes "nearest") str
    then some nearest
    else none

-- `slaveok`: any Boolean, true or false.
unfoldable pub apply_slaveok : Doc → ReadPrefs → ReadPrefs
unfolding find_case
apply_slaveok options rp = elim (find_case (codes "slaveok") options) [
  | some (Bson.bool b) ↦ record rp { mode = secondary_preferred }
  | _ ↦ rp
]

-- A step on the new read preference, or `return false` with an exception.
abbrev pub Attempt : Type 0
Attempt = ReadPrefs ⊎ Fault

abbrev pub then_try : Attempt → (ReadPrefs → Attempt) → Attempt
then_try (inl rp) next = next rp
then_try (inr fault) next = inr fault

abbrev refuse : String → Attempt
refuse message = inr (throw invalid_argument message)

-- `readpreference`.
unfoldable pub set_named_mode : ReadPrefs → Option ReadMode → Attempt
set_named_mode rp none = refuse "Unsupported readPreference value: '%s'"
set_named_mode rp (some mode) = inl (record rp { mode = mode })

unfoldable pub set_mode : ReadPrefs → Option Bson → Attempt
unfolding mode_named set_named_mode
set_mode rp (some (Bson.utf8 str)) = set_named_mode rp (mode_named str)
set_mode rp _ = inl rp

unfoldable pub apply_mode : Doc → ReadPrefs → Attempt
unfolding find_case set_mode
apply_mode options rp = set_mode rp (find_case (codes "readpreference") options)

-- `readpreferencetags`: `bson_init_static` succeeds on the bytes of an array.
unfoldable pub apply_tags : Doc → ReadPrefs → Attempt
unfolding find_case tags_are_valid
apply_tags options rp = elim (find_case (codes "readpreferencetags") options) [
  | some (Bson.array tags) ↦
      if tags_are_valid tags
      then inl (record rp { tags = tags })
      else refuse "Read preference tags must be an array of zero or more documents"
  | _ ↦ inl rp
]

-- The primary mode has no tags.
unfoldable pub check_tags : ReadPrefs → Attempt
check_tags rp =
    if is_primary rp.mode && not (is_empty rp.tags)
    then refuse "Primary read preference mode conflicts with tags"
    else inl rp

-- `maxstalenessseconds`.
unfoldable pub uri_max_staleness : ℤ → ReadPrefs → Attempt
uri_max_staleness seconds rp =
    if seconds ==ℤ no_max_staleness
    then inl (record rp { max_staleness_seconds = seconds })
    else if ltb_ℤ seconds smallest_max_staleness
    then refuse "Expected maxStalenessSeconds to be >= %d, %d given"
    else if is_primary rp.mode
    then refuse "Primary read preference mode conflicts with maxStalenessSeconds"
    else inl (record rp { max_staleness_seconds = seconds })

unfoldable pub set_staleness : ReadPrefs → Option Bson → Attempt
unfolding uri_max_staleness
set_staleness rp (some (Bson.int32 seconds)) = uri_max_staleness seconds rp
set_staleness rp _ = inl rp

unfoldable pub apply_staleness : Doc → ReadPrefs → Attempt
unfolding find_case set_staleness
apply_staleness options rp = set_staleness rp (find_case (codes "maxstalenessseconds") options)

-- `mongoc_read_prefs_is_valid`, at the end.
unfoldable pub check_prefs : (ReadPrefs → Bool) → ReadPrefs → Attempt
check_prefs is_valid rp = if is_valid rp then inl rp else refuse "Read preference is not valid"

abbrev pub setting_of : Attempt → Setting ReadPrefs
setting_of (inl rp) = set rp
setting_of (inr fault) = failed (fault ∷ [])

-- Whether one of the options is there.
unfoldable pub has_rp_options : Doc → Bool
unfolding find_case
has_rp_options options =
    is_given (find_case (codes "slaveok") options)
    || is_given (find_case (codes "readpreference") options)
    || is_given (find_case (codes "readpreferencetags") options)
    || is_given (find_case (codes "maxstalenessseconds") options)

-- `php_phongo_apply_rp_options_to_uri`, with the read preference of the URI.
unfoldable pub apply_rp_options : (ReadPrefs → Bool) → Option ReadPrefs → Doc → Setting ReadPrefs
unfolding has_rp_options apply_slaveok apply_mode apply_tags check_tags apply_staleness check_prefs
apply_rp_options is_valid none options =
    failed (throw mongoc_failed "mongoc_uri_t does not have a read preference" ∷ [])
apply_rp_options is_valid (some old) options =
    if is_empty options || not (has_rp_options options)
    then kept
    else setting_of (
        then_try (apply_mode options (apply_slaveok options old)) (λ rp.
          then_try (apply_tags options rp) (λ rp.
            then_try (check_tags rp)
              (λ rp. then_try (apply_staleness options rp) (check_prefs is_valid)))))
