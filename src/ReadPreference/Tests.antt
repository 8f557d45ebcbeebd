-- ===== src/ReadPreference/Tests.antt =====
-- Instances of the theorems on read preferences.
use dotdeb_php_mongodb.Prelude.{
  pos, ◌==ℤ◌, ltb_ℤ, codes, Bool, true, ◌&&◌, ◌||◌, not, some, ◌≡◌, refl, arith,
}
use dotdeb_php_mongodb.Bson.{Bson, Doc, finish, element}
use dotdeb_php_mongodb.Php.{Zval, Table, empty, entry, name, index}
use dotdeb_php_mongodb.Samples.{sample_env}
use dotdeb_php_mongodb.ReadPreference.{
  ReadPrefs, secondary, is_primary, is_empty, no_max_staleness, construct_read_preference,
  tags_are_valid, new_prefs,
}
use dotdeb_php_mongodb.ReadPreference.Uri.{apply_rp_options}
use dotdeb_php_mongodb.ReadPreference.Consistent.{
  is_patient, is_consistent, Sets, apply_rp_options-consistent,
}
use dotdeb_php_mongodb.ReadPreference.Constructed.{is_good, Makes, construct_read_preference-good}

-- `mongoc_read_prefs_is_valid`.
abbrev pub prefs_valid : ReadPrefs → Bool
prefs_valid rp =
    (not (is_primary rp.mode)
      || (is_empty rp.tags && (rp.max_staleness_seconds ==ℤ no_max_staleness)))
    && ((rp.max_staleness_seconds ==ℤ no_max_staleness) || ltb_ℤ (pos 0) rp.max_staleness_seconds)

pub prefs_valid-patient : (rp : ReadPrefs) → prefs_valid rp ≡ true → is_patient rp ≡ true
prefs_valid-patient rp h = ground arith

-- `[['dc' => 'east'], []]` and `['maxStalenessSeconds' => 120]`.
abbrev east : Table
east = entry (name (codes "dc")) (Zval.string (codes "east")) empty

abbrev two_sets : Table
two_sets = entry (index (pos 0)) (Zval.array east) (entry (index (pos 1)) (Zval.array empty) empty)

abbrev stale : Table
stale = entry (name (codes "maxStalenessSeconds")) (Zval.long (pos 120)) empty

construct_read_preference-good_example :
    Makes
      (λ rp. is_good rp && prefs_valid rp)
      (construct_read_preference sample_env prefs_valid (pos 2) (some two_sets) (some stale))
construct_read_preference-good_example =
    construct_read_preference-good sample_env prefs_valid (pos 2) (some two_sets) (some stale)

-- `readPreference=NEAREST` and a maximal staleness, over a secondary mode.
abbrev pub nearest_options : Doc
nearest_options =
    element (codes "readPreference") (Bson.utf8 (codes "NEAREST"))
      (element (codes "maxStalenessSeconds") (Bson.int32 (pos 90)) finish)

abbrev old_prefs : ReadPrefs
old_prefs = new_prefs secondary

apply_rp_options-consistent_example :
    Sets is_consistent (apply_rp_options prefs_valid (some old_prefs) nearest_options)
unfolding tags_are_valid
apply_rp_options-consistent_example =
    apply_rp_options-consistent prefs_valid prefs_valid-patient old_prefs nearest_options refl
