-- ===== src/ReadPreference/Consistent.antt =====
-- Read preferences that no exception has refused are consistent.
use dotdeb_php_mongodb.Errors.{is_pending}
use dotdeb_php_mongodb.Uri.{Setting, kept, set, failed}
use dotdeb_php_mongodb.Uri.{find_case}
use dotdeb_php_mongodb.Prelude.{
  codes, false, true, refl, if◌then◌else◌, none, some, ℤ, ◌==ℤ◌, ltb_ℤ, Bool, true, ◌&&◌, ◌||◌, not,
  ◌≡◌, arith, inl, inr, Bool-cases, Option, some,
}
use dotdeb_php_mongodb.Bson.{Doc, Bson}
use dotdeb_php_mongodb.ReadPreference.{
  ReadPrefs, is_primary, is_empty, tags_are_valid, no_max_staleness, smallest_max_staleness,
  ReadMode,
}
use dotdeb_php_mongodb.ReadPreference.Uri.{
  Attempt, then_try, apply_slaveok, uri_max_staleness, apply_mode, apply_tags, check_tags,
  apply_staleness, check_prefs, set_named_mode, set_mode, set_staleness, setting_of,
  apply_rp_options, has_rp_options, mode_named,
}

-- The tags are documents, and a maximal staleness is at least the smallest.
abbrev pub is_fine : ReadPrefs → Bool
is_fine rp =
    tags_are_valid rp.tags
    && ((rp.max_staleness_seconds ==ℤ no_max_staleness)
        || not (ltb_ℤ rp.max_staleness_seconds smallest_max_staleness))

-- The primary mode has no tags.
abbrev pub is_untagged : ReadPrefs → Bool
is_untagged rp = not (is_primary rp.mode) || is_empty rp.tags

-- The primary mode has no maximal staleness.
abbrev pub is_patient : ReadPrefs → Bool
is_patient rp = not (is_primary rp.mode) || (rp.max_staleness_seconds ==ℤ no_max_staleness)

abbrev pub is_consistent : ReadPrefs → Bool
is_consistent rp = is_fine rp && (is_untagged rp && is_patient rp)

-- An attempt that succeeds leaves what passes a test.
abbrev Leaves : (ReadPrefs → Bool) → Attempt → Type 0
Leaves test (inl rp) = test rp ≡ true
Leaves test (inr fault) = Unit

then_try-Leaves :
    (p q : ReadPrefs → Bool) (a : Attempt) (next : ReadPrefs → Attempt)
    → Leaves p a
    → ((rp : ReadPrefs) → p rp ≡ true → Leaves q (next rp))
    → Leaves q (then_try a next)
then_try-Leaves p q (inl rp) next h i = i rp h
then_try-Leaves p q (inr fault) next h i = tt

apply_slaveok-fine :
    (options : Doc) (rp : ReadPrefs) → is_fine rp ≡ true → is_fine (apply_slaveok options rp) ≡ true
unfolding apply_slaveok
apply_slaveok-fine options rp h = ground arith

uri_max_staleness-fine :
    (seconds : ℤ) (rp : ReadPrefs)
    → (is_fine rp && is_untagged rp) ≡ true
    → Leaves (λ rp. is_fine rp && is_untagged rp) (uri_max_staleness seconds rp)
unfolding uri_max_staleness
uri_max_staleness-fine seconds rp h = ground arith

-- Each step keeps what the steps before it have established.
set_named_mode-fine :
    (rp : ReadPrefs) (o : Option ReadMode)
    → is_fine rp ≡ true
    → Leaves is_fine (set_named_mode rp o)
unfolding set_named_mode
set_named_mode-fine rp none h = tt
set_named_mode-fine rp (some mode) h = h

set_mode-fine :
    (rp : ReadPrefs) (o : Option Bson) → is_fine rp ≡ true → Leaves is_fine (set_mode rp o)
unfolding set_mode
set_mode-fine rp (some (Bson.utf8 str)) h = set_named_mode-fine rp (mode_named str) h
set_mode-fine rp _ h = h

apply_mode-fine :
    (options : Doc) (rp : ReadPrefs) → is_fine rp ≡ true → Leaves is_fine (apply_mode options rp)
unfolding apply_mode
apply_mode-fine options rp h = set_mode-fine rp (find_case (codes "readpreference") options) h

apply_tags-fine :
    (options : Doc) (rp : ReadPrefs) → is_fine rp ≡ true → Leaves is_fine (apply_tags options rp)
unfolding apply_tags
apply_tags-fine options rp h = ground arith

check_tags-untagged :
    (rp : ReadPrefs)
    → is_fine rp ≡ true
    → Leaves (λ rp. is_fine rp && is_untagged rp) (check_tags rp)
unfolding check_tags
check_tags-untagged rp h = ground arith

set_staleness-untagged :
    (rp : ReadPrefs) (o : Option Bson)
    → (is_fine rp && is_untagged rp) ≡ true
    → Leaves (λ rp. is_fine rp && is_untagged rp) (set_staleness rp o)
unfolding set_staleness
set_staleness-untagged rp (some (Bson.int32 seconds)) h = uri_max_staleness-fine seconds rp h
set_staleness-untagged rp _ h = h

apply_staleness-untagged :
    (options : Doc) (rp : ReadPrefs)
    → (is_fine rp && is_untagged rp) ≡ true
    → Leaves (λ rp. is_fine rp && is_untagged rp) (apply_staleness options rp)
unfolding apply_staleness
apply_staleness-untagged options rp h =
    set_staleness-untagged rp (find_case (codes "maxstalenessseconds") options) h

valid-consistent :
    (rp : ReadPrefs)
    → (is_fine rp && is_untagged rp) ≡ true
    → is_patient rp ≡ true
    → is_consistent rp ≡ true
valid-consistent rp h i = ground arith

check_prefs-consistent :
    (is_valid : ReadPrefs → Bool)
    → ((rp : ReadPrefs) → is_valid rp ≡ true → is_patient rp ≡ true)
    → (rp : ReadPrefs) → (is_fine rp && is_untagged rp) ≡ true
    → Leaves is_consistent (check_prefs is_valid rp)
unfolding check_prefs
check_prefs-consistent is_valid law rp h = elim (Bool-cases (is_valid rp)) [
  | inl e ↦ rw (check_prefs, e) (valid-consistent rp h (law rp e))
  | inr e ↦ rw (check_prefs, e) tt
]

-- What a function sets passes a test, and a failure has thrown.
abbrev pub Sets : (ReadPrefs → Bool) → Setting ReadPrefs → Type 0
Sets test kept = Unit
Sets test (set rp) = test rp ≡ true
Sets test (failed faults) = is_pending faults ≡ true

setting_of-Sets : (test : ReadPrefs → Bool) (a : Attempt) → Leaves test a → Sets test (setting_of a)
setting_of-Sets test (inl rp) h = h
setting_of-Sets test (inr fault) h = refl

consistent-fine : (rp : ReadPrefs) → is_consistent rp ≡ true → is_fine rp ≡ true
consistent-fine rp h = ground arith

choice-Sets :
    (test : ReadPrefs → Bool) (b : Bool) (s : Setting ReadPrefs)
    → Sets test s
    → Sets test (if b then kept else s)
choice-Sets test true s h = tt
choice-Sets test false s h = h

-- Whatever the options of a Manager are, a URI whose read preference is consistent keeps it or gets
-- one that is consistent, or the call throws: all tags are documents, a maximal staleness is at
-- least 90 seconds, and the primary mode has neither tags nor a maximal staleness. That rests on
-- `mongoc_read_prefs_is_valid` refusing a maximal staleness with the primary mode.
pub apply_rp_options-consistent :
    (is_valid : ReadPrefs → Bool)
    → ((rp : ReadPrefs) → is_valid rp ≡ true → is_patient rp ≡ true)
    → (old : ReadPrefs) (options : Doc) → is_consistent old ≡ true
    → Sets is_consistent (apply_rp_options is_valid (some old) options)
unfolding apply_rp_options
apply_rp_options-consistent is_valid law old options h =
    let tagged = λ (rp : ReadPrefs). is_fine rp && is_untagged rp in
    choice-Sets is_consistent (is_empty options || not (has_rp_options options)) _ (
      setting_of-Sets is_consistent _ (
        then_try-Leaves is_fine is_consistent (apply_mode options (apply_slaveok options old)) _
          (apply_mode-fine options (apply_slaveok options old)
            (apply_slaveok-fine options old (consistent-fine old h)))
          (λ rp f.
            then_try-Leaves is_fine is_consistent (apply_tags options rp) _
              (apply_tags-fine options rp f)
              (λ rp f.
                then_try-Leaves tagged is_consistent (check_tags rp) _ (check_tags-untagged rp f)
                  (λ rp f.
                    then_try-Leaves tagged is_consistent (apply_staleness options rp) _
                      (apply_staleness-untagged options rp f)
                      (λ rp f. check_prefs-consistent is_valid law rp f))))))
