-- ===== src/ReadPreference/Constructed.antt =====
-- src/MongoDB/ReadPreference.c: the constructor lets only consistent read preferences pass.
use mathlib.Core.Bool.{false≢true}
use dotdeb_php_mongodb.Encode.{Made, no_flags, zval_to_bson}
use dotdeb_php_mongodb.Prelude.{
  Bool-cases, refl, ℤ, ltb_ℤ, int32_max, codes, Bool, true, ◌&&◌, not, List, [], ◌∷◌, ◌++◌, Option,
  none, some, ◌≡◌, refl, arith, Option-cases, inl, inr,
}
use dotdeb_php_mongodb.Errors.{Fault, is_pending}
use dotdeb_php_mongodb.Php.{Table, Env, name, Zval}
use dotdeb_php_mongodb.Php.Hash.{find}
use dotdeb_php_mongodb.ReadPreference.{
  ReadPrefs, Step, goes_on, ends, then_step, set_max_staleness, apply_max_staleness, set_tag_sets,
  apply_tag_sets, check_valid, constructed, tags_are_valid, construct_read_preference, ReadMode,
  mode_of, prep_tagsets, new_prefs,
}
use dotdeb_php_mongodb.ReadPreference.Consistent.{is_consistent}

-- A maximal staleness fits a 32-bit integer.
abbrev pub is_in_range : ReadPrefs → Bool
is_in_range rp = not (ltb_ℤ int32_max rp.max_staleness_seconds)

abbrev pub is_good : ReadPrefs → Bool
is_good rp = is_consistent rp && is_in_range rp

-- A step that goes on leaves what passes a test; one that ends has thrown.
abbrev Passes : (ReadPrefs → Bool) → Step → Type 0
Passes test (goes_on rp thrown) = test rp ≡ true
Passes test (ends rp thrown) = is_pending thrown ≡ true

then_step-Passes :
    (p q : ReadPrefs → Bool) (s : Step) (next : ReadPrefs → List Fault → Step)
    → Passes p s
    → ((rp : ReadPrefs) (thrown : List Fault) → p rp ≡ true → Passes q (next rp thrown))
    → Passes q (then_step s next)
then_step-Passes p q (goes_on rp thrown) next h i = i rp thrown h
then_step-Passes p q (ends rp thrown) next h i = h

is_pending-append : (fs : List Fault) (f : Fault) → is_pending (fs ++ f ∷ []) ≡ true
is_pending-append [] f = refl
is_pending-append (g ∷ fs) f = refl

set_max_staleness-good :
    (seconds : ℤ) (rp : ReadPrefs) (thrown : List Fault)
    → is_good rp ≡ true
    → Passes is_good (set_max_staleness seconds rp thrown)
unfolding set_max_staleness
set_max_staleness-good seconds rp thrown h = grind (arith, is_pending-append)

apply_max_staleness-good :
    (env : Env) (options : Option Table) (rp : ReadPrefs) (thrown : List Fault)
    → is_good rp ≡ true
    → Passes is_good (apply_max_staleness env options rp thrown)
unfolding apply_max_staleness
apply_max_staleness-good env none rp thrown h = h
apply_max_staleness-good env (some options) rp thrown h =
    elim (Option-cases (find options (name (codes "maxStalenessSeconds")))) [
      | inl e ↦ rw (apply_max_staleness, e) h
      | inr (z, e) ↦
          rw (apply_max_staleness, e) (set_max_staleness-good (env.zval_to_long z) rp thrown h)
    ]

checked_tags :
    (made : Made) (rp : ReadPrefs) → is_good rp ≡ true → Passes is_good (set_tag_sets made rp)
unfolding set_tag_sets
checked_tags made rp h = grind (arith, is_pending-append)

apply_tag_sets-good :
    (env : Env) (tag_sets : Option Table) (rp : ReadPrefs)
    → is_good rp ≡ true
    → Passes is_good (apply_tag_sets env tag_sets rp)
unfolding apply_tag_sets
apply_tag_sets-good env none rp h = h
apply_tag_sets-good env (some tag_sets) rp h =
    checked_tags (zval_to_bson env no_flags (Zval.array (prep_tagsets tag_sets))) rp h

check_valid-good :
    (is_valid : ReadPrefs → Bool) (rp : ReadPrefs) (thrown : List Fault)
    → is_good rp ≡ true
    → Passes (λ rp. is_good rp && is_valid rp) (check_valid is_valid rp thrown)
unfolding check_valid
check_valid-good is_valid rp thrown h = elim (Bool-cases (is_valid rp)) [
  | inl e ↦ rw (check_valid, e) (rw (h, e) refl)
  | inr e ↦ rw (check_valid, e) (is_pending-append thrown _)
]

-- What a constructor leaves passes a test, if nothing has been thrown.
abbrev pub Makes : (ReadPrefs → Bool) → Option ReadPrefs × List Fault → Type 0
Makes test (o, f ∷ fs) = Unit
Makes test (none, []) = ⊥
Makes test (some rp, []) = test rp ≡ true

constructed-Makes :
    (test : ReadPrefs → Bool) (s : Step) → Passes test s → Makes test (constructed s)
constructed-Makes test (goes_on rp []) h = h
constructed-Makes test (goes_on rp (f ∷ fs)) h = tt
constructed-Makes test (ends rp []) h = absurd (false≢true h)
constructed-Makes test (ends rp (f ∷ fs)) h = tt

new_prefs-good : (mode : ReadMode) → is_good (new_prefs mode) ≡ true
unfolding tags_are_valid
new_prefs-good mode = ground arith

-- A constructor that throws nothing leaves a read preference that is valid for libmongoc, whose tags
-- are documents, whose maximal staleness, if there is one, is from 90 seconds to the largest 32-bit
-- integer, and which has neither tags nor a maximal staleness in the primary mode; whatever the mode,
-- the tag sets and the options are.
pub construct_read_preference-good :
    (env : Env) (is_valid : ReadPrefs → Bool) (mode : ℤ) (tag_sets options : Option Table)
    → Makes
        (λ rp. is_good rp && is_valid rp)
        (construct_read_preference env is_valid mode tag_sets options)
unfolding construct_read_preference
construct_read_preference-good env is_valid mode tag_sets options =
    elim (Option-cases (mode_of mode)) [
      | inl e ↦ rw (construct_read_preference, e) tt
      | inr (m, e) ↦
          rw (construct_read_preference, e)
            (constructed-Makes (λ rp. is_good rp && is_valid rp) _
              (then_step-Passes is_good (λ rp. is_good rp && is_valid rp)
                (apply_tag_sets env tag_sets (new_prefs m)) _
                (apply_tag_sets-good env tag_sets (new_prefs m) (new_prefs-good m))
                (λ rp thrown g.
                  then_step-Passes is_good (λ rp. is_good rp && is_valid rp)
                    (apply_max_staleness env options rp thrown) _
                    (apply_max_staleness-good env options rp thrown g)
                    (check_valid-good is_valid))))
    ]
