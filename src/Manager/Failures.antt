-- ===== src/Manager/Failures.antt =====
-- php_phongo.c: what fails on the way to a URI has thrown.
use dotdeb_php_mongodb.Prelude.{
  ◌&&◌, Bytes, codes, Bool, true, false, not, ◌||◌, Option, none, some, if◌then◌else◌, ◌≡◌, refl,
  Bool-cases, Option-cases, inl, inr, ◌⊎◌,
}
use dotdeb_php_mongodb.Errors.{Fault, is_pending}
use dotdeb_php_mongodb.Bson.{Bson, Doc}
use dotdeb_php_mongodb.Uri.{Setting, kept, set, failed, find_case}
use dotdeb_php_mongodb.ReadPreference.{ReadPrefs, is_empty}
use dotdeb_php_mongodb.ReadPreference.Uri.{apply_rp_options, setting_of, has_rp_options}
use dotdeb_php_mongodb.WriteConcern.{WriteConcern}
use dotdeb_php_mongodb.WriteConcern.Uri.{apply_wc_options}
use dotdeb_php_mongodb.WriteConcern.Consistent.{
  Sets, apply_wc_options-settled, is_settled, wanted_timeout,
}
use dotdeb_php_mongodb.ReadConcern.{apply_rc_options, set_level}
use dotdeb_php_mongodb.Manager.Connection.{
  Library, Uri, Attempt, going, cleanup, and_then, settle, make_uri, set_read_concern,
  set_read_prefs, set_write_concern, set_appname, name_application, prepare_uri,
}

-- A setting that fails has thrown, and so has an attempt that is cleaned up.
abbrev Throws : {A : Type 0} → Setting A → Type 0
Throws (failed faults) = is_pending faults ≡ true
Throws _ = Unit

abbrev pub Cleans : {A : Type 0} → Attempt A → Type 0
Cleans (going a) = Unit
Cleans (cleanup faults) = is_pending faults ≡ true

and_then-Cleans :
    {A B : Type 0} (a : Attempt A) (next : A → Attempt B)
    → Cleans a
    → ((x : A) → Cleans (next x))
    → Cleans (and_then a next)
and_then-Cleans (going x) next h i = i x
and_then-Cleans (cleanup faults) next h i = h

settle-Cleans :
    {A : Type 0} (s : Setting A) (uri : Uri) (update : A → Uri)
    → Throws s
    → Cleans (settle s uri update)
settle-Cleans kept uri update h = tt
settle-Cleans (set a) uri update h = tt
settle-Cleans (failed faults) uri update h = h

choice-Throws :
    {A : Type 0} (b : Bool) (r s : Setting A) → Throws r → Throws s → Throws (if b then r else s)
choice-Throws true r s h i = h
choice-Throws false r s h i = i

set_level-Throws : (old : Option Bytes) (o : Option Bson) → Throws (set_level old o)
unfolding set_level
set_level-Throws old none = tt
set_level-Throws old (some (Bson.utf8 str)) = tt
set_level-Throws old (some _) = tt

apply_rc_options-Throws :
    (rc : Option (Option Bytes)) (options : Doc) → Throws (apply_rc_options rc options)
unfolding apply_rc_options
apply_rc_options-Throws none options = refl
apply_rc_options-Throws (some old) options =
    choice-Throws (is_empty options) kept _ tt
      (set_level-Throws old (find_case (codes "readconcernlevel") options))

setting_of-Throws : (a : ReadPrefs ⊎ Fault) → Throws (setting_of a)
setting_of-Throws (inl rp) = tt
setting_of-Throws (inr fault) = refl

apply_rp_options-Throws :
    (is_valid : ReadPrefs → Bool) (rp : Option ReadPrefs) (options : Doc)
    → Throws (apply_rp_options is_valid rp options)
unfolding apply_rp_options
apply_rp_options-Throws is_valid none options = refl
apply_rp_options-Throws is_valid (some old) options =
    choice-Throws (is_empty options || not (has_rp_options options)) kept _ tt (setting_of-Throws _)

Sets-Throws : (test : WriteConcern → Bool) (s : Setting WriteConcern) → Sets test s → Throws s
Sets-Throws test kept h = tt
Sets-Throws test (set wc) h = tt
Sets-Throws test (failed faults) h = h

name_application-Cleans :
    {C : Type 0} (lib : Library C) (uri : Uri) (o : Option Bson)
    → Cleans (name_application lib uri o)
unfolding name_application
name_application-Cleans lib uri (some (Bson.utf8 str)) = elim (Bool-cases (lib.takes_appname str)) [
  | inl e ↦ rw (name_application, e) tt
  | inr e ↦ rw (name_application, e) refl
]
name_application-Cleans lib uri _ = tt

pub prepare_uri-Cleans :
    {C : Type 0} (lib : Library C) (uri_string : Bytes) (options : Doc)
    → Cleans (prepare_uri lib uri_string options)
unfolding prepare_uri set_read_concern set_read_prefs set_write_concern set_appname
prepare_uri-Cleans lib uri_string options = elim (Option-cases (make_uri lib uri_string options)) [
  | inl e ↦ rw (prepare_uri, e) refl
  | inr (uri, e) ↦
      rw (prepare_uri, e)
        (and_then-Cleans (set_read_concern options uri) _
          (settle-Cleans (apply_rc_options uri.read_concern options) uri _
            (apply_rc_options-Throws uri.read_concern options))
          (λ uri.
            and_then-Cleans (set_read_prefs lib options uri) _
              (settle-Cleans (apply_rp_options lib.prefs_valid uri.read_prefs options) uri _
                (apply_rp_options-Throws lib.prefs_valid uri.read_prefs options))
              (λ uri.
                and_then-Cleans (set_write_concern lib options uri) _
                  (settle-Cleans (apply_wc_options lib.concern_valid uri.write_concern options) uri
                    _
                    (Sets-Throws
                      (λ wc.
                        is_settled (wanted_timeout uri.write_concern options) wc
                        && lib.concern_valid wc)
                      _ (apply_wc_options-settled lib.concern_valid uri.write_concern options)))
                  (λ uri. name_application-Cleans lib uri (find_case (codes "appname") options)))))
]
