-- ===== src/Manager/Uris.antt =====
-- php_phongo.c: the URI with which `phongo_manager_init` makes a client.
use dotdeb_php_mongodb.Prelude.{
  Bytes, codes, case_eq, Bool, true, false, ◌&&◌, ◌||◌, not, List, [], ◌∷◌, ◌++◌, Option, none,
  some, ◌≡◌, refl, arith, Bool-cases, ap, subst, none≢some, Option-cases, inl, inr, ◌∙◌, and_true,
}
use dotdeb_php_mongodb.Bson.{Bson, Doc, element, finish, corrupt, unsupported}
use dotdeb_php_mongodb.Uri.{Setting, kept, set, failed, find_case}
use dotdeb_php_mongodb.ReadPreference.{ReadPrefs}
use dotdeb_php_mongodb.ReadPreference.Uri.{apply_rp_options}
use dotdeb_php_mongodb.ReadPreference.Consistent.{
  is_consistent, is_patient, Sets, apply_rp_options-consistent,
}
use dotdeb_php_mongodb.WriteConcern.Uri.{apply_wc_options}
use dotdeb_php_mongodb.ReadConcern.{apply_rc_options}
use dotdeb_php_mongodb.Manager.Connection.{
  Library, Uri, UriCall, as_bool, as_int32, as_utf8, Attempt, going, cleanup, and_then, settle,
  is_deferred, uri_setting, typed_setting, named_setting, uri_settings, make_uri, set_read_concern,
  set_read_prefs, set_write_concern, set_appname, name_application, prepare_uri,
}

-- The options that have a function of their own, for the write concern, for the read preference and
-- for the application's name.
abbrev pub checked_options : List Bytes
checked_options =
    codes "safe"
    ∷ codes "journal"
    ∷ codes "w"
    ∷ codes "wtimeoutms"
    ∷ codes "slaveok"
    ∷ codes "readpreference"
    ∷ codes "readpreferencetags"
    ∷ codes "maxstalenessseconds"
    ∷ codes "appname"
    ∷ []

-- Whether a key is one of some names, in any case.
abbrev pub is_among : Bytes → List Bytes → Bool
is_among k [] = false
is_among k (n ∷ ns) = case_eq k n || is_among k ns

-- A call that sets none of these by its key.
abbrev pub is_early : UriCall → Bool
is_early (as_bool k b) = not (is_among k checked_options)
is_early (as_int32 k v) = not (is_among k checked_options)
is_early (as_utf8 k s) = not (is_among k checked_options)
is_early _ = true

abbrev pub all_early : List UriCall → Bool
all_early [] = true
all_early (c ∷ cs) = is_early c && all_early cs

abbrev pub are_consistent : Option ReadPrefs → Bool
are_consistent none = true
are_consistent (some rp) = is_consistent rp

abbrev pub is_sound : Uri → Bool
is_sound uri = all_early uri.calls && are_consistent uri.read_prefs

-- An attempt that goes on has a URI that is sound.
abbrev pub Yields : Attempt Uri → Type 0
Yields (going uri) = is_sound uri ≡ true
Yields (cleanup faults) = Unit

same_options :
    (a b c d e f g h i : Bool)
    → (a || b || c || d || e || f || g || h || i)
      ≡ (d || (a || (f || (g || (e || (b || (c || (h || (i || false)))))))))
same_options a b c d e f g h i = ground arith

is_deferred-among : (k : Bytes) → is_deferred k ≡ is_among k checked_options
unfolding is_deferred
is_deferred-among k =
    same_options (case_eq k (codes "journal")) (case_eq k (codes "readpreference"))
      (case_eq k (codes "readpreferencetags")) (case_eq k (codes "safe"))
      (case_eq k (codes "slaveok")) (case_eq k (codes "w")) (case_eq k (codes "wtimeoutms"))
      (case_eq k (codes "maxstalenessseconds")) (case_eq k (codes "appname"))

all_early-append :
    (cs ds : List UriCall) → all_early cs ≡ true → all_early ds ≡ true → all_early (cs ++ ds) ≡ true
all_early-append [] ds h i = i
all_early-append (c ∷ cs) ds h i = ground (arith, all_early-append cs ds)

named_setting-early : (k s : Bytes) → all_early (named_setting k s) ≡ true
unfolding named_setting
named_setting-early k s = ground arith

typed_setting-early :
    {C : Type 0} (lib : Library C) (k : Bytes) (b : Bson)
    → is_among k checked_options ≡ false
    → all_early (typed_setting lib k b) ≡ true
unfolding typed_setting
typed_setting-early lib k (Bson.int32 v) h = ground arith
typed_setting-early lib k (Bson.utf8 s) h = elim (Bool-cases (lib.option_is_utf8 k)) [
  | inl e ↦ rw (e, h) refl
  | inr e ↦ rw e (named_setting-early k s)
]
typed_setting-early lib k _ h = refl

uri_setting-early :
    {C : Type 0} (lib : Library C) (k : Bytes) (b : Bson) → all_early (uri_setting lib k b) ≡ true
unfolding uri_setting
uri_setting-early lib k b = elim (Bool-cases (is_among k checked_options)) [
  | inl e ↦ rw (is_deferred-among, e) refl
  | inr e ↦ elim (Bool-cases (lib.option_is_bool k)) [
    | inl o ↦ rw (is_deferred-among, e, o) (rw e refl)
    | inr o ↦ rw (is_deferred-among, e, o) (typed_setting-early lib k b e)
  ]
]

uri_settings-early :
    {C : Type 0} (lib : Library C) (d : Doc) → all_early (uri_settings lib d) ≡ true
unfolding uri_settings
uri_settings-early lib (element k b d) =
    all_early-append (uri_setting lib k b) (uri_settings lib d) (uri_setting-early lib k b)
      (uri_settings-early lib d)
uri_settings-early lib finish = refl
uri_settings-early lib corrupt = refl
uri_settings-early lib (unsupported k c) = refl

and_then-Yields :
    (a : Attempt Uri) (next : Uri → Attempt Uri)
    → Yields a
    → ((uri : Uri) → is_sound uri ≡ true → Yields (next uri))
    → Yields (and_then a next)
and_then-Yields (going uri) next h i = i uri h
and_then-Yields (cleanup faults) next h i = tt

-- A setting that leaves the read preference and the calls alone.
settle-same :
    {A : Type 0} (s : Setting A) (uri : Uri) (update : A → Uri)
    → ((a : A) → is_sound (update a) ≡ is_sound uri)
    → is_sound uri ≡ true
    → Yields (settle s uri update)
settle-same kept uri update same h = h
settle-same (set a) uri update same h = same a ∙ h
settle-same (failed faults) uri update same h = tt

both : (a b : Bool) → a ≡ true → b ≡ true → (a && b) ≡ true
both a b h i = ground arith

settle-prefs :
    (s : Setting ReadPrefs) (uri : Uri)
    → Sets is_consistent s
    → is_sound uri ≡ true
    → Yields (settle s uri (λ rp. record uri { read_prefs = some rp }))
settle-prefs kept uri c h = h
settle-prefs (set rp) uri c h =
    both (all_early uri.calls) (is_consistent rp)
      (and_true (all_early uri.calls) (are_consistent uri.read_prefs) h).0 c
settle-prefs (failed faults) uri c h = tt

apply_rp_options-Sets :
    (is_valid : ReadPrefs → Bool)
    → ((rp : ReadPrefs) → is_valid rp ≡ true → is_patient rp ≡ true)
    → (o : Option ReadPrefs) (options : Doc) → are_consistent o ≡ true
    → Sets is_consistent (apply_rp_options is_valid o options)
apply_rp_options-Sets is_valid law none options h = unfold apply_rp_options in refl
apply_rp_options-Sets is_valid law (some old) options h =
    apply_rp_options-consistent is_valid law old options h

name_application-Yields :
    {C : Type 0} (lib : Library C) (uri : Uri) (o : Option Bson)
    → is_sound uri ≡ true
    → Yields (name_application lib uri o)
unfolding name_application
name_application-Yields lib uri (some (Bson.utf8 str)) h =
    elim (Bool-cases (lib.takes_appname str)) [
      | inl e ↦ rw (name_application, e) h
      | inr e ↦ rw (name_application, e) tt
    ]
name_application-Yields lib uri _ h = h

abbrev or_else : Uri → Option Uri → Uri
or_else uri none = uri
or_else uri (some u) = u

make_uri_sound :
    {C : Type 0} (lib : Library C) (s : Bytes) (options : Doc) (uri : Uri)
    → ((u : Uri) → lib.parse s ≡ some u → is_sound u ≡ true)
    → make_uri lib s options ≡ some uri
    → is_sound uri ≡ true
unfolding make_uri
make_uri_sound lib s options uri law h = elim (Option-cases (lib.parse s)) [
  | inl e ↦ absurd (none≢some (rw (make_uri, e) at h))
  | inr (u, e) ↦
      let parts = and_true (all_early u.calls) (are_consistent u.read_prefs) (law u e) in
      let made : record u { calls = u.calls ++ uri_settings lib options } ≡ uri =
        ap (or_else uri) (rw (make_uri, e) at h) in
      subst (λ u. is_sound u ≡ true) made
        (both (all_early (u.calls ++ uri_settings lib options)) (are_consistent u.read_prefs)
          (all_early-append u.calls (uri_settings lib options) parts.0
            (uri_settings-early lib options))
          parts.1)
]

-- When the string of the URI parses to a URI with a consistent read preference, or none, and with no
-- call that sets one of the options safe, journal, w, wtimeoutms, slaveok, readpreference,
-- readpreferencetags, maxstalenessseconds and appname by its key, in any case of letters, then the URI
-- that a client is made with is such a URI too, whatever the options are: none of these is handed to
-- libmongoc unchecked. That rests on the validity of libmongoc refusing a maximal staleness with the
-- primary mode.
pub prepare_uri-Yields :
    {C : Type 0} (lib : Library C)
    → ((rp : ReadPrefs) → lib.prefs_valid rp ≡ true → is_patient rp ≡ true)
    → (uri_string : Bytes) (options : Doc)
    → ((u : Uri) → lib.parse uri_string ≡ some u → is_sound u ≡ true)
    → Yields (prepare_uri lib uri_string options)
unfolding prepare_uri set_read_concern set_read_prefs set_write_concern set_appname
prepare_uri-Yields lib law uri_string options parsed =
    elim (Option-cases (make_uri lib uri_string options)) [
      | inl e ↦ rw (prepare_uri, e) tt
      | inr (uri, e) ↦
          rw (prepare_uri, e)
            (and_then-Yields (set_read_concern options uri) _
              (settle-same (apply_rc_options uri.read_concern options) uri _ (λ a. refl)
                (make_uri_sound lib uri_string options uri parsed e))
              (λ uri h.
                and_then-Yields (set_read_prefs lib options uri) _
                  (settle-prefs (apply_rp_options lib.prefs_valid uri.read_prefs options) uri
                    (apply_rp_options-Sets lib.prefs_valid law uri.read_prefs options
                      (and_true (all_early uri.calls) (are_consistent uri.read_prefs) h).1)
                    h)
                  (λ uri h.
                    and_then-Yields (set_write_concern lib options uri) _
                      (settle-same (apply_wc_options lib.concern_valid uri.write_concern options)
                        uri _ (λ a. refl) h)
                      (λ uri h.
                        name_application-Yields lib uri (find_case (codes "appname") options) h))))
    ]
