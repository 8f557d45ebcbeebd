-- ===== src/Manager/Connection.antt =====
-- php_phongo.c: the URI of a client, with the options that are set by their key, the read and write
-- concern, the read preference and the name of the application. A URI is kept as what it has been
-- given.
use dotdeb_php_mongodb.Manager.Ssl.{SslOptions}
use dotdeb_php_mongodb.Prelude.{
  ℤ, Bytes, codes, case_eq, Bool, ◌||◌, List, [], ◌∷◌, ◌++◌, Option, none, some, if◌then◌else◌,
}
use dotdeb_php_mongodb.Errors.{Fault, invalid_argument, throw}
use dotdeb_php_mongodb.Bson.{Bson, Doc, element}
use dotdeb_php_mongodb.Php.{Zval, Table}
use dotdeb_php_mongodb.Uri.{find_case, Setting, kept, set, failed}
use dotdeb_php_mongodb.ReadPreference.{ReadPrefs}
use dotdeb_php_mongodb.ReadPreference.Uri.{apply_rp_options}
use dotdeb_php_mongodb.WriteConcern.{WriteConcern}
use dotdeb_php_mongodb.WriteConcern.Uri.{apply_wc_options}
use dotdeb_php_mongodb.ReadConcern.{apply_rc_options}

-- The calls of `mongoc_uri_set_*` that `php_phongo_make_uri` makes.
pub data UriCall : Type 0 where
  as_bool : Bytes → Bool → UriCall
  as_int32 : Bytes → ℤ → UriCall
  as_utf8 : Bytes → Bytes → UriCall
  username password database auth_source : Bytes → UriCall

-- `mongoc_uri_t`.
pub record Uri : Type 0 where
  pub calls : List UriCall
  pub read_concern : Option (Option Bytes)
  pub read_prefs : Option ReadPrefs
  pub write_concern : Option WriteConcern
  pub appname : Option Bytes

-- `mongoc_uri_new`; `mongoc_uri_option_is_bool`, `_int32` and `_utf8`; `bson_iter_as_bool`;
-- whether `mongoc_uri_set_appname` takes a name; `mongoc_read_prefs_is_valid` and
-- `mongoc_write_concern_is_valid`; `mongoc_client_new_from_uri`, `mongoc_uri_get_ssl` and
-- `mongoc_client_set_ssl_opts`; `php_var_serialize`, with what it throws; and the options of
-- `php_stream_context_from_zval`; and what the engine throws as it converts a value to a text.
pub record Library (C : Type 0) : Type 0 where
  pub parse : Bytes → Option Uri
  pub option_is_bool : Bytes → Bool
  pub option_is_int32 : Bytes → Bool
  pub option_is_utf8 : Bytes → Bool
  pub bson_as_bool : Bson → Bool
  pub takes_appname : Bytes → Bool
  pub prefs_valid : ReadPrefs → Bool
  pub concern_valid : WriteConcern → Bool
  pub new_client : Uri → Option C
  pub get_ssl : Uri → Bool
  pub set_ssl : C → SslOptions → C
  pub serialize : Zval → Bytes × List Fault
  pub stream_context : Zval → Option Table
  pub text_conversion : Zval → List Fault

-- The options that `php_phongo_make_uri` leaves for later.
unfoldable pub is_deferred : Bytes → Bool
unfolding case_eq
is_deferred key =
    case_eq key (codes "journal")
    || case_eq key (codes "readpreference")
    || case_eq key (codes "readpreferencetags")
    || case_eq key (codes "safe")
    || case_eq key (codes "slaveok")
    || case_eq key (codes "w")
    || case_eq key (codes "wtimeoutms")
    || case_eq key (codes "maxstalenessseconds")
    || case_eq key (codes "appname")

-- A text for an option that libmongoc does not know as one.
unfoldable pub named_setting : Bytes → Bytes → List UriCall
unfolding case_eq
named_setting key value =
    if case_eq key (codes "username")
    then username value ∷ []
    else if case_eq key (codes "password")
    then password value ∷ []
    else if case_eq key (codes "database")
    then database value ∷ []
    else if case_eq key (codes "authsource")
    then auth_source value ∷ []
    else []

unfoldable pub typed_setting : {C : Type 0} → Library C → Bytes → Bson → List UriCall
unfolding named_setting
typed_setting lib key (Bson.int32 v) = if lib.option_is_int32 key then as_int32 key v ∷ [] else []
typed_setting lib key (Bson.utf8 s) =
    if lib.option_is_utf8 key then as_utf8 key s ∷ [] else named_setting key s
typed_setting lib key b = []

-- One option.
unfoldable pub uri_setting : {C : Type 0} → Library C → Bytes → Bson → List UriCall
unfolding is_deferred typed_setting
uri_setting lib key b =
    if is_deferred key
    then []
    else if lib.option_is_bool key
    then as_bool key (lib.bson_as_bool b) ∷ []
    else typed_setting lib key b

unfoldable pub uri_settings : {C : Type 0} → Library C → Doc → List UriCall
unfolding uri_setting
uri_settings lib (element k b d) = uri_setting lib k b ++ uri_settings lib d
uri_settings lib _ = []

-- `php_phongo_make_uri`.
unfoldable pub make_uri : {C : Type 0} → Library C → Bytes → Doc → Option Uri
unfolding uri_settings
make_uri lib uri_string options = elim (lib.parse uri_string) [
  | none ↦ none
  | some uri ↦ some (record uri { calls = uri.calls ++ uri_settings lib options })
]

-- A URI so far, or a `goto cleanup` with exceptions.
pub data Attempt (A : Type 0) : Type 0 where
  going : A → Attempt A
  cleanup : List Fault → Attempt A

abbrev pub and_then : {A B : Type 0} → Attempt A → (A → Attempt B) → Attempt B
and_then (going a) next = next a
and_then (cleanup faults) next = cleanup faults

-- What a function on the options leaves of the URI.
abbrev pub settle : {A : Type 0} → Setting A → Uri → (A → Uri) → Attempt Uri
settle kept uri update = going uri
settle (set a) uri update = going (update a)
settle (failed faults) uri update = cleanup faults

unfoldable pub set_read_concern : Doc → Uri → Attempt Uri
unfolding apply_rc_options
set_read_concern options uri =
    settle (apply_rc_options uri.read_concern options) uri
      (λ rc. record uri { read_concern = some rc })

unfoldable pub set_read_prefs : {C : Type 0} → Library C → Doc → Uri → Attempt Uri
unfolding apply_rp_options
set_read_prefs lib options uri =
    settle (apply_rp_options lib.prefs_valid uri.read_prefs options) uri
      (λ rp. record uri { read_prefs = some rp })

unfoldable pub set_write_concern : {C : Type 0} → Library C → Doc → Uri → Attempt Uri
unfolding apply_wc_options
set_write_concern lib options uri =
    settle (apply_wc_options lib.concern_valid uri.write_concern options) uri
      (λ wc. record uri { write_concern = some wc })

unfoldable pub name_application : {C : Type 0} → Library C → Uri → Option Bson → Attempt Uri
name_application lib uri (some (Bson.utf8 str)) =
    if lib.takes_appname str
    then going (record uri { appname = some str })
    else cleanup (throw invalid_argument "Invalid appname value: '%s'" ∷ [])
name_application lib uri _ = going uri

unfoldable pub set_appname : {C : Type 0} → Library C → Doc → Uri → Attempt Uri
unfolding find_case name_application
set_appname lib options uri = name_application lib uri (find_case (codes "appname") options)

-- The URI of `phongo_manager_init`.
unfoldable pub prepare_uri : {C : Type 0} → Library C → Bytes → Doc → Attempt Uri
unfolding make_uri set_read_concern set_read_prefs set_write_concern set_appname
prepare_uri lib uri_string options = elim (make_uri lib uri_string options) [
  | none ↦ cleanup (throw invalid_argument "Failed to parse MongoDB URI: '%s'" ∷ [])
  | some uri ↦ and_then (set_read_concern options uri) (λ uri.
      and_then (set_read_prefs lib options uri)
        (λ uri. and_then (set_write_concern lib options uri) (set_appname lib options)))
]
