-- ===== src/Manager.antt =====
-- src/MongoDB/Manager.c, and the functions of php_phongo.c that make its client: the URI with its
-- options, the SSL options, and the clients that the module keeps by their hash, as on PHP 7 with an
-- SSL library that takes every option. A client of libmongoc, `mongoc_uri_new` and the serializer of
-- PHP are parameters; a URI is kept as what it has been given.
pub mod Options
pub mod Connection
pub mod Ssl
pub mod Failures
pub mod Clients
pub mod Uris
pub mod Tests
use dotdeb_php_mongodb.Prelude.{
  ℤ, Bytes, codes, bytes_eq, case_eq, c_string, Bool, true, false, ◌||◌, ◌&&◌, not, List, [], ◌∷◌,
  ◌++◌, Option, none, some, if◌then◌else◌,
}
use dotdeb_php_mongodb.Errors.{Fault, invalid_argument, runtime, throw, is_pending}
use dotdeb_php_mongodb.Bson.{Bson, Doc, element, finish}
use dotdeb_php_mongodb.Php.{name, Zval, Table, empty, entry, Env}
use dotdeb_php_mongodb.Encode.{no_flags, zval_to_bson}
use dotdeb_php_mongodb.Uri.{find_case, Setting, kept, set, failed}
use dotdeb_php_mongodb.ReadPreference.{ReadPrefs}
use dotdeb_php_mongodb.ReadPreference.Uri.{apply_rp_options}
use dotdeb_php_mongodb.WriteConcern.{WriteConcern}
use dotdeb_php_mongodb.WriteConcern.Uri.{apply_wc_options}
use dotdeb_php_mongodb.ReadConcern.{apply_rc_options}
use Connection.{Library, Uri, Attempt, going, cleanup, prepare_uri}
use Options.{prep_option_tagsets, merge_context_options}
use Ssl.{SslOptions, make_ssl_options, ssl_faults}

-- `php_phongo_make_mongo_client`.
unfoldable pub make_client : {C : Type 0} → Library C → Uri → Option SslOptions → Option C
make_client lib uri ssl_opt = elim (lib.new_client uri) [
  | none ↦ none
  | some client ↦ elim ssl_opt [
    | none ↦ some client
    | some opt ↦ some (if lib.get_ssl uri then lib.set_ssl client opt else client)
  ]
]

-- `MONGODB_G(clients)`: the clients of the process by their hashes.
unfoldable pub find_client : {C : Type 0} → List (Bytes × C) → Bytes → Option C
unfolding bytes_eq
find_client [] hash = none
find_client (c ∷ cs) hash = if bytes_eq c.0 hash then some c.1 else find_client cs hash

-- What `phongo_manager_init` leaves: the clients of the process, that of the manager, and the
-- exceptions.
pub record Initialised (C : Type 0) : Type 0 where
  pub clients : List (Bytes × C)
  pub client : Option C
  pub thrown : List Fault

abbrev array_or_null : Option Table → Zval
array_or_null none = Zval.null
array_or_null (some t) = Zval.array t

-- `php_phongo_manager_make_client_hash`, with what the serializer throws.
unfoldable pub make_client_hash :
    {C : Type 0} → Library C → Bytes → Option Table → Option Table → Bytes × List Fault
make_client_hash lib uri_string options driver_options = lib.serialize (
    Zval.array (
      entry (name (codes "uri")) (Zval.string uri_string) (
        entry (name (codes "options")) (array_or_null options)
          (entry (name (codes "driverOptions")) (array_or_null driver_options) empty))))

-- The options as a document, with what the conversion throws.
unfoldable pub options_to_bson : Env → Option Table → Doc × List Fault
unfolding zval_to_bson
options_to_bson env none = (finish, [])
options_to_bson env (some t) =
    let made = zval_to_bson env no_flags (Zval.array t) in (made.doc, made.thrown)

-- A new client is kept by its hash.
unfoldable pub keep_client : {C : Type 0} → List (Bytes × C) → Bytes → Option C → Initialised C
keep_client clients hash none = record {
  clients = clients;
  client = none;
  thrown = throw runtime "Failed to create Manager from URI: '%s'" ∷ [];
}
keep_client clients hash (some c) = record {
  clients = clients ++ (hash, c) ∷ [];
  client = some c;
  thrown = [];
}

-- `phongo_manager_init`, from the URI on.
unfoldable pub init_from_uri :
    {C : Type 0}
    → Env
    → Library C
    → List (Bytes × C)
    → Bytes
    → Option Table
    → Attempt Uri
    → Initialised C
unfolding make_ssl_options ssl_faults make_client keep_client
init_from_uri env lib clients hash driver_options (cleanup faults) = record {
  clients = clients;
  client = none;
  thrown = faults;
}
init_from_uri env lib clients hash driver_options (going uri) =
    let faults = ssl_faults lib.text_conversion driver_options in
    if is_pending faults
    then record { clients = clients; client = none; thrown = faults }
    else keep_client clients hash (make_client lib uri (make_ssl_options env driver_options))

-- `phongo_manager_init`, for a hash that is not there yet.
unfoldable pub init_new :
    {C : Type 0}
    → Env
    → Library C
    → List (Bytes × C)
    → Bytes
    → Bytes
    → Option Table
    → Option Table
    → Initialised C
unfolding options_to_bson prepare_uri init_from_uri
init_new env lib clients hash uri_string options driver_options =
    let (bson_options, faults) = options_to_bson env options in
    if is_pending faults
    then record { clients = clients; client = none; thrown = faults }
    else init_from_uri env lib clients hash driver_options (prepare_uri lib uri_string bson_options)

-- `phongo_manager_init`.
unfoldable pub manager_init :
    {C : Type 0}
    → Env
    → Library C
    → List (Bytes × C)
    → Bytes
    → Option Table
    → Option Table
    → Initialised C
unfolding make_client_hash find_client init_new
manager_init env lib clients uri_string options driver_options =
    let (hash, faults) = make_client_hash lib uri_string options driver_options in
    if is_pending faults
    then record { clients = clients; client = none; thrown = faults }
    else elim (find_client clients hash) [
      | some c ↦ record { clients = clients; client = some c; thrown = [] }
      | none ↦ init_new env lib clients hash uri_string options driver_options
    ]

abbrev pub prep_options : Option Table → Option Table
prep_options none = none
prep_options (some t) = some (prep_option_tagsets t)

-- The driver's options, with those of a stream context.
abbrev pub merge_driver_options :
    {C : Type 0} → Library C → Option Table → Option Table × List Fault
merge_driver_options lib none = (none, [])
merge_driver_options lib (some t) = merge_context_options lib.stream_context t

-- `Manager::__construct`, with `PHONGO_MANAGER_URI_DEFAULT`.
unfoldable pub construct_manager :
    {C : Type 0}
    → Env
    → Library C
    → List (Bytes × C)
    → Option Bytes
    → Option Table
    → Option Table
    → Initialised C
unfolding manager_init prep_option_tagsets merge_context_options c_string
construct_manager env lib clients uri_string options driver_options =
    let (merged, faults) = merge_driver_options lib driver_options in
    let uri = elim uri_string as (λ _. Bytes) [
      | none ↦ codes "mongodb://127.0.0.1/"
      | some s ↦ c_string s
    ] in
    if is_pending faults
    then record { clients = clients; client = none; thrown = faults }
    else manager_init env lib clients uri (prep_options options) merged
