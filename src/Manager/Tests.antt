-- ===== src/Manager/Tests.antt =====
-- Instances of the theorems on Managers.
use dotdeb_php_mongodb.Prelude.{
  Bytes, codes, ap, subst, true, false, List, [], Option, none, some, ◌≡◌, refl,
}
use dotdeb_php_mongodb.Php.{Zval, entry}
use dotdeb_php_mongodb.Samples.{sample_env}
use dotdeb_php_mongodb.ReadPreference.{new_prefs, primary, tags_are_valid}
use dotdeb_php_mongodb.ReadPreference.Tests.{prefs_valid, prefs_valid-patient, nearest_options}
use dotdeb_php_mongodb.WriteConcern.{new_concern}
use dotdeb_php_mongodb.Manager.{manager_init, make_client_hash}
use dotdeb_php_mongodb.Manager.Connection.{Library, Uri, prepare_uri}
use dotdeb_php_mongodb.Manager.Clients.{Kept, manager_init-Kept, manager_init-again}
use dotdeb_php_mongodb.Manager.Uris.{is_sound, Yields, prepare_uri-Yields}

-- A URI that any text parses to, and clients that are URIs.
abbrev parsed : Uri
parsed = record {
  calls = [];
  read_concern = some none;
  read_prefs = some (new_prefs primary);
  write_concern = some new_concern;
  appname = none;
}

abbrev or_parsed : Option Uri → Uri
or_parsed none = parsed
or_parsed (some u) = u

abbrev text_of : Zval → Bytes
text_of (Zval.array (entry k (Zval.string s) t)) = s
text_of _ = []

-- The hash of the sample is the string of the URI.
abbrev library : Library Uri
library = record {
  parse = λ s. some parsed;
  option_is_bool = λ k. false;
  option_is_int32 = λ k. false;
  option_is_utf8 = λ k. false;
  bson_as_bool = λ b. true;
  takes_appname = λ s. true;
  prefs_valid = prefs_valid;
  concern_valid = λ wc. true;
  new_client = λ uri. some uri;
  get_ssl = λ uri. false;
  set_ssl = λ c opt. c;
  serialize = λ z. (text_of z, []);
  stream_context = λ z. none;
  text_conversion = λ z. [];
}

abbrev localhost : Bytes
localhost = codes "mongodb://localhost/"

manager_init-Kept_example :
    Kept [] localhost (manager_init sample_env library [] localhost none none)
unfolding make_client_hash
manager_init-Kept_example = manager_init-Kept sample_env library [] localhost none none

manager_init-again_example :
    let first : List (Bytes × Uri) =
      (manager_init sample_env library [] localhost none none).clients in
    manager_init sample_env library first localhost none none
    ≡ record { clients = first; client = some parsed; thrown = [] }
unfolding manager_init
manager_init-again_example =
    manager_init-again sample_env library [] localhost none none parsed refl

prepare_uri-Yields_example : Yields (prepare_uri library localhost nearest_options)
prepare_uri-Yields_example =
    prepare_uri-Yields library prefs_valid-patient localhost nearest_options
      (λ u h. subst (λ u. is_sound u ≡ true) (ap (or_parsed) h) (unfold tags_are_valid in refl))
