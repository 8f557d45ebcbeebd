-- ===== src/Manager/Ssl.antt =====
-- php_phongo.c, `php_phongo_make_ssl_opt`, with an SSL library that takes every option.
use dotdeb_php_mongodb.Prelude.{List, [], ◌++◌, Bytes, codes, Bool, false, Option, none, some}
use dotdeb_php_mongodb.Errors.{Fault}
use dotdeb_php_mongodb.Php.{name, Zval, Table, Env}
use dotdeb_php_mongodb.Php.Hash.{find}

-- `mongoc_ssl_opt_t`.
pub record SslOptions : Type 0 where
  pub allow_invalid_hostname : Bool
  pub weak_cert_validation : Bool
  pub pem_file : Option Bytes
  pub pem_pwd : Option Bytes
  pub ca_file : Option Bytes
  pub ca_dir : Option Bytes
  pub crl_file : Option Bytes

-- The value under the first of two keys that is there.
unfoldable pub find_either : Table → Bytes → Bytes → Option Zval
unfolding find
find_either t first second = elim (find t (name first)) [
  | some z ↦ some z
  | none ↦ find t (name second)
]

unfoldable pub ssl_bool : Env → Option Zval → Bool
ssl_bool env none = false
ssl_bool env (some z) = env.zval_to_bool z

-- `php_phongo_fetch_ssl_opt_string`.
unfoldable pub ssl_string : Env → Option Zval → Option Bytes
ssl_string env none = none
ssl_string env (some z) = some (env.zval_to_string z)

-- `php_phongo_make_ssl_opt`.
unfoldable pub make_ssl_options : Env → Option Table → Option SslOptions
unfolding find_either ssl_bool ssl_string find
make_ssl_options env none = none
make_ssl_options env (some t) = some (record {
  allow_invalid_hostname = ssl_bool env (find t (name (codes "allow_invalid_hostname")));
  weak_cert_validation =
      ssl_bool env (find_either t (codes "weak_cert_validation") (codes "allow_self_signed"));
  pem_file = ssl_string env (find_either t (codes "pem_file") (codes "local_cert"));
  pem_pwd = ssl_string env (find_either t (codes "pem_pwd") (codes "passphrase"));
  ca_file = ssl_string env (find_either t (codes "ca_file") (codes "cafile"));
  ca_dir = ssl_string env (find_either t (codes "ca_dir") (codes "capath"));
  crl_file = ssl_string env (find t (name (codes "crl_file")));
})

-- What the conversion of one option to a text throws.
abbrev pub text_faults : (Zval → List Fault) → Option Zval → List Fault
text_faults conversion none = []
text_faults conversion (some z) = conversion z

-- The exceptions of `php_phongo_make_ssl_opt`: those of the conversions to texts, in order.
unfoldable pub ssl_faults : (Zval → List Fault) → Option Table → List Fault
unfolding find_either find
ssl_faults conversion none = []
ssl_faults conversion (some t) =
    text_faults conversion (find_either t (codes "pem_file") (codes "local_cert"))
    ++ text_faults conversion (find_either t (codes "pem_pwd") (codes "passphrase"))
    ++ text_faults conversion (find_either t (codes "ca_file") (codes "cafile"))
    ++ text_faults conversion (find_either t (codes "ca_dir") (codes "capath"))
    ++ text_faults conversion (find t (name (codes "crl_file")))
