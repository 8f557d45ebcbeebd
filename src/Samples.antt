-- ===== src/Samples.antt =====
-- A concrete environment and some values, for the tests: decimal integers, ObjectIDs that are their
-- own text, and one class for each way in which a class can serve.
use dotdeb_php_mongodb.Prelude.{
  ℕ, zero, suc, ◌+◌, ◌*◌, ◌-◌, ◌/◌, ◌%◌, ℤ, pos, negsuc, ltb, leb, ◌==◌, Bytes, codes, bytes_eq,
  Bool, true, false, ◌&&◌, not, Option, none, some, [], ◌∷◌, if◌then◌else◌,
}
use dotdeb_php_mongodb.Php.{ClassEntry, Zval, returned, Env}

-- `long_to_str` in decimal; the fuel is the number itself, and one more.
unfoldable pub digits : ℕ → ℕ → Bytes → Bytes
digits zero n rest = rest
digits (suc f) n rest =
    let more = digits f (n / 10) ((b'0' + n % 10) ∷ rest) in
    if ltb n 10 then (b'0' + n) ∷ rest else more

abbrev pub decimal : ℤ → Bytes
decimal (pos n) = digits (suc n) n []
decimal (negsuc n) = b'-' ∷ digits (suc (suc n)) (suc n) []

-- The value of a text of digits.
unfoldable pub number : ℕ → Bytes → Option ℕ
number acc [] = some acc
number acc (c ∷ s) = if leb b'0' c && leb c b'9' then number (acc * 10 + (c - b'0')) s else none

-- An index is written with no leading zero.
unfoldable pub numeric : Bytes → Option ℤ
unfolding number
numeric [] = none
numeric (c ∷ s) =
    if c == b'0' && not (bytes_eq s [])
    then none
    else elim (number 0 (c ∷ s)) [ none ↦ none | some n ↦ some (pos n) ]

abbrev pub user_class : ClassEntry
user_class = record {
  name = codes "User";
  instantiatable = true;
  stdclass = false;
  type = true;
  serializable = true;
  persistable = true;
  unserializable = true;
}

abbrev pub plain_class : ClassEntry
plain_class = record {
  name = codes "Plain";
  instantiatable = true;
  stdclass = false;
  type = false;
  serializable = false;
  persistable = false;
  unserializable = false;
}

abbrev pub sample_class : Bytes → Option ClassEntry
sample_class s =
    if bytes_eq s (codes "User")
    then some user_class
    else if bytes_eq s (codes "Plain")
    then some plain_class
    else none

abbrev pub to_string : Zval → Bytes
to_string (Zval.string s) = s
to_string _ = []

abbrev pub to_bool : Zval → Bool
to_bool (Zval.bool b) = b
to_bool (Zval.long (pos zero)) = false
to_bool _ = true

abbrev pub to_long : Zval → ℤ
to_long (Zval.long v) = v
to_long _ = pos 0

abbrev pub sample_env : Env
sample_env = record {
  long_to_str = decimal;
  handle_numeric = numeric;
  fetch_class = sample_class;
  bson_unserialize = λ c t. (Zval.object c t (returned Zval.null), []);
  utf8_validate = λ s. true;
  oid_to_string = λ s. s;
  oid_from_string = λ s. s;
  generated_oid = codes "0123456789ab";
  zval_to_string = to_string;
  zval_to_bool = to_bool;
  zval_to_long = to_long;
}
