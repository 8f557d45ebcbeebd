-- ===== src/WriteConcern.antt =====
-- src/MongoDB/WriteConcern.c, and the functions of php_phongo.c on write concerns. A write concern of
-- libmongoc is kept as what its setters have been given, by their documentation: `w` is a number of
-- servers, one of the constants that are negative, or a tag. A method is called with arguments that
-- `zend_parse_parameters` takes; `fsync` is never set.
pub mod Uri
pub mod Consistent
pub mod Arguments
pub mod Aborting
pub mod Tests
use dotdeb_php_mongodb.Prelude.{
  ℕ, suc, ◌+◌, ◌-◌, ◌%◌, ltb, ℤ, pos, negsuc, ◌==ℤ◌, ltb_ℤ, int32_max, Bytes, codes, bytes_eq,
  c_string, Bool, true, false, ◌&&◌, not, List, [], ◌∷◌, Option, none, some, if◌then◌else◌,
}
use dotdeb_php_mongodb.Errors.{Fault, invalid_argument, throw}
use dotdeb_php_mongodb.Php.{name, Zval, Table, empty, entry, Env}
use dotdeb_php_mongodb.Php.Hash.{update}

-- `w` of a write concern: unacknowledged is 0, and errors ignored is -1.
pub data W : Type 0 where
  default majority : W
  servers : ℤ → W
  tag : Bytes → W

-- `mongoc_write_concern_t`; a journal that is not set is `none`.
pub record WriteConcern : Type 0 where
  pub w : W
  pub wtimeout : ℤ
  pub journal : Option Bool

-- `mongoc_write_concern_new`.
abbrev pub new_concern : WriteConcern
new_concern = record { w = default; wtimeout = pos 0; journal = none }

-- A long as the 32-bit integer that a parameter of that type gets, on two's complement.
unfoldable pub to_int32 : ℤ → ℤ
to_int32 (pos n) =
    let r = n % 4294967296 in if ltb r 2147483648 then pos r else negsuc (4294967295 - r)
to_int32 (negsuc n) =
    let r = n % 4294967296 in if ltb r 2147483648 then negsuc r else pos (4294967295 - r)

-- `mongoc_write_concern_set_w`, which asserts that its argument is at least -3; none is that the
-- assertion fails.
unfoldable pub set_w : ℤ → WriteConcern → Option WriteConcern
set_w w wc =
    if ltb_ℤ w (negsuc 2)
    then none
    else if w ==ℤ negsuc 2
    then some (record wc { w = majority })
    else if w ==ℤ negsuc 1
    then some (record wc { w = default })
    else some (record wc { w = servers w })

-- What a constructor comes to: an object and what it has thrown, or the end of the process.
pub data Constructed : Type 0 where
  object : WriteConcern → List Fault → Constructed
  aborted : Constructed

-- The timeout, where it is given.
unfoldable pub set_timeout : WriteConcern → ℤ → Constructed
set_timeout wc wtimeout =
    if ltb_ℤ wtimeout (pos 0)
    then object wc (throw invalid_argument "Expected wtimeout to be >= 0, %ld given" ∷ [])
    else if ltb_ℤ int32_max wtimeout
    then object wc (throw invalid_argument "Expected wtimeout to be <= %d, %ld given" ∷ [])
    else object (record wc { wtimeout = wtimeout }) []

-- `zend_is_true` of a journal that is not null.
unfoldable pub set_journal : Env → Option Zval → WriteConcern → WriteConcern
set_journal env none wc = wc
set_journal env (some Zval.null) wc = wc
set_journal env (some z) wc = record wc { journal = some (env.zval_to_bool z) }

-- The arguments after `w`: none, a timeout, or a timeout and a journal.
unfoldable pub set_others : Env → Option (ℤ × Option Zval) → Option WriteConcern → Constructed
unfolding set_timeout set_journal
set_others env arguments none = aborted
set_others env none (some wc) = object wc []
set_others env (some (wtimeout, journal)) (some wc) =
    set_timeout (set_journal env journal wc) wtimeout

-- `mongoc_write_concern_set_wtag`.
abbrev pub set_wtag : Bytes → WriteConcern → WriteConcern
set_wtag s wc = record wc { w = tag s }

-- `WriteConcern::__construct`.
unfoldable pub construct_write_concern : Env → Zval → Option (ℤ × Option Zval) → Constructed
unfolding to_int32 set_w set_others c_string bytes_eq
construct_write_concern env (Zval.long v) arguments =
    if ltb_ℤ v (negsuc 2)
    then object new_concern (throw invalid_argument "Expected w to be >= -3, %ld given" ∷ [])
    else set_others env arguments (set_w (to_int32 v) new_concern)
construct_write_concern env (Zval.string s) arguments =
    if bytes_eq (c_string s) (codes "majority")
    then set_others env arguments (set_w (negsuc 2) new_concern)
    else set_others env arguments (some (set_wtag (c_string s) new_concern))
construct_write_concern env w arguments =
    object new_concern (throw invalid_argument "Expected w to be integer or string, %s given" ∷ [])

-- `WriteConcern::getW`.
unfoldable pub get_w : WriteConcern → Zval
get_w wc = elim wc.w [
  | tag s ↦ Zval.string s
  | majority ↦ Zval.string (codes "majority")
  | servers w ↦ Zval.long w
  | default ↦ Zval.null
]

-- `WriteConcern::getWtimeout` and `getJournal`.
unfoldable pub get_wtimeout : WriteConcern → Zval
get_wtimeout wc = Zval.long wc.wtimeout

unfoldable pub get_journal : WriteConcern → Zval
get_journal wc = elim wc.journal [ none ↦ Zval.null | some b ↦ Zval.bool b ]

-- `php_phongo_write_concern_to_zval`.
unfoldable pub w_to_zval : W → Table
w_to_zval (tag s) = entry (name (codes "w")) (Zval.string s) empty
w_to_zval majority = entry (name (codes "w")) (Zval.string (codes "majority")) empty
w_to_zval (servers w) = entry (name (codes "w")) (Zval.long w) empty
w_to_zval default = empty

unfoldable pub write_concern_to_zval : WriteConcern → Table
unfolding w_to_zval update
write_concern_to_zval wc =
    let journaled : Table = elim wc.journal [
      | none ↦ w_to_zval wc.w
      | some b ↦ update (w_to_zval wc.w) (name (codes "j")) (Zval.bool b)
    ] in
    if wc.wtimeout ==ℤ pos 0
    then journaled
    else update journaled (name (codes "wtimeout")) (Zval.long wc.wtimeout)
