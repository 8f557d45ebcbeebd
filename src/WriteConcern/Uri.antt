-- ===== src/WriteConcern/Uri.antt =====
-- php_phongo.c, `php_phongo_apply_wc_options_to_uri`.
use dotdeb_php_mongodb.Prelude.{
  ℤ, pos, negsuc, ◌==ℤ◌, ltb_ℤ, codes, case_eq, Bool, true, false, ◌&&◌, ◌||◌, not, [], ◌∷◌, Option,
  none, some, if◌then◌else◌, ◌⊎◌, inl, inr,
}
use dotdeb_php_mongodb.Errors.{Fault, invalid_argument, mongoc_failed, throw}
use dotdeb_php_mongodb.Bson.{Bson, Doc}
use dotdeb_php_mongodb.Uri.{find_case, Setting, kept, set, failed, is_given}
use dotdeb_php_mongodb.ReadPreference.{is_empty}
use dotdeb_php_mongodb.WriteConcern.{WriteConcern, W, default, majority, servers, tag, set_wtag}

-- `safe`: one server, or unacknowledged.
unfoldable pub set_safe : WriteConcern → Option Bson → WriteConcern
set_safe wc (some (Bson.bool b)) = record wc { w = servers (if b then pos 1 else pos 0) }
set_safe wc _ = wc

-- `wtimeoutms`, over the timeout that was there.
unfoldable pub timeout_of : ℤ → Option Bson → ℤ
timeout_of old (some (Bson.int32 v)) = v
timeout_of old _ = old

-- `journal`.
unfoldable pub set_journal_option : WriteConcern → Option Bson → WriteConcern
set_journal_option wc (some (Bson.bool b)) = record wc { journal = some b }
set_journal_option wc _ = wc

-- A number for `w`: errors ignored, unacknowledged, or more servers.
unfoldable pub set_w_number : WriteConcern → ℤ → WriteConcern ⊎ Fault
set_w_number wc value =
    if (value ==ℤ negsuc 0) || (value ==ℤ pos 0) || ltb_ℤ (pos 0) value
    then inl (record wc { w = servers value })
    else inr (throw invalid_argument "Unsupported w value: %d")

-- `mongoc_write_concern_set_wmajority`, which takes the timeout unless it is negative.
unfoldable pub set_wmajority : ℤ → WriteConcern → WriteConcern
set_wmajority timeout wc =
    if ltb_ℤ timeout (pos 0)
    then record wc { w = majority }
    else record wc { w = majority; wtimeout = timeout }

-- `w`.
unfoldable pub set_w_option : ℤ → WriteConcern → Option Bson → WriteConcern ⊎ Fault
unfolding set_w_number set_wmajority case_eq
set_w_option timeout wc (some (Bson.int32 value)) = set_w_number wc value
set_w_option timeout wc (some (Bson.utf8 str)) =
    if case_eq (codes "majority") str then inl (set_wmajority timeout wc) else inl (set_wtag str wc)
set_w_option timeout wc _ = inl wc

-- Whether a timeout applies: more than one server, a majority, or a tag.
unfoldable pub takes_timeout : W → Bool
takes_timeout (servers w) = ltb_ℤ (pos 1) w
takes_timeout majority = true
takes_timeout (tag s) = true
takes_timeout default = false

-- `mongoc_write_concern_set_wtimeout`, which ignores a negative timeout; one that does not apply is
-- cleared.
unfoldable pub clear_timeout : ℤ → WriteConcern → WriteConcern
unfolding takes_timeout
clear_timeout timeout wc =
    if takes_timeout wc.w
    then (if ltb_ℤ timeout (pos 0) then wc else record wc { wtimeout = timeout })
    else record wc { wtimeout = pos 0 }

-- `mongoc_write_concern_get_journal`, with a `w` that has no acknowledgement.
unfoldable pub is_unacknowledged : W → Bool
is_unacknowledged (servers w) = (w ==ℤ pos 0) || (w ==ℤ negsuc 0)
is_unacknowledged _ = false

abbrev pub is_journaled : Option Bool → Bool
is_journaled none = false
is_journaled (some b) = b

-- The end: a journal needs an acknowledgement, and libmongoc takes the write concern.
unfoldable pub check_concern : (WriteConcern → Bool) → WriteConcern → Setting WriteConcern
unfolding is_unacknowledged
check_concern is_valid wc =
    if is_journaled wc.journal && is_unacknowledged wc.w
    then failed (throw invalid_argument "Journal conflicts with w value: %d" ∷ [])
    else if is_valid wc
    then set wc
    else failed (throw invalid_argument "Write concern is not valid" ∷ [])

unfoldable pub finish_concern :
    (WriteConcern → Bool) → ℤ → WriteConcern ⊎ Fault → Setting WriteConcern
unfolding clear_timeout check_concern
finish_concern is_valid timeout (inl wc) = check_concern is_valid (clear_timeout timeout wc)
finish_concern is_valid timeout (inr fault) = failed (fault ∷ [])

-- Whether one of the options is there.
unfoldable pub has_wc_options : Doc → Bool
unfolding find_case
has_wc_options options =
    is_given (find_case (codes "journal") options)
    || is_given (find_case (codes "safe") options)
    || is_given (find_case (codes "w") options)
    || is_given (find_case (codes "wtimeoutms") options)

-- The new write concern before `w`: `safe`, then `journal`.
unfoldable pub before_w : Doc → WriteConcern → WriteConcern
unfolding find_case set_safe set_journal_option
before_w options old =
    set_journal_option (set_safe old (find_case (codes "safe") options))
      (find_case (codes "journal") options)

-- `php_phongo_apply_wc_options_to_uri`, with the write concern of the URI.
unfoldable pub apply_wc_options :
    (WriteConcern → Bool) → Option WriteConcern → Doc → Setting WriteConcern
unfolding has_wc_options before_w timeout_of set_w_option finish_concern
apply_wc_options is_valid none options =
    failed (throw mongoc_failed "mongoc_uri_t does not have a write concern" ∷ [])
apply_wc_options is_valid (some old) options =
    let timeout = timeout_of old.wtimeout (find_case (codes "wtimeoutms") options) in
    if is_empty options || not (has_wc_options options)
    then kept
    else finish_concern is_valid timeout
        (set_w_option timeout (before_w options old) (find_case (codes "w") options))
