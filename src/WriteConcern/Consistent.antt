-- ===== src/WriteConcern/Consistent.antt =====
-- php_phongo.c, `php_phongo_apply_wc_options_to_uri`: write concerns that pass are consistent.
use dotdeb_php_mongodb.Prelude.{
  ℤ, pos, ◌==ℤ◌, codes, Bool, true, false, ◌&&◌, ◌||◌, not, Option, none, some, if◌then◌else◌, ◌≡◌,
  refl, arith, inl, inr, ◌⊎◌, negsuc, leb, ◌==◌, ltb_ℤ, Bool-cases, subst,
}
use dotdeb_php_mongodb.Errors.{Fault, is_pending}
use dotdeb_php_mongodb.Bson.{Bson, Doc}
use dotdeb_php_mongodb.Uri.{find_case, Setting, kept, set, failed}
use dotdeb_php_mongodb.ReadPreference.{is_empty}
use dotdeb_php_mongodb.WriteConcern.{WriteConcern, W, default, majority, servers, tag}
use dotdeb_php_mongodb.WriteConcern.Uri.{
  takes_timeout, clear_timeout, is_unacknowledged, is_journaled, check_concern, finish_concern,
  apply_wc_options, set_w_option, before_w, timeout_of, has_wc_options,
}

-- Whether a write waits for servers, so that a timeout applies: for two or more, for a majority, or
-- for those with a tag.
abbrev pub waits : W → Bool
waits (servers (pos n)) = leb 2 n
waits (servers (negsuc n)) = false
waits majority = true
waits (tag s) = true
waits default = false

-- Whether nothing acknowledges a write: w is 0 or -1.
abbrev pub is_silent : W → Bool
is_silent (servers (pos n)) = n == 0
is_silent (servers (negsuc n)) = n == 0
is_silent _ = false

abbrev pub asks_journal : Option Bool → Bool
asks_journal (some true) = true
asks_journal _ = false

abbrev pub number_or : ℤ → Option Bson → ℤ
number_or n (some (Bson.int32 v)) = v
number_or n _ = n

-- The timeout that is asked for: the option's if that is an int32, or else the one that was there.
abbrev pub wanted_timeout : Option WriteConcern → Doc → ℤ
wanted_timeout none options = pos 0
wanted_timeout (some old) options = number_or old.wtimeout (find_case (codes "wtimeoutms") options)

-- A write that waits has the timeout that is asked for, unless that is negative, and any other has
-- none; and a journal is asked for only with an acknowledgement.
abbrev pub is_settled : ℤ → WriteConcern → Bool
is_settled timeout wc =
    (if waits wc.w
      then ltb_ℤ timeout (pos 0) || (wc.wtimeout ==ℤ timeout)
      else wc.wtimeout ==ℤ pos 0)
    && not (asks_journal wc.journal && is_silent wc.w)

-- What is set passes a test, and a failure has thrown.
abbrev pub Sets : (WriteConcern → Bool) → Setting WriteConcern → Type 0
Sets test kept = Unit
Sets test (set wc) = test wc ≡ true
Sets test (failed faults) = is_pending faults ≡ true

takes_timeout-waits : (w : W) → takes_timeout w ≡ waits w
unfolding takes_timeout
takes_timeout-waits (servers (pos n)) = ground arith
takes_timeout-waits (servers (negsuc n)) = ground arith
takes_timeout-waits majority = refl
takes_timeout-waits (tag s) = refl
takes_timeout-waits default = refl

is_unacknowledged-silent : (w : W) → is_unacknowledged w ≡ is_silent w
unfolding is_unacknowledged
is_unacknowledged-silent (servers (pos n)) = ground arith
is_unacknowledged-silent (servers (negsuc n)) = ground arith
is_unacknowledged-silent majority = refl
is_unacknowledged-silent (tag s) = refl
is_unacknowledged-silent default = refl

is_journaled-asks : (o : Option Bool) → is_journaled o ≡ asks_journal o
is_journaled-asks none = refl
is_journaled-asks (some true) = refl
is_journaled-asks (some false) = refl

-- The timeout of a write concern is as it should be.
abbrev has_timeout : ℤ → WriteConcern → Bool
has_timeout timeout wc =
    if waits wc.w then ltb_ℤ timeout (pos 0) || (wc.wtimeout ==ℤ timeout) else wc.wtimeout ==ℤ pos 0

same_timeout : (t : ℤ) → (t ==ℤ t) ≡ true
same_timeout t = ground arith

clear_timeout-has :
    (timeout : ℤ) (wc : WriteConcern) → has_timeout timeout (clear_timeout timeout wc) ≡ true
unfolding clear_timeout
clear_timeout-has timeout wc = elim (Bool-cases (waits wc.w)) [
  | inl e ↦ elim (Bool-cases (ltb_ℤ timeout (pos 0))) [
    | inl n ↦ rw (clear_timeout, takes_timeout-waits, e, n) (rw e refl)
    | inr n ↦ rw (clear_timeout, takes_timeout-waits, e, n) (rw e (same_timeout timeout))
  ]
  | inr e ↦ rw (clear_timeout, takes_timeout-waits, e) (rw e refl)
]

check_concern-settled :
    (is_valid : WriteConcern → Bool) (timeout : ℤ) (wc : WriteConcern)
    → has_timeout timeout wc ≡ true
    → Sets (λ wc. is_settled timeout wc && is_valid wc) (check_concern is_valid wc)
unfolding check_concern
check_concern-settled is_valid timeout wc h =
    elim (Bool-cases (asks_journal wc.journal && is_silent wc.w)) [
      | inl j ↦ rw (check_concern, is_journaled-asks, is_unacknowledged-silent, j) refl
      | inr j ↦ elim (Bool-cases (is_valid wc)) [
        | inl v ↦
            rw (check_concern, is_journaled-asks, is_unacknowledged-silent, j, v)
              (rw (h, j, v) refl)
        | inr v ↦ rw (check_concern, is_journaled-asks, is_unacknowledged-silent, j, v) refl
      ]
    ]

finish_concern-settled :
    (is_valid : WriteConcern → Bool) (timeout : ℤ) (a : WriteConcern ⊎ Fault)
    → Sets (λ wc. is_settled timeout wc && is_valid wc) (finish_concern is_valid timeout a)
unfolding finish_concern
finish_concern-settled is_valid timeout (inl wc) =
    check_concern-settled is_valid timeout (clear_timeout timeout wc) (clear_timeout-has timeout wc)
finish_concern-settled is_valid timeout (inr fault) = refl

choice-Sets :
    (test : WriteConcern → Bool) (b : Bool) (s : Setting WriteConcern)
    → Sets test s
    → Sets test (if b then kept else s)
choice-Sets test true s h = tt
choice-Sets test false s h = h

timeout_of-number : (n : ℤ) (o : Option Bson) → timeout_of n o ≡ number_or n o
unfolding timeout_of
timeout_of-number n (some (Bson.int32 v)) = refl
timeout_of-number n _ = refl

-- Whatever the options of a Manager are, and whatever write concern its URI has: that is kept, or
-- the call throws, or the URI gets a write concern that libmongoc takes; whose timeout, if the write
-- waits for a majority, a tag or more than one server, is the one that the options or else the URI
-- ask for, unless this is negative, and is 0 if the write does not wait; and which asks for no
-- journal where w is 0 or -1.
pub apply_wc_options-settled :
    (is_valid : WriteConcern → Bool) (old : Option WriteConcern) (options : Doc)
    → Sets
        (λ wc. is_settled (wanted_timeout old options) wc && is_valid wc)
        (apply_wc_options is_valid old options)
unfolding apply_wc_options
apply_wc_options-settled is_valid none options = refl
apply_wc_options-settled is_valid (some old) options =
    let timeout = timeout_of old.wtimeout (find_case (codes "wtimeoutms") options) in
    subst
      (λ t.
        Sets (λ wc. is_settled t wc && is_valid wc) (apply_wc_options is_valid (some old) options))
      (timeout_of-number old.wtimeout (find_case (codes "wtimeoutms") options))
      (choice-Sets (λ wc. is_settled timeout wc && is_valid wc)
        (is_empty options || not (has_wc_options options)) _
        (finish_concern-settled is_valid timeout
          (set_w_option timeout (before_w options old) (find_case (codes "w") options))))
