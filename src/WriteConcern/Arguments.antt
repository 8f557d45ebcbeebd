-- ===== src/WriteConcern/Arguments.antt =====
-- src/MongoDB/WriteConcern.c: what the constructor makes of its arguments, and what the getters show.
use mathlib.Core.Bool.{false≢true}
use mathlib.Core.Bool.{false≢true}
use native.Mathlib.Nat.{mod-eq_of_lt}
use dotdeb_php_mongodb.Prelude.{
  subst, ◌%◌, ◌<◌, ℤ, pos, negsuc, ◌==ℤ◌, ltb_ℤ, int32_max, Bytes, codes, bytes_eq, eq_of_bytes_eq,
  c_string, Bool, true, false, ◌&&◌, not, [], Option, none, some, if◌then◌else◌, ◌≡◌, refl, arith,
  Bool-cases, inl, inr, subst,
}
use dotdeb_php_mongodb.Php.{Zval, Env}
use dotdeb_php_mongodb.WriteConcern.{
  WriteConcern, default, majority, servers, new_concern, to_int32, set_w, Constructed, object,
  aborted, set_timeout, set_journal, set_others, get_w, get_wtimeout, get_journal,
  construct_write_concern, set_wtag,
}

-- A `w` that is a number from -3 to the largest 32-bit integer, or a text.
abbrev pub is_accepted : Zval → Bool
is_accepted (Zval.long v) = not (ltb_ℤ v (negsuc 2)) && not (ltb_ℤ int32_max v)
is_accepted (Zval.string s) = true
is_accepted _ = false

-- What `getW` is to show for it.
abbrev pub shown_w : Zval → Zval
shown_w (Zval.long v) =
    if v ==ℤ negsuc 2
    then Zval.string (codes "majority")
    else if v ==ℤ negsuc 1
    then Zval.null
    else Zval.long v
shown_w (Zval.string s) = Zval.string (c_string s)
shown_w _ = Zval.null

-- What `getJournal` is to show.
abbrev pub shown_journal : Env → Option Zval → Zval
shown_journal env none = Zval.null
shown_journal env (some Zval.null) = Zval.null
shown_journal env (some z) = Zval.bool (env.zval_to_bool z)

-- An object with no exception, and what its getters show.
abbrev pub Shows : Zval → Zval → Zval → Constructed → Type 0
Shows w timeout journal (object wc faults) =
    (faults ≡ []) × ((get_w wc ≡ w) × ((get_wtimeout wc ≡ timeout) × (get_journal wc ≡ journal)))
Shows w timeout journal aborted = ⊥

to_int32-small : (v : ℤ) → is_accepted (Zval.long v) ≡ true → to_int32 v ≡ v
unfolding to_int32
to_int32-small (pos n) h =
    let small : n < 2147483648 = ground arith in
    let whole : n % 4294967296 ≡ n = mod-eq_of_lt (omega (arith, small)) in
    rw whole (ground (arith, small))
to_int32-small (negsuc n) h =
    let small : n < 3 = ground arith in
    let whole : n % 4294967296 ≡ n = mod-eq_of_lt (omega (arith, small)) in
    rw whole (ground (arith, small))

set_timeout-Shows :
    (wc : WriteConcern) (t : ℤ)
    → ltb_ℤ t (pos 0) ≡ false
    → ltb_ℤ int32_max t ≡ false
    → Shows (get_w wc) (Zval.long t) (get_journal wc) (set_timeout wc t)
unfolding set_timeout get_w get_wtimeout get_journal
set_timeout-Shows wc t h i = rw (set_timeout, h, i) (refl, (refl, (refl, refl)))

set_journal-w :
    (env : Env) (j : Option Zval) (wc : WriteConcern) → get_w (set_journal env j wc) ≡ get_w wc
unfolding set_journal get_w
set_journal-w env none wc = refl
set_journal-w env (some Zval.null) wc = refl
set_journal-w env (some z) wc = refl

set_journal-shown :
    (env : Env) (j : Option Zval) (wc : WriteConcern)
    → wc.journal ≡ none
    → get_journal (set_journal env j wc) ≡ shown_journal env j
unfolding set_journal get_journal
set_journal-shown env none wc h = rw h refl
set_journal-shown env (some Zval.null) wc h = rw h refl
set_journal-shown env (some z) wc h = refl

-- With a timeout that fits, the other arguments are shown as they are.
set_others-Shows :
    (env : Env) (j : Option Zval) (t : ℤ) (wc : WriteConcern)
    → wc.journal ≡ none
    → ltb_ℤ t (pos 0) ≡ false
    → ltb_ℤ int32_max t ≡ false
    → Shows (get_w wc) (Zval.long t) (shown_journal env j) (set_others env (some (t, j)) (some wc))
unfolding set_others
set_others-Shows env j t wc h low high =
    rw⁻¹ (set_journal-w env j wc, set_journal-shown env j wc h)
      (set_timeout-Shows (set_journal env j wc) t low high)

-- A number that is accepted becomes the `w` that shows it.
set_w-Shown :
    (v : ℤ)
    → is_accepted (Zval.long v) ≡ true
    → (wc : WriteConcern) × ((set_w v new_concern ≡ some wc)
        × ((wc.journal ≡ none) × (get_w wc ≡ shown_w (Zval.long v))))
unfolding set_w get_w
set_w-Shown v h = elim (Bool-cases (v ==ℤ negsuc 2)) [
  | inl e ↦ (record new_concern { w = majority }, (ground arith, (refl, rw e refl)))
  | inr e ↦ elim (Bool-cases (v ==ℤ negsuc 1)) [
    | inl d ↦ (record new_concern { w = default }, (ground arith, (refl, rw (e, d) refl)))
    | inr d ↦ (record new_concern { w = servers v }, (ground arith, (refl, rw (e, d) refl)))
  ]
]

long-Shows :
    (env : Env) (v : ℤ) (j : Option Zval) (t : ℤ)
    → is_accepted (Zval.long v) ≡ true
    → ltb_ℤ v (negsuc 2) ≡ false
    → ltb_ℤ t (pos 0) ≡ false
    → ltb_ℤ int32_max t ≡ false
    → Shows
        (shown_w (Zval.long v))
        (Zval.long t)
        (shown_journal env j)
        (construct_write_concern env (Zval.long v) (some (t, j)))
unfolding construct_write_concern
long-Shows env v j t h above low high =
    let made = set_w-Shown v h in
    rw (construct_write_concern, above, to_int32-small v h, made.1.0)
      (subst
        (λ z.
          Shows z (Zval.long t) (shown_journal env j) (set_others env (some (t, j)) (some made.0)))
        made.1.1.1 (set_others-Shows env j t made.0 made.1.1.0 low high))

string-Shows :
    (env : Env) (s : Bytes) (j : Option Zval) (t : ℤ)
    → ltb_ℤ t (pos 0) ≡ false
    → ltb_ℤ int32_max t ≡ false
    → Shows
        (shown_w (Zval.string s))
        (Zval.long t)
        (shown_journal env j)
        (construct_write_concern env (Zval.string s) (some (t, j)))
unfolding construct_write_concern get_w
string-Shows env s j t low high = elim (Bool-cases (bytes_eq (c_string s) (codes "majority"))) [
  | inl e ↦
      rw (construct_write_concern, e, eq_of_bytes_eq (c_string s) (codes "majority") e)
        (set_others-Shows env j t (record new_concern { w = majority }) refl low high)
  | inr e ↦
      rw (construct_write_concern, e)
        (set_others-Shows env j t (set_wtag (c_string s) new_concern) refl low high)
]

-- A write concern that is made with a text, or a number from -3 to the largest 32-bit integer, a
-- timeout from 0 to that integer and a journal, makes no exception, and its getters show the
-- arguments: `w` as it is, up to a NUL byte of a text, with "majority" for -3 and null for -2; the
-- timeout; and the journal as a Boolean, or null.
pub construct_write_concern-Shows :
    (env : Env) (w : Zval) (t : ℤ) (j : Option Zval)
    → is_accepted w ≡ true
    → ltb_ℤ t (pos 0) ≡ false
    → ltb_ℤ int32_max t ≡ false
    → Shows
        (shown_w w)
        (Zval.long t)
        (shown_journal env j)
        (construct_write_concern env w (some (t, j)))
construct_write_concern-Shows env (Zval.long v) t j h low high =
    long-Shows env v j t h (ground arith) low high
construct_write_concern-Shows env (Zval.string s) t j h low high = string-Shows env s j t low high
construct_write_concern-Shows env _ t j h low high = absurd (false≢true h)
