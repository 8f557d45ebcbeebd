-- ===== src/WriteConcern/Aborting.antt =====
-- src/MongoDB/WriteConcern.c: a `w` that does not fit a 32-bit integer can end the process.
use dotdeb_php_mongodb.Prelude.{
  ℤ, negsuc, ltb_ℤ, codes, bytes_eq, c_string, Bool, true, false, ◌&&◌, not, Option, none, some,
  ◌≡◌, refl, ◌∙◌, arith, Bool-cases, inl, inr,
}
use dotdeb_php_mongodb.Php.{Zval, Env}
use dotdeb_php_mongodb.WriteConcern.{
  WriteConcern, new_concern, to_int32, set_w, Constructed, object, aborted, set_timeout,
  set_journal, set_others, set_wtag, construct_write_concern,
}

-- Whether the 32-bit integer that libmongoc gets is less than any that it takes.
abbrev pub wraps_below : Zval → Bool
wraps_below (Zval.long v) = not (ltb_ℤ v (negsuc 2)) && ltb_ℤ (to_int32 v) (negsuc 2)
wraps_below _ = false

abbrev pub is_aborted : Constructed → Bool
is_aborted (object wc faults) = false
is_aborted aborted = true

abbrev is_refused : Option WriteConcern → Bool
is_refused none = true
is_refused (some wc) = false

set_timeout-object : (wc : WriteConcern) (t : ℤ) → is_aborted (set_timeout wc t) ≡ false
unfolding set_timeout
set_timeout-object wc t = ground arith

set_others-aborted :
    (env : Env) (arguments : Option (ℤ × Option Zval)) (o : Option WriteConcern)
    → is_aborted (set_others env arguments o) ≡ is_refused o
unfolding set_others
set_others-aborted env arguments none = refl
set_others-aborted env none (some wc) = refl
set_others-aborted env (some (t, j)) (some wc) = set_timeout-object (set_journal env j wc) t

set_w-refused : (v : ℤ) (wc : WriteConcern) → is_refused (set_w v wc) ≡ ltb_ℤ v (negsuc 2)
unfolding set_w
set_w-refused v wc = ground arith

-- Making a write concern ends the process exactly if `w` is a number of at least -3 whose last 32
-- bits are less than -3 as an integer, whatever the other arguments are: 2147483648 is the first.
pub construct_write_concern-aborts :
    (env : Env) (w : Zval) (arguments : Option (ℤ × Option Zval))
    → is_aborted (construct_write_concern env w arguments) ≡ wraps_below w
unfolding construct_write_concern
construct_write_concern-aborts env (Zval.long v) arguments =
    elim (Bool-cases (ltb_ℤ v (negsuc 2))) [
      | inl e ↦ rw (construct_write_concern, e) refl
      | inr e ↦
          rw (construct_write_concern, e)
            (set_others-aborted env arguments (set_w (to_int32 v) new_concern)
              ∙ set_w-refused (to_int32 v) new_concern)
    ]
construct_write_concern-aborts env (Zval.string s) arguments =
    elim (Bool-cases (bytes_eq (c_string s) (codes "majority"))) [
      | inl e ↦
          rw (construct_write_concern, e)
            (set_others-aborted env arguments (set_w (negsuc 2) new_concern)
              ∙ set_w-refused (negsuc 2) new_concern)
      | inr e ↦
          rw (construct_write_concern, e)
            (set_others-aborted env arguments (some (set_wtag (c_string s) new_concern)))
    ]
construct_write_concern-aborts env _ arguments = refl
