-- ===== src/UtcDateTime/Dates.antt =====
-- src/BSON/UTCDateTime.c: to a DateTime and back.
use dotdeb_php_mongodb.Prelude.{
  ◌+◌, ◌*◌, ℤ, pos, negsuc, pos_part, neg_part, sub_ℕ, ◌≤ℤ◌, ◌==ℤ◌, eq_of_==ℤ, int64_min, int64_max,
  Bool, true, all_below, all_below-at, none, ◌∷◌, ◌≡◌, refl, ap, ◌∙◌, arith, ◌≤◌, ◌-◌, suc, ◌<◌, ℕ,
}
use dotdeb_php_mongodb.Double.{Double, divide, from_int}
use dotdeb_php_mongodb.UtcDateTime.{
  utcdatetime_init, UtcDateTime, Engine, quotient, remainder, from_parts, to_i64, microseconds,
  fraction, init_from_date, to_date_time,
}

-- An integer times 1000.
abbrev pub thousandfold : ℤ → ℤ
thousandfold v = sub_ℕ (pos_part v * 1000) (neg_part v * 1000)

abbrev pub Small : ℤ → Type 0
Small v = (negsuc 998 ≤ℤ v) × (v ≤ℤ pos 999)

remainder-Small : (v : ℤ) → Small (remainder v)
remainder-Small (pos n) = ground arith
remainder-Small (negsuc n) = ground arith

quotient-thousandfold : (v : ℤ) → quotient (thousandfold v) ≡ v
quotient-thousandfold (pos n) = ground arith
quotient-thousandfold (negsuc n) = ground arith

to_i64-in_range : (v : ℤ) → int64_min ≤ℤ v → v ≤ℤ int64_max → to_i64 v ≡ v
to_i64-in_range (pos n) h g = ground arith
to_i64-in_range (negsuc n) h g = ground arith

parts_sum :
    (v : ℤ)
    → sub_ℕ
        (pos_part (quotient v) * 1000 + pos_part (remainder v))
        (neg_part (quotient v) * 1000 + neg_part (remainder v))
      ≡ v
parts_sum (pos n) = ground arith
parts_sum (negsuc n) = ground arith

from_parts-quotient :
    (v : ℤ)
    → int64_min ≤ℤ v
    → v ≤ℤ int64_max
    → from_parts (quotient v) (thousandfold (remainder v)) ≡ v
from_parts-quotient v h g =
    ap
      (λ u. to_i64 (
        sub_ℕ (pos_part (quotient v) * 1000 + pos_part u)
          (neg_part (quotient v) * 1000 + neg_part u)))
      (quotient-thousandfold (remainder v))
    ∙ ap to_i64 (parts_sum v)
    ∙ to_i64-in_range v h g

-- Whether a number of milliseconds is read back from the double that holds it as a fraction.
abbrev is_exact : ℤ → Bool
is_exact v = microseconds (fraction v) ==ℤ thousandfold v

below_0 : all_below (λ n. is_exact (negsuc n)) 999 ≡ true
below_0 = refl

from_0 : all_below (λ n. is_exact (pos n)) 1000 ≡ true
from_0 = refl

-- Computed for each number of milliseconds below a second, before the epoch and after.
microseconds-fraction : (v : ℤ) → Small v → microseconds (fraction v) ≡ thousandfold v
microseconds-fraction (pos n) h =
    eq_of_==ℤ _ _ (all_below-at (λ n. is_exact (pos n)) n 1000 (omega arith) from_0)
microseconds-fraction (negsuc n) h =
    eq_of_==ℤ _ _ (all_below-at (λ n. is_exact (negsuc n)) n 999 (omega arith) below_0)

pub init_from_date-to_date_time :
    (engine : Engine)
    → ((v : ℤ) → engine.date_initialize (b'@' ∷ engine.print_i64 v) ≡ v)
    → (x : UtcDateTime) → int64_min ≤ℤ x.milliseconds
    → x.milliseconds ≤ℤ int64_max
    → init_from_date (to_date_time engine x)
      ≡ (record { initialized = true; milliseconds = x.milliseconds }, none)
unfolding init_from_date to_date_time
init_from_date-to_date_time engine dates x h g =
    ap (λ v. (record { initialized = true; milliseconds = v }, none))
      (ap (λ s. from_parts s (microseconds (fraction (remainder x.milliseconds))))
          (dates (quotient x.milliseconds))
        ∙ ap (from_parts (quotient x.milliseconds))
            (microseconds-fraction (remainder x.milliseconds) (remainder-Small x.milliseconds))
        ∙ from_parts-quotient x.milliseconds h g)

-- So many fifths of a microsecond before the end of so many milliseconds, as a double in seconds.
abbrev pub fifths_before : ℕ → ℕ → Double
fifths_before fifths n = divide (from_int (pos (5000 * n - fifths))) (from_int (pos 5000000))

abbrev rounds_to : ℕ → ℕ → ℕ → Bool
rounds_to fifths less n = microseconds (fifths_before fifths (suc n)) ==ℤ pos (1000 * suc n - less)

rounded_up : all_below (rounds_to 2 0) 1000 ≡ true
rounded_up = refl

rounded_down : all_below (rounds_to 3 1) 1000 ≡ true
rounded_down = refl

microseconds-before :
    (fifths less n : ℕ)
    → all_below (rounds_to fifths less) 1000 ≡ true
    → n < 1000
    → microseconds (fifths_before fifths (suc n)) ≡ pos (1000 * suc n - less)
microseconds-before fifths less n computed h =
    eq_of_==ℤ _ _ (all_below-at (rounds_to fifths less) n 1000 h computed)

whole_milliseconds :
    (s n : ℕ)
    → s * 1000 + suc n ≤ 9223372036854775807
    → from_parts (pos s) (pos (1000 * suc n - 0)) ≡ pos (s * 1000 + suc n)
whole_milliseconds s n h = ground arith

one_less :
    (s n : ℕ)
    → s * 1000 + suc n ≤ 9223372036854775807
    → from_parts (pos s) (pos (1000 * suc n - 1)) ≡ pos (s * 1000 + n)
one_less s n h = ground arith

-- Two fifths of a microsecond before a millisecond count as the millisecond, three do not.
pub init_from_date-rounds :
    (s n : ℕ)
    → n < 1000
    → s * 1000 + suc n ≤ 9223372036854775807
    → (init_from_date (record { sse = pos s; f = fifths_before 2 (suc n) })
        ≡ (record { initialized = true; milliseconds = pos (s * 1000 + suc n) }, none))
      × (init_from_date (record { sse = pos s; f = fifths_before 3 (suc n) })
          ≡ (record { initialized = true; milliseconds = pos (s * 1000 + n) }, none))
unfolding init_from_date
init_from_date-rounds s n h g = (
  ap (λ u. utcdatetime_init (from_parts (pos s) u)) (microseconds-before 2 0 n rounded_up h)
      ∙ ap utcdatetime_init (whole_milliseconds s n g),
  ap (λ u. utcdatetime_init (from_parts (pos s) u)) (microseconds-before 3 1 n rounded_down h)
      ∙ ap utcdatetime_init (one_less s n g),
)
