-- ===== src/UtcDateTime/Tests.antt =====
-- An instance of the theorem on UTCDateTime.
use dotdeb_php_mongodb.Prelude.{
  int64_min, int64_max, ◌≤ℤ◌, ℤ, pos, negsuc, Bytes, true, false, Option, none, some, [], ◌∷◌, ◌≡◌,
  refl, arith,
}
use dotdeb_php_mongodb.Php.{Zval, empty, returned}
use dotdeb_php_mongodb.Samples.{user_class}
use dotdeb_php_mongodb.UtcDateTime.{
  init_from_date, UtcDateTime, Engine, fraction, to_date_time, construct_utcdatetime,
  utcdatetime_to_string, utcdatetime_init_from_hash, utcdatetime_properties,
}
use dotdeb_php_mongodb.UtcDateTime.Dates.{fifths_before}
use dotdeb_php_mongodb.UtcDateTime.Remade.{IsExact, construct_utcdatetime-remade}

-- A notation with one digit, after a sign for the numbers below 0.
abbrev write_signed : ℤ → Bytes
write_signed (pos n) = n ∷ []
write_signed (negsuc n) = b'-' ∷ n ∷ []

abbrev read_signed : Bytes → Option ℤ
read_signed (n ∷ []) = some (pos n)
read_signed (c ∷ n ∷ []) = some (negsuc n)
read_signed _ = none

abbrev read_date : Bytes → ℤ
read_date (c ∷ n ∷ []) = pos n
read_date (c ∷ d ∷ n ∷ []) = negsuc n
read_date _ = pos 0

abbrev engine : Engine
engine = record {
  strtoll = read_signed;
  print_i64 = write_signed;
  print_double = λ d. d ∷ [];
  time_of_day = (pos 5, pos 0);
  date_of = λ z. some (record { sse = negsuc 0; f = fraction (negsuc 499) });
  date_initialize = read_date;
}

dates : (v : ℤ) → read_date (b'@' ∷ write_signed v) ≡ v
dates (pos n) = refl
dates (negsuc n) = refl

numbers : (v : ℤ) → int64_min ≤ℤ v → v ≤ℤ int64_max → read_signed (write_signed v) ≡ some v
numbers (pos n) h g = refl
numbers (negsuc n) h g = refl

-- One and a half seconds before 1970.
abbrev moment : UtcDateTime
moment = record { initialized = true; milliseconds = negsuc 1499 }

abbrev fresh : UtcDateTime
fresh = record { initialized = false; milliseconds = pos 0 }

exact : IsExact engine
exact = record { dates = dates; numbers = numbers }

construct_utcdatetime-remade_example :
    (construct_utcdatetime engine fresh (some (Zval.object user_class empty (returned Zval.null)))
      ≡ (moment, none))
    × ((construct_utcdatetime engine fresh
            (some (Zval.string (utcdatetime_to_string engine moment)))
          ≡ (moment, none))
        × ((utcdatetime_init_from_hash engine.strtoll fresh (utcdatetime_properties engine moment)
              ≡ (moment, none))
            × ((init_from_date (record { sse = pos 7; f = fifths_before 2 1 })
                  ≡ (record { initialized = true; milliseconds = pos 7001 }, none))
                × (init_from_date (record { sse = pos 7; f = fifths_before 3 1 })
                    ≡ (record { initialized = true; milliseconds = pos 7000 }, none)))))
unfolding to_date_time
construct_utcdatetime-remade_example =
    construct_utcdatetime-remade engine exact fresh moment
      (record { is_initialized = refl; not_below = omega arith; not_above = omega arith })
      user_class empty (returned Zval.null) refl 7 0 (omega arith) (omega arith)
