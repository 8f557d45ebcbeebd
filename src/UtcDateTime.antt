-- ===== src/UtcDateTime.antt =====
-- src/BSON/UTCDateTime.c: a number of milliseconds since the epoch, a signed 64-bit integer.
--
-- The engine's functions are in `Engine`. A sum or product of `int64_t` wraps around, as the
-- compilers have it that the extension is built with; C leaves it undefined.
pub mod Dates
pub mod Remade
pub mod Tests
use dotdeb_php_mongodb.Prelude.{
  ℕ, ◌+◌, ◌-◌, ◌*◌, ◌/◌, ◌%◌, suc, ℤ, pos, negsuc, pos_part, neg_part, sub_ℕ, ltb_ℤ, ◌==ℤ◌, ltb,
  length, Bytes, codes, Bool, true, false, Option, none, some, ◌∷◌, if◌then◌else◌,
}
use dotdeb_php_mongodb.Errors.{Fault, invalid_argument, throw}
use dotdeb_php_mongodb.Php.{name, Zval, Table, empty, entry}
use dotdeb_php_mongodb.Php.Hash.{find}
use dotdeb_php_mongodb.Double.{Double, from_int, multiply, divide, add, half, floor}

-- `php_phongo_utcdatetime_t`.
pub record UtcDateTime : Type 0 where
  pub initialized : Bool
  pub milliseconds : ℤ

-- What the extension reads and writes of a `php_date_obj`: `time->sse`, the seconds since the epoch,
-- and `time->f`, a fraction of a second.
pub record DateTime : Type 0 where
  pub sse : ℤ
  pub f : Double

-- `strtoll` is `bson_ascii_strtoll` where it takes the whole text and leaves `errno` alone;
-- `print_i64` and `print_double` are `snprintf` with the formats of an `int64_t` and, for the double
-- rounded towards 0, with `%.0f`; `time_of_day` is what `gettimeofday` sets. `date_of` is the date
-- of an instance of DateTimeInterface; `date_initialize` the seconds that `php_date_initialize` gets
-- from a text.
pub record Engine : Type 0 where
  pub strtoll : Bytes → Option ℤ
  pub print_i64 : ℤ → Bytes
  pub print_double : ℕ → Bytes
  pub time_of_day : ℤ × ℤ
  pub date_of : Zval → Option DateTime
  pub date_initialize : Bytes → ℤ

-- An integer as `int64_t` holds it.
abbrev pub to_i64 : ℤ → ℤ
to_i64 (pos n) =
    let m = n % 18446744073709551616 in
    if ltb m 9223372036854775808 then pos m else negsuc (18446744073709551615 - m)
to_i64 (negsuc n) =
    let m = n % 18446744073709551616 in
    if ltb m 9223372036854775808 then negsuc m else pos (18446744073709551615 - m)

-- `/` and `%` of C by 1000, which round towards 0.
abbrev pub quotient : ℤ → ℤ
quotient (pos n) = pos (n / 1000)
quotient (negsuc n) = sub_ℕ 0 (suc n / 1000)

abbrev pub remainder : ℤ → ℤ
remainder (pos n) = pos (n % 1000)
remainder (negsuc n) = sub_ℕ 0 (suc n % 1000)

-- `(sec * 1000) + (usec / 1000)`.
abbrev pub from_parts : ℤ → ℤ → ℤ
from_parts sec usec = to_i64 (
    sub_ℕ (pos_part sec * 1000 + pos_part (quotient usec))
      (neg_part sec * 1000 + neg_part (quotient usec)))

-- `(int64_t) floor (f * 1000000 + 0.5)`.
abbrev pub microseconds : Double → ℤ
microseconds f = floor (add (multiply f (from_int (pos 1000000))) half)

-- `(double) n / 1000`.
abbrev pub fraction : ℤ → Double
fraction n = divide (from_int n) (from_int (pos 1000))

-- `php_phongo_utcdatetime_init`.
abbrev pub utcdatetime_init : ℤ → UtcDateTime × Option Fault
utcdatetime_init milliseconds = (record { initialized = true; milliseconds = milliseconds }, none)

-- `php_phongo_utcdatetime_init_from_string`: the object after the call, and the exception if it
-- failed.
unfoldable pub init_from_number :
    (Bytes → Option ℤ) → UtcDateTime → Bytes → UtcDateTime × Option Fault
init_from_number strtoll intern s = elim (strtoll s) [
  | none ↦ (
    intern,
    some (throw invalid_argument "Error parsing \"%s\" as 64-bit integer for %s initialization"),
  )
  | some milliseconds ↦ utcdatetime_init milliseconds
]

-- The one field of a table, at the types that `php_phongo_utcdatetime_init_from_hash` asks for.
unfoldable pub init_from_field :
    (Bytes → Option ℤ) → UtcDateTime → Option Zval → UtcDateTime × Option Fault
unfolding init_from_number
init_from_field strtoll intern (some (Zval.long v)) = utcdatetime_init v
init_from_field strtoll intern (some (Zval.string s)) = init_from_number strtoll intern s
init_from_field strtoll intern _ = (
  intern,
  some (
      throw invalid_argument
        "%s initialization requires \"milliseconds\" integer or numeric string field"),
)

-- `php_phongo_utcdatetime_init_from_hash`, also behind `__set_state` and `unserialize`.
unfoldable pub utcdatetime_init_from_hash :
    (Bytes → Option ℤ) → UtcDateTime → Table → UtcDateTime × Option Fault
unfolding init_from_field
utcdatetime_init_from_hash strtoll intern props =
    init_from_field strtoll intern (find props (name (codes "milliseconds")))

-- `php_phongo_utcdatetime_init_from_current_time`.
abbrev pub init_from_current_time : Engine → UtcDateTime × Option Fault
init_from_current_time engine =
    utcdatetime_init (from_parts engine.time_of_day.0 engine.time_of_day.1)

-- `php_phongo_utcdatetime_init_from_date`.
unfoldable pub init_from_date : DateTime → UtcDateTime × Option Fault
init_from_date date = utcdatetime_init (from_parts date.sse (microseconds date.f))

-- What `UTCDateTime::__construct` does with an object.
unfoldable pub construct_from_object : UtcDateTime → Option DateTime → UtcDateTime × Option Fault
unfolding init_from_date
construct_from_object intern none =
    (intern, some (throw invalid_argument "Expected instance of DateTimeInterface, %s given"))
construct_from_object intern (some date) = init_from_date date

-- What `UTCDateTime::__construct` does with the text of a double, for which there are 24 bytes: a
-- longer text is cut off, and does not end at its length.
unfoldable pub construct_from_double : Engine → UtcDateTime → Bytes → UtcDateTime × Option Fault
unfolding init_from_number
construct_from_double engine intern tmp =
    if ltb (length tmp) 24 then init_from_number engine.strtoll intern tmp else (
      intern,
      some (throw invalid_argument "Error parsing \"%s\" as 64-bit integer for %s initialization"),
    )

-- `UTCDateTime::__construct`; `none` is no argument, or null.
unfoldable pub construct_utcdatetime :
    Engine → UtcDateTime → Option Zval → UtcDateTime × Option Fault
unfolding construct_from_object construct_from_double init_from_number
construct_utcdatetime engine intern none = init_from_current_time engine
construct_utcdatetime engine intern (some Zval.null) = init_from_current_time engine
construct_utcdatetime engine intern (some (Zval.object ce props r)) =
    construct_from_object intern (engine.date_of (Zval.object ce props r))
construct_utcdatetime engine intern (some (Zval.bson o)) =
    construct_from_object intern (engine.date_of (Zval.bson o))
construct_utcdatetime engine intern (some (Zval.long v)) = utcdatetime_init v
construct_utcdatetime engine intern (some (Zval.double d)) =
    construct_from_double engine intern (engine.print_double d)
construct_utcdatetime engine intern (some (Zval.string s)) =
    init_from_number engine.strtoll intern s
construct_utcdatetime engine intern (some _) =
    (intern, some (throw invalid_argument "Expected integer or string, %s given"))

-- `UTCDateTime::__toString`.
abbrev pub utcdatetime_to_string : Engine → UtcDateTime → Bytes
utcdatetime_to_string engine intern = engine.print_i64 intern.milliseconds

-- `UTCDateTime::toDateTime`.
unfoldable pub to_date_time : Engine → UtcDateTime → DateTime
to_date_time engine intern = record {
  sse = engine.date_initialize (b'@' ∷ engine.print_i64 (quotient intern.milliseconds));
  f = fraction (remainder intern.milliseconds);
}

-- `UTCDateTime::jsonSerialize`.
abbrev pub utcdatetime_json : Engine → UtcDateTime → Table
utcdatetime_json engine intern =
    entry (name (codes "$date"))
      (Zval.array (
        entry (name (codes "$numberLong")) (Zval.string (engine.print_i64 intern.milliseconds))
          empty))
      empty

-- `php_phongo_utcdatetime_get_properties` of an object that has been initialised, which is also the
-- array that `serialize` writes.
unfoldable pub utcdatetime_properties : Engine → UtcDateTime → Table
utcdatetime_properties engine intern =
    entry (name (codes "milliseconds")) (Zval.string (engine.print_i64 intern.milliseconds)) empty

-- `php_phongo_utcdatetime_compare_objects`.
unfoldable pub compare_utcdatetimes : UtcDateTime → UtcDateTime → ℤ
compare_utcdatetimes a b =
    if a.milliseconds ==ℤ b.milliseconds
    then pos 0
    else if ltb_ℤ a.milliseconds b.milliseconds
    then negsuc 0
    else pos 1
