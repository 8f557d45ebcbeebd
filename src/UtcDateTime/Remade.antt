-- ===== src/UtcDateTime/Remade.antt =====
-- src/BSON/UTCDateTime.c: through a DateTime, through the text, and through the properties.
use dotdeb_php_mongodb.Prelude.{
  ℤ, ◌≤ℤ◌, int64_min, int64_max, bytes_eq, true, none, some, ◌∷◌, ◌≡◌, refl, ap, sym, ◌∙◌, ℕ, suc,
  ◌+◌, ◌*◌, ◌≤◌, ◌<◌, pos,
}
use dotdeb_php_mongodb.Php.{Zval, Table, ClassEntry, Returned}
use dotdeb_php_mongodb.Php.Hash.{find, key_eq}
use dotdeb_php_mongodb.UtcDateTime.{
  init_from_date, UtcDateTime, Engine, utcdatetime_init, init_from_number, init_from_field,
  to_date_time, utcdatetime_init_from_hash, construct_utcdatetime, construct_from_object,
  utcdatetime_to_string, utcdatetime_properties,
}
use dotdeb_php_mongodb.UtcDateTime.Dates.{
  fifths_before, init_from_date-rounds, init_from_date-to_date_time,
}

-- What is asked of the engine: a text "@n" gives a date n seconds after the epoch, and `strtoll`
-- reads back what is printed of a 64-bit integer.
pub record IsExact (engine : Engine) : Type 0 where
  pub dates : (v : ℤ) → engine.date_initialize (b'@' ∷ engine.print_i64 v) ≡ v
  pub numbers :
      (v : ℤ) → int64_min ≤ℤ v → v ≤ℤ int64_max → engine.strtoll (engine.print_i64 v) ≡ some v

-- An object that has been initialised with a 64-bit integer.
pub record IsMoment (x : UtcDateTime) : Type 0 where
  pub is_initialized : x.initialized ≡ true
  pub not_below : int64_min ≤ℤ x.milliseconds
  pub not_above : x.milliseconds ≤ℤ int64_max

whole : (x : UtcDateTime) → IsMoment x → utcdatetime_init x.milliseconds ≡ (x, none)
whole x h =
    ap (λ b. (record { initialized = b; milliseconds = x.milliseconds }, none))
      (sym h.is_initialized)

init_from_number-print :
    (engine : Engine) (s x : UtcDateTime)
    → IsExact engine
    → IsMoment x
    → init_from_number engine.strtoll s (engine.print_i64 x.milliseconds) ≡ (x, none)
unfolding init_from_number
init_from_number-print engine s x exact h =
    rw (init_from_number, exact.numbers x.milliseconds h.not_below h.not_above) (whole x h)

from_properties :
    (engine : Engine) (s x : UtcDateTime)
    → utcdatetime_init_from_hash engine.strtoll s (utcdatetime_properties engine x)
      ≡ init_from_number engine.strtoll s (engine.print_i64 x.milliseconds)
unfolding utcdatetime_init_from_hash utcdatetime_properties find key_eq bytes_eq init_from_field
from_properties engine s x = refl

-- A UTCDateTime that has been initialised with a 64-bit integer, before 1970 or after, is made
-- again, as it is, by `__construct` from the DateTime of `toDateTime` and from the text of
-- `__toString`, and from its properties; and of a date from 1970 on whose milliseconds fit into 64
-- bits, a fraction two fifths of a microsecond before a millisecond counts as that millisecond, and
-- one three fifths before it does not. Of the engine it is asked that a
-- text "@n" gives a date n seconds after the epoch, that `strtoll` reads back what is printed of a
-- 64-bit integer, and that the object given to `__construct` is the DateTime.
pub construct_utcdatetime-remade :
    (engine : Engine)
    → IsExact engine
    → (s x : UtcDateTime) → IsMoment x
    → (ce : ClassEntry) (props : Table) (r : Returned)
    → engine.date_of (Zval.object ce props r) ≡ some (to_date_time engine x)
    → (seconds n : ℕ) → n < 1000
    → seconds * 1000 + suc n ≤ 9223372036854775807
    → (construct_utcdatetime engine s (some (Zval.object ce props r)) ≡ (x, none))
      × ((construct_utcdatetime engine s (some (Zval.string (utcdatetime_to_string engine x)))
            ≡ (x, none))
          × ((utcdatetime_init_from_hash engine.strtoll s (utcdatetime_properties engine x)
                ≡ (x, none))
              × ((init_from_date (record { sse = pos seconds; f = fifths_before 2 (suc n) }) ≡ (
                record { initialized = true; milliseconds = pos (seconds * 1000 + suc n) },
                none,
              ))
                  × (init_from_date (record { sse = pos seconds; f = fifths_before 3 (suc n) }) ≡ (
                    record { initialized = true; milliseconds = pos (seconds * 1000 + n) },
                    none,
                  )))))
unfolding construct_from_object construct_utcdatetime
construct_utcdatetime-remade engine exact s x h ce props r e seconds n below fits = (
  ap (construct_from_object s) e
      ∙ init_from_date-to_date_time engine exact.dates x h.not_below h.not_above
      ∙ whole x h,
  (
    init_from_number-print engine s x exact h,
    (
      from_properties engine s x ∙ init_from_number-print engine s x exact h,
      init_from_date-rounds seconds n below fits,
    ),
  ),
)
