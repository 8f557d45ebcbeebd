-- ===== src/Regex.antt =====
-- src/BSON/Regex.c, and `php_phongo_new_regex_from_regex_and_options` of php_phongo.c.
pub mod Sorting
pub mod Tests
use dotdeb_php_mongodb.Prelude.{
  ℕ, ◌+◌, ◌%◌, ℤ, pos, negsuc, ltb, ◌==◌, Bytes, codes, has_nul, c_string, Bool, true, false,
  Option, none, some, List, [], ◌∷◌, ◌++◌, if◌then◌else◌,
}
use dotdeb_php_mongodb.Errors.{Fault, invalid_argument, throw}
use dotdeb_php_mongodb.Php.{name, Zval, BsonObject, regex, Table}
use dotdeb_php_mongodb.Php.Hash.{find}

-- A byte as a signed `char`, moved up by 128 so that it stays a number.
abbrev pub char_rank : ℕ → ℕ
char_rank b = (b + 128) % 256

-- `php_phongo_regex_compare_flags`.
unfoldable pub compare_flags : ℕ → ℕ → ℤ
compare_flags f1 f2 =
    if char_rank f1 == char_rank f2
    then pos 0
    else if ltb (char_rank f2) (char_rank f1)
    then pos 1
    else negsuc 0

-- Whether the comparison lets the first flag stand before the second one.
unfoldable pub not_above : ℤ → Bool
not_above (pos n) = n == 0
not_above (negsuc n) = true

unfoldable pub insert_flag : ℕ → Bytes → Bytes
unfolding compare_flags not_above
insert_flag f [] = f ∷ []
insert_flag f (g ∷ fs) = if not_above (compare_flags f g) then f ∷ g ∷ fs else g ∷ insert_flag f fs

-- `qsort` with that comparison, by insertion: bytes that compare as equal are equal, so every
-- sorting gives the same bytes.
unfoldable pub sort_flags : Bytes → Bytes
unfolding insert_flag
sort_flags [] = []
sort_flags (f ∷ fs) = insert_flag f (sort_flags fs)

-- `php_phongo_regex_t`; a field that has not been set is NULL.
pub record Regex : Type 0 where
  pub pattern : Option Bytes
  pub flags : Option Bytes

abbrev pub fresh_regex : Regex
fresh_regex = record { pattern = none; flags = none }

-- `php_phongo_regex_init`: the object after the call, and the exception if it failed.
unfoldable pub regex_init : Regex → Bytes → Option Bytes → Regex × Option Fault
unfolding sort_flags
regex_init intern pattern none =
    if has_nul pattern
    then (intern, some (throw invalid_argument "Pattern cannot contain null bytes"))
    else (record { pattern = some pattern; flags = some [] }, none)
regex_init intern pattern (some flags) =
    if has_nul pattern
    then (intern, some (throw invalid_argument "Pattern cannot contain null bytes"))
    else if has_nul flags
    then (
      record intern { pattern = some pattern },
      some (throw invalid_argument "Flags cannot contain null bytes"),
    )
    else (record { pattern = some pattern; flags = some (sort_flags flags) }, none)

abbrev as_string : Option Zval → Option Bytes
as_string (some (Zval.string s)) = some s
as_string _ = none

abbrev missing_fields : Fault
missing_fields =
    throw invalid_argument "%s initialization requires \"pattern\" and \"flags\" string fields"

-- `php_phongo_regex_init_from_hash`, also behind `__set_state` and `unserialize`.
unfoldable pub regex_init_from_hash : Regex → Table → Regex × Option Fault
unfolding regex_init
regex_init_from_hash intern props = elim (as_string (find props (name (codes "pattern")))) [
  | some pattern ↦ elim (as_string (find props (name (codes "flags")))) [
    | some flags ↦ regex_init intern pattern (some flags)
    | none ↦ (intern, some missing_fields)
  ]
  | none ↦ (intern, some missing_fields)
]

-- `Regex::__toString` of an object whose fields are set.
unfoldable pub regex_to_string : Bytes → Bytes → Bytes
regex_to_string pattern flags = (b'/' ∷ c_string pattern) ++ (b'/' ∷ c_string flags)

-- The array that `Regex::serialize` writes, and the properties of the object.
unfoldable pub regex_properties : Bytes → Bytes → Table
regex_properties pattern flags =
    Table.entry (name (codes "pattern")) (Zval.string pattern)
      (Table.entry (name (codes "flags")) (Zval.string flags) Table.empty)

-- `php_phongo_new_regex_from_regex_and_options`, on two C strings.
unfoldable pub new_regex : Bytes → Bytes → BsonObject
unfolding sort_flags
new_regex pattern flags = regex pattern (sort_flags flags)
