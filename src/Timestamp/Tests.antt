-- ===== src/Timestamp/Tests.antt =====
-- Instances of the theorems on timestamps.
use dotdeb_php_mongodb.Php.Hash.{key_eq}
use dotdeb_php_mongodb.Prelude.{
  ℕ, ◌<◌, ◌⊎◌, ℤ, pos, negsuc, neg_ℤ, Bytes, true, Option, none, some, [], ◌∷◌, ◌≡◌, ◌↔◌, refl,
  arith, bytes_eq,
}
use dotdeb_php_mongodb.Php.{Zval}
use dotdeb_php_mongodb.Php.Hash.{find, key_eq}
use dotdeb_php_mongodb.Timestamp.{
  Timestamp, fresh_timestamp, construct_timestamp, timestamp_init_from_hash, timestamp_properties,
  compare_timestamps, find,
}
use dotdeb_php_mongodb.Timestamp.Fields.{
  Attempt, construct_timestamp-Attempt, timestamp_init_from_hash-properties,
}
use dotdeb_php_mongodb.Timestamp.Ordering.{compare_timestamps-linear}
use dotdeb_php_mongodb.Samples.{sample_env}

-- Numbers in a notation with one digit for each.
abbrev write_digit : ℕ → Bytes
write_digit n = n ∷ []

abbrev read_digit : Bytes → Option ℤ
read_digit (n ∷ []) = some (pos n)
read_digit _ = none

abbrev stamp : Timestamp
stamp = record { initialized = true; increment = 4294967295; timestamp = 1234 }

abbrev later : Timestamp
later = record { initialized = true; increment = 0; timestamp = 1235 }

construct_timestamp-Attempt_example :
    Attempt fresh_timestamp (some (pos 4294967295, pos 1234)) (
      construct_timestamp sample_env read_digit fresh_timestamp
        (Zval.long (pos 4294967295))
        (Zval.long (pos 1234)))
    × Attempt fresh_timestamp (some (pos 4294967295, pos 1234)) (
        timestamp_init_from_hash read_digit fresh_timestamp
          (timestamp_properties write_digit stamp))
unfolding timestamp_properties find key_eq bytes_eq
construct_timestamp-Attempt_example =
    construct_timestamp-Attempt sample_env read_digit fresh_timestamp (Zval.long (pos 4294967295))
      (Zval.long (pos 1234)) (timestamp_properties write_digit stamp)

timestamp_init_from_hash-properties_example :
    timestamp_init_from_hash read_digit fresh_timestamp (timestamp_properties write_digit stamp)
    ≡ (stamp, none)
timestamp_init_from_hash-properties_example =
    timestamp_init_from_hash-properties read_digit write_digit (λ n h. refl) fresh_timestamp stamp
      (record { is_initialized = refl; increment_fits = omega arith; timestamp_fits = omega arith })

compare_timestamps-linear_example :
    ((compare_timestamps stamp later ≡ negsuc 0) ↔ (
      (stamp.timestamp < later.timestamp)
      ⊎ ((stamp.timestamp ≡ later.timestamp) × (stamp.increment < later.increment))))
    × (((compare_timestamps stamp later ≡ pos 0)
          ↔ ((stamp.timestamp ≡ later.timestamp) × (stamp.increment ≡ later.increment)))
        × ((compare_timestamps later stamp ≡ neg_ℤ (compare_timestamps stamp later))
            × (compare_timestamps stamp later ≡ negsuc 0
                → compare_timestamps later later ≡ negsuc 0
                → compare_timestamps stamp later ≡ negsuc 0)))
compare_timestamps-linear_example = compare_timestamps-linear stamp later later
