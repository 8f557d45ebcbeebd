-- ===== src/Binary/Tests.antt =====
-- Instances of the theorems on Binary.
use dotdeb_php_mongodb.Prelude.{
  pos, codes, true, is_below, is_above, strcmp, strcmp-IsOrdering, none, some, ◌≡◌, ◌↔◌,
}
use dotdeb_php_mongodb.Binary.{Binary, get_data, construct_binary, compare_binaries}
use dotdeb_php_mongodb.Binary.Fields.{Outcome, construct_binary-Outcome}
use dotdeb_php_mongodb.Binary.Ordering.{Precedes, compare_binaries-linear}

abbrev fresh : Binary
fresh = record { bytes = none; type = 0 }

abbrev photo : Binary
photo = record { bytes = some (codes "photo"); type = 0 }

abbrev print : Binary
print = record { bytes = some (codes "print"); type = 128 }

construct_binary-Outcome_example :
    Outcome fresh (codes "photo") (pos 255) (construct_binary fresh (codes "photo") (pos 255))
construct_binary-Outcome_example = construct_binary-Outcome fresh (codes "photo") (pos 255)

compare_binaries-linear_example :
    ((is_below (compare_binaries strcmp photo print) ≡ true) ↔ Precedes strcmp photo print)
    × (((compare_binaries strcmp photo print ≡ pos 0)
          ↔ ((photo.type ≡ print.type) × (get_data photo ≡ get_data print)))
        × ((is_below (compare_binaries strcmp print photo)
              ≡ is_above (compare_binaries strcmp photo print))
            × (is_below (compare_binaries strcmp photo print) ≡ true
                → is_below (compare_binaries strcmp print fresh) ≡ true
                → is_below (compare_binaries strcmp photo fresh) ≡ true)))
compare_binaries-linear_example = compare_binaries-linear strcmp strcmp-IsOrdering photo print fresh
