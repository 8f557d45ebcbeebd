-- ===== src/Regex/Tests.antt =====
-- Instances of the theorems on the flags of a Regex.
use dotdeb_php_mongodb.Prelude.{ℕ, codes, true, none, some, ◌≡◌, refl, has_nul}
use dotdeb_php_mongodb.Regex.{
  fresh_regex, sort_flags, regex_init, regex_init_from_hash, regex_properties,
}
use dotdeb_php_mongodb.Regex.Sorting.{
  is_sorted, occurrences, get_text, sort_flags-is_sorted, regex_init_from_hash-properties,
}

sort_flags-is_sorted_example :
    (is_sorted (sort_flags (codes "xism")) ≡ true)
    × ((k : ℕ) → occurrences k (sort_flags (codes "xism")) ≡ occurrences k (codes "xism"))
sort_flags-is_sorted_example = sort_flags-is_sorted (codes "xism")

regex_init_from_hash-properties_example :
    let made = (regex_init fresh_regex (codes "a+") (some (codes "xi"))).0 in
    regex_init_from_hash fresh_regex
      (regex_properties (get_text made.pattern) (get_text made.flags))
    ≡ (made, none)
unfolding has_nul
regex_init_from_hash-properties_example =
    regex_init_from_hash-properties fresh_regex fresh_regex (codes "a+") (codes "xi") refl refl
