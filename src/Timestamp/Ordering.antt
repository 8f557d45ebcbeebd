-- ===== src/Timestamp/Ordering.antt =====
-- src/BSON/Timestamp.c, `php_phongo_timestamp_compare_objects`.
use dotdeb_php_mongodb.Prelude.{
  ◌<◌, ◌⊎◌, ℤ, pos, negsuc, neg_ℤ, ◌≡◌, ◌↔◌, arith, ℕ, ltb, ◌==◌, if◌then◌else◌,
}
use dotdeb_php_mongodb.Timestamp.{Timestamp, compare_timestamps}

abbrev pub lexicographic : ℕ → ℕ → ℕ → ℕ → ℤ
lexicographic i t j u =
    if t == u
    then (if i == j then pos 0 else if ltb i j then negsuc 0 else pos 1)
    else if ltb t u
    then negsuc 0
    else pos 1

lexicographic-equal : (i t j u : ℕ) → (lexicographic i t j u ≡ pos 0) ↔ ((t ≡ u) × (i ≡ j))
lexicographic-equal i t j u = ground arith

lexicographic-swap : (i t j u : ℕ) → lexicographic j u i t ≡ neg_ℤ (lexicographic i t j u)
lexicographic-swap i t j u = ground arith

lexicographic-below :
    (i t j u k v : ℕ)
    → lexicographic i t j u ≡ negsuc 0
    → lexicographic j u k v ≡ negsuc 0
    → lexicographic i t k v ≡ negsuc 0
lexicographic-below i t j u k v h g = ground arith

lexicographic-precedes :
    (i t j u : ℕ) → (lexicographic i t j u ≡ negsuc 0) ↔ ((t < u) ⊎ ((t ≡ u) × (i < j)))
lexicographic-precedes i t j u = ground arith

-- The comparison of timestamps is a strict linear order: it is -1 exactly if the first has fewer
-- seconds, or as many and a smaller increment; it is 0 exactly if both parts are equal, exchanging
-- the two changes its sign, and what is below is transitive.
pub compare_timestamps-linear :
    (a b c : Timestamp)
    → ((compare_timestamps a b ≡ negsuc 0) ↔ (
        (a.timestamp < b.timestamp) ⊎ ((a.timestamp ≡ b.timestamp) × (a.increment < b.increment))))
      × (((compare_timestamps a b ≡ pos 0)
            ↔ ((a.timestamp ≡ b.timestamp) × (a.increment ≡ b.increment)))
          × ((compare_timestamps b a ≡ neg_ℤ (compare_timestamps a b))
              × (compare_timestamps a b ≡ negsuc 0
                  → compare_timestamps b c ≡ negsuc 0
                  → compare_timestamps a c ≡ negsuc 0)))
unfolding compare_timestamps
compare_timestamps-linear a b c = (
  lexicographic-precedes a.increment a.timestamp b.increment b.timestamp,
  (
    lexicographic-equal a.increment a.timestamp b.increment b.timestamp,
    (
      lexicographic-swap a.increment a.timestamp b.increment b.timestamp,
      lexicographic-below a.increment a.timestamp b.increment b.timestamp c.increment c.timestamp,
    ),
  ),
)
