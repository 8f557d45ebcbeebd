-- ===== src/ObjectId/Tests.antt =====
-- An instance of the theorem on ObjectID.
use mathlib.Core.List.{map}
use dotdeb_php_mongodb.Prelude.{
  zero, suc, ◌++◌, Bytes, codes, to_lower, leb, length, ◌==◌, Bool, true, false, ◌&&◌, ◌||◌, none,
  some, [], ◌∷◌, ◌≡◌, refl, ℕ, bytes_eq, and_true, ◌≤◌, arith, ap,
}
use dotdeb_php_mongodb.ObjectId.{
  ObjectId, construct_objectid, objectid_init_from_hash, objectid_properties, Env,
}
use dotdeb_php_mongodb.ObjectId.Texts.{take, take_twice, ReadsHex, construct_objectid-any_case}
use dotdeb_php_mongodb.Samples.{sample_env}

abbrev are_digits : Bytes → Bool
are_digits [] = true
are_digits (c ∷ s) = ((leb b'0' c && leb c b'9') || (leb b'a' c && leb c b'f')) && are_digits s

abbrev drop : ℕ → Bytes → Bytes
drop zero s = s
drop (suc n) [] = []
drop (suc n) (c ∷ s) = drop n s

-- `bson_oid_is_valid`: 24 digits, or as many and a NUL.
abbrev is_hex : Bytes → Bool
is_hex s =
    ((length s == 24) || ((length s == 25) && bytes_eq (drop 24 s) (0 ∷ [])))
    && are_digits (take 24 s)

-- libbson reads the first 24 bytes of a text.
abbrev hex_env : Env
hex_env = record sample_env { oid_from_string = take 24 }

abbrev capital : Bytes
capital = codes "4AF9F23D8EAD0E1D32000000" ++ 0 ∷ []

abbrev small : Bytes
small = codes "4af9f23d8ead0e1d32000000"

abbrev with_nul : Bytes
with_nul = small ++ 0 ∷ []

abbrev fresh : ObjectId
fresh = record { initialized = false; oid = [] }

abbrev sample : ObjectId
sample = record { initialized = true; oid = small }

length-take : (n : ℕ) (s : Bytes) → n ≤ length s → length (take n s) ≡ n
length-take zero s h = refl
length-take (suc n) [] h = absurd (omega arith)
length-take (suc n) (c ∷ s) h = ap suc (length-take n s (omega arith))

long_enough : (n : ℕ) (b : Bool) → ((n == 24) || ((n == 25) && b)) ≡ true → 24 ≤ n
long_enough n b h = ground arith

digits-hex : (s : Bytes) → length s ≡ 24 → take 24 s ≡ s → are_digits s ≡ true → is_hex s ≡ true
digits-hex s l e d = rw (l, e, d) refl

hex_text : ReadsHex hex_env is_hex
hex_text = record {
  without_nul = λ t h.
      let parts = and_true _ (are_digits (take 24 t)) h in
      digits-hex (take 24 t) (length-take 24 t (long_enough (length t) _ parts.0)) (take_twice 24 t)
        parts.1;
  prints_back = λ t h g. refl;
}

construct_objectid-any_case_example :
    (sample.oid ≡ take 24 (map to_lower capital))
    × ((construct_objectid hex_env is_hex fresh (some with_nul) ≡ (sample, none))
        × ((construct_objectid hex_env is_hex fresh (some sample.oid) ≡ (sample, none))
            × (objectid_init_from_hash hex_env is_hex fresh (objectid_properties sample)
                ≡ (sample, none))))
unfolding construct_objectid to_lower bytes_eq
construct_objectid-any_case_example =
    construct_objectid-any_case hex_env is_hex hex_text fresh fresh sample capital with_nul refl
      refl
