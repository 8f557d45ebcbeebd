-- ===== src/Cursor/Arrays.antt =====
-- src/MongoDB/Cursor.c: `Cursor::toArray` ends, and gives what the list of the documents gives.
use dotdeb_php_mongodb.Prelude.{
  ℕ, suc, false, Option, none, some, List, [], ◌∷◌, ◌≡◌, refl, ◌∙◌, if◌then◌else◌, length, ◌<◌, ◌-◌,
  arith, subst, ◌+◌,
}
use dotdeb_php_mongodb.Errors.{Fault, is_pending}
use dotdeb_php_mongodb.Php.{Zval, empty, Env}
use dotdeb_php_mongodb.Decode.{Buffer}
use dotdeb_php_mongodb.Cursor.{
  MongocCursor, Cursor, Walked, iterator_apply, ArrayResult, to_array, array_result,
}
use dotdeb_php_mongodb.Cursor.Contents.{Holds, each_converted, add_all, listed, add_all-listed}
use dotdeb_php_mongodb.Cursor.Walking.{Outcome, above, outcome_of, iterator_apply-outcome}

-- What the result and the exceptions of `toArray` are.
abbrev pub shown : {C : Type 0} → Option (ArrayResult C) → Option (Zval × List Fault)
shown none = none
shown (some r) = some (r.value, r.thrown)

abbrev as_array : Outcome → Zval × List Fault
as_array (values, thrown) = (if is_pending thrown then Zval.null else Zval.array values, thrown)

abbrev as_arrays : Option Outcome → Option (Zval × List Fault)
as_arrays none = none
as_arrays (some o) = some (as_array o)

shown-array_result :
    {C : Type 0} (o : Option (Walked C))
    → shown (elim o as (λ _. Option (ArrayResult C)) [
      | none ↦ none
      | some walked ↦ some (array_result walked)
    ])
      ≡ as_arrays (outcome_of o)
shown-array_result none = refl
shown-array_result (some walked) = refl

above-length : (ds : List Buffer) (n : ℕ) → above ds n ≡ length ds + n
above-length [] n = omega arith
above-length (d ∷ ds) n = grind (arith, above-length ds n)

above_enough :
    (ds : List Buffer) (fuel : ℕ)
    → length ds < fuel
    → suc (above ds (fuel - suc (length ds))) ≡ fuel
above_enough ds fuel h = rw (above-length ds (fuel - suc (length ds))) (omega arith)

-- `toArray` on a cursor that has no iterator yet and has not been advanced ends, with any fuel above
-- the number of documents that libmongoc has for it. Its result is the array, with indices from 0
-- on, of these documents converted one after the other, each with the type map and the class that
-- the conversion before it left in the state; or NULL, with the exceptions, if a conversion or the
-- end of the documents throws.
pub to_array-each_converted :
    {C : Type 0} (env : Env) (mongoc : MongocCursor C) (documents : List Buffer) (end : List Fault)
    (fuel : ℕ) (intern : Cursor C)
    → Holds mongoc intern.cursor documents end
    → intern.got_iterator ≡ false
    → intern.current ≡ 0
    → length documents < fuel
    → shown (to_array env mongoc fuel intern)
      ≡ some (
          let r = each_converted env intern.map intern.odm documents end in
          (if is_pending r.1 then Zval.null else Zval.array (listed 0 r.0), r.1))
unfolding to_array
to_array-each_converted env mongoc documents end fuel intern y g h enough =
    let o : Outcome =
      (let r = each_converted env intern.map intern.odm documents end in
        (add_all empty r.0, r.1)) in
    let walked : outcome_of (iterator_apply env mongoc fuel intern) ≡ some o =
      subst (λ n. outcome_of (iterator_apply env mongoc n intern) ≡ some o)
        (above_enough documents fuel enough)
        (iterator_apply-outcome env mongoc documents end (fuel - suc (length documents))
          intern.cursor intern y refl g h) in
    shown-array_result (iterator_apply env mongoc fuel intern)
    ∙ rw (walked, add_all-listed empty (each_converted env intern.map intern.odm documents end).0)
        refl
