-- ===== src/Cursor/Walking.antt =====
-- src/MongoDB/Cursor.c: what a walk over a cursor comes to.
use dotdeb_php_mongodb.Prelude.{
  ℕ, suc, true, false, Option, none, some, List, [], ◌∷◌, ◌++◌, ◌≡◌, refl, ◌∙◌, if◌then◌else◌,
  Bool-cases, inl, inr,
}
use dotdeb_php_mongodb.Errors.{Fault, is_pending}
use dotdeb_php_mongodb.Php.{Zval, Table, empty, Env}
use dotdeb_php_mongodb.Php.Hash.{add_next}
use dotdeb_php_mongodb.Decode.{Buffer, bson_to_zval_ex, get_value}
use dotdeb_php_mongodb.Reading.Values.{bson_to_zval_ex-value}
use dotdeb_php_mongodb.Cursor.{
  MongocCursor, error_faults, Cursor, move_forward, take_next, convert_into, apply_loop, Walked,
  next_turn, iterator_apply, apply_from, get_iterator, rewind, convert_current, free_current,
}
use dotdeb_php_mongodb.Cursor.Contents.{
  Yields, ended, given, Holds, exhausted, standing, each_converted, add_all,
}

-- The values and the exceptions of a walk.
abbrev pub Outcome : Type 0
Outcome = Table × List Fault

-- A number, and one more for each element.
abbrev pub above : List Buffer → ℕ → ℕ
above [] n = n
above (d ∷ ds) n = suc (above ds n)

abbrev pub outcome_of : {C : Type 0} → Option (Walked C) → Option Outcome
outcome_of none = none
outcome_of (some walked) = some (walked.values, walked.thrown)

end_choice :
    (faults : List Fault) (values : Table) (o : Option Outcome)
    → o ≡ some (values, [])
    → (if is_pending faults then some (values, faults) else o) ≡ some (values, faults)
end_choice [] values o h = h
end_choice (f ∷ fs) values o h = refl

module _ {C : Type 0} (env : Env) (mongoc : MongocCursor C) where
  next_turn-outcome :
      (moved : Cursor C × List Fault) (values : Table) (rest : Option (Walked C))
      → outcome_of (next_turn moved values rest)
        ≡ (if is_pending moved.1 then some (values, moved.1) else outcome_of rest)
  next_turn-outcome moved values rest = elim (Bool-cases (is_pending moved.1)) [
    | inl e ↦ rw e
    | inr e ↦ rw e
  ]

  apply_loop-valid :
      (fuel : ℕ) (intern : Cursor C) (values : Table) (v : Zval)
      → intern.zchild ≡ some v
      → outcome_of (apply_loop env mongoc (suc fuel) intern values) ≡ (
          if is_pending (move_forward env mongoc intern).1
          then some (add_next values v, (move_forward env mongoc intern).1)
          else outcome_of
              (apply_loop env mongoc fuel (move_forward env mongoc intern).0 (add_next values v)))
  unfolding apply_loop
  apply_loop-valid fuel intern values v h = rw h (next_turn-outcome _ _ _)

  apply_loop-invalid :
      (fuel : ℕ) (intern : Cursor C) (values : Table)
      → intern.zchild ≡ none
      → outcome_of (apply_loop env mongoc (suc fuel) intern values) ≡ some (values, [])
  unfolding apply_loop
  apply_loop-invalid fuel intern values h = rw h

  -- What a move comes to, for each answer of libmongoc.
  move_forward-none :
      (intern : Cursor C) (c' : C) (raised : List Fault)
      → mongoc.next intern.cursor ≡ record { document = none; cursor = c'; raised = raised }
      → move_forward env mongoc intern ≡ (
        record intern { cursor = c'; zchild = none; current = suc intern.current },
        raised ++ error_faults (mongoc.error c'),
      )
  unfolding move_forward take_next
  move_forward-none intern c' raised h = rw h

  move_forward-some :
      (intern : Cursor C) (c' : C) (document : Buffer)
      → mongoc.next intern.cursor ≡ record { document = some document; cursor = c'; raised = [] }
      → move_forward env mongoc intern
        ≡ convert_into env document
            (record intern { cursor = c'; zchild = none; current = suc intern.current })
            []
  unfolding move_forward take_next
  move_forward-some intern c' document h = rw h

  -- From an element on, what the list of the documents after it gives is added after it.
  apply_loop_lem :
      (documents : List Buffer) (end : List Fault) (fuel : ℕ) (c : C) (intern : Cursor C)
      (values : Table) (v : Zval)
      → Yields mongoc c documents end
      → intern.cursor ≡ c
      → intern.zchild ≡ some v
      → outcome_of (apply_loop env mongoc (suc (suc (above documents fuel))) intern values)
        ≡ some (
            let r = each_converted env intern.map intern.odm documents end in
            (add_all (add_next values v) r.0, r.1))
  unfolding convert_into
  apply_loop_lem _ _ fuel _ intern values v (ended c c' raised n) e h =
      apply_loop-valid (suc fuel) intern values v h
      ∙ rw (move_forward-none intern c' raised (rw e n))
          (end_choice _ _ _ (apply_loop-invalid fuel _ _ refl))
  apply_loop_lem _ _ fuel _ intern values v (given c c' document documents end n y) e h =
      let r = bson_to_zval_ex env document intern.map intern.odm [] in
      let next =
        (convert_into env document
          (record intern { cursor = c'; zchild = none; current = suc intern.current }) []).0 in
      apply_loop-valid _ intern values v h
      ∙ rw (move_forward-some intern c' document (rw e n))
          (elim (Bool-cases (is_pending r.thrown)) [
            | inl p ↦ rw p refl
            | inr p ↦ rw p (
                apply_loop_lem documents end fuel c' next (add_next values v) (get_value r.value) y
                  refl (bson_to_zval_ex-value env document intern.map intern.odm [] p))
          ])

  -- From the first element on.
  apply_from-standing :
      (document : Buffer) (documents : List Buffer) (end : List Fault) (fuel : ℕ)
      (intern : Cursor C)
      → Yields mongoc intern.cursor documents end
      → outcome_of (
          apply_from env mongoc
            (suc (suc (above documents fuel)))
            (convert_into env document intern []))
        ≡ some (
            let r = each_converted env intern.map intern.odm (document ∷ documents) end in
            (add_all empty r.0, r.1))
  unfolding apply_from
  apply_from-standing document documents end fuel intern y =
      let r = bson_to_zval_ex env document intern.map intern.odm [] in
      let next = (convert_into env document intern []).0 in
      elim (Bool-cases (is_pending r.thrown)) [
        | inl p ↦ unfold convert_into in rw p refl
        | inr p ↦
            unfold convert_into in
            rw p (
              apply_loop_lem documents end fuel next.cursor next empty (get_value r.value) y refl
                (bson_to_zval_ex-value env document intern.map intern.odm [] p))
      ]

  rewind-first :
      (intern : Cursor C)
      → intern.current ≡ 0
      → rewind env mongoc intern ≡ convert_current env mongoc (free_current intern) []
  unfolding rewind
  rewind-first intern h = rw h

  get_iterator-first :
      (intern : Cursor C)
      → intern.got_iterator ≡ false
      → get_iterator intern ≡ (record intern { got_iterator = true; zchild = none }, [])
  unfolding get_iterator
  get_iterator-first intern h = rw h

  iterator_apply-started :
      (fuel : ℕ) (intern : Cursor C)
      → intern.got_iterator ≡ false
      → intern.current ≡ 0
      → iterator_apply env mongoc fuel intern
        ≡ apply_from env mongoc fuel
            (convert_current env mongoc (record intern { got_iterator = true; zchild = none }) [])
  unfolding iterator_apply
  iterator_apply-started fuel intern g h =
      rw
        (
          get_iterator-first intern g,
          rewind-first (record intern { got_iterator = true; zchild = none }) h,
        )
        refl

  convert_current-none :
      (intern : Cursor C) (thrown : List Fault)
      → mongoc.now intern.cursor ≡ none
      → convert_current env mongoc intern thrown ≡ (intern, thrown)
  unfolding convert_current
  convert_current-none intern thrown h = rw (convert_current, h) refl

  convert_current-some :
      (intern : Cursor C) (thrown : List Fault) (document : Buffer)
      → mongoc.now intern.cursor ≡ some document
      → convert_current env mongoc intern thrown ≡ convert_into env document intern thrown
  unfolding convert_current
  convert_current-some intern thrown document h = rw (convert_current, h) refl

  pub iterator_apply-outcome :
      (documents : List Buffer) (end : List Fault) (fuel : ℕ) (c : C) (intern : Cursor C)
      → Holds mongoc c documents end
      → intern.cursor ≡ c
      → intern.got_iterator ≡ false
      → intern.current ≡ 0
      → outcome_of (iterator_apply env mongoc (suc (above documents fuel)) intern)
        ≡ some (
            let r = each_converted env intern.map intern.odm documents end in
            (add_all empty r.0, r.1))
  unfolding apply_from
  iterator_apply-outcome _ _ fuel _ intern (exhausted c n) e g h =
      rw
        (
          iterator_apply-started (suc fuel) intern g h,
          convert_current-none (record intern { got_iterator = true; zchild = none }) [] (rw e n),
        )
        (apply_loop-invalid fuel (record intern { got_iterator = true; zchild = none }) empty refl)
  iterator_apply-outcome _ _ fuel _ intern (standing c document documents end n y) e g h =
      rw
        (
          iterator_apply-started (suc (suc (above documents fuel))) intern g h,
          convert_current-some (record intern { got_iterator = true; zchild = none }) [] document
              (rw e n),
        )
        (apply_from-standing document documents end fuel
          (record intern { got_iterator = true; zchild = none }) (rw e y))
