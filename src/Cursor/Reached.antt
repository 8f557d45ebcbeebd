-- ===== src/Cursor/Reached.antt =====
-- src/MongoDB/Cursor.c: what every sequence of calls keeps true of a cursor.
use dotdeb_php_mongodb.Prelude.{
  ℕ, suc, ◌+◌, ltb, false, Option, none, some, List, [], ◌≡◌, refl, ◌∙◌, sym, if◌then◌else◌, arith,
  Bool-cases, Option-cases, inl, inr, none≢some,
}
use dotdeb_php_mongodb.Errors.{Fault, is_pending}
use dotdeb_php_mongodb.Php.{Table, Env}
use dotdeb_php_mongodb.Cursor.{
  MongocCursor, Cursor, cursor_init, move_forward, rewind, get_iterator, set_type_map, is_valid,
  some, convert_into, convert_current, Next, Buffer, ltb, take_next, [], suc,
}

-- What can be called on a cursor: its own method that changes it, and what the engine calls on its
-- iterator. Whether the call gave an iterator is counted.
pub data Call : Type 0 where
  iterate advance restart : Call
  retype : Option Table → Call

abbrev pub call : {C : Type 0} → Env → MongocCursor C → Call → Cursor C → Cursor C × List Fault
call env mongoc iterate intern = get_iterator intern
call env mongoc advance intern = move_forward env mongoc intern
call env mongoc restart intern = rewind env mongoc intern
call env mongoc (retype typemap) intern = set_type_map env mongoc typemap intern

-- The calls made so far, and the cursor after them: how many gave an iterator, and how many
-- advanced.
abbrev pub given_by : Call → List Fault → ℕ
given_by iterate faults = if is_pending faults then 0 else 1
given_by _ faults = 0

abbrev pub advanced_by : Call → ℕ
advanced_by advance = 1
advanced_by _ = 0

pub data Reached {C : Type 0} (env : Env) (mongoc : MongocCursor C)
    : Cursor C → ℕ → ℕ → Type 0 where
  created : (c : C) (hint : ℕ) → Reached env mongoc (cursor_init c hint) 0 0
  called :
      (intern : Cursor C) (iterators moves : ℕ) (x : Call)
      → Reached env mongoc intern iterators moves
      → Reached env mongoc
          (call env mongoc x intern).0
          (given_by x (call env mongoc x intern).1 + iterators)
          (advanced_by x + moves)

-- What holds of the cursor. Its position is the number of moves; at most one iterator was given,
-- and none before the flag is set; and a value is there only if libmongoc has a document.
pub record IsTracked {C : Type 0} (mongoc : MongocCursor C) (intern : Cursor C)
    (iterators moves : ℕ) : Type 0 where
  pub position : intern.current ≡ moves
  pub single : iterators ≡ (if intern.got_iterator then 1 else 0)
  pub grounded : mongoc.now intern.cursor ≡ none → is_valid intern ≡ false

none-some : {C : Type 0} (o : Option C) (x : C) → o ≡ none → o ≡ some x → ⊥
none-some o x h i = none≢some (sym h ∙ i)

-- Where libmongoc has a document, any value will do.
convert_into-IsTracked :
    {C : Type 0} (env : Env) (mongoc : MongocCursor C) (document b : Buffer) (intern : Cursor C)
    (thrown : List Fault) (iterators moves : ℕ)
    → mongoc.now intern.cursor ≡ some b
    → intern.current ≡ moves
    → iterators ≡ (if intern.got_iterator then 1 else 0)
    → IsTracked mongoc (convert_into env document intern thrown).0 iterators moves
unfolding convert_into
convert_into-IsTracked env mongoc document b intern thrown iterators moves h p i = record {
  position = p;
  single = i;
  grounded = λ n. absurd (none-some (mongoc.now intern.cursor) b n h);
}

convert_current-IsTracked :
    {C : Type 0} (env : Env) (mongoc : MongocCursor C) (intern : Cursor C) (thrown : List Fault)
    (iterators moves : ℕ)
    → intern.zchild ≡ none
    → intern.current ≡ moves
    → iterators ≡ (if intern.got_iterator then 1 else 0)
    → IsTracked mongoc (convert_current env mongoc intern thrown).0 iterators moves
unfolding convert_current
convert_current-IsTracked env mongoc intern thrown iterators moves z p i =
    elim (Option-cases (mongoc.now intern.cursor)) [
      | inl e ↦
          simp (convert_current, e) (record { position = p; single = i; grounded = λ n. rw z refl })
      | inr (b, e) ↦
          simp (convert_current, e)
            (convert_into-IsTracked env mongoc b b intern thrown iterators moves e p i)
    ]

take_next-IsTracked :
    {C : Type 0} (env : Env) (mongoc : MongocCursor C) (intern : Cursor C) (next : Next C)
    (iterators moves : ℕ)
    → ((b : Buffer) → next.document ≡ some b → mongoc.now next.cursor ≡ some b)
    → intern.current ≡ moves
    → iterators ≡ (if intern.got_iterator then 1 else 0)
    → IsTracked mongoc (take_next env mongoc intern next).0 iterators (1 + moves)
unfolding take_next
take_next-IsTracked env mongoc intern next iterators moves law p i =
    elim (Option-cases next.document) [
      | inl e ↦
          simp (take_next, e)
            (record { position = rw p (omega arith); single = i; grounded = λ n. refl })
      | inr (b, e) ↦
          simp (take_next, e)
            (convert_into-IsTracked env mongoc b b
              (record intern { cursor = next.cursor; zchild = none; current = suc intern.current })
              next.raised iterators (1 + moves) (law b e) (rw p (omega arith)) i)
    ]

rewind-IsTracked :
    {C : Type 0} (env : Env) (mongoc : MongocCursor C) (intern : Cursor C) (iterators moves : ℕ)
    → IsTracked mongoc intern iterators moves
    → IsTracked mongoc (rewind env mongoc intern).0 iterators moves
unfolding rewind
rewind-IsTracked env mongoc intern iterators moves h = elim (Bool-cases (ltb 0 intern.current)) [
  | inl e ↦ simp (rewind, e) h
  | inr e ↦
      simp (rewind, e)
        (convert_current-IsTracked env mongoc (record intern { zchild = none }) [] iterators moves
          refl h.position h.single)
]

get_iterator-IsTracked :
    {C : Type 0} (mongoc : MongocCursor C) (intern : Cursor C) (iterators moves : ℕ)
    → IsTracked mongoc intern iterators moves
    → IsTracked mongoc
        (get_iterator intern).0
        (given_by iterate (get_iterator intern).1 + iterators)
        (0 + moves)
unfolding get_iterator
get_iterator-IsTracked mongoc intern iterators moves h = elim (Bool-cases intern.got_iterator) [
  | inl e ↦
      simp (get_iterator, e)
        (record {
          position = omega (arith, h.position);
          single = omega (arith, h.single);
          grounded = h.grounded;
        })
  | inr e ↦
      simp (get_iterator, e)
        (let before : iterators ≡ 0 = rw e at h.single in
          record {
            position = omega (arith, h.position);
            single = omega (arith, before);
            grounded = λ n. refl;
          })
]

set_type_map-IsTracked :
    {C : Type 0} (env : Env) (mongoc : MongocCursor C) (typemap : Option Table) (intern : Cursor C)
    (iterators moves : ℕ)
    → IsTracked mongoc intern iterators moves
    → IsTracked mongoc (set_type_map env mongoc typemap intern).0 iterators moves
unfolding set_type_map
set_type_map-IsTracked env mongoc typemap intern iterators moves h =
    convert_current-IsTracked env mongoc _ _ iterators moves refl h.position h.single

IsTracked-plus_zero :
    {C : Type 0} (mongoc : MongocCursor C) (intern : Cursor C) (iterators moves : ℕ)
    → IsTracked mongoc intern iterators moves
    → IsTracked mongoc intern (0 + iterators) (0 + moves)
IsTracked-plus_zero mongoc intern iterators moves h = record {
  position = omega (arith, h.position);
  single = omega (arith, h.single);
  grounded = h.grounded;
}

call-IsTracked :
    {C : Type 0} (env : Env) (mongoc : MongocCursor C)
    → ((c : C) (b : Buffer)
        → (mongoc.next c).document ≡ some b
        → mongoc.now (mongoc.next c).cursor ≡ some b)
    → (x : Call) (intern : Cursor C) (iterators moves : ℕ) → IsTracked mongoc intern iterators moves
    → IsTracked mongoc
        (call env mongoc x intern).0
        (given_by x (call env mongoc x intern).1 + iterators)
        (advanced_by x + moves)
call-IsTracked env mongoc law iterate intern iterators moves h =
    get_iterator-IsTracked mongoc intern iterators moves h
call-IsTracked env mongoc law advance intern iterators moves h =
    unfold move_forward in
    take_next-IsTracked env mongoc intern (mongoc.next intern.cursor) (0 + iterators) moves
      (law intern.cursor) h.position (omega (arith, h.single))
call-IsTracked env mongoc law restart intern iterators moves h =
    IsTracked-plus_zero mongoc (rewind env mongoc intern).0 iterators moves
      (rewind-IsTracked env mongoc intern iterators moves h)
call-IsTracked env mongoc law (retype typemap) intern iterators moves h =
    IsTracked-plus_zero mongoc (set_type_map env mongoc typemap intern).0 iterators moves
      (set_type_map-IsTracked env mongoc typemap intern iterators moves h)

-- Whatever is called on a cursor, in whatever order, from its creation on: its position is the
-- number of moves; it has given one iterator if its flag is set, and else none; and it is valid only
-- while libmongoc has a current document. That rests on a document that `mongoc_cursor_next` gives
-- being the current one.
pub Reached-IsTracked :
    {C : Type 0} (env : Env) (mongoc : MongocCursor C)
    → ((c : C) (b : Buffer)
        → (mongoc.next c).document ≡ some b
        → mongoc.now (mongoc.next c).cursor ≡ some b)
    → (intern : Cursor C) (iterators moves : ℕ) → Reached env mongoc intern iterators moves
    → IsTracked mongoc intern iterators moves
Reached-IsTracked env mongoc law _ _ _ (created c hint) = record {
  position = refl;
  single = refl;
  grounded = λ n. refl;
}
Reached-IsTracked env mongoc law _ _ _ (called intern iterators moves x r) =
    call-IsTracked env mongoc law x intern iterators moves
      (Reached-IsTracked env mongoc law intern iterators moves r)
