-- ===== src/BulkWrite/Counting.antt =====
-- src/MongoDB/BulkWrite.c and `phongo_execute_write`: what every sequence of calls keeps true of a
-- BulkWrite.
use mathlib.Core.Bool.{false≢true}
use dotdeb_php_mongodb.Prelude.{
  if◌then◌else◌, ℤ, suc, Bytes, Bool, true, false, ◌&&◌, List, [], ◌∷◌, ◌++◌, Option, length,
  length-append_single, ◌≡◌, refl, ap, ◌∙◌, Bool-cases, Option-cases, inl, inr, ◌≤◌, arith, sym,
}
use dotdeb_php_mongodb.Errors.{Fault}
use dotdeb_php_mongodb.Php.{Zval, Table, Env}
use dotdeb_php_mongodb.Mongoc.{Mongoc, Operation}
use dotdeb_php_mongodb.WriteConcern.{WriteConcern}
use dotdeb_php_mongodb.BulkWrite.{
  BulkWrite, fresh_bulk, construct, insert, update, delete, count, execute_write, finish_write,
  split_namespace, Reply, not, is_pending, Executed,
}
use dotdeb_php_mongodb.BulkWrite.Outcomes.{
  fits, Outcome, added, unchanged, update-Outcome, delete-Outcome,
}

-- The objects that calls can make of a new one, in any order.
pub data Reached (env : Env) (m : Mongoc) : BulkWrite → Type 0 where
  new : Reached env m fresh_bulk
  constructed :
      (b : BulkWrite) (options : Option Table)
      → Reached env m b
      → Reached env m (construct env options b)
  inserted :
      (b : BulkWrite) (z : Zval) (used : Bool)
      → Reached env m b
      → Reached env m (insert env b z used).0
  updated :
      (b : BulkWrite) (q u : Zval) (o : Option Table)
      → Reached env m b
      → Reached env m (update env m b q u o).0
  deleted :
      (b : BulkWrite) (q : Zval) (o : Option Table)
      → Reached env m b
      → Reached env m (delete env m b q o).0
  executed_on :
      (client : WriteConcern) (b : BulkWrite) (namespace : Bytes) (w : Option WriteConcern)
      (server_id : ℤ) (used : Bool)
      → Reached env m b
      → Reached env m (execute_write m client namespace b w server_id used).intern

abbrev pub all_fit : Mongoc → List Operation → Bool
all_fit m [] = true
all_fit m (op ∷ ops) = fits m op && all_fit m ops

all_fit-append :
    (m : Mongoc) (ops : List Operation) (op : Operation)
    → all_fit m ops ≡ true
    → fits m op ≡ true
    → all_fit m (ops ++ op ∷ []) ≡ true
all_fit-append m [] op h i = rw i refl
all_fit-append m (o ∷ ops) op h i = ground (arith, all_fit-append m ops op)

-- What holds of every object.
pub record IsCounted (m : Mongoc) (b : BulkWrite) : Type 0 where
  pub counted : count b ≡ length b.queue
  pub queue_fits : all_fit m b.queue ≡ true
  pub runs_once : length b.runs ≤ 1
  pub runs_if_executed : b.executed ≡ false → b.runs ≡ []

Outcome-IsCounted :
    (m : Mongoc) (b : BulkWrite) (r : BulkWrite × List Fault)
    → Outcome m b r
    → IsCounted m b
    → IsCounted m r.0
unfolding count
Outcome-IsCounted m b _ (added op h) i = record {
  counted = ap suc i.counted ∙ sym (length-append_single b.queue op);
  queue_fits = all_fit-append m b.queue op i.queue_fits h;
  runs_once = i.runs_once;
  runs_if_executed = i.runs_if_executed;
}
Outcome-IsCounted m b _ (unchanged f fs) i = i

finish_write-intern :
    (b : BulkWrite) (r : Reply) (c : WriteConcern) (used : Bool)
    → (finish_write b r c used).intern ≡ b
unfolding finish_write
finish_write-intern b r c used = elim (Bool-cases (r.success && not used)) [
  | inl e ↦ rw (finish_write, e) refl
  | inr e ↦ elim (Bool-cases (is_pending r.raised)) [
    | inl p ↦ rw (finish_write, e, p) refl
    | inr p ↦ rw (finish_write, e, p) refl
  ]
]

choice-IsCounted :
    (m : Mongoc) (c : Bool) (x y : Executed)
    → IsCounted m x.intern
    → (c ≡ false → IsCounted m y.intern)
    → IsCounted m (if c then x else y).intern
choice-IsCounted m true x y h i = h
choice-IsCounted m false x y h i = i refl

execute_write-IsCounted :
    (m : Mongoc) (client : WriteConcern) (b : BulkWrite) (namespace : Bytes)
    (w : Option WriteConcern) (server_id : ℤ) (used : Bool)
    → IsCounted m b
    → IsCounted m (execute_write m client namespace b w server_id used).intern
unfolding execute_write count
execute_write-IsCounted m client b namespace w server_id used h =
    choice-IsCounted m b.executed _ _ h (λ e. elim (Option-cases (split_namespace namespace)) [
      | inl n ↦ rw n h
      | inr (names, n) ↦
          rw (n, finish_write-intern)
            (record {
              counted = h.counted;
              queue_fits = h.queue_fits;
              runs_once = rw (h.runs_if_executed e) (omega arith);
              runs_if_executed = λ f. absurd (false≢true (sym f));
            })
    ])

construct-IsCounted :
    (env : Env) (m : Mongoc) (b : BulkWrite) (options : Option Table)
    → IsCounted m b
    → IsCounted m (construct env options b)
unfolding construct count
construct-IsCounted env m b options h = record {
  counted = refl;
  queue_fits = refl;
  runs_once = h.runs_once;
  runs_if_executed = h.runs_if_executed;
}

insert-IsCounted :
    (env : Env) (m : Mongoc) (b : BulkWrite) (z : Zval) (used : Bool)
    → IsCounted m b
    → IsCounted m (insert env b z used).0
unfolding insert count
insert-IsCounted env m b z used h = record {
  counted = ap suc h.counted ∙ sym (length-append_single b.queue _);
  queue_fits = all_fit-append m b.queue _ h.queue_fits refl;
  runs_once = h.runs_once;
  runs_if_executed = h.runs_if_executed;
}

-- Whatever is called, in whatever order, and whatever fails: `count` is the number of operations
-- that libmongoc has been given; every update among them has operators, and every replacement has
-- none and has passed `bson_validate`; and the object has been executed at most once.
pub Reached-IsCounted : (env : Env) (m : Mongoc) (b : BulkWrite) → Reached env m b → IsCounted m b
Reached-IsCounted env m _ new =
    unfold count in
    record {
      counted = refl;
      queue_fits = refl;
      runs_once = omega arith;
      runs_if_executed = λ _. refl;
    }
Reached-IsCounted env m _ (constructed b options r) =
    let h = Reached-IsCounted env m b r in construct-IsCounted env m b options h
Reached-IsCounted env m _ (inserted b z used r) =
    insert-IsCounted env m b z used (Reached-IsCounted env m b r)
Reached-IsCounted env m _ (updated b q u o r) =
    Outcome-IsCounted m b (update env m b q u o) (update-Outcome env m b q u o)
      (Reached-IsCounted env m b r)
Reached-IsCounted env m _ (deleted b q o r) =
    Outcome-IsCounted m b (delete env m b q o) (delete-Outcome env m b q o)
      (Reached-IsCounted env m b r)
Reached-IsCounted env m _ (executed_on client b namespace w server_id used r) =
    execute_write-IsCounted m client b namespace w server_id used (Reached-IsCounted env m b r)
