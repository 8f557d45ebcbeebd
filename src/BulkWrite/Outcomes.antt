-- ===== src/BulkWrite/Outcomes.antt =====
-- src/MongoDB/BulkWrite.c: what a call does to the object.
use mathlib.Core.Bool.{false≢true}
use dotdeb_php_mongodb.Prelude.{
  suc, Bytes, codes, Bool, true, false, ◌&&◌, not, List, [], ◌∷◌, ◌++◌, Option, if◌then◌else◌, ◌≡◌,
  refl, Bool-cases, Option-cases, inl, inr,
}
use dotdeb_php_mongodb.Errors.{Fault, throw_from_bson_error, is_pending}
use dotdeb_php_mongodb.Bson.{Doc, Bson}
use dotdeb_php_mongodb.Php.{Zval, Table, Env}
use dotdeb_php_mongodb.Mongoc.{
  Mongoc, Operation, update_one, update_many, replace_one, remove_one, remove_many,
}
use dotdeb_php_mongodb.Options.{
  Applied, done, stopped, and_then, run_steps, append, append_document, fetch, opt_document,
  is_document, when_found,
}
use dotdeb_php_mongodb.BulkWrite.{
  BulkWrite, has_operators, update_apply_options, delete_apply_options, enqueue, update_with,
  with_options, update, delete_with, delete, is_set, zval_to_bson, no_flags,
}

-- An update has a document with operators, a replacement one with none that has passed
-- `bson_validate`.
abbrev pub fits : Mongoc → Operation → Bool
fits m (update_one q u o) = has_operators u
fits m (update_many q u o) = has_operators u
fits m (replace_one q u o) = not (has_operators u) && m.validate u
fits m _ = true

-- What a call that may fail has done: added one operation and thrown nothing, or thrown and changed
-- nothing.
pub data Outcome (m : Mongoc) (intern : BulkWrite) : BulkWrite × List Fault → Type 0 where
  added :
      (op : Operation)
      → fits m op ≡ true
      → Outcome m intern
          (record intern { queue = intern.queue ++ op ∷ []; num_ops = suc intern.num_ops }, [])
  unchanged : (f : Fault) (fs : List Fault) → Outcome m intern (intern, f ∷ fs)

-- Options that fail have thrown.
abbrev IsProper : Applied → Type 0
IsProper (done d) = Unit
IsProper (stopped d fs) = is_pending fs ≡ true

and_then-IsProper :
    (a : Applied) (f : Doc → Applied)
    → IsProper a
    → ((d : Doc) → IsProper (f d))
    → IsProper (and_then a f)
unfolding and_then
and_then-IsProper (done d) f h i = i d
and_then-IsProper (stopped d fs) f h i = h

append-IsProper : (m : Mongoc) (opt : Bytes) (b : Bson) (d : Doc) → IsProper (append m opt b d)
unfolding append
append-IsProper m opt b d = elim (Bool-cases (m.can_append d opt b)) [
  | inl e ↦ rw e tt
  | inr e ↦ rw e refl
]

append_document-IsProper :
    (env : Env) (m : Mongoc) (opt : Bytes) (z : Zval) (d : Doc)
    → IsProper (append_document env m opt z d)
unfolding append_document
append_document-IsProper env m opt z d = elim (Bool-cases (is_document z)) [
  | inl e ↦ elim (Bool-cases (is_pending (zval_to_bson env no_flags z).thrown)) [
    | inl p ↦ rw (e, p) p
    | inr p ↦ rw (e, p) (append-IsProper m opt _ d)
  ]
  | inr e ↦ rw e refl
]

opt_document-IsProper :
    (env : Env) (m : Mongoc) (opt : Bytes) (zarr : Option Table) (key : Bytes) (d : Doc)
    → IsProper (opt_document env m opt zarr key done d)
unfolding opt_document when_found
opt_document-IsProper env m opt zarr key d = elim (Option-cases (fetch zarr key)) [
  | inl e ↦ rw e tt
  | inr (z, e) ↦ rw e (append_document-IsProper env m opt z d)
]

update_apply_options-IsProper :
    (env : Env) (m : Mongoc) (o : Option Table) → IsProper (update_apply_options env m o)
unfolding update_apply_options run_steps
update_apply_options-IsProper env m o = and_then-IsProper _ _ (append-IsProper m _ _ _) (λ d.
    and_then-IsProper _ _ (append-IsProper m _ _ d)
      (λ e. and_then-IsProper _ _ (opt_document-IsProper env m _ o _ e) (λ _. tt)))

delete_apply_options-IsProper :
    (env : Env) (m : Mongoc) (o : Option Table) → IsProper (delete_apply_options env m o)
unfolding delete_apply_options run_steps
delete_apply_options-IsProper env m o =
    and_then-IsProper _ _ (append-IsProper m _ _ _)
      (λ d. and_then-IsProper _ _ (opt_document-IsProper env m _ o _ d) (λ _. tt))

-- An object, with exceptions that there are.
thrown-Outcome :
    (m : Mongoc) (intern : BulkWrite) (fs : List Fault)
    → is_pending fs ≡ true
    → Outcome m intern (intern, fs)
thrown-Outcome m intern [] h = absurd (false≢true h)
thrown-Outcome m intern (f ∷ fs) h = unchanged f fs

enqueue-Outcome :
    (m : Mongoc) (intern : BulkWrite) (op : Operation)
    → fits m op ≡ true
    → Outcome m intern (enqueue m intern op)
unfolding enqueue
enqueue-Outcome m intern op h = elim (Option-cases (m.refuse intern.queue op)) [
  | inl e ↦ rw (enqueue, e) (added op h)
  | inr (f, e) ↦ rw (enqueue, e) (unchanged (throw_from_bson_error f) [])
]

choice-Outcome :
    (m : Mongoc) (intern : BulkWrite) (b : Bool) (r s : BulkWrite × List Fault)
    → (b ≡ true → Outcome m intern r)
    → (b ≡ false → Outcome m intern s)
    → Outcome m intern (if b then r else s)
choice-Outcome m intern true r s h i = h refl
choice-Outcome m intern false r s h i = i refl

with_options-Outcome :
    (m : Mongoc) (intern : BulkWrite) (a : Applied) (next : Doc → BulkWrite × List Fault)
    → IsProper a
    → ((d : Doc) → Outcome m intern (next d))
    → Outcome m intern (with_options intern a next)
unfolding with_options
with_options-Outcome m intern (done d) next h i = i d
with_options-Outcome m intern (stopped d fs) next h i = thrown-Outcome m intern fs h

update_with-Outcome :
    (env : Env) (m : Mongoc) (intern : BulkWrite) (o : Option Table) (bquery bupdate boptions : Doc)
    → Outcome m intern (update_with env m intern o bquery bupdate boptions)
unfolding update_with
update_with-Outcome env m intern o q u b =
    choice-Outcome m intern (has_operators u) _ _
      (λ h.
        choice-Outcome m intern (is_set env o (codes "multi")) _ _
          (λ _. enqueue-Outcome m intern (update_many q u b) h)
          (λ _. enqueue-Outcome m intern (update_one q u b) h))
      (λ h.
        choice-Outcome m intern (m.validate u) _ _
          (λ v.
            choice-Outcome m intern (is_set env o (codes "multi")) _ _ (λ _. unchanged _ [])
              (λ _. enqueue-Outcome m intern (replace_one q u b) (rw (h, v) refl)))
          (λ _. unchanged _ []))

-- `BulkWrite::update` adds exactly one operation and throws nothing, or throws and leaves the
-- object as it is. The operation is an update only if the document has operators, and a replacement
-- only if it has none and has passed `bson_validate`.
pub update-Outcome :
    (env : Env) (m : Mongoc) (intern : BulkWrite) (zquery zupdate : Zval) (zoptions : Option Table)
    → Outcome m intern (update env m intern zquery zupdate zoptions)
unfolding update
update-Outcome env m intern q u o =
    choice-Outcome m intern (is_pending (zval_to_bson env no_flags q).thrown) _ _
      (λ h. thrown-Outcome m intern _ h)
      (λ _.
        choice-Outcome m intern (is_pending (zval_to_bson env no_flags u).thrown) _ _
          (λ h. thrown-Outcome m intern _ h)
          (λ _.
            with_options-Outcome m intern (update_apply_options env m o) _
              (update_apply_options-IsProper env m o)
              (update_with-Outcome env m intern o (zval_to_bson env no_flags q).doc
                (zval_to_bson env no_flags u).doc)))

-- `BulkWrite::delete` adds exactly one operation and throws nothing, or throws and leaves the
-- object as it is.
pub delete-Outcome :
    (env : Env) (m : Mongoc) (intern : BulkWrite) (zquery : Zval) (zoptions : Option Table)
    → Outcome m intern (delete env m intern zquery zoptions)
unfolding delete
delete-Outcome env m intern q o =
    choice-Outcome m intern (is_pending (zval_to_bson env no_flags q).thrown) _ _
      (λ h. thrown-Outcome m intern _ h)
      (λ _.
        with_options-Outcome m intern (delete_apply_options env m o) _
          (delete_apply_options-IsProper env m o)
          (λ b.
            unfold delete_with in
            choice-Outcome m intern (is_set env o (codes "limit"))
              (enqueue m intern (remove_one (zval_to_bson env no_flags q).doc b))
              (enqueue m intern (remove_many (zval_to_bson env no_flags q).doc b))
              (λ _. enqueue-Outcome m intern (remove_one _ b) refl)
              (λ _. enqueue-Outcome m intern (remove_many _ b) refl)))
