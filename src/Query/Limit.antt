-- ===== src/Query/Limit.antt =====
-- src/MongoDB/Query.c, `php_phongo_query_init_limit_and_singlebatch`.
use mathlib.Core.Bool.{false≢true}
use dotdeb_php_mongodb.Options.Extending.{result}
use dotdeb_php_mongodb.Prelude.{
  ℕ, suc, ℤ, pos, negsuc, ltb_ℤ, ◌==ℤ◌, int64_min, Bytes, codes, Bool, true, false, Option, none,
  some, if◌then◌else◌, ◌≡◌, refl, sym, Bool-cases, inl, inr, arith, List, ap, Option-cases, ◌∙◌,
}
use dotdeb_php_mongodb.Errors.{Fault}
use dotdeb_php_mongodb.Bson.{Bson, Doc, finish, element, ◌+++◌, single, +++-finish, +++_assoc}
use dotdeb_php_mongodb.Php.{Zval, Table, Env}
use dotdeb_php_mongodb.Mongoc.{Mongoc}
use dotdeb_php_mongodb.Options.{
  Applied, done, stopped, and_then, append, fetch, when_found, opt_bool, opt_int64, refuse,
}
use dotdeb_php_mongodb.Query.{
  init_limit_and_singlebatch, limit_and_singlebatch, negative_limit, is_single_batch_off, neg_long,
}

-- `|v|`.
abbrev pub magnitude : ℤ → ℕ
magnitude (pos n) = n
magnitude (negsuc n) = suc n

neg_long-magnitude :
    (v : ℤ) → ltb_ℤ v (pos 0) ≡ true → (v ==ℤ int64_min) ≡ false → neg_long v ≡ pos (magnitude v)
unfolding neg_long
neg_long-magnitude v h n = ground arith

stopped≢done : {d e : Doc} {fs : List Fault} → stopped d fs ≡ done e → ⊥
stopped≢done h = cc

append-done :
    (m : Mongoc) (opt : Bytes) (b : Bson) (d e : Doc)
    → append m opt b d ≡ done e
    → d +++ single opt b ≡ e
unfolding append
append-done m opt b d e h = elim (Bool-cases (m.can_append d opt b)) [
  | inl y ↦ ap result (rw (append, y) at h)
  | inr n ↦ absurd (stopped≢done (rw (append, n) at h))
]

and_then-done :
    (a : Applied) (f : Doc → Applied) (e : Doc)
    → and_then a f ≡ done e
    → (c : Doc) × ((a ≡ done c) × (f c ≡ done e))
unfolding and_then
and_then-done (done c) f e h = (c, (refl, h))
and_then-done (stopped d fs) f e h = absurd (stopped≢done h)

opt_bool-done :
    (env : Env) (m : Mongoc) (opt : Bytes) (zarr : Option Table) (key : Bytes) (d e : Doc)
    → opt_bool env m opt zarr key done d ≡ done e
    → (rest : Doc) × (d +++ rest ≡ e)
unfolding opt_bool when_found
opt_bool-done env m opt zarr key d e h = elim (Option-cases (fetch zarr key)) [
  | inl n ↦ (finish, +++-finish d ∙ ap result (rw n at h))
  | inr (z, s) ↦ (
    single opt (Bson.bool (env.zval_to_bool z)),
    append-done m opt (Bson.bool (env.zval_to_bool z)) d e (rw s at h),
  )
]

-- What a limit makes of the options: its size, and `singleBatch`.
abbrev pub limited : ℤ → Doc → Doc
limited v rest = element (codes "limit") (Bson.int64 (pos (magnitude v))) rest

limited-join :
    (w v : ℤ) (d c e rest : Doc)
    → w ≡ pos (magnitude v)
    → d +++ single (codes "limit") (Bson.int64 w) ≡ c
    → c +++ rest ≡ e
    → d +++ limited v rest ≡ e
unfolding ◌+++◌
limited-join w v d c e rest h g l =
    sym (+++_assoc d (single (codes "limit") (Bson.int64 (pos (magnitude v)))) rest)
    ∙ ap (λ x. (d +++ single (codes "limit") (Bson.int64 x)) +++ rest) (sym h)
    ∙ ap (λ x. x +++ rest) g
    ∙ l

pos-magnitude : (v : ℤ) → ltb_ℤ v (pos 0) ≡ false → v ≡ pos (magnitude v)
pos-magnitude (pos n) h = refl
pos-magnitude (negsuc n) h = ground arith

single_batch-done :
    (m : Mongoc) (off : Bool) (c e : Doc)
    → (if off
        then refuse c "Negative \"limit\" option conflicts with false \"singleBatch\" option"
        else append m (codes "singleBatch") (Bson.bool true) c)
      ≡ done e
    → c +++ single (codes "singleBatch") (Bson.bool true) ≡ e
single_batch-done m true c e h = absurd (stopped≢done h)
single_batch-done m false c e h = append-done m (codes "singleBatch") (Bson.bool true) c e h

negative-limited :
    (env : Env) (m : Mongoc) (options : Table) (v : ℤ) (d e : Doc)
    → ltb_ℤ v (pos 0) ≡ true
    → (v ==ℤ int64_min) ≡ false
    → limit_and_singlebatch env m options (some v) d ≡ done e
    → d +++ limited v (single (codes "singleBatch") (Bson.bool true)) ≡ e
unfolding limit_and_singlebatch
negative-limited env m options v d e l n h =
    let (c, (p, q)) = and_then-done _ _ e h in
    let grown : d +++ single (codes "limit") (Bson.int64 (neg_long v)) ≡ c =
      append-done m (codes "limit") (Bson.int64 (neg_long v)) d c p in
    let last : c +++ single (codes "singleBatch") (Bson.bool true) ≡ e =
      single_batch-done m (is_single_batch_off env options) c e q in
    limited-join (neg_long v) v d c e (single (codes "singleBatch") (Bson.bool true))
      (neg_long-magnitude v l n) grown last

positive-limited :
    (env : Env) (m : Mongoc) (options : Table) (z : Zval) (d e : Doc)
    → fetch (some options) (codes "limit") ≡ some z
    → ltb_ℤ (env.zval_to_long z) (pos 0) ≡ false
    → limit_and_singlebatch env m options none d ≡ done e
    → (rest : Doc) × (d +++ limited (env.zval_to_long z) rest ≡ e)
unfolding limit_and_singlebatch opt_int64 when_found
positive-limited env m options z d e f l h =
    let (c, (p, q)) =
      and_then-done (opt_int64 env m (codes "limit") (some options) (codes "limit") done d)
        (opt_bool env m (codes "singleBatch") (some options) (codes "singleBatch") done) e h in
    let grown : d +++ single (codes "limit") (Bson.int64 (env.zval_to_long z)) ≡ c =
      append-done m (codes "limit") (Bson.int64 (env.zval_to_long z)) d c (rw f at p) in
    let (rest, last) =
      opt_bool-done env m (codes "singleBatch") (some options) (codes "singleBatch") c e q in
    (
      rest,
      limited-join (env.zval_to_long z) (env.zval_to_long z) d c e rest
          (pos-magnitude (env.zval_to_long z) l) grown last,
    )

negative_limit-some :
    (env : Env) (options : Table) (z : Zval)
    → fetch (some options) (codes "limit") ≡ some z
    → ltb_ℤ (env.zval_to_long z) (pos 0) ≡ true
    → negative_limit env options ≡ some (env.zval_to_long z)
unfolding negative_limit
negative_limit-some env options z f l = rw (negative_limit, f, l)

negative_limit-none :
    (env : Env) (options : Table) (z : Zval)
    → fetch (some options) (codes "limit") ≡ some z
    → ltb_ℤ (env.zval_to_long z) (pos 0) ≡ false
    → negative_limit env options ≡ none
unfolding negative_limit
negative_limit-none env options z f l = rw (negative_limit, f, l)

-- When the options have a limit other than the least integer and are taken, libmongoc gets the
-- absolute value of the limit; and for a negative one, `singleBatch` is true.
pub init_limit_and_singlebatch-magnitude :
    (env : Env) (m : Mongoc) (options : Table) (z : Zval) (d e : Doc)
    → fetch (some options) (codes "limit") ≡ some z
    → (env.zval_to_long z ==ℤ int64_min) ≡ false
    → init_limit_and_singlebatch env m options d ≡ done e
    → (rest : Doc) × ((d +++ limited (env.zval_to_long z) rest ≡ e)
        × (ltb_ℤ (env.zval_to_long z) (pos 0) ≡ true
            → rest ≡ single (codes "singleBatch") (Bson.bool true)))
unfolding init_limit_and_singlebatch
init_limit_and_singlebatch-magnitude env m options z d e f n h =
    elim (Bool-cases (ltb_ℤ (env.zval_to_long z) (pos 0))) [
      | inl l ↦ (
        single (codes "singleBatch") (Bson.bool true),
        (
          negative-limited env m options (env.zval_to_long z) d e l n
              (rw (negative_limit-some env options z f l) at h),
          λ _. refl,
        ),
      )
      | inr l ↦
          let (rest, grown) =
            positive-limited env m options z d e f l
              (rw (negative_limit-none env options z f l) at h) in
          (rest, (grown, λ y. absurd (false≢true (sym l ∙ y))))
    ]
