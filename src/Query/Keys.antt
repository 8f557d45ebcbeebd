-- ===== src/Query/Keys.antt =====
-- src/MongoDB/Query.c: which options a query hands to libmongoc.
use dotdeb_php_mongodb.Prelude.{
  ℤ, Bytes, codes, Bool, true, false, List, [], ◌∷◌, ◌++◌, Option, none, some, if◌then◌else◌, ◌≡◌,
  refl, sym, subst, Bool-cases, inl, inr, ◌∙◌, String, ap, Option-cases,
}
use dotdeb_php_mongodb.Errors.{is_pending}
use dotdeb_php_mongodb.Bson.{Bson, Doc, finish, ◌+++◌}
use dotdeb_php_mongodb.Php.{Zval, Table, Env}
use dotdeb_php_mongodb.Encode.{no_flags, zval_to_bson}
use dotdeb_php_mongodb.Mongoc.{Mongoc}
use dotdeb_php_mongodb.Options.{
  Applied, done, stopped, run_steps, append, fetch, opt_bool, opt_int64, opt_document, refuse,
}
use dotdeb_php_mongodb.Query.{
  query_steps, init_hint, append_hint, init_limit_and_singlebatch, limit_and_singlebatch,
  negative_limit, is_single_batch_off, neg_long, Query, init_options, query_init, init_readconcern,
  after_steps, Modifiers, with_filter, given, mistyped, modifiers_of,
}
use dotdeb_php_mongodb.Options.Extending.{
  keys, Within, nil-Within, result, Extends, Adds, kept, done-Adds, and_then-Extends, append-Adds,
  append_document-Adds, append_string-Adds, when_found-Adds, opt_bool-Adds, opt_int64-Adds,
  opt_document-Adds, opt_string-Adds,
}

append_hint-Adds :
    (env : Env) (m : Mongoc) (message : String) (z : Zval)
    → Adds (codes "hint" ∷ []) (append_hint env m message z)
unfolding append_hint
append_hint-Adds env m message (Zval.string s) d =
    append_string-Adds m (codes "hint") (Zval.string s) d
append_hint-Adds env m message (Zval.array t) d =
    append_document-Adds env m (codes "hint") (Zval.array t) d
append_hint-Adds env m message (Zval.bson o) d =
    append_document-Adds env m (codes "hint") (Zval.bson o) d
append_hint-Adds env m message (Zval.object c p r) d =
    append_document-Adds env m (codes "hint") (Zval.object c p r) d
append_hint-Adds env m message _ d = kept (codes "hint" ∷ []) d (refuse d message) refl

init_hint-Adds :
    (env : Env) (m : Mongoc) (options : Table) (modifiers : Option Table)
    → Adds (codes "hint" ∷ []) (init_hint env m options modifiers)
unfolding init_hint
init_hint-Adds env m options modifiers =
    when_found-Adds (codes "hint" ∷ []) (fetch (some options) (codes "hint")) _ _
      (append_hint-Adds env m _)
      (when_found-Adds (codes "hint" ∷ []) (fetch modifiers (codes "$hint")) _ done
        (append_hint-Adds env m _) (done-Adds (codes "hint" ∷ [])))

single_batch-Adds :
    (m : Mongoc) (off : Bool)
    → Adds (codes "singleBatch" ∷ []) (λ e.
      if off
      then refuse e "Negative \"limit\" option conflicts with false \"singleBatch\" option"
      else append m (codes "singleBatch") (Bson.bool true) e)
single_batch-Adds m true e =
    kept (codes "singleBatch" ∷ []) e
      (refuse e "Negative \"limit\" option conflicts with false \"singleBatch\" option") refl
single_batch-Adds m false e = append-Adds m (codes "singleBatch") (Bson.bool true) e

limit_and_singlebatch-Adds :
    (env : Env) (m : Mongoc) (options : Table) (o : Option ℤ)
    → Adds (codes "limit" ∷ codes "singleBatch" ∷ []) (limit_and_singlebatch env m options o)
unfolding limit_and_singlebatch
limit_and_singlebatch-Adds env m options (some v) d =
    and_then-Extends (codes "limit" ∷ []) (codes "singleBatch" ∷ []) d
      (append m (codes "limit") (Bson.int64 (neg_long v)) d) _
      (append-Adds m (codes "limit") (Bson.int64 (neg_long v)) d)
      (single_batch-Adds m (is_single_batch_off env options))
limit_and_singlebatch-Adds env m options none d =
    and_then-Extends (codes "limit" ∷ []) (codes "singleBatch" ∷ []) d _ _
      (opt_int64-Adds env m (codes "limit") (some options) (codes "limit") done
        (done-Adds (codes "limit" ∷ [])) d)
      (opt_bool-Adds env m (codes "singleBatch") (some options) (codes "singleBatch") done
        (done-Adds (codes "singleBatch" ∷ [])))

cons-Adds :
    (opts more : List Bytes) (f : Doc → Applied) (fs : List (Doc → Applied))
    → Adds opts f
    → Adds more (run_steps fs)
    → Adds (opts ++ more) (run_steps (f ∷ fs))
unfolding run_steps
cons-Adds opts more f fs h i d = and_then-Extends opts more d (f d) (run_steps fs) (h d) i

nil-Adds : Adds [] (run_steps [])
unfolding run_steps
nil-Adds = done-Adds []

-- The options of a query, in the order in which `php_phongo_query_init` adds them.
abbrev pub option_names : List Bytes
option_names =
    codes "allowPartialResults"
    ∷ codes "awaitData"
    ∷ codes "batchSize"
    ∷ codes "collation"
    ∷ codes "comment"
    ∷ codes "exhaust"
    ∷ codes "max"
    ∷ codes "maxScan"
    ∷ codes "maxTimeMS"
    ∷ codes "min"
    ∷ codes "noCursorTimeout"
    ∷ codes "oplogReplay"
    ∷ codes "projection"
    ∷ codes "returnKey"
    ∷ codes "showRecordId"
    ∷ codes "skip"
    ∷ codes "sort"
    ∷ codes "snapshot"
    ∷ codes "tailable"
    ∷ codes "explain"
    ∷ codes "hint"
    ∷ codes "limit"
    ∷ codes "singleBatch"
    ∷ []

query_steps-Adds :
    (env : Env) (m : Mongoc) (options : Table) (modifiers : Option Table)
    → Adds option_names (run_steps (query_steps env m options modifiers))
unfolding query_steps init_limit_and_singlebatch
query_steps-Adds env m options modifiers =
    let bool : (k : Bytes) (f : Doc → Applied)
        → Adds (k ∷ []) f
        → Adds (k ∷ []) (opt_bool env m k (some options) k f) =
      λ k. opt_bool-Adds env m k (some options) k in
    let int64 : (k : Bytes) (f : Doc → Applied)
        → Adds (k ∷ []) f
        → Adds (k ∷ []) (opt_int64 env m k (some options) k f) =
      λ k. opt_int64-Adds env m k (some options) k in
    let document : (k : Bytes) (f : Doc → Applied)
        → Adds (k ∷ []) f
        → Adds (k ∷ []) (opt_document env m k (some options) k f) =
      λ k. opt_document-Adds env m k (some options) k in
    cons-Adds _ _ _ _
      (bool _ _ (opt_bool-Adds env m _ (some options) (codes "partial") done (done-Adds _)))
      (cons-Adds _ _ _ _ (bool _ _ (done-Adds _)) (
        cons-Adds _ _ _ _ (int64 _ _ (done-Adds _)) (
          cons-Adds _ _ _ _ (document _ _ (done-Adds _)) (
            cons-Adds _ _ _ _
              (opt_string-Adds m _ (some options) (codes "comment") _
                (opt_string-Adds m _ modifiers (codes "$comment") done (done-Adds _)))
              (cons-Adds _ _ _ _ (bool _ _ (done-Adds _)) (
                cons-Adds _ _ _ _
                  (document _ _
                    (opt_document-Adds env m _ modifiers (codes "$max") done (done-Adds _)))
                  (cons-Adds _ _ _ _
                    (int64 _ _
                      (opt_int64-Adds env m _ modifiers (codes "$maxScan") done (done-Adds _)))
                    (cons-Adds _ _ _ _
                      (int64 _ _
                        (opt_int64-Adds env m _ modifiers (codes "$maxTimeMS") done (done-Adds _)))
                      (cons-Adds _ _ _ _
                        (document _ _
                          (opt_document-Adds env m _ modifiers (codes "$min") done (done-Adds _)))
                        (cons-Adds _ _ _ _ (bool _ _ (done-Adds _)) (
                          cons-Adds _ _ _ _ (bool _ _ (done-Adds _)) (
                            cons-Adds _ _ _ _ (document _ _ (done-Adds _)) (
                              cons-Adds _ _ _ _
                                (bool _ _ (
                                  opt_bool-Adds env m _ modifiers (codes "$returnKey") done
                                    (done-Adds _)))
                                (cons-Adds _ _ _ _
                                  (bool _ _ (
                                    opt_bool-Adds env m _ modifiers (codes "$showDiskLoc") done
                                      (done-Adds _)))
                                  (cons-Adds _ _ _ _ (int64 _ _ (done-Adds _)) (
                                    cons-Adds _ _ _ _
                                      (document _ _ (
                                        opt_document-Adds env m _ modifiers (codes "$orderby") done
                                          (done-Adds _)))
                                      (cons-Adds _ _ _ _
                                        (bool _ _ (
                                          opt_bool-Adds env m _ modifiers (codes "$snapshot") done
                                            (done-Adds _)))
                                        (cons-Adds _ _ _ _ (bool _ _ (done-Adds _)) (
                                          cons-Adds _ _ _ _
                                            (opt_bool-Adds env m _ modifiers (codes "$explain") done
                                              (done-Adds _))
                                            (cons-Adds _ _ _ _
                                              (init_hint-Adds env m options modifiers)
                                              (cons-Adds _ _ _ _
                                                (limit_and_singlebatch-Adds env m options
                                                  (negative_limit env options))
                                                nil-Adds)))))))))))))))))))))

init_readconcern-opts :
    (concern_of : Zval → Option (Option Bytes)) (options : Table) (intern : Query)
    → (init_readconcern concern_of options intern).0.opts ≡ intern.opts
unfolding init_readconcern
init_readconcern-opts concern_of options intern =
    elim (Option-cases (fetch (some options) (codes "readConcern"))) [
      | inl e ↦ rw (init_readconcern, e)
      | inr (z, e) ↦ elim (Option-cases (concern_of z)) [
        | inl c ↦ rw (init_readconcern, e, c)
        | inr (level, c) ↦ rw (init_readconcern, e, c)
      ]
    ]

after_steps-opts :
    (concern_of : Zval → Option (Option Bytes)) (options : Table) (intern : Query) (a : Applied)
    → (after_steps concern_of options intern a).0.opts ≡ result a
after_steps-opts concern_of options intern (done d) =
    unfold after_steps in init_readconcern-opts concern_of options (record intern { opts = d })
after_steps-opts concern_of options intern (stopped d fs) = unfold after_steps in refl

Extends-finish :
    (opts : List Bytes) (d : Doc) (a : Applied)
    → Extends opts d a
    → d ≡ finish
    → Within (keys (result a)) opts
unfolding ◌+++◌
Extends-finish opts d a h e =
    subst (λ x. Within (keys x) opts) (sym (h.grown ∙ ap (λ x. x +++ h.extra) e)) h.within

init_options-keys :
    (env : Env) (m : Mongoc) (concern_of : Zval → Option (Option Bytes)) (options : Table)
    (intern : Query) (o : Modifiers)
    → intern.opts ≡ finish
    → Within (keys (init_options env m concern_of options intern o).0.opts) option_names
unfolding init_options
init_options-keys env m concern_of options intern mistyped h = rw h (nil-Within option_names)
init_options-keys env m concern_of options intern (given modifiers) h =
    rw
      (after_steps-opts concern_of options intern
        (run_steps (query_steps env m options modifiers) intern.opts))
      (Extends-finish option_names intern.opts _
        (query_steps-Adds env m options modifiers intern.opts) h)

with_filter-keys :
    (env : Env) (m : Mongoc) (concern_of : Zval → Option (Option Bytes)) (options : Option Table)
    (intern : Query)
    → intern.opts ≡ finish
    → Within (keys (with_filter env m concern_of options intern).0.opts) option_names
with_filter-keys env m concern_of none intern h =
    unfold with_filter in rw h (nil-Within option_names)
with_filter-keys env m concern_of (some options) intern h =
    unfold with_filter in
    init_options-keys env m concern_of options intern
      (modifiers_of (fetch (some options) (codes "modifiers"))) h

-- The options that a query hands to libmongoc have the names that libmongoc knows and no other, each
-- at most once and in one order, whatever the user gives as options and as modifiers.
pub query_init-keys :
    (env : Env) (m : Mongoc) (concern_of : Zval → Option (Option Bytes)) (filter : Zval)
    (options : Option Table)
    → Within (keys (query_init env m concern_of filter options).0.opts) option_names
unfolding query_init
query_init-keys env m concern_of filter options =
    elim (Bool-cases (is_pending (zval_to_bson env no_flags filter).thrown)) [
      | inl e ↦ rw e (nil-Within option_names)
      | inr e ↦ rw e (
          with_filter-keys env m concern_of options
            (record {
              filter = (zval_to_bson env no_flags filter).doc;
              opts = finish;
              read_concern = none;
            })
            refl)
    ]
