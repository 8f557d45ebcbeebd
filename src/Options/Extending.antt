-- ===== src/Options/Extending.antt =====
-- The option helpers of src/MongoDB/Query.c and src/MongoDB/BulkWrite.c: the keys that they add.
use dotdeb_php_mongodb.Prelude.{
  Bytes, List, [], ◌∷◌, ◌++◌, append-nil, Option, none, some, ◌≡◌, refl, sym, subst, Bool-cases,
  inl, inr, ◌∙◌, ◌⊎◌, ap,
}
use dotdeb_php_mongodb.Errors.{is_pending}
use dotdeb_php_mongodb.Bson.{
  Bson, Doc, finish, corrupt, unsupported, element, ◌+++◌, single, +++-finish, +++_assoc,
}
use dotdeb_php_mongodb.Php.{Zval, Table, Env}
use dotdeb_php_mongodb.Encode.{no_flags, zval_to_bson}
use dotdeb_php_mongodb.Mongoc.{Mongoc}
use dotdeb_php_mongodb.Options.{
  Applied, done, stopped, and_then, append, append_document, append_string, fetch, is_document,
  when_found, opt_bool, opt_int64, opt_document, opt_string, refuse,
}

-- The keys of a document, in order.
abbrev pub keys : Doc → List Bytes
keys (element k b d) = k ∷ keys d
keys _ = []

-- A list that is what remains of another one when some of its members are left out.
pub data Within : List Bytes → List Bytes → Type 0 where
  stop : Within [] []
  keep : (x : Bytes) (xs ys : List Bytes) → Within xs ys → Within (x ∷ xs) (x ∷ ys)
  drop : (y : Bytes) (xs ys : List Bytes) → Within xs ys → Within xs (y ∷ ys)

pub nil-Within : (ys : List Bytes) → Within [] ys
nil-Within [] = stop
nil-Within (y ∷ ys) = drop y [] ys (nil-Within ys)

append-Within :
    (xs ys zs ws : List Bytes) → Within xs ys → Within zs ws → Within (xs ++ zs) (ys ++ ws)
append-Within _ _ zs ws stop i = i
append-Within _ _ zs ws (keep x xs ys h) i =
    keep x (xs ++ zs) (ys ++ ws) (append-Within xs ys zs ws h i)
append-Within _ _ zs ws (drop y xs ys h) i =
    drop y (xs ++ zs) (ys ++ ws) (append-Within xs ys zs ws h i)

keys-append : (d e : Doc) → (keys (d +++ e) ≡ keys d ++ keys e) ⊎ (keys (d +++ e) ≡ keys d ++ [])
unfolding ◌+++◌
keys-append finish e = inl refl
keys-append corrupt e = inr refl
keys-append (unsupported k c) e = inr refl
keys-append (element k b d) e = elim (keys-append d e) [
  | inl h ↦ inl (ap (λ ks. k ∷ ks) h)
  | inr h ↦ inr (ap (λ ks. k ∷ ks) h)
]

keys-append-Within :
    (d e : Doc) (ys zs : List Bytes)
    → Within (keys d) ys
    → Within (keys e) zs
    → Within (keys (d +++ e)) (ys ++ zs)
keys-append-Within d e ys zs h i = elim (keys-append d e) [
  | inl k ↦ rw k (append-Within (keys d) ys (keys e) zs h i)
  | inr k ↦ rw k (append-Within (keys d) ys [] zs h (nil-Within zs))
]

-- The document that a helper leaves.
abbrev pub result : Applied → Doc
result (done d) = d
result (stopped d fs) = d

-- A helper that adds elements with some of the keys to a document, in their order.
pub record Extends (opts : List Bytes) (d : Doc) (a : Applied) : Type 0 where
  pub extra : Doc
  pub grown : result a ≡ d +++ extra
  pub within : Within (keys extra) opts

abbrev pub Adds : List Bytes → (Doc → Applied) → Type 0
Adds opts f = (d : Doc) → Extends opts d (f d)

pub kept : (opts : List Bytes) (d : Doc) (a : Applied) → result a ≡ d → Extends opts d a
kept opts d a h = record {
  extra = finish;
  grown = h ∙ sym (+++-finish d);
  within = nil-Within opts;
}

pub done-Adds : (opts : List Bytes) → Adds opts done
done-Adds opts d = kept opts d (done d) refl

pub and_then-Extends :
    (opts more : List Bytes) (d : Doc) (a : Applied) (f : Doc → Applied)
    → Extends opts d a
    → Adds more f
    → Extends (opts ++ more) d (and_then a f)
unfolding and_then
and_then-Extends opts more d (done e) f h i =
    let rest = i e in
    record {
      extra = h.extra +++ rest.extra;
      grown = rest.grown ∙ ap (λ x. x +++ rest.extra) h.grown ∙ +++_assoc d h.extra rest.extra;
      within = keys-append-Within h.extra rest.extra opts more h.within rest.within;
    }
and_then-Extends opts more d (stopped e fs) f h i = record {
  extra = h.extra;
  grown = h.grown;
  within =
      subst (λ ks. Within ks (opts ++ more)) (append-nil (keys h.extra))
        (append-Within (keys h.extra) opts [] more h.within (nil-Within more));
}

pub append-Adds : (m : Mongoc) (opt : Bytes) (b : Bson) → Adds (opt ∷ []) (append m opt b)
unfolding append
append-Adds m opt b d = elim (Bool-cases (m.can_append d opt b)) [
  | inl e ↦ rw e (record { extra = single opt b; grown = refl; within = keep opt [] [] stop })
  | inr e ↦ rw e (kept (opt ∷ []) d (refuse d "Error appending \"%s\" option") refl)
]

pub append_document-Adds :
    (env : Env) (m : Mongoc) (opt : Bytes) (z : Zval)
    → Adds (opt ∷ []) (append_document env m opt z)
unfolding append_document
append_document-Adds env m opt z d = elim (Bool-cases (is_document z)) [
  | inl e ↦ elim (Bool-cases (is_pending (zval_to_bson env no_flags z).thrown)) [
    | inl p ↦ rw (e, p) (kept (opt ∷ []) d (stopped d (zval_to_bson env no_flags z).thrown) refl)
    | inr p ↦ rw (e, p) (append-Adds m opt (Bson.document (zval_to_bson env no_flags z).doc) d)
  ]
  | inr e ↦
      rw e
        (kept (opt ∷ []) d (refuse d "Expected \"%s\" option to be array or object, %s given") refl)
]

pub append_string-Adds :
    (m : Mongoc) (opt : Bytes) (z : Zval) → Adds (opt ∷ []) (append_string m opt z)
unfolding append_string
append_string-Adds m opt (Zval.string s) d = append-Adds m opt (Bson.utf8 s) d
append_string-Adds m opt _ d =
    kept (opt ∷ []) d (refuse d "Expected \"%s\" %s to be string, %s given") refl

pub when_found-Adds :
    (opts : List Bytes) (o : Option Zval) (found : Zval → Doc → Applied) (missing : Doc → Applied)
    → ((z : Zval) → Adds opts (found z))
    → Adds opts missing
    → Adds opts (when_found o found missing)
unfolding when_found
when_found-Adds opts none found missing h i d = i d
when_found-Adds opts (some z) found missing h i d = h z d

pub opt_bool-Adds :
    (env : Env) (m : Mongoc) (opt : Bytes) (zarr : Option Table) (key : Bytes)
    (otherwise : Doc → Applied)
    → Adds (opt ∷ []) otherwise
    → Adds (opt ∷ []) (opt_bool env m opt zarr key otherwise)
unfolding opt_bool
opt_bool-Adds env m opt zarr key otherwise h =
    when_found-Adds (opt ∷ []) (fetch zarr key) _ otherwise
      (λ z. append-Adds m opt (Bson.bool (env.zval_to_bool z))) h

pub opt_int64-Adds :
    (env : Env) (m : Mongoc) (opt : Bytes) (zarr : Option Table) (key : Bytes)
    (otherwise : Doc → Applied)
    → Adds (opt ∷ []) otherwise
    → Adds (opt ∷ []) (opt_int64 env m opt zarr key otherwise)
unfolding opt_int64
opt_int64-Adds env m opt zarr key otherwise h =
    when_found-Adds (opt ∷ []) (fetch zarr key) _ otherwise
      (λ z. append-Adds m opt (Bson.int64 (env.zval_to_long z))) h

pub opt_document-Adds :
    (env : Env) (m : Mongoc) (opt : Bytes) (zarr : Option Table) (key : Bytes)
    (otherwise : Doc → Applied)
    → Adds (opt ∷ []) otherwise
    → Adds (opt ∷ []) (opt_document env m opt zarr key otherwise)
unfolding opt_document
opt_document-Adds env m opt zarr key otherwise h =
    when_found-Adds (opt ∷ []) (fetch zarr key) _ otherwise (append_document-Adds env m opt) h

pub opt_string-Adds :
    (m : Mongoc) (opt : Bytes) (zarr : Option Table) (key : Bytes) (otherwise : Doc → Applied)
    → Adds (opt ∷ []) otherwise
    → Adds (opt ∷ []) (opt_string m opt zarr key otherwise)
unfolding opt_string
opt_string-Adds m opt zarr key otherwise h =
    when_found-Adds (opt ∷ []) (fetch zarr key) _ otherwise (append_string-Adds m opt) h
