-- ===== src/BulkWrite/Namespaces.antt =====
-- php_phongo.c, `phongo_split_namespace`.
use mathlib.Core.Bool.{false≢true}
use dotdeb_php_mongodb.Prelude.{
  Bytes, has_byte, false, [], ◌∷◌, ◌++◌, Option, none, some, ◌==◌, ◌≡◌, ◌↔◌, refl, ap, sym, subst,
  Bool-cases, Option-cases, inl, inr, ==_iff, none≢some,
}
use dotdeb_php_mongodb.BulkWrite.{split_namespace}

split_namespace-join :
    (d c : Bytes) → has_byte b'.' d ≡ false → split_namespace (d ++ b'.' ∷ c) ≡ some (d, c)
unfolding split_namespace has_byte
split_namespace-join [] c h = refl
split_namespace-join (x ∷ d) c h = elim (Bool-cases (x == b'.')) [
  | inl e ↦ absurd (false≢true (sym (rw e at h)))
  | inr e ↦ rw (e, split_namespace-join d c (rw e at h))
]

abbrev get_or : Bytes × Bytes → Option (Bytes × Bytes) → Bytes × Bytes
get_or p none = p
get_or p (some q) = q

abbrev IsJoin : Bytes → Bytes × Bytes → Type 0
IsJoin ns p = (ns ≡ p.0 ++ b'.' ∷ p.1) × (has_byte b'.' p.0 ≡ false)

split_namespace-parts : (ns : Bytes) (p : Bytes × Bytes) → split_namespace ns ≡ some p → IsJoin ns p
unfolding split_namespace has_byte
split_namespace-parts [] p h = cc
split_namespace-parts (x ∷ s) p h = elim (Bool-cases (x == b'.')) [
  | inl e ↦
      subst (IsJoin (x ∷ s)) (ap (get_or p) (rw e at h))
        (ap (λ y. y ∷ s) ((==_iff x b'.').0 e), refl)
  | inr e ↦ elim (Option-cases (split_namespace s)) [
    | inl n ↦ absurd (none≢some (rw (e, n) at h))
    | inr (parts, n) ↦
        let (joined, clean) = split_namespace-parts s parts n in
        subst (IsJoin (x ∷ s)) (ap (get_or p) (rw (e, n) at h))
          (ap (λ t. x ∷ t) joined, rw (e, clean))
  ]
]

-- A namespace is split at its first dot: the parts are a database and a collection exactly if the
-- namespace is the one, a dot and the other, and the database has no dot.
pub split_namespace_iff :
    (ns : Bytes) (d c : Bytes)
    → (split_namespace ns ≡ some (d, c)) ↔ ((ns ≡ d ++ b'.' ∷ c) × (has_byte b'.' d ≡ false))
split_namespace_iff ns d c =
    (split_namespace-parts ns (d, c), λ h. rw h.0 (split_namespace-join d c h.1))
