-- ===== src/Function/Namespaces.antt =====
-- internal/common/function/function.go: what `containsOnlyNamespace` decides.
use oadp_non_admin.Base.{
  String, ◌≡◌, ◌↔◌, refl, true, List, [], ◌∷◌, ◌==◌, All, Bool-cases, inl, inr, eq_iff,
}
use oadp_non_admin.Function.Validate.{contains_only_namespace}

only-All :
    (ns : List String) (namespace : String)
    → contains_only_namespace ns namespace ≡ true
    → All (λ n. n ≡ namespace) ns
unfolding contains_only_namespace
only-All [] namespace e = tt
only-All (n ∷ ns) namespace e = elim (Bool-cases (n == namespace)) [
  | inl p ↦ ((eq_iff n namespace).0 p, only-All ns namespace (rw p at e))
  | inr p ↦ absurd (cc (rw p at e))
]

All-only :
    (ns : List String) (namespace : String)
    → All (λ n. n ≡ namespace) ns
    → contains_only_namespace ns namespace ≡ true
unfolding contains_only_namespace
All-only [] namespace a = refl
All-only (n ∷ ns) namespace a = rw ((eq_iff n namespace).1 a.0, All-only ns namespace a.1) refl

-- `containsOnlyNamespace` returns true just where every element of the list is the namespace.
pub contains_only_namespace_iff :
    (ns : List String) (namespace : String)
    → (contains_only_namespace ns namespace ≡ true) ↔ All (λ n. n ≡ namespace) ns
contains_only_namespace_iff ns namespace = (only-All ns namespace, All-only ns namespace)
