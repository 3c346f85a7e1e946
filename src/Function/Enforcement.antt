-- ===== src/Function/Enforcement.antt =====
-- What the loops over enforced specs guarantee.
use oadp_non_admin.Base.{
  ℕ, suc, String, ◌≡◌, ◌⊎◌, inl, inr, refl, Bool, true, false, Option, none, some, List, [], ◌∷◌,
  Bool-cases, and_not, holds-true, sym, ◌∙◌,
}
use oadp_non_admin.Kube.Objects.{FieldValue, FieldValue-discrete, BackupSpec}
use oadp_non_admin.Kube.Api.{ret}
use oadp_non_admin.Function.Fields.{
  is_zero, deep_equal, conflicts, check_enforced, others_fields, backup_fields, fill_option,
  fill_text, fill_other, fill_others, enforce,
}

-- A relation between the fields of two specs, field by field.
abbrev pub Fieldwise :
    (FieldValue → FieldValue → Type 0) → List FieldValue → List FieldValue → Type 0
Fieldwise P (x ∷ xs) (y ∷ ys) = P x y × Fieldwise P xs ys
Fieldwise P [] ys = Unit
Fieldwise P (x ∷ xs) [] = Unit

-- A field that a list does not have is zero.
abbrev pub missing : FieldValue
missing = FieldValue.other 0

-- A relation between all fields of two specs, a missing one being zero.
abbrev pub AllFields :
    (FieldValue → FieldValue → Type 0) → List FieldValue → List FieldValue → Type 0
AllFields P [] [] = Unit
AllFields P (x ∷ xs) [] = P x missing × AllFields P xs []
AllFields P [] (y ∷ ys) = P missing y × AllFields P [] ys
AllFields P (x ∷ xs) (y ∷ ys) = P x y × AllFields P xs ys

-- The field has the enforced value, or none is enforced.
abbrev pub Respects : FieldValue → FieldValue → Type 0
Respects enforced field = (is_zero enforced ≡ true) ⊎ (enforced ≡ field)

-- A value that the user sets stays.
abbrev pub Preserves : FieldValue → FieldValue → Type 0
Preserves user field = (is_zero user ≡ true) ⊎ (user ≡ field)

abbrev pub Compatible : FieldValue → FieldValue → Type 0
Compatible enforced user = conflicts enforced user ≡ false

check_enforced-Compatible :
    (i : ℕ) (es cs : List FieldValue) → check_enforced i es cs ≡ ret tt → Fieldwise Compatible es cs
unfolding check_enforced
check_enforced-Compatible i (e ∷ es) (c ∷ cs) p = elim (Bool-cases (conflicts e c)) [
  | inl q ↦ absurd (cc (rw q at p))
  | inr q ↦ (q, check_enforced-Compatible (suc i) es cs (rw q at p))
]
check_enforced-Compatible i [] cs p = tt
check_enforced-Compatible i (e ∷ es) [] p = tt

Compatible-cases :
    (e c : FieldValue) → Compatible e c → (is_zero e ≡ true) ⊎ ((is_zero c ≡ true) ⊎ (e ≡ c))
unfolding conflicts deep_equal
Compatible-cases e c p = elim (and_not (is_zero e) (is_zero c) (deep_equal e c) p) [
  | inl q ↦ inl q
  | inr (inl q) ↦ inr (inl q)
  | inr (inr q) ↦ inr (inr (holds-true (FieldValue-discrete e c) q))
]

-- What becomes of a field: what the user has set stays, and what is compatible with the enforced
-- value ends with it.
abbrev Merges : FieldValue → FieldValue → FieldValue → Type 0
Merges e c f = Preserves c f × (Compatible e c → Respects e f)

merged :
    (e c f : FieldValue) → (is_zero c ≡ true → f ≡ e) → (is_zero c ≡ false → f ≡ c) → Merges e c f
merged e c f p q = elim (Bool-cases (is_zero c)) [
  | inl z ↦ (inl z, λ _. inr (sym (p z)))
  | inr z ↦ (
    inr (sym (q z)),
    λ k. elim (Compatible-cases e c k) [
      | inl y ↦ inl y
      | inr (inl y) ↦ absurd (cc (y, z))
      | inr (inr y) ↦ inr (y ∙ sym (q z))
    ],
  )
]

strs-Merges :
    (e c : Option (List String))
    → Merges (FieldValue.strs e) (FieldValue.strs c) (FieldValue.strs (fill_option e c))
unfolding is_zero
strs-Merges e none = merged _ _ _ (λ _. refl) (λ q. cc)
strs-Merges e (some c) = merged _ _ _ (λ q. cc) (λ _. refl)

flag-Merges :
    (e c : Option Bool)
    → Merges (FieldValue.flag e) (FieldValue.flag c) (FieldValue.flag (fill_option e c))
unfolding is_zero
flag-Merges e none = merged _ _ _ (λ _. refl) (λ q. cc)
flag-Merges e (some c) = merged _ _ _ (λ q. cc) (λ _. refl)

text-Merges :
    (e c : String)
    → Merges (FieldValue.text e) (FieldValue.text c) (FieldValue.text (fill_text e c))
unfolding is_zero
text-Merges e c = merged _ _ _ (λ q. rw q refl) (λ q. rw q refl)

other-Merges :
    (e c : ℕ) → Merges (FieldValue.other e) (FieldValue.other c) (FieldValue.other (fill_other e c))
unfolding is_zero
other-Merges e c = merged _ _ _ (λ q. rw q refl) (λ q. rw q refl)

-- `Merges` field by field. A field that the user's spec does not have gets the enforced value.
abbrev Merged : List FieldValue → List FieldValue → List FieldValue → Type 0
Merged (e ∷ es) (c ∷ cs) (f ∷ fs) = Merges e c f × Merged es cs fs
Merged (e ∷ es) [] (f ∷ fs) = (e ≡ f) × Merged es [] fs
Merged [] (c ∷ cs) (f ∷ fs) = Preserves c f × Merged [] cs fs
Merged [] [] [] = Unit
Merged _ _ _ = ⊥

others-Merged :
    (es cs : List ℕ)
    → Merged (others_fields es) (others_fields cs) (others_fields (fill_others es cs))
others-Merged [] [] = tt
others-Merged [] (c ∷ cs) = (inr refl, others-Merged [] cs)
others-Merged (e ∷ es) [] = (refl, enforced_only es)
  where
    enforced_only : (es : List ℕ) → Merged (others_fields es) [] (others_fields es)
    enforced_only [] = tt
    enforced_only (e ∷ es) = (refl, enforced_only es)
others-Merged (e ∷ es) (c ∷ cs) = (other-Merges e c, others-Merged es cs)

missing_zero : is_zero missing ≡ true
unfolding is_zero
missing_zero = refl

Merged-Preserves : (es cs fs : List FieldValue) → Merged es cs fs → AllFields Preserves cs fs
Merged-Preserves (e ∷ es) (c ∷ cs) (f ∷ fs) m = (m.0.0, Merged-Preserves es cs fs m.1)
Merged-Preserves (e ∷ es) [] (f ∷ fs) m = (inl missing_zero, Merged-Preserves es [] fs m.1)
Merged-Preserves [] (c ∷ cs) (f ∷ fs) m = (m.0, Merged-Preserves [] cs fs m.1)
Merged-Preserves [] [] [] m = tt
Merged-Preserves (e ∷ es) (c ∷ cs) [] m = absurd m
Merged-Preserves (e ∷ es) [] [] m = absurd m
Merged-Preserves [] (c ∷ cs) [] m = absurd m
Merged-Preserves [] [] (f ∷ fs) m = absurd m

nothing-Compatible : (es : List FieldValue) → Fieldwise Compatible es []
nothing-Compatible [] = tt
nothing-Compatible (e ∷ es) = tt

Merged-Respects :
    (es cs fs : List FieldValue)
    → Merged es cs fs
    → Fieldwise Compatible es cs
    → AllFields Respects es fs
Merged-Respects (e ∷ es) (c ∷ cs) (f ∷ fs) m k = (m.0.1 k.0, Merged-Respects es cs fs m.1 k.1)
Merged-Respects (e ∷ es) [] (f ∷ fs) m k =
    (inr m.0, Merged-Respects es [] fs m.1 (nothing-Compatible es))
Merged-Respects [] (c ∷ cs) (f ∷ fs) m k = (inl missing_zero, Merged-Respects [] cs fs m.1 tt)
Merged-Respects [] [] [] m k = tt
Merged-Respects (e ∷ es) (c ∷ cs) [] m k = absurd m
Merged-Respects (e ∷ es) [] [] m k = absurd m
Merged-Respects [] (c ∷ cs) [] m k = absurd m
Merged-Respects [] [] (f ∷ fs) m k = absurd m

enforce-Merged :
    (e c : BackupSpec) → Merged (backup_fields e) (backup_fields c) (backup_fields (enforce e c))
unfolding enforce
enforce-Merged e c = (
  strs-Merges e.included_namespaces c.included_namespaces,
  (
    strs-Merges e.excluded_namespaces c.excluded_namespaces,
    (
      strs-Merges e.excluded_resources c.excluded_resources,
      (
        strs-Merges e.included_cluster_scoped_resources c.included_cluster_scoped_resources,
        (
          strs-Merges e.excluded_cluster_scoped_resources c.excluded_cluster_scoped_resources,
          (
            strs-Merges e.included_namespace_scoped_resources c.included_namespace_scoped_resources,
            (
              strs-Merges e.excluded_namespace_scoped_resources
                  c.excluded_namespace_scoped_resources,
              (
                flag-Merges e.include_cluster_resources c.include_cluster_resources,
                (
                  text-Merges e.storage_location c.storage_location,
                  (
                    strs-Merges e.volume_snapshot_locations c.volume_snapshot_locations,
                    others-Merged e.others c.others,
                  ),
                ),
              ),
            ),
          ),
        ),
      ),
    ),
  ),
)

-- In the spec that `enforce` makes of the user's, every field that the user has set keeps its value,
-- the fields without a name of their own included.
pub enforce-Preserves :
    (e c : BackupSpec) → AllFields Preserves (backup_fields c) (backup_fields (enforce e c))
enforce-Preserves e c =
    Merged-Preserves (backup_fields e) (backup_fields c) (backup_fields (enforce e c))
      (enforce-Merged e c)

-- Where the check of the user's spec against the enforced spec passes, every field of the spec that
-- `enforce` makes of the two has the enforced value, or its enforced value is zero, the fields without
-- a name of their own included.
pub enforce-Respects :
    (e c : BackupSpec)
    → check_enforced 0 (backup_fields e) (backup_fields c) ≡ ret tt
    → AllFields Respects (backup_fields e) (backup_fields (enforce e c))
enforce-Respects e c p =
    Merged-Respects (backup_fields e) (backup_fields c) (backup_fields (enforce e c))
      (enforce-Merged e c) (check_enforced-Compatible 0 (backup_fields e) (backup_fields c) p)
