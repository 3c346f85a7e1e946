-- ===== src/Function/Entries.antt =====
-- internal/common/function/function.go: what the lookups of labels and annotations find.
use oadp_non_admin.Base.{
  ℕ, ◌+◌, String, ◌≡◌, ◌≢◌, refl, some, ◌∷◌, lookup, ap, true, false, ◌&&◌, ◌==◌, ◌<◌, ltb, len,
  len-append, ◌+s◌, arith, Bool, Bool-cases, inl, inr, eq_iff, eq_refl, not,
}
use oadp_non_admin.Kube.Objects.{StringMap}
use oadp_non_admin.Kube.Vendor.{Vendor}
use oadp_non_admin.Function.Metadata.{
  check_label_value, check_label_annotation_value_is_valid, value_at,
}

pub not-false : (b : Bool) → not b ≡ false → b ≡ true
not-false b e = ground arith

same_length : (a b c m n : ℕ) → m ≡ a + b → n ≡ a + c → m ≡ n → b ≡ c
same_length a b c m n p q l = omega arith

add_nothing : (n : ℕ) → n ≡ n + 0
add_nothing n = omega arith

pub not_equal : (s t : String) → s ≢ t → (s == t) ≡ false
not_equal s t f = elim (Bool-cases (s == t)) [ inl e ↦ absurd (f ((eq_iff s t).0 e)) | inr e ↦ e ]

pub append_differs : (s t u : String) → len t ≢ len u → (s +s t) ≢ (s +s u)
append_differs s t u h e =
    let p = len-append s t in
    let q = len-append s u in let l = ap len e in h (same_length (len s) _ _ _ _ p q l)

pub append_longer : (s t : String) → len t ≢ 0 → (s +s t) ≢ s
append_longer s t h e =
    let p = len-append s t in
    let q = ap len e in h (same_length (len s) _ 0 _ _ p (add_nothing (len s)) q)

pub value_at_head : (k x : String) (m : StringMap) → value_at ((k, x) ∷ m) k ≡ x
value_at_head k x m = ground (arith, eq_refl k)

pub value_at_next :
    (j k x : String) (m : StringMap) → (j == k) ≡ false → value_at ((j, x) ∷ m) k ≡ value_at m k
value_at_next j k x m e = ground arith

module _ ⦃v : Vendor⦄ where
  valid_value :
      (s : String)
      → 0 < len s
      → len s < v.dns1123_subdomain_max_length
      → (ltb 0 (len s) && ltb (len s) v.dns1123_subdomain_max_length) ≡ true
  valid_value s h k = ground arith

  -- A length that `CheckLabelAnnotationValueIsValid` accepts.
  abbrev pub IsValidLength : String → Type 0
  IsValidLength s = (0 < len s) × (len s < v.dns1123_subdomain_max_length)

  -- The entry that a lookup finds, behind one with another key or at once.
  pub lookup_behind : (j k x : String) (m : StringMap) → j ≢ k → lookup k ((j, x) ∷ m) ≡ lookup k m
  lookup_behind j k x m h = rw (not_equal j k h) refl

  pub lookup_here : (k x : String) (m : StringMap) → lookup k ((k, x) ∷ m) ≡ some x
  lookup_here k x m = rw (eq_refl k) refl

  pub label_checked :
      (m : StringMap) (key value : String)
      → lookup key m ≡ some value
      → check_label_value m key value ≡ true
  unfolding check_label_value
  label_checked m key value e = rw (check_label_value, e, eq_refl value) refl

  pub value_checked :
      (m : StringMap) (key value : String)
      → lookup key m ≡ some value
      → IsValidLength value
      → check_label_annotation_value_is_valid m key ≡ true
  unfolding check_label_annotation_value_is_valid
  value_checked m key value e h =
      rw (check_label_annotation_value_is_valid, e, valid_value value h.0 h.1) refl
