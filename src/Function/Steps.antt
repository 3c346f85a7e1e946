-- ===== src/Function/Steps.antt =====
-- How the lookups and the checks of internal/common/function/function.go keep a set of rules.
use oadp_non_admin.Base.{
  ℕ, suc, String, ◌≡◌, refl, Bool, true, false, not, Option, none, some, List, [], ◌∷◌, ◌==◌, ◌||◌,
  Bool-cases, inl, inr,
}
use oadp_non_admin.Constant.{empty_string}
use oadp_non_admin.Kube.Objects.{FieldValue, BackupStorageLocation}
use oadp_non_admin.Kube.Status.{ApiError, Error, NonAdminBackupStorageLocation, VeleroBslReference}
use oadp_non_admin.Kube.Api.{
  Call, Payload, Selector, Reply, ok, err, Prog, event, History, Result, success, failure, ◌>>=◌,
}
use oadp_non_admin.Kube.Rules.{Rules, Keeps, Keeps-if}
use oadp_non_admin.Function.Fields.{Done, check_enforced, conflicts}
use oadp_non_admin.Function.Validate.{reject_if, nabsl_found, nabsl_uuid, bsl_usable, is_available}
use oadp_non_admin.Function.Lookup.{list_objects_by_label, at_most_one}

module _ (R : Rules) (failing : (h : History) (e : Error) → R.errs h e) where
  pub at_most_one-Keeps :
      {A : Type 0} (Q : History → Option A → Type 0) (h : History) (e : Error) (xs : List A)
      → (xs ≡ [] → Q h none)
      → ((x : A) → Q h (some x))
      → Keeps R Q h (at_most_one e xs)
  unfolding at_most_one
  at_most_one-Keeps Q h e [] n s = n refl
  at_most_one-Keeps Q h e (x ∷ []) n s = s x
  at_most_one-Keeps Q h e (x ∷ y ∷ xs) n s = failing h e

  pub list_objects_by_label-Keeps :
      {B : Type 0} (S : History → B → Type 0) (h : History) (list : String → Selector → Call)
      (namespace key value : String) (f : Payload (list namespace ((key, value) ∷ [])) → Prog B)
      → R.allows h (list namespace ((key, value) ∷ []))
      → ((xs : Payload (list namespace ((key, value) ∷ [])))
          → Keeps R S (event (list namespace ((key, value) ∷ [])) (ok xs) ∷ h) (f xs))
      → Keeps R S h (list_objects_by_label list namespace key value >>= f)
  unfolding list_objects_by_label
  list_objects_by_label-Keeps S h list namespace key value f a k =
      elim (Bool-cases
        (namespace == empty_string || (key == empty_string || value == empty_string))) [
          | inl e ↦ rw e (failing h _)
          | inr e ↦ rw e (a, elim [ err x ↦ λ l. failing _ _ | ok xs ↦ λ l. k xs ])
        ]

  pub check_enforced-Keeps :
      (Q : History → Done → Type 0) (h : History) (i : ℕ) (es cs : List FieldValue)
      → Q h tt
      → Keeps R Q h (check_enforced i es cs)
  unfolding check_enforced
  check_enforced-Keeps Q h i [] cs q = q
  check_enforced-Keeps Q h i (e ∷ es) [] q = q
  check_enforced-Keeps Q h i (e ∷ es) (c ∷ cs) q =
      Keeps-if R Q h (conflicts e c) _ _ (λ _. failing h _)
        (λ _. check_enforced-Keeps Q h (suc i) es cs q)

  pub reject_if-Keeps :
      {B : Type 0} (S : History → B → Type 0) (h : History) (b : Bool) (e : Error)
      (f : Done → Prog B)
      → (b ≡ false → Keeps R S h (f tt))
      → Keeps R S h (reject_if b e >>= f)
  reject_if-Keeps S h true e f k = failing h e
  reject_if-Keeps S h false e f k = k refl

  pub nabsl_found-Keeps :
      {B : Type 0} (S : History → B → Type 0) (h : History)
      (reply : Reply NonAdminBackupStorageLocation) (f : NonAdminBackupStorageLocation → Prog B)
      → ((nabsl : NonAdminBackupStorageLocation) → Keeps R S h (f nabsl))
      → Keeps R S h (nabsl_found reply >>= f)
  unfolding nabsl_found
  nabsl_found-Keeps S h (ok nabsl) f k = k nabsl
  nabsl_found-Keeps S h (err ApiError.not_found) f k = failing h _
  nabsl_found-Keeps S h (err ApiError.conflict) f k = failing h _
  nabsl_found-Keeps S h (err ApiError.other) f k = failing h _

  pub nabsl_uuid-Keeps :
      {B : Type 0} (S : History → B → Type 0) (h : History) (reference : Option VeleroBslReference)
      (f : String → Prog B)
      → ((uuid : String) → Keeps R S h (f uuid))
      → Keeps R S h (nabsl_uuid reference >>= f)
  unfolding nabsl_uuid
  nabsl_uuid-Keeps S h none f k = failing h _
  nabsl_uuid-Keeps S h (some x) f k = elim (Bool-cases (x.nacuuid == empty_string)) [
    | inl e ↦ rw e (failing h _)
    | inr e ↦ rw e (k _)
  ]

  pub bsl_usable-Keeps :
      (Q : History → Done → Type 0) (h : History) (uuid : String)
      (found : Result (Option BackupStorageLocation))
      → Q h tt
      → Keeps R Q h (bsl_usable uuid found)
  unfolding bsl_usable
  bsl_usable-Keeps Q h uuid (failure e) q = failing h _
  bsl_usable-Keeps Q h uuid (success none) q = failing h _
  bsl_usable-Keeps Q h uuid (success (some bsl)) q =
      Keeps-if R Q h (not (is_available bsl.phase)) _ _ (λ _. failing h _) (λ _. q)
