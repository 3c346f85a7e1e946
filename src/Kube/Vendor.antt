-- ===== src/Kube/Vendor.antt =====
-- What the source takes from Go packages that are not part of the repository, as parameters:
-- constants and functions of k8s.io/apimachinery, controller-runtime, Velero and the OADP operator.
use oadp_non_admin.Base.{ℕ, String, Bool, Option, List, ◌≡◌, true, false}
use oadp_non_admin.Kube.Objects.{NonAdminCondition, Time}
use oadp_non_admin.Kube.Status.{Condition}

pub record Vendor : Type 0 where
  -- oadpv1alpha1.OadpOperatorLabel
  pub oadp_operator_label : String
  -- velerov1.RestoreNameLabel, BackupNameLabel, BackupUIDLabel and StorageLocationLabel
  pub restore_name_label : String
  pub backup_name_label : String
  pub backup_uid_label : String
  pub storage_location_label : String
  -- validation.DNS1123LabelMaxLength and DNS1123SubdomainMaxLength
  pub dns1123_label_max_length : ℕ
  pub dns1123_subdomain_max_length : ℕ
  -- velerov1.SchemeGroupVersion.String()
  pub velero_group_version : String
  -- `corev1.SecretTypeOpaque`
  pub secret_type_opaque : String
  -- (*metav1.Time).Before, of pointers that may be nil
  pub time_before : Option Time → Option Time → Bool
  -- label.GetValidName
  pub valid_name : String → String
  -- meta.SetStatusCondition with the list after it, and meta.IsStatusConditionTrue
  pub set_status_condition : List Condition → Condition → List Condition × Bool
  pub is_status_condition_true : List Condition → NonAdminCondition → Bool
  -- controllerutil.ContainsFinalizer, AddFinalizer and RemoveFinalizer on `metadata.finalizers`
  pub contains_finalizer : List String → String → Bool
  pub add_finalizer : List String → String → List String
  pub remove_finalizer : List String → String → List String
  -- what AddFinalizer returns
  pub finalizer_added : List String → String → Bool

-- What the documentation of these functions says: adding a finalizer makes the list contain it,
-- `AddFinalizer` returns false only where the list contains it already, and
-- `SetStatusCondition` returns whether it changed the list.
pub record VendorLaws (v : Vendor) : Type 0 where
  pub contains-add :
      (fs : List String) (f : String) → v.contains_finalizer (v.add_finalizer fs f) f ≡ true
  pub set_unchanged :
      (cs : List Condition) (c : Condition)
      → (v.set_status_condition cs c).1 ≡ false
      → (v.set_status_condition cs c).0 ≡ cs
  pub not_added :
      (fs : List String) (f : String)
      → v.finalizer_added fs f ≡ false
      → v.contains_finalizer fs f ≡ true
