-- ===== src/Collector/Rules.antt =====
-- The rules for the calls of the garbage collector, and what each of its goroutines is to reach.
use oadp_non_admin.Base.{
  ◌≡◌, ◌⊎◌, inl, inr, Bool, true, false, none, some, List, [], ◌∷◌, All, All-map,
}
use oadp_non_admin.Kube.Objects.{NamespacedName, Secret, BackupStorageLocation, Backup, Restore}
use oadp_non_admin.Kube.Status.{ApiError, Error, NonAdminBackupStorageLocationRequest}
use oadp_non_admin.Kube.Api.{Call, err, event, History}
use oadp_non_admin.Kube.Rules.{Rules}
use oadp_non_admin.Kube.Facts.{
  Saw, Missing, Succeeded, Stays, Patient, Listing, Answered, Listed, Listed-Stays,
}
use oadp_non_admin.Kube.Vendor.{Vendor}
use oadp_non_admin.Collector.Sweeps.{
  CollectorReconciler, Kind, source_key, label_selector, secret_kind, bsl_kind, backup_kind,
  restore_kind,
}
use oadp_non_admin.Collector.Turns.{Goal, AllStay}

-- The object was listed, has the label and the annotations, and its owner was not there.
pub record IsOrphan {A : Type 0} (kind : Kind A) (l : Listing A) (x : A) (h : History)
    : Type 0 where
  pub listed : Listed l x h
  pub labelled : kind.labelled x ≡ true
  pub annotated : kind.annotated x ≡ true
  pub missing : Missing (kind.owner x) h

-- An object with the label and the annotations has its owner, or has been deleted.
abbrev pub IsSettled : {A : Type 0} → Kind A → A → History → Type 0
IsSettled kind x h =
    kind.labelled x ≡ true
    → kind.annotated x ≡ true
    → Succeeded (kind.owner x) h ⊎ Succeeded (kind.delete x) h

-- All the objects of an answer are settled.
abbrev pub Swept : {A : Type 0} → Kind A → Listing A → Goal
Swept {A} kind l h = (xs : List A) × Answered l xs h × All (λ x. IsSettled kind x h) xs

-- The request is not needed: nothing has to be approved, it refers to nothing, or to something that
-- was not there.
abbrev pub IsUnneeded : Bool → NonAdminBackupStorageLocationRequest → History → Type 0
IsUnneeded approval q h =
    (approval ≡ false)
    ⊎ ((source_key q.source ≡ none)
        ⊎ ((key : NamespacedName) × (source_key q.source ≡ some key)
            × Missing (Call.get_nabsl key) h))

-- The request has what it refers to, where approvals are needed, or has been deleted.
abbrev pub IsServed : Bool → NonAdminBackupStorageLocationRequest → History → Type 0
IsServed approval q h =
    ((approval ≡ true)
      × (key : NamespacedName) × (source_key q.source ≡ some key)
      × Succeeded (Call.get_nabsl key) h)
    ⊎ Succeeded (Call.delete_nabsl_request q) h

-- The error is one with which the server has refused a call.
abbrev pub IsRefusal : History → Error → Type 0
IsRefusal h e = (c : Call) × (a : ApiError) × Saw (λ x. x ≡ event c (err a)) h × (e ≡ Error.api a)

module _ ⦃v : Vendor⦄ (r : CollectorReconciler) where
  abbrev pub secrets : Listing Secret
  secrets = record { list = Call.list_secrets r.oadp_namespace label_selector; give = λ xs. xs }

  abbrev pub bsls : Listing BackupStorageLocation
  bsls = record { list = Call.list_bsls r.oadp_namespace label_selector; give = λ xs. xs }

  abbrev pub backups : Listing Backup
  backups = record { list = Call.list_backups r.oadp_namespace label_selector; give = λ xs. xs }

  abbrev pub restores : Listing Restore
  restores = record { list = Call.list_restores r.oadp_namespace label_selector; give = λ xs. xs }

  abbrev pub requests : Listing NonAdminBackupStorageLocationRequest
  requests = record {
    list = Call.list_nabsl_requests r.oadp_namespace label_selector;
    give = λ xs. xs;
  }

  -- The reads of the collector, and the deletion of what is not needed; no other call is allowed.
  abbrev pub AllowsCollector : History → Call → Type 0
  AllowsCollector h (Call.list_secrets _ _) = Unit
  AllowsCollector h (Call.list_bsls _ _) = Unit
  AllowsCollector h (Call.list_backups _ _) = Unit
  AllowsCollector h (Call.list_restores _ _) = Unit
  AllowsCollector h (Call.list_nabsl_requests _ _) = Unit
  AllowsCollector h (Call.get_nab _) = Unit
  AllowsCollector h (Call.get_nar _) = Unit
  AllowsCollector h (Call.get_nabsl _) = Unit
  AllowsCollector h (Call.delete_secret x) = IsOrphan secret_kind secrets x h
  AllowsCollector h (Call.delete_bsl x) = IsOrphan bsl_kind bsls x h
  AllowsCollector h (Call.delete_backup x) = IsOrphan backup_kind backups x h
  AllowsCollector h (Call.delete_restore x) = IsOrphan restore_kind restores x h
  AllowsCollector h (Call.delete_nabsl_request q) =
      Listed requests q h × IsUnneeded r.require_approval_for_bsl q h
  AllowsCollector h _ = ⊥

  abbrev pub collector_rules : Rules
  collector_rules = record {
    allows = AllowsCollector;
    lawful = λ _ _. Unit;
    errs = IsRefusal;
    panics = ⊥;
  }

  -- All the requests of an answer are served.
  abbrev pub Served : Goal
  Served h =
      (qs : List NonAdminBackupStorageLocationRequest) × Answered requests qs h
      × All (λ q. IsServed r.require_approval_for_bsl q h) qs

  -- What the goroutines are to reach, in their order.
  abbrev pub goals : List Goal
  goals =
      Swept secret_kind secrets
      ∷ Swept bsl_kind bsls
      ∷ Swept backup_kind backups
      ∷ Swept restore_kind restores
      ∷ Served
      ∷ []

IsOrphan-Stays : {A : Type 0} (kind : Kind A) (l : Listing A) (x : A) → Stays (IsOrphan kind l x)
IsOrphan-Stays kind l x h g i o = record {
  listed = Listed-Stays l x h g i o.listed;
  labelled = o.labelled;
  annotated = o.annotated;
  missing = i _ o.missing;
}

pub IsSettled-Stays : {A : Type 0} (kind : Kind A) (x : A) → Stays (IsSettled kind x)
IsSettled-Stays kind x h g i f a b = elim (f a b) [ inl s ↦ inl (i _ s) | inr s ↦ inr (i _ s) ]

Swept-Stays : {A : Type 0} (kind : Kind A) (l : Listing A) → Stays (Swept kind l)
Swept-Stays kind l h g i (xs, s, a) =
    (xs, i _ s, All-map _ _ xs (λ x. IsSettled-Stays kind x h g i) a)

IsUnneeded-Stays :
    (approval : Bool) (q : NonAdminBackupStorageLocationRequest) → Stays (IsUnneeded approval q)
IsUnneeded-Stays approval q h g i (inl e) = inl e
IsUnneeded-Stays approval q h g i (inr (inl e)) = inr (inl e)
IsUnneeded-Stays approval q h g i (inr (inr (key, e, s))) = inr (inr (key, e, i _ s))

pub IsServed-Stays :
    (approval : Bool) (q : NonAdminBackupStorageLocationRequest) → Stays (IsServed approval q)
IsServed-Stays approval q h g i (inl (a, key, e, s)) = inl (a, key, e, i _ s)
IsServed-Stays approval q h g i (inr s) = inr (i _ s)

module _ ⦃v : Vendor⦄ (r : CollectorReconciler) where
  Served-Stays : Stays (Served r)
  Served-Stays h g i (qs, s, a) =
      (qs, i _ s, All-map _ _ qs (λ q. IsServed-Stays r.require_approval_for_bsl q h g i) a)

  pub goals-AllStay : AllStay (goals r)
  goals-AllStay = (
    Swept-Stays secret_kind (secrets r),
    (
      Swept-Stays bsl_kind (bsls r),
      (
        Swept-Stays backup_kind (backups r),
        (Swept-Stays restore_kind (restores r), (Served-Stays, tt)),
      ),
    ),
  )

  allowed_later : (c : Call) → Stays (λ h. AllowsCollector r h c)
  allowed_later (Call.delete_secret x) h g i a = IsOrphan-Stays secret_kind (secrets r) x h g i a
  allowed_later (Call.delete_bsl x) h g i a = IsOrphan-Stays bsl_kind (bsls r) x h g i a
  allowed_later (Call.delete_backup x) h g i a = IsOrphan-Stays backup_kind (backups r) x h g i a
  allowed_later (Call.delete_restore x) h g i a = IsOrphan-Stays restore_kind (restores r) x h g i a
  allowed_later (Call.delete_nabsl_request q) h g i a = (
    Listed-Stays (requests r) q h g i a.0,
    IsUnneeded-Stays r.require_approval_for_bsl q h g i a.1,
  )
  allowed_later c h g i a = a

  pub collector_rules-Patient : Patient (collector_rules r)
  collector_rules-Patient = record {
    allowed = allowed_later;
    failed = λ e h g i (c, a, s, x). (c, a, i _ s, x);
  }
