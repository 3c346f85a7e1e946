-- ===== src/Backup/Exclusion.antt =====
-- The resources that no Velero backup of a NonAdminBackup contains.
use oadp_non_admin.Base.{
  String, ◌≡◌, refl, Bool, true, false, ◌||◌, Option, none, some, List, [], ◌∷◌, ◌++◌, ◌⊎◌, inl,
  inr, ◌==◌, contains, Bool-cases, if◌then◌else◌, subst, sym, arith,
}
use oadp_non_admin.Constant.{wildcard_string}
use oadp_non_admin.Kube.Objects.{BackupSpec}
use oadp_non_admin.Function.Validate.{is_nonempty}
use oadp_non_admin.Backup.Creation.{
  always_excluded_namespaced_resources, always_excluded_cluster_resources, elements, exclude,
  have_new_resource_filter_parameters, exclude_resources,
}

-- The filter keeps the resource out: it names it, or everything.
abbrev pub Excludes : Option (List String) → String → Type 0
Excludes field resource =
    (contains (elements field) resource ≡ true) ⊎ (contains (elements field) wildcard_string ≡ true)

contains-append :
    (xs ys : List String) (s : String) → contains ys s ≡ true → contains (xs ++ ys) s ≡ true
contains-append [] ys s e = e
contains-append (x ∷ xs) ys s e = elim (Bool-cases (x == s)) [
  | inl p ↦ rw p refl
  | inr p ↦ rw p (contains-append xs ys s e)
]

contains-append_left :
    (xs ys : List String) (s : String) → contains xs s ≡ true → contains (xs ++ ys) s ≡ true
contains-append_left [] ys s e = absurd (cc e)
contains-append_left (x ∷ xs) ys s e = elim (Bool-cases (x == s)) [
  | inl p ↦ rw p refl
  | inr p ↦ rw p (contains-append_left xs ys s (rw p at e))
]

exclude-Excludes :
    (field : Option (List String)) (extra : List String) (resource : String)
    → contains extra resource ≡ true
    → Excludes (exclude field extra) resource
exclude-Excludes field extra resource e =
    elim (Bool-cases (contains (elements field) wildcard_string)) [
      | inl p ↦ inr (rw p p)
      | inr p ↦ inl (rw p (contains-append (elements field) extra resource e))
    ]

-- The filter that Velero reads for the resource, when the spec uses the new filters or the old one.
abbrev pub KeepsOut : BackupSpec → Bool → String → String → Type 0
KeepsOut s true namespaced cluster =
    Excludes s.excluded_namespace_scoped_resources namespaced
    × Excludes s.excluded_cluster_scoped_resources cluster
KeepsOut s false namespaced cluster =
    Excludes s.excluded_resources namespaced × Excludes s.excluded_resources cluster

-- `exclude_resources` with the test that it branches on made an argument.
abbrev excluded_by : Bool → BackupSpec → BackupSpec
excluded_by true s = record s {
  excluded_namespace_scoped_resources =
      exclude s.excluded_namespace_scoped_resources always_excluded_namespaced_resources;
  excluded_cluster_scoped_resources =
      exclude s.excluded_cluster_scoped_resources always_excluded_cluster_resources;
}
excluded_by false s = record s {
  excluded_resources =
      exclude s.excluded_resources
        (always_excluded_namespaced_resources ++ always_excluded_cluster_resources);
}

branch : {A : Type 0} (f : Bool → A) (b : Bool) → (if b then f true else f false) ≡ f b
branch f true = refl
branch f false = refl

nonempty_contains :
    (field : Option (List String)) (s : String)
    → contains (elements field) s ≡ true
    → is_nonempty field ≡ true
nonempty_contains none s e = absurd (cc e)
nonempty_contains (some []) s e = absurd (cc e)
nonempty_contains (some (x ∷ xs)) s e = ground arith

nonempty_excluded :
    (field : Option (List String)) (resource : String)
    → Excludes field resource
    → is_nonempty field ≡ true
nonempty_excluded field resource (inl e) = nonempty_contains field resource e
nonempty_excluded field resource (inr e) = nonempty_contains field wildcard_string e

last_true : (a b c d : Bool) → d ≡ true → (a || (b || (c || d))) ≡ true
last_true true b c d e = refl
last_true false true c d e = refl
last_true false false true d e = refl
last_true false false false d e = e

same_filters :
    (b : Bool) (s : BackupSpec)
    → have_new_resource_filter_parameters s ≡ b
    → have_new_resource_filter_parameters (excluded_by b s) ≡ b
unfolding have_new_resource_filter_parameters
same_filters true s e =
    let field =
      exclude s.excluded_namespace_scoped_resources always_excluded_namespaced_resources in
    let others = exclude s.excluded_cluster_scoped_resources always_excluded_cluster_resources in
    last_true (is_nonempty s.included_cluster_scoped_resources) (is_nonempty others)
      (is_nonempty s.included_namespace_scoped_resources) (is_nonempty field)
      (nonempty_excluded field "nonadminbackups" (
        exclude-Excludes s.excluded_namespace_scoped_resources always_excluded_namespaced_resources
          "nonadminbackups" refl))
same_filters false s e = e

kept_out :
    (b : Bool) (s : BackupSpec) (namespaced cluster : String)
    → contains always_excluded_namespaced_resources namespaced ≡ true
    → contains always_excluded_cluster_resources cluster ≡ true
    → KeepsOut (excluded_by b s) b namespaced cluster
kept_out true s namespaced cluster e f = (
  exclude-Excludes s.excluded_namespace_scoped_resources _ namespaced e,
  exclude-Excludes s.excluded_cluster_scoped_resources _ cluster f,
)
kept_out false s namespaced cluster e f = (
  exclude-Excludes s.excluded_resources _ namespaced (
      contains-append_left always_excluded_namespaced_resources always_excluded_cluster_resources
        namespaced e),
  exclude-Excludes s.excluded_resources _ cluster (
      contains-append always_excluded_namespaced_resources always_excluded_cluster_resources cluster
        f),
)

exclude_resources-excluded_by :
    (s : BackupSpec) → exclude_resources s ≡ excluded_by (have_new_resource_filter_parameters s) s
unfolding exclude_resources
exclude_resources-excluded_by s =
    branch (λ b. excluded_by b s) (have_new_resource_filter_parameters s)

-- In the spec that `exclude_resources` returns, whichever of the two kinds of filters that spec
-- uses, each namespaced resource of the always excluded ones is kept out by the filter for
-- namespaced resources and each cluster resource of them by the filter for cluster resources: the
-- filter lists the resource or the wildcard.
pub exclude_resources-KeepsOut :
    (s : BackupSpec) (namespaced cluster : String)
    → contains always_excluded_namespaced_resources namespaced ≡ true
    → contains always_excluded_cluster_resources cluster ≡ true
    → KeepsOut
        (exclude_resources s)
        (have_new_resource_filter_parameters (exclude_resources s))
        namespaced
        cluster
exclude_resources-KeepsOut s namespaced cluster e f =
    let b = have_new_resource_filter_parameters s in
    subst (λ t. KeepsOut t (have_new_resource_filter_parameters t) namespaced cluster)
      (sym (exclude_resources-excluded_by s))
      (subst (λ c. KeepsOut (excluded_by b s) c namespaced cluster) (sym (same_filters b s refl))
        (kept_out b s namespaced cluster e f))
