-- ===== src/Constant.antt =====
-- internal/common/constant/constant.go. The labels are built on a constant of the OADP operator.
use oadp_non_admin.Base.{ℕ, String, ◌+s◌}
use oadp_non_admin.Kube.Vendor.{Vendor}

module _ ⦃v : Vendor⦄ where
  abbrev pub oadp_label : String
  oadp_label = v.oadp_operator_label

  abbrev pub nab_origin_nacuuid_label : String
  nab_origin_nacuuid_label = v.oadp_operator_label +s "-nab-origin-nacuuid"

  abbrev pub nar_origin_nacuuid_label : String
  nar_origin_nacuuid_label = v.oadp_operator_label +s "-nar-origin-nacuuid"

  abbrev pub nabsl_origin_nacuuid_label : String
  nabsl_origin_nacuuid_label = v.oadp_operator_label +s "-nabsl-origin-nacuuid"

  abbrev pub nadr_origin_nacuuid_label : String
  nadr_origin_nacuuid_label = v.oadp_operator_label +s "-nadr-origin-nacuuid"

  abbrev pub nadr_origin_name_annotation : String
  nadr_origin_name_annotation = v.oadp_operator_label +s "-nadr-origin-name"

  abbrev pub nadr_origin_namespace_annotation : String
  nadr_origin_namespace_annotation = v.oadp_operator_label +s "-nadr-origin-namespace"

  abbrev pub nab_sync_label : String
  nab_sync_label = v.oadp_operator_label +s "-nab-synced-from-nacuuid"

  abbrev pub nab_origin_name_annotation : String
  nab_origin_name_annotation = v.oadp_operator_label +s "-nab-origin-name"

  abbrev pub nab_origin_namespace_annotation : String
  nab_origin_namespace_annotation = v.oadp_operator_label +s "-nab-origin-namespace"

  abbrev pub nar_origin_name_annotation : String
  nar_origin_name_annotation = v.oadp_operator_label +s "-nar-origin-name"

  abbrev pub nar_origin_namespace_annotation : String
  nar_origin_namespace_annotation = v.oadp_operator_label +s "-nar-origin-namespace"

  abbrev pub nabsl_origin_name_annotation : String
  nabsl_origin_name_annotation = v.oadp_operator_label +s "-nabsl-origin-name"

  abbrev pub nabsl_origin_namespace_annotation : String
  nabsl_origin_namespace_annotation = v.oadp_operator_label +s "-nabsl-origin-namespace"

  abbrev pub maximum_nac_object_name_length : ℕ
  maximum_nac_object_name_length = v.dns1123_label_max_length

abbrev pub true_string : String
true_string = "True"

abbrev pub oadp_label_value : String
oadp_label_value = true_string

abbrev pub managed_by_label : String
managed_by_label = "app.kubernetes.io/managed-by"

abbrev pub managed_by_label_value : String
managed_by_label_value = "oadp-nac-controller"

abbrev pub nab_finalizer_name : String
nab_finalizer_name = "nonadminbackup.oadp.openshift.io/finalizer"

abbrev pub nar_finalizer_name : String
nar_finalizer_name = "nonadminrestore.oadp.openshift.io/finalizer"

abbrev pub empty_string : String
empty_string = ""

abbrev pub name_delimiter : String
name_delimiter = "-"

abbrev pub wildcard_string : String
wildcard_string = "*"
