-- ===== src/Function/Names.antt =====
-- internal/common/function/function.go: `GenerateNacObjectUUID` and `ComputePrefixForObjectStorage`.
-- Texts are sequences of characters whose lengths and slices are counted in bytes; the names of
-- Kubernetes objects are ASCII, where `slice` cuts at every byte as Go does.
use Prim.Native.String.{slice}
use oadp_non_admin.Base.{
  ℕ, ◌+◌, ◌-◌, String, len, ◌+s◌, Option, none, some, ltb, leb, if◌then◌else◌,
}
use oadp_non_admin.Constant.{maximum_nac_object_name_length, name_delimiter}
use oadp_non_admin.Kube.Api.{Call, Prog, ret, panic, attempt, ok, err, ◌>>=◌}
use oadp_non_admin.Kube.Vendor.{Vendor}

-- `s[:k]`; `none` is the panic of a slice out of range.
unfoldable pub prefix : String → ℕ → Option String
prefix s k = if leb k (len s) then some (slice s 0 k) else none

-- `namespace-nacName-uuid`, an empty part left out with its delimiter.
unfoldable pub join_name : String → String → String → String
join_name namespace nac_name uuid =
    let named = if ltb 0 (len nac_name) then nac_name +s (name_delimiter +s uuid) else uuid in
    if ltb 0 (len namespace) then namespace +s (name_delimiter +s named) else named

module _ ⦃v : Vendor⦄ where
  -- The branch for a name that is too long: it cuts the namespace, or else the object's name, to
  -- what `remaining`, the room beside the UUID, leaves. Go's `int` goes below zero where `-` stops,
  -- and `s[:k]` panics at a negative k: so does this where the UUID and the delimiters do not fit.
  unfoldable pub shorten : String → String → String → ℕ → Option String
  unfolding prefix join_name
  shorten uuid namespace nac_name remaining =
      let delimiters = len name_delimiter + len name_delimiter in
      if ltb maximum_nac_object_name_length (len uuid + delimiters)
      then none
      else if ltb (remaining - delimiters) (len namespace)
      then elim (prefix namespace (remaining - delimiters)) [
        | none ↦ none
        | some cut ↦ some (cut +s (name_delimiter +s uuid))
      ]
      else elim (prefix nac_name (remaining - len namespace - delimiters)) [
        | none ↦ none
        | some cut ↦ some (join_name namespace cut uuid)
      ]

  -- The name for a given UUID suffix.
  unfoldable pub nac_object_name : String → String → String → Option String
  unfolding shorten join_name
  nac_object_name uuid namespace nac_name =
      if ltb maximum_nac_object_name_length (len (join_name namespace nac_name uuid))
      then shorten uuid namespace nac_name (maximum_nac_object_name_length - len uuid)
      else some (join_name namespace nac_name uuid)

  -- `uuid.New` panics where no randomness can be read.
  unfoldable pub generate_nac_object_uuid : String → String → Prog String
  generate_nac_object_uuid namespace nac_name = attempt Call.new_uuid >>= λ r. elim r [
    | err _ ↦ panic
    | ok uuid ↦ elim (nac_object_name uuid namespace nac_name) [ none ↦ panic | some s ↦ ret s ]
  ]

unfoldable pub compute_prefix_for_object_storage : String → String → String
compute_prefix_for_object_storage namespace custom_prefix =
    if ltb 0 (len custom_prefix) then namespace +s ("/" +s custom_prefix) else namespace
