-- ===== src/Driver/Controller/Parameters/Namespaces.antt =====
-- pkg/driver/controller.go: the parameters of the volumes of namespaces.
use aws_efs_csi_driver.Prelude.{
  ℕ, Bool, true, false, not, ◌&&◌, ◌||◌, [], ◌∷◌, Option, none, some, GoString, codes, str_eq,
  has_prefix, drop, to_lower, is_empty, length, is_some, ℤ, pos, le_int, parse_int64, parse_bool,
  Map, lookup, insert, Result, ok, err, ◌>>=◌, ◌>>◌, reject, if◌then◌else◌, ltb, leb, ◌==◌,
}
use aws_efs_csi_driver.EfsNs.FileSystem.{FileSystemOptions}
use aws_efs_csi_driver.Driver.Status.{DriverError}
use aws_efs_csi_driver.Driver.Controller.{invalid}

abbrev pub is_alphanumeric : ℕ → Bool
is_alphanumeric c = (leb b'a' c && leb c b'z') || (leb b'0' c && leb c b'9')

-- The loop after its first round.
abbrev pub label_rest : GoString → Bool
label_rest [] = true
label_rest (c ∷ []) = is_alphanumeric c
label_rest (c ∷ s) =
    let rest = label_rest s in if is_alphanumeric c || c == b'-' then rest else false

-- The loop over the name: its ends are alphanumeric, and hyphens may stand between.
abbrev pub is_label : GoString → Bool
is_label [] = true
is_label (c ∷ s) = is_alphanumeric c && label_rest s

-- `validateNamespaceName`
unfoldable pub validate_namespace_name : GoString → Result DriverError (Unit {0})
validate_namespace_name namespace = do
  reject (is_empty namespace) invalid
  reject (ltb 63 (length namespace)) invalid
  reject (not (has_prefix namespace (to_lower namespace))) invalid
  reject (not (is_label namespace)) invalid
  ok tt

-- A parameter of which only two values are allowed.
abbrev pub one_of : GoString → GoString → Option GoString → Result DriverError GoString
one_of a b none = ok []
one_of a b (some value) =
    if not (str_eq value a) && not (str_eq value b) then err invalid else ok value

abbrev pub parse_throughput : Option GoString → Result DriverError (Option ℤ)
parse_throughput none = ok none
parse_throughput (some value) = elim (parse_int64 value) [
  | none ↦ err invalid
  | some t ↦ if le_int t (pos 0) then err invalid else ok (some t)
]

abbrev pub parse_encrypted : Option GoString → Result DriverError (Option Bool)
parse_encrypted none = ok none
parse_encrypted (some value) = elim (parse_bool value) [ none ↦ err invalid | some b ↦ ok (some b) ]

abbrev pub is_on : Option Bool → Bool
is_on (some true) = true
is_on _ = false

abbrev pub parse_kms_key : Option Bool → Option GoString → Result DriverError (Option GoString)
parse_kms_key encrypted none = ok none
parse_kms_key encrypted (some value) = if is_on encrypted then ok (some value) else err invalid

-- The parameters `tag:...`, in the order in which `range` visits them.
abbrev pub parse_tags : Map GoString → Map GoString → Map GoString
parse_tags [] tags = tags
parse_tags ((k, v) ∷ params) tags =
    parse_tags params (if has_prefix k (codes "tag:") then insert (drop 4 k) v tags else tags)

-- `parseEFSNSStorageClassParameters`
unfoldable pub parse_storage_class : Map GoString → Result DriverError FileSystemOptions
parse_storage_class params = do
  performance ←
      one_of (codes "generalPurpose") (codes "maxIO") (lookup (codes "performanceMode") params)
  throughput ←
      one_of (codes "bursting") (codes "provisioned") (lookup (codes "throughputMode") params)
  provisioned ← parse_throughput (lookup (codes "provisionedThroughputInMibps") params)
  reject (str_eq throughput (codes "provisioned") && not (is_some provisioned)) invalid
  reject (str_eq throughput (codes "bursting") && is_some provisioned) invalid
  encrypted ← parse_encrypted (lookup (codes "encrypted") params)
  kms ← parse_kms_key encrypted (lookup (codes "kmsKeyId") params)
  ok (record {
    performance_mode = performance;
    throughput_mode = throughput;
    provisioned_throughput_in_mibps = provisioned;
    encrypted = encrypted;
    kms_key_id = kms;
    tags = parse_tags params [];
  })
