-- ===== src/Driver/Controller/Parameters.antt =====
-- pkg/driver/controller.go: the parameters of a storage class, and what is checked before a call
-- of AWS.
pub mod Namespaces
pub mod Bounds
pub mod Names
use aws_efs_csi_driver.Prelude.{
  ℕ, zero, suc, ◌-◌, ◌+◌, Bool, true, false, not, ◌&&◌, ◌||◌, List, [], ◌∷◌, ◌++◌, Option, none,
  some, GoString, codes, str_eq, has_prefix, trim_prefix, contains_str, count_byte, to_lower,
  is_empty, trim_space, length, is_some, ℤ, pos, minus_one, le_int, lt_int, eq_int, parse_int64,
  parse_bool, Map, lookup, insert, Result, ok, err, ◌>>=◌, ◌>>◌, reject, if◌then◌else◌, ltb, leb,
  ◌==◌,
}
use aws_efs_csi_driver.Cloud.Types.{AccessPoint, PosixUser, access_point_per_fs_limit}
use aws_efs_csi_driver.Driver.Status.{DriverError, status, invalid_argument, failed_precondition}
use aws_efs_csi_driver.Driver.Capabilities.{is_valid_volume_capabilities, validate_fs_type}
use aws_efs_csi_driver.Driver.Controller.{CreateRequest, invalid, value_or_empty, parameter}

-- Whether an access point is to be used again, and the token that finds it.
pub record ReuseChoice : Type 0 where
  pub reuse : Bool
  pub client_token : GoString

unfoldable pub reuse_choice : (GoString → GoString) → CreateRequest → Result DriverError ReuseChoice
reuse_choice sha256_hex req = elim (lookup (codes "reuseAccessPoint") req.parameters) [
  | none ↦ ok (record { reuse = false; client_token = req.name })
  | some value ↦ elim (parse_bool value) [
    | none ↦ err invalid
    | some false ↦ ok (record { reuse = false; client_token = req.name })
    | some true ↦ ok (record {
      reuse = true;
      client_token = sha256_hex (parameter (codes "csi.storage.k8s.io/pvc/name") req.parameters);
    })
  ]
]

-- The modes of provisioning that a storage class can ask for.
pub data Mode : Type 0 where
  access_point_mode namespace_mode : Mode

-- `ValidateProvisioningModeParameter` of compatibility.go, with the mode that it lets pass.
unfoldable pub provisioning_mode : Bool → GoString → Result DriverError Mode
provisioning_mode has_manager mode =
    if is_empty mode
    then err invalid
    else if str_eq mode (codes "efs-ap")
    then ok access_point_mode
    else if str_eq mode (codes "efs-ns")
    then if has_manager then ok namespace_mode else err (status failed_precondition)
    else err invalid

pub record CheckedRequest : Type 0 where
  pub choice : ReuseChoice
  pub mode : Mode

-- `CreateVolume` up to the mode.
unfoldable pub checked_request :
    (GoString → GoString) → Bool → CreateRequest → Result DriverError CheckedRequest
checked_request sha256_hex has_manager req = do
  choice ← reuse_choice sha256_hex req
  reject (is_empty req.name) invalid
  reject (is_empty req.capabilities) invalid
  reject (not (is_valid_volume_capabilities req.capabilities)) invalid
  reject (not (validate_fs_type req.capabilities)) invalid
  elim (lookup (codes "provisioningMode") req.parameters) [
    | none ↦ err invalid
    | some value ↦ do
      mode ← provisioning_mode has_manager value
      ok (record { choice = choice; mode = mode })
  ]

-- The file system of an access point volume.
unfoldable pub file_system_parameter : Map GoString → Result DriverError GoString
file_system_parameter params = elim (lookup (codes "fileSystemId") params) [
  | none ↦ err invalid
  | some value ↦ if is_empty (trim_space value) then err invalid else ok value
]

-- `uid` and `gid`: -1 where they are not given.
unfoldable pub parse_id : Option GoString → Result DriverError ℤ
parse_id none = ok minus_one
parse_id (some value) = elim (parse_int64 value) [
  | none ↦ err invalid
  | some n ↦ if lt_int n (pos 0) then err invalid else ok n
]

-- `gidMin`: 0 where it is not given.
unfoldable pub parse_gid_min : Option GoString → Result DriverError ℤ
parse_gid_min none = ok (pos 0)
parse_gid_min (some value) = elim (parse_int64 value) [
  | none ↦ err invalid
  | some n ↦ if le_int n (pos 0) then err invalid else ok n
]

-- `gidMax`, next to `gidMin`.
unfoldable pub parse_gid_max : ℤ → Option GoString → Result DriverError ℤ
parse_gid_max gid_min none = if eq_int gid_min (pos 0) then ok (pos 0) else err invalid
parse_gid_max gid_min (some value) =
    if eq_int gid_min (pos 0) then err invalid else elim (parse_int64 value) [
      | none ↦ err invalid
      | some n ↦ if le_int n gid_min then err invalid else ok n
    ]

pub record Owner : Type 0 where
  pub asked_uid : ℤ
  pub asked_gid : ℤ
  pub gid_min : ℤ
  pub gid_max : ℤ

abbrev pub default_gid_min : ℤ
default_gid_min = pos 50000

abbrev pub default_gid_max : ℤ
default_gid_max = pos (50000 + access_point_per_fs_limit)

-- The default range, where none is given.
abbrev pub owner_in_range : ℤ → ℤ → ℤ → ℤ → Owner
owner_in_range uid gid low high =
    let unset = eq_int low (pos 0) && eq_int high (pos 0) in
    record {
      asked_uid = uid;
      asked_gid = gid;
      gid_min = if unset then default_gid_min else low;
      gid_max = if unset then default_gid_max else high;
    }

-- The user and the group of the new access point, as far as the parameters say.
unfoldable pub parse_owner : Map GoString → Result DriverError Owner
unfolding parse_id parse_gid_min parse_gid_max
parse_owner params = do
  uid ← parse_id (lookup (codes "uid") params)
  gid ← parse_id (lookup (codes "gid") params)
  low ← parse_gid_min (lookup (codes "gidRangeStart") params)
  high ← parse_gid_max low (lookup (codes "gidRangeEnd") params)
  ok (owner_in_range uid gid low high)

-- `createListOfVariableSubstitutions`
abbrev substitutions : Map GoString → List (GoString × GoString)
substitutions params =
    (codes "${.PVC.name}", parameter (codes "csi.storage.k8s.io/pvc/name") params)
    ∷ (codes "${.PVC.namespace}", parameter (codes "csi.storage.k8s.io/pvc/namespace") params)
    ∷ (codes "${.PV.name}", parameter (codes "csi.storage.k8s.io/pv/name") params)
    ∷ []

-- The variable that a text starts with. No name of a variable is a prefix of another, so their
-- order does not matter.
abbrev variable_at : List (GoString × GoString) → GoString → Option (GoString × GoString)
variable_at [] s = none
variable_at ((old, new) ∷ rest) s = if has_prefix s old then some (old, new) else variable_at rest s

-- `strings.NewReplacer(...).Replace`; the number counts the bytes of a variable still to skip.
abbrev replace_from : List (GoString × GoString) → ℕ → GoString → GoString
replace_from pairs skip [] = []
replace_from pairs (suc skip) (c ∷ s) = replace_from pairs skip s
replace_from pairs zero (c ∷ s) = elim (variable_at pairs (c ∷ s)) [
  | none ↦ c ∷ replace_from pairs zero s
  | some (old, new) ↦ new ++ replace_from pairs (length old - 1) s
]

-- `interpolateRootDirectoryName`
unfoldable pub interpolate_root_directory_name :
    GoString → Map GoString → Result DriverError GoString
interpolate_root_directory_name pattern params =
    let result = replace_from (substitutions params) 0 pattern in
    if contains_str result (codes "${") || contains_str result (codes "}")
    then err invalid
    else ok result

-- `validateEfsPathRequirements`
unfoldable pub validate_efs_path_requirements : GoString → Result DriverError (Unit {0})
validate_efs_path_requirements path = do
  reject (ltb 100 (length path)) invalid
  reject (ltb 5 (count_byte b'/' path)) invalid
  ok tt

abbrev outside : ℤ → ℤ → ℤ → Bool
outside low high n = lt_int n low || lt_int high n

-- `validateExistingAccessPoint`; `true` is a nil error.
unfoldable pub validate_existing_access_point : AccessPoint → GoString → ℤ → ℤ → Bool
validate_existing_access_point ap base_path low high =
    if not (
      has_prefix (trim_prefix ap.access_point_root_dir (codes "/"))
        (trim_prefix base_path (codes "/")))
    then false
    else elim ap.posix_user [
      | none ↦ false
      | some user ↦ not (outside low high user.gid) && not (outside low high user.uid)
    ]
