-- ===== src/Driver/Controller.antt =====
-- pkg/driver/controller.go: what the controller sees of its surroundings, and `getCloud`.
pub mod Parameters
pub mod Create
pub mod Delete
pub mod Namespaces
pub mod Service
pub mod Discipline
mod Tests
mod NamespaceTests
mod GroupTests
mod RoleTests
mod RemovalTests
use aws_efs_csi_driver.Prelude.{
  ℕ, Bool, true, false, List, [], ◌∷◌, ◌++◌, Option, none, some, GoString, codes, is_empty, ℤ, pos,
  Map, lookup, parse_bool, Result, ok, err, if◌then◌else◌,
}
use aws_efs_csi_driver.Cloud.Types.{
  FileSystem, AccessPoint, AccessPointOptions, MountTarget, CloudError, not_found, already_exists,
  access_denied, other_error, CloudClient,
}
use aws_efs_csi_driver.EfsNs.Errors.{GoError}
use aws_efs_csi_driver.EfsNs.FileSystem.{FileSystemInfo, FileSystemOptions}
use aws_efs_csi_driver.Driver.Action.{Action, ◌>>=◌, give, pure_step}
use aws_efs_csi_driver.Driver.Status.{
  DriverError, status, invalid_argument, internal, unauthenticated,
}
use aws_efs_csi_driver.Driver.Mounter.{Mounter}
use aws_efs_csi_driver.Driver.Capabilities.{VolumeCapability}

-- The methods of the manager of the file systems of namespaces.
pub record NamespaceManager (W : Type 0) : Type 0 where
  pub create_or_get_file_system :
      GoString → FileSystemOptions → W → Result GoError FileSystemInfo × W
  pub delete_for_namespace : GoString → GoString → W → Option GoError × W
  pub file_system_info : GoString → W → Result GoError FileSystemInfo × W

-- The methods of the PVC tracker.
pub record ClaimTracker (W : Type 0) : Type 0 where
  pub add_claim : GoString → GoString → GoString → W → Option GoError × W
  pub remove_claim : GoString → GoString → W → Option GoError × W

-- `Driver`, with the locks, the host, the hash and the unique IDs that it uses. A manager or a
-- tracker that is nil is `none`.
pub record Driver (W : Type 0) : Type 0 where
  pub cloud : CloudClient W
  pub new_cloud_with_role : GoString → W → Option (CloudClient W) × W
  pub mounter : Mounter W
  pub lock_mutex : GoString → W → Bool × W
  pub unlock_mutex : GoString → W → W
  pub new_uuid : W → GoString × W
  pub sha256_hex : GoString → GoString
  pub namespace_manager : Option (NamespaceManager W)
  pub pvc_tracker : Option (ClaimTracker W)
  pub driver_tags : Map GoString
  pub delete_access_point_root_dir : Bool

-- `csi.CreateVolumeRequest`
pub record CreateRequest : Type 0 where
  pub name : GoString
  pub required_bytes : ℤ
  pub capabilities : List VolumeCapability
  pub parameters : Map GoString
  pub secrets : Map GoString

-- `csi.Volume`
pub record Volume : Type 0 where
  pub capacity_bytes : ℤ
  pub volume_id : GoString
  pub volume_context : Map GoString

abbrev pub invalid : DriverError
invalid = status invalid_argument

-- `v := m[k]`
abbrev pub value_or_empty : Option GoString → GoString
value_or_empty none = []
value_or_empty (some v) = v

abbrev pub parameter : GoString → Map GoString → GoString
parameter k params = value_or_empty (lookup k params)

-- What `getCloud` answers.
pub record CloudAccess (W : Type 0) : Type 0 where
  pub local_cloud : CloudClient W
  pub role_arn : GoString
  pub cross_account_dns_enabled : Bool

-- Whether the secrets ask for the name of the mount target across accounts.
unfoldable pub cross_account_dns : Map GoString → Result DriverError Bool
cross_account_dns secrets = elim (lookup (codes "crossaccount") secrets) [
  | none ↦ ok false
  | some value ↦ elim (parse_bool value) [ none ↦ err invalid | some b ↦ ok b ]
]

module _ {W : Type 0} (d : Driver W) where
  abbrev pub with_role :
      GoString → Bool → Option (CloudClient W) × W → Result DriverError (CloudAccess W) × W
  with_role role dns (none, w) = (err (status unauthenticated), w)
  with_role role dns (some c, w) =
      (ok (record { local_cloud = c; role_arn = role; cross_account_dns_enabled = dns }), w)

  abbrev pub chosen_cloud : GoString → Bool → Action W (CloudAccess W)
  chosen_cloud role dns w =
      if is_empty role
      then (
        ok (record { local_cloud = d.cloud; role_arn = role; cross_account_dns_enabled = dns }),
        w,
      )
      else with_role role dns (d.new_cloud_with_role role w)

  -- `getCloud`
  unfoldable pub get_cloud : Map GoString → Action W (CloudAccess W)
  get_cloud secrets = do
    dns ← pure_step (cross_account_dns secrets)
    chosen_cloud (parameter (codes "awsRoleArn") secrets) dns
