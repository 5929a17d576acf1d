-- ===== src/Cloud/Types.antt =====
-- The types of pkg/cloud/cloud.go that the driver shares with it.
use aws_efs_csi_driver.Prelude.{ℕ, GoString, ℤ, Option, Map, List, Result}

pub record PosixUser : Type 0 where
  pub gid : ℤ
  pub uid : ℤ

pub record FileSystem : Type 0 where
  pub file_system_id : GoString

pub record AccessPoint : Type 0 where
  pub access_point_id : GoString
  pub file_system_id : GoString
  pub access_point_root_dir : GoString
  pub capacity_gib : ℤ
  pub posix_user : Option PosixUser

pub record AccessPointOptions : Type 0 where
  pub capacity_gib : ℤ
  pub file_system_id : GoString
  pub uid : ℤ
  pub gid : ℤ
  pub directory_perms : GoString
  pub directory_path : GoString
  pub tags : Map GoString

pub record MountTarget : Type 0 where
  pub az_name : GoString
  pub az_id : GoString
  pub mount_target_id : GoString
  pub ip_address : GoString

-- `ErrNotFound`, `ErrAlreadyExists`, `ErrAccessDenied`, and any other error.
pub data CloudError : Type 0 where
  not_found already_exists access_denied other_error : CloudError

abbrev pub access_point_per_fs_limit : ℕ
access_point_per_fs_limit = 1000

-- `cloud.Cloud`, the calls that the controller makes.
pub record CloudClient (W : Type 0) : Type 0 where
  pub create_access_point : GoString → AccessPointOptions → W → Result CloudError AccessPoint × W
  pub delete_access_point : GoString → W → Option CloudError × W
  pub describe_access_point : GoString → W → Result CloudError AccessPoint × W
  pub find_access_point_by_client_token :
      GoString → GoString → W → Result CloudError (Option AccessPoint) × W
  pub list_access_points : GoString → W → Result CloudError (List (Option AccessPoint)) × W
  pub describe_file_system : GoString → W → Result CloudError FileSystem × W
  pub describe_mount_targets : GoString → GoString → W → Result CloudError MountTarget × W
