-- ===== src/EfsNs/FileSystem.antt =====
-- pkg/driver/efs-ns/types.go: file systems, their options, and the entries of the PVC tracker.
use aws_efs_csi_driver.Prelude.{
  ℕ, Bool, true, false, not, ◌&&◌, List, [], Option, none, some, GoString, codes, str_eq, is_empty,
  ℤ, pos, le_int, Map, Result, ok, ◌>>◌, reject,
}
use aws_efs_csi_driver.EfsNs.Errors.{GoError, efsns_error, invalid_parameter}

-- `FileSystemState`
pub data FileSystemState : Type 0 where
  creating available deleting deleted error : FileSystemState

pub record MountTargetInfo : Type 0 where
  pub mount_target_id : GoString
  pub subnet_id : GoString
  pub ip_address : GoString
  pub state : GoString

pub record FileSystemInfo : Type 0 where
  pub file_system_id : GoString
  pub namespace : GoString
  pub cluster_id : GoString
  pub created_at : ℕ
  pub mount_targets : List MountTargetInfo
  pub security_group_id : GoString
  pub state : FileSystemState
  pub pvc_count : ℕ
  pub tags : Map GoString
  pub performance_mode : GoString
  pub throughput_mode : GoString
  pub encrypted : Bool

-- `IsEmpty`; the count of the tracker is never negative.
pub is_unused : FileSystemInfo → Bool
is_unused f = le_int (pos f.pvc_count) (pos 0)

abbrev settled : FileSystemState → Bool
settled available = true
settled error = true
settled _ = false

-- `CanBeDeleted`
unfoldable pub can_be_deleted : FileSystemInfo → Bool
unfolding is_unused
can_be_deleted f = is_unused f && settled f.state

-- `FileSystemOptions`
pub record FileSystemOptions : Type 0 where
  pub performance_mode : GoString
  pub throughput_mode : GoString
  pub provisioned_throughput_in_mibps : Option ℤ
  pub encrypted : Option Bool
  pub kms_key_id : Option GoString
  pub tags : Map GoString

abbrev not_positive : Option ℤ → Bool
not_positive none = true
not_positive (some t) = le_int t (pos 0)

-- `(*FileSystemOptions).Validate`
unfoldable pub validate_options : FileSystemOptions → Result GoError (Unit {0})
validate_options o = do
  let invalid = efsns_error invalid_parameter (codes "FileSystemOptions.Validate") []
  reject
      (not (is_empty o.performance_mode)
        && (not (str_eq o.performance_mode (codes "generalPurpose"))
            && not (str_eq o.performance_mode (codes "maxIO"))))
      invalid
  reject
      (not (is_empty o.throughput_mode)
        && (not (str_eq o.throughput_mode (codes "bursting"))
            && not (str_eq o.throughput_mode (codes "provisioned"))))
      invalid
  reject
      (str_eq o.throughput_mode (codes "provisioned")
        && not_positive o.provisioned_throughput_in_mibps)
      invalid
  ok tt

-- `PVCMappingEntry`
pub record PvcMappingEntry : Type 0 where
  pub namespace : GoString
  pub pvc_name : GoString
  pub volume_id : GoString
  pub file_system_id : GoString
  pub created_at : ℕ

-- `(*PVCMappingEntry).Validate`
pub validate_entry : PvcMappingEntry → Result GoError (Unit {0})
validate_entry p = do
  let invalid = efsns_error invalid_parameter (codes "PVCMappingEntry.Validate") []
  reject (is_empty p.namespace) invalid
  reject (is_empty p.pvc_name) invalid
  reject (is_empty p.volume_id) invalid
  reject (is_empty p.file_system_id) invalid
  ok tt
