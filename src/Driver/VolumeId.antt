-- ===== src/Driver/VolumeId.antt =====
-- pkg/driver/node.go, `parseVolumeId`: {fileSystemID}:{mountPath}:{accessPointID}
pub mod Fields
use aws_efs_csi_driver.Prelude.{
  Bool, true, false, List, [], ◌∷◌, GoString, codes, has_prefix, is_empty, split, clean, Result, ok,
  err, ◌>>=◌, ◌>>◌, reject, not, if◌then◌else◌,
}
use aws_efs_csi_driver.Driver.Status.{DriverError, status, invalid_argument}
use aws_efs_csi_driver.EfsNs.VolumeId.{VolumeId, parse_efsns_volume_id}

-- `isValidFileSystemId`
abbrev pub is_valid_file_system_id : GoString → Bool
is_valid_file_system_id s = has_prefix s (codes "fs-")

-- `isValidAccessPointId`
abbrev pub is_valid_access_point_id : GoString → Bool
is_valid_access_point_id s = has_prefix s (codes "fsap-")

pub record ParsedVolume : Type 0 where
  pub fsid : GoString
  pub subpath : GoString
  pub apid : GoString

clean_subpath : GoString → GoString
clean_subpath p = if is_empty p then [] else clean p

abbrev parse_tokens : List GoString → Result DriverError ParsedVolume
parse_tokens (fsid ∷ []) = ok (record { fsid = fsid; subpath = []; apid = [] })
parse_tokens (fsid ∷ p ∷ []) = ok (record { fsid = fsid; subpath = clean_subpath p; apid = [] })
parse_tokens (fsid ∷ p ∷ apid ∷ []) =
    if is_empty apid
    then ok (record { fsid = fsid; subpath = clean_subpath p; apid = [] })
    else if is_valid_access_point_id apid
    then ok (record { fsid = fsid; subpath = clean_subpath p; apid = apid })
    else err (status invalid_argument)
parse_tokens _ = err (status invalid_argument)

-- `parseVolumeId`
unfoldable pub parse_volume_id : GoString → Result DriverError ParsedVolume
unfolding clean_subpath
parse_volume_id s = do
  reject (not (is_valid_file_system_id s)) (status invalid_argument)
  parse_tokens (split s (codes ":"))

-- `parseEFSNSVolumeForMount`
unfoldable pub parse_efsns_volume_for_mount : GoString → Result DriverError GoString
parse_efsns_volume_for_mount s = elim (parse_efsns_volume_id s) [
  | err _ ↦ err (status invalid_argument)
  | ok v ↦ ok v.file_system_id
]
