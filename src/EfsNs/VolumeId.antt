-- ===== src/EfsNs/VolumeId.antt =====
-- pkg/driver/efs-ns/types.go, `EFSNSVolumeID`: efs-ns::{namespace}::{filesystem-id}::{cluster-id}
pub mod RoundTrip
mod Tests
use aws_efs_csi_driver.Prelude.{
  ◌≡◌, Bool, true, false, List, [], ◌∷◌, ◌++◌, GoString, codes, str_eq, has_prefix, is_empty, split,
  Result, ok, err, ◌>>=◌, ◌>>◌, reject, not, if◌then◌else◌,
}
use aws_efs_csi_driver.EfsNs.Errors.{GoError, efsns_error, invalid_volume_id}

abbrev pub volume_id_separator : GoString
volume_id_separator = codes "::"

abbrev pub volume_id_prefix : GoString
volume_id_prefix = codes "efs-ns"

pub record VolumeId : Type 0 where
  pub namespace : GoString
  pub file_system_id : GoString
  pub cluster_id : GoString

-- `(*EFSNSVolumeID).String`
unfoldable pub volume_id_string : VolumeId → GoString
volume_id_string v =
    volume_id_prefix
    ++ (volume_id_separator
        ++ (v.namespace
            ++ (volume_id_separator
                ++ (v.file_system_id ++ (volume_id_separator ++ v.cluster_id)))))

abbrev invalid_id : GoError
invalid_id = efsns_error invalid_volume_id (codes "ParseEFSNSVolumeID") []

parse_parts : List GoString → Result GoError VolumeId
parse_parts (prefix ∷ namespace ∷ file_system_id ∷ cluster_id ∷ []) = do
  reject (not (str_eq prefix volume_id_prefix)) invalid_id
  reject (is_empty namespace) invalid_id
  reject (is_empty file_system_id) invalid_id
  reject (is_empty cluster_id) invalid_id
  ok (record { namespace = namespace; file_system_id = file_system_id; cluster_id = cluster_id })
parse_parts _ = err invalid_id

-- `ParseEFSNSVolumeID`
unfoldable pub parse_efsns_volume_id : GoString → Result GoError VolumeId
unfolding parse_parts
parse_efsns_volume_id s = do
  reject (is_empty s) invalid_id
  parse_parts (split s volume_id_separator)

-- The test by which the driver tells the two kinds of volume apart
-- (`isEFSNSVolumeId` of pkg/driver/node.go).
unfoldable pub is_efsns_volume_id : GoString → Bool
is_efsns_volume_id s = has_prefix s (volume_id_prefix ++ volume_id_separator)
