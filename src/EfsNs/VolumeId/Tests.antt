-- ===== src/EfsNs/VolumeId/Tests.antt =====
-- The volume IDs of pkg/driver/efs-ns/types.go at concrete texts.
use aws_efs_csi_driver.Prelude.{◌≡◌, refl, true, ok, split, GoString, codes, arith}
use aws_efs_csi_driver.EfsNs.VolumeId.{
  VolumeId, volume_id_string, parse_efsns_volume_id, is_efsns_volume_id,
}
use aws_efs_csi_driver.EfsNs.VolumeId.RoundTrip.{
  HasParts, IsPrintable, parse-volume_id_string, volume_id_string-parse,
}

abbrev web_volume : VolumeId
web_volume = record {
  namespace = codes "web";
  file_system_id = codes "fs-1";
  cluster_id = codes "main";
}

abbrev web_id : GoString
web_id = codes "efs-ns::web::fs-1::main"

web_volume-IsPrintable : IsPrintable web_volume
web_volume-IsPrintable = record {
  namespace_there = refl;
  file_system_there = refl;
  cluster_there = refl;
  namespace_plain = ground arith;
  file_system_plain = ground arith;
  cluster_plain = refl;
}

web_id_parses : parse_efsns_volume_id web_id ≡ ok web_volume
unfolding parse_efsns_volume_id split
web_id_parses = refl

parse-volume_id_string_example : parse_efsns_volume_id (volume_id_string web_volume) ≡ ok web_volume
parse-volume_id_string_example = parse-volume_id_string web_volume web_volume-IsPrintable

volume_id_string-parse_example :
    (volume_id_string web_volume ≡ web_id)
    × HasParts web_volume
    × (is_efsns_volume_id web_id ≡ true)
volume_id_string-parse_example = volume_id_string-parse web_id web_volume web_id_parses
