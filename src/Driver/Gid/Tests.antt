-- ===== src/Driver/Gid/Tests.antt =====
-- The allocator of pkg/driver/gid_allocator.go at concrete access points.
use aws_efs_csi_driver.Prelude.{List, [], ◌∷◌, Option, none, some, arith, pos, codes}
use aws_efs_csi_driver.Cloud.Types.{AccessPoint}
use aws_efs_csi_driver.Driver.Gid.{get_used_gids, get_next_gid}
use aws_efs_csi_driver.Driver.Gid.Search.{Allocates, get_next_gid-Allocates}

abbrev taken_point : AccessPoint
taken_point = record {
  access_point_id = codes "fsap-1";
  file_system_id = codes "fs-1";
  access_point_root_dir = codes "/a";
  capacity_gib = pos 0;
  posix_user = some (record { gid = pos 50000; uid = pos 50000 });
}

abbrev points : List (Option AccessPoint)
points = none ∷ some taken_point ∷ []

get_next_gid-Allocates_example :
    Allocates (get_used_gids points) 50000 51000 (get_next_gid points (pos 50000) (pos 51000))
get_next_gid-Allocates_example =
    get_next_gid-Allocates points 50000 51000 (omega arith) (omega arith)
