-- ===== src/Driver/Controller/GroupTests.antt =====
-- The group of a new access point on a concrete API.
use aws_efs_csi_driver.Prelude.{
  ℕ, ◌≡◌, refl, true, [], some, none, codes, pos, minus_one, ok, arith, add_int64, sub_int64,
}
use aws_efs_csi_driver.Cloud.Types.{PosixUser}
use aws_efs_csi_driver.Cloud.Client.{cloud_client, list_points}
use aws_efs_csi_driver.Cloud.Client.Tests.{api, points}
use aws_efs_csi_driver.Driver.Gid.{
  get_used_gids, lookup_gid, gid_fuel, get_next_unused_gid, get_next_gid,
}
use aws_efs_csi_driver.Driver.Gid.Search.{IsLeastFree, last_gid}
use aws_efs_csi_driver.Driver.Mounter.{Mounter, removed, directory}
use aws_efs_csi_driver.Driver.Controller.{Driver}
use aws_efs_csi_driver.Driver.Controller.Parameters.{Owner}
use aws_efs_csi_driver.Driver.Controller.Create.{posix_user_for, allocate}
use aws_efs_csi_driver.Driver.Controller.Create.Unused.{gids_of, posix_user_for-Unused}

abbrev host : Mounter (Unit {0})
host = record {
  make_dir = λ p w. (true, w);
  mount = λ s t k o w. (true, w);
  unmount = λ p w. (true, w);
  get_device_name = λ p w. (some 0, w);
  is_likely_not_mount_point = λ p w. (some true, w);
  stat = λ p w. (directory, w);
  remove = λ p w. (removed, w);
  remove_all = λ p w. (true, w);
}

abbrev driver : Driver (Unit {0})
driver = record {
  cloud = cloud_client api;
  new_cloud_with_role = λ role w. (none, w);
  mounter = host;
  lock_mutex = λ id w. (true, w);
  unlock_mutex = λ id w. w;
  new_uuid = λ w. (codes "u", w);
  sha256_hex = λ s. s;
  namespace_manager = none;
  pvc_tracker = none;
  driver_tags = [];
  delete_access_point_root_dir = true;
}

abbrev owner : Owner
owner = record {
  asked_uid = minus_one;
  asked_gid = minus_one;
  gid_min = pos 50000;
  gid_max = pos 51000;
}

abbrev user : PosixUser
user = record { gid = pos 50001; uid = pos 50001 }

given : posix_user_for driver (cloud_client api) (codes "fs-1") owner tt ≡ (ok user, tt)
unfolding posix_user_for list_points allocate get_next_gid get_next_unused_gid get_used_gids
    lookup_gid gid_fuel add_int64 sub_int64
given = refl

posix_user_for-Unused_example :
    (next : ℕ) × (user.gid ≡ pos next)
    × IsLeastFree (gids_of points) 50000 (last_gid 50000 51000) next
posix_user_for-Unused_example =
    posix_user_for-Unused driver api owner 50000 51000 (codes "fs-1") tt tt tt points user
      (record {
        no_gid = refl;
        from = refl;
        to = refl;
        in_order = omega arith;
        below = omega arith;
      })
      refl given
