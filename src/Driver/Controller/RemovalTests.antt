-- ===== src/Driver/Controller/RemovalTests.antt =====
-- A deletion on a host that writes down what data it removes, and under which lock.
use aws_efs_csi_driver.Prelude.{
  Bool, true, ◌≡◌, refl, List, [], ◌∷◌, ◌++◌, Option, none, some, GoString, codes, All, ok, err, ap,
  sym, subst, ok-injective, split,
}
use aws_efs_csi_driver.Cloud.Types.{AccessPoint, other_error, CloudClient}
use aws_efs_csi_driver.Driver.Mounter.{Mounter, removed, directory}
use aws_efs_csi_driver.Driver.Action.{continue}
use aws_efs_csi_driver.Driver.VolumeId.{parse_volume_id}
use aws_efs_csi_driver.EfsNs.VolumeId.{is_efsns_volume_id}
use aws_efs_csi_driver.Driver.Controller.{Driver, get_cloud, cross_account_dns}
use aws_efs_csi_driver.Driver.Controller.Create.{take_lock}
use aws_efs_csi_driver.Driver.Controller.Delete.{
  fs_root, delete_access_point_volume, remove_root_directory, remove_found, mount_root,
  delete_access_point_of, deletion_mount_options, clean_up,
}
use aws_efs_csi_driver.Driver.Controller.Service.{delete_volume}
use aws_efs_csi_driver.Driver.Controller.Discipline.{
  CloudRules, DriverRules, IsRooted, DocumentsRoots,
}
use aws_efs_csi_driver.Driver.Controller.Discipline.Service.{delete_volume-KeepsRules}
use aws_efs_csi_driver.Driver.Controller.Tests.{point}

-- Whose lock is held; and what was removed, each with the lock that was held then.
abbrev Log : Type 0
Log = Option GoString × List (Option GoString × GoString)

abbrev logged_cloud : CloudClient Log
logged_cloud = record {
  create_access_point = λ token o w. (err other_error, w);
  delete_access_point = λ id w. (none, w);
  describe_access_point = λ id w. (ok point, w);
  find_access_point_by_client_token = λ token fs w. (ok none, w);
  list_access_points = λ fs w. (ok [], w);
  describe_file_system = λ fs w. (err other_error, w);
  describe_mount_targets = λ fs az w. (err other_error, w);
}

abbrev logged_host : Mounter Log
logged_host = record {
  make_dir = λ p w. (true, w);
  mount = λ s t k o w. (true, w);
  unmount = λ p w. (true, w);
  get_device_name = λ p w. (some 0, w);
  is_likely_not_mount_point = λ p w. (some true, w);
  stat = λ p w. (directory, w);
  remove = λ p w. (removed, w);
  remove_all = λ p w. (true, (w.0, (w.0, p) ∷ w.1));
}

abbrev logged : Driver Log
logged = record {
  cloud = logged_cloud;
  new_cloud_with_role = λ role w. (none, w);
  mounter = logged_host;
  lock_mutex = λ id w. (true, (some id, w.1));
  unlock_mutex = λ id w. (none, w.1);
  new_uuid = λ w. (codes "u", w);
  sha256_hex = λ s. s;
  namespace_manager = none;
  pvc_tracker = none;
  driver_tags = [];
  delete_access_point_root_dir = true;
}

-- The path is below the mount point of the access point whose lock was held.
abbrev IsBelow : Option GoString × GoString → Type 0
IsBelow (none, p) = ⊥
IsBelow (some id, p) = (rest : GoString) × IsRooted rest × (p ≡ fs_root id ++ rest)

abbrev Keeps : Option GoString → Log → Type 0
Keeps l w = (w.0 ≡ l) × All IsBelow w.1

logged-CloudRules : CloudRules Keeps (λ _. Unit {0}) logged_cloud
logged-CloudRules = record {
  creates = λ token o w m p. p;
  deletes = λ id w p. p;
  describes = λ l id w p. p;
  finds = λ l token fs w p. p;
  lists = λ l fs w p. p;
  describes_fs = λ l fs w p. p;
  describes_targets = λ l fs az w p. p;
}

abbrev world_of : Bool × Log → Log
world_of r = r.1

logged-DriverRules : DriverRules Keeps (λ _. Unit {0}) logged
logged-DriverRules = record {
  cloud_rules = logged-CloudRules;
  role_rules = λ role w v c e. absurd (cc);
  takes_role = λ role w p. p;
  host_rules = record {
    makes_dir = λ id w p. p;
    mounts = λ id fs kind options w p. p;
    unmounts = λ id w p. p;
    asks_mount = λ id w p. p;
    stats = λ id path w k p. p;
    removes = λ id w p. p;
    removes_all = λ id path w k p.
        (p.0, (subst (λ l. IsBelow (l, fs_root id ++ path)) (sym p.0) (path, k, refl), p.1));
  };
  locks = λ id w v p e. subst (Keeps (some id)) (ap world_of e) (refl, p.1);
  times_out = λ id w v p e. absurd (cc);
  unlocks = λ id w p. (refl, p.1);
  makes_uuid = λ w p. p;
  manager_creates = λ m namespace o w e p. absurd (cc);
  manager_deletes = λ m namespace id w e p. absurd (cc);
  tracker_adds = λ t namespace name id w e p. absurd (cc);
  tracker_removes = λ t namespace name w e p. absurd (cc);
}

point-IsRooted : IsRooted point.access_point_root_dir
point-IsRooted = record { starts = refl; no_dots = refl }

logged-DocumentsRoots : DocumentsRoots logged
logged-DocumentsRoots = record {
  of_driver = λ id w ap e.
      subst (λ (a : AccessPoint). IsRooted a.access_point_root_dir) (ok-injective e) point-IsRooted;
  of_role = λ role w v c e. absurd (cc);
}

abbrev data_removed : Log
data_removed = (none, (some (codes "fsap-1"), codes "/var/lib/csi/pv/fsap-1/pv-1") ∷ [])

deletes_data : delete_volume logged (codes "fs-1::fsap-1") [] (none, []) ≡ (ok tt, data_removed)
unfolding delete_volume continue get_cloud cross_account_dns is_efsns_volume_id parse_volume_id
    split delete_access_point_volume take_lock remove_root_directory remove_found mount_root
    delete_access_point_of deletion_mount_options clean_up
deletes_data = refl

delete_volume-KeepsRules_example :
    Keeps none (delete_volume logged (codes "fs-1::fsap-1") [] (none, [])).1
delete_volume-KeepsRules_example =
    delete_volume-KeepsRules Keeps (λ _. Unit {0}) logged logged-DriverRules (codes "fs-1::fsap-1")
      [] (none, []) logged-DocumentsRoots (refl, tt)
