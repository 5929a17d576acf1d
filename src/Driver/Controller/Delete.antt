-- ===== src/Driver/Controller/Delete.antt =====
-- pkg/driver/controller.go: `DeleteVolume` for access point volumes.
pub mod Gone
use aws_efs_csi_driver.Prelude.{
  ℕ, Bool, true, false, not, List, [], ◌∷◌, ◌++◌, Option, none, some, GoString, codes, is_empty,
  Result, ok, err, if◌then◌else◌,
}
use aws_efs_csi_driver.Cloud.Types.{
  AccessPoint, MountTarget, CloudError, not_found, access_denied, other_error, CloudClient,
}
use aws_efs_csi_driver.Driver.Action.{Action, ◌>>=◌, ◌>>◌, give, deferred}
use aws_efs_csi_driver.Driver.Status.{DriverError, status, internal, unauthenticated}
use aws_efs_csi_driver.Driver.Mounter.{
  Mounter, Removal, removed, not_exist, remove_failed, PathInfo, directory, other_file, stat_failed,
}
use aws_efs_csi_driver.Driver.VolumeId.{ParsedVolume}
use aws_efs_csi_driver.Driver.Controller.{Driver, CloudAccess}
use aws_efs_csi_driver.Driver.Controller.Create.{take_lock}

-- `fsRoot`: where the file system is mounted for the time of the deletion.
abbrev pub fs_root : GoString → GoString
fs_root apid = codes "/var/lib/csi/pv/" ++ apid

-- How the removal of the root directory can end the function without an error: the access point
-- was gone before (`missing`), or all is done (`deleteCompleted`).
pub data RootRemoval : Type 0 where
  missing completed : RootRemoval

module _ {W : Type 0} (d : Driver W) where
  abbrev pub checked : Bool × W → Result DriverError (Unit {0}) × W
  checked (true, w) = (ok tt, w)
  checked (false, w) = (err (status internal), w)

  abbrev pub after_unmount : GoString → Bool × W → W
  after_unmount root (false, w) = w
  after_unmount root (true, w) = (d.mounter.remove root w).1

  abbrev pub clean_up_mounted : GoString → Option Bool × W → W
  clean_up_mounted root (none, w) = w
  clean_up_mounted root (some true, w) = (d.mounter.remove root w).1
  clean_up_mounted root (some false, w) = after_unmount root (d.mounter.unmount root w)

  -- The deferred function of a deletion that is not completed.
  unfoldable pub clean_up : GoString → W → W
  clean_up root w = clean_up_mounted root (d.mounter.is_likely_not_mount_point root w)

  abbrev pub or_clean_up :
      GoString → Result DriverError RootRemoval × W → Result DriverError RootRemoval × W
  or_clean_up root (err e, w) = (err e, clean_up root w)
  or_clean_up root (ok missing, w) = (ok missing, clean_up root w)
  or_clean_up root (ok completed, w) = (ok completed, w)

  abbrev pub with_target : List GoString → Result CloudError MountTarget × W → List GoString × W
  with_target options (err e, w) = (options, w)
  with_target options (ok t, w) = (options ++ (codes "mounttargetip=" ++ t.ip_address) ∷ [], w)

  -- `mountOptions`
  unfoldable pub deletion_mount_options : CloudAccess W → GoString → W → List GoString × W
  deletion_mount_options access fs w =
      let options = codes "tls" ∷ codes "iam" ∷ [] in
      if is_empty access.role_arn
      then (options, w)
      else if access.cross_account_dns_enabled
      then (options ++ codes "crossaccount" ∷ [], w)
      else with_target options (access.local_cloud.describe_mount_targets fs [] w)

  abbrev pub mount_unless :
      GoString → GoString → List GoString → Option Bool × W → Result DriverError (Unit {0}) × W
  mount_unless fs root options (none, w) = (err (status internal), w)
  mount_unless fs root options (some false, w) = (ok tt, w)
  mount_unless fs root options (some true, w) =
      checked (d.mounter.mount fs root (codes "efs") options w)

  -- The file system is mounted, unless it is already.
  unfoldable pub mount_root : GoString → GoString → List GoString → Action W (Unit {0})
  mount_root fs root options w =
      mount_unless fs root options (d.mounter.is_likely_not_mount_point root w)

  -- The answer of `os.RemoveAll`, and that of `Stat`, go to a variable of the `if` that nothing
  -- reads afterwards.
  abbrev pub remove_directory : GoString → PathInfo × W → Result DriverError (Unit {0}) × W
  remove_directory path (directory, w) = (ok tt, (d.mounter.remove_all path w).1)
  remove_directory path (other_file, w) = (ok tt, w)
  remove_directory path (stat_failed, w) = (ok tt, w)

  abbrev pub remove_ap_root : GoString → Action W (Unit {0})
  remove_ap_root path w = remove_directory path (d.mounter.stat path w)

  abbrev pub unmount_root : GoString → Action W (Unit {0})
  unmount_root root w = checked (d.mounter.unmount root w)

  abbrev pub answered : Removal × W → Result DriverError RootRemoval × W
  answered (removed, w) = (ok completed, w)
  answered (not_exist, w) = (ok completed, w)
  answered (remove_failed, w) = (err (status internal), w)

  abbrev pub remove_root : GoString → Action W RootRemoval
  remove_root root w = answered (d.mounter.remove root w)

  abbrev pub make_root : GoString → Action W (Unit {0})
  make_root root w = checked (d.mounter.make_dir root w)

  abbrev pub empty_root :
      GoString → GoString → GoString → List GoString × W → Result DriverError RootRemoval × W
  empty_root fs root path (options, w) =
      (do
        make_root root
        mount_root fs root options
        remove_ap_root path
        unmount_root root
        remove_root root)
        w

  -- The removal of the root directory of an access point that was found.
  unfoldable pub remove_found :
      CloudAccess W → GoString → GoString → AccessPoint → Action W RootRemoval
  remove_found access fs root ap w =
      empty_root fs root (root ++ ap.access_point_root_dir) (deletion_mount_options access fs w)

  abbrev pub with_description :
      CloudAccess W
      → GoString
      → GoString
      → Result CloudError AccessPoint × W
      → Result DriverError RootRemoval × W
  with_description access fs root (ok ap, w) = remove_found access fs root ap w
  with_description access fs root (err access_denied, w) = (err (status unauthenticated), w)
  with_description access fs root (err not_found, w) = (ok missing, w)
  with_description access fs root (err _, w) = (err (status internal), w)

  -- The part under `deleteAccessPointRootDir`, with its deferred function.
  unfoldable pub remove_root_directory : CloudAccess W → ParsedVolume → Action W RootRemoval
  remove_root_directory access p w = or_clean_up (fs_root p.apid) (
      with_description access p.fsid (fs_root p.apid)
        (access.local_cloud.describe_access_point p.apid w))

  abbrev pub deletion_answer : Option CloudError × W → Result DriverError (Unit {0}) × W
  deletion_answer (none, w) = (ok tt, w)
  deletion_answer (some access_denied, w) = (err (status unauthenticated), w)
  deletion_answer (some not_found, w) = (ok tt, w)
  deletion_answer (some _, w) = (err (status internal), w)

  -- The call of `DeleteAccessPoint`.
  unfoldable pub delete_access_point_of : CloudAccess W → GoString → Action W (Unit {0})
  delete_access_point_of access apid w =
      deletion_answer (access.local_cloud.delete_access_point apid w)

  abbrev pub after_root : CloudAccess W → GoString → RootRemoval → Action W (Unit {0})
  after_root access apid missing = give tt
  after_root access apid completed = delete_access_point_of access apid

  abbrev pub deletion_steps : Bool → CloudAccess W → ParsedVolume → Action W (Unit {0})
  deletion_steps true access p = remove_root_directory access p >>= after_root access p.apid
  deletion_steps false access p = delete_access_point_of access p.apid

  abbrev pub unlocked : CloudAccess W → ParsedVolume → Action W (Unit {0})
  unlocked access p w =
      deferred (deletion_steps d.delete_access_point_root_dir access p w) (d.unlock_mutex p.apid)

  -- `DeleteVolume` for an access point, from the lock on.
  unfoldable pub delete_access_point_volume : CloudAccess W → ParsedVolume → Action W (Unit {0})
  delete_access_point_volume access p = take_lock d p.apid >> unlocked access p
