-- ===== src/Driver/Controller/Delete/Gone.antt =====
-- When `DeleteVolume` reports success, the access point is gone.
use aws_efs_csi_driver.Prelude.{
  Bool, true, false, ◌≡◌, refl, Option, none, some, GoString, Result, ok, err,
}
use aws_efs_csi_driver.Cloud.Types.{
  AccessPoint, CloudError, not_found, already_exists, access_denied, other_error, CloudClient,
}
use aws_efs_csi_driver.Driver.Action.{Ends, continue-Ends, continue-any, deferred-Ends}
use aws_efs_csi_driver.Driver.Status.{DriverError}
use aws_efs_csi_driver.Driver.Mounter.{Removal, removed, not_exist, remove_failed}
use aws_efs_csi_driver.Driver.VolumeId.{ParsedVolume}
use aws_efs_csi_driver.Driver.Controller.{Driver, CloudAccess}
use aws_efs_csi_driver.Driver.Controller.Delete
use aws_efs_csi_driver.Driver.Controller.Delete.{
  fs_root, RootRemoval, missing, completed, clean_up, remove_found, remove_root_directory,
  delete_access_point_of, delete_access_point_volume,
}

-- When AWS says that an access point is no more, and that the calls after it do not bring it back.
pub record GoneRules {W : Type 0} (d : Driver W) (c : CloudClient W) (id : GoString)
    (Gone : W → Type 0) : Type 0 where
  pub deleted : (w v : W) → c.delete_access_point id w ≡ (none, v) → Gone v
  pub not_there : (w v : W) → c.delete_access_point id w ≡ (some not_found, v) → Gone v
  pub not_described : (w v : W) → c.describe_access_point id w ≡ (err not_found, v) → Gone v
  pub stays_asked : (w : W) → Gone w → Gone (d.mounter.is_likely_not_mount_point (fs_root id) w).1
  pub stays_unmounted : (w : W) → Gone w → Gone (d.mounter.unmount (fs_root id) w).1
  pub stays_removed : (w : W) → Gone w → Gone (d.mounter.remove (fs_root id) w).1
  pub stays_unlocked : (w : W) → Gone w → Gone (d.unlock_mutex id w)

module _ {W : Type 0} (d : Driver W) (access : CloudAccess W) (p : ParsedVolume) (Gone : W → Type 0)
    (h : GoneRules d access.local_cloud p.apid Gone) where
  abbrev Any : W → Type 0
  Any w = Unit {0}

  after_unmount-Gone : (r : Bool × W) → Gone r.1 → Gone (Delete.after_unmount d (fs_root p.apid) r)
  after_unmount-Gone (true, w) g = h.stays_removed w g
  after_unmount-Gone (false, w) g = g

  clean_up_mounted-Gone :
      (r : Option Bool × W) → Gone r.1 → Gone (Delete.clean_up_mounted d (fs_root p.apid) r)
  clean_up_mounted-Gone (none, w) g = g
  clean_up_mounted-Gone (some true, w) g = h.stays_removed w g
  clean_up_mounted-Gone (some false, w) g = after_unmount-Gone _ (h.stays_unmounted w g)

  -- What is known after the removal of the root directory.
  abbrev GoneIfMissing : RootRemoval → W → Type 0
  GoneIfMissing missing = Gone
  GoneIfMissing completed = Any

  or_clean_up-Ends :
      (r : Result DriverError RootRemoval × W)
      → Ends GoneIfMissing Any r
      → Ends GoneIfMissing Any (Delete.or_clean_up d (fs_root p.apid) r)
  unfolding Ends clean_up
  or_clean_up-Ends (err e, w) g = tt
  or_clean_up-Ends (ok missing, w) g = clean_up_mounted-Gone _ (h.stays_asked w g)
  or_clean_up-Ends (ok completed, w) g = tt

  completed-Ends : (r : Removal × W) → Ends GoneIfMissing Any (Delete.answered d r)
  unfolding Ends
  completed-Ends (removed, w) = tt
  completed-Ends (not_exist, w) = tt
  completed-Ends (remove_failed, w) = tt

  remove_found-Ends :
      (ap : AccessPoint) (w : W)
      → Ends GoneIfMissing Any (remove_found d access p.fsid (fs_root p.apid) ap w)
  unfolding remove_found
  remove_found-Ends ap w = continue-any GoneIfMissing _ _ λ _ v.
      continue-any GoneIfMissing _ _ λ _ v.
        continue-any GoneIfMissing _ _
          λ _ v. continue-any GoneIfMissing _ _ (λ _ v. completed-Ends _)

  with_description-Ends :
      (w : W) (r : Result CloudError AccessPoint × W)
      → access.local_cloud.describe_access_point p.apid w ≡ r
      → Ends GoneIfMissing Any (Delete.with_description d access p.fsid (fs_root p.apid) r)
  unfolding Ends
  with_description-Ends w (ok ap, v) e = remove_found-Ends ap v
  with_description-Ends w (err access_denied, v) e = tt
  with_description-Ends w (err not_found, v) e = h.not_described w v e
  with_description-Ends w (err already_exists, v) e = tt
  with_description-Ends w (err other_error, v) e = tt

  deletion_answer-Ends :
      (w : W) (r : Option CloudError × W)
      → access.local_cloud.delete_access_point p.apid w ≡ r
      → Ends (λ _. Gone) Any (Delete.deletion_answer d r)
  unfolding Ends
  deletion_answer-Ends w (none, v) e = h.deleted w v e
  deletion_answer-Ends w (some access_denied, v) e = tt
  deletion_answer-Ends w (some not_found, v) e = h.not_there w v e
  deletion_answer-Ends w (some already_exists, v) e = tt
  deletion_answer-Ends w (some other_error, v) e = tt

  delete_of-Ends : (w : W) → Ends (λ _. Gone) Any (delete_access_point_of d access p.apid w)
  unfolding delete_access_point_of
  delete_of-Ends w = deletion_answer-Ends w _ refl

  after_root-Ends :
      (r : RootRemoval) (w : W)
      → GoneIfMissing r w
      → Ends (λ _. Gone) Any (Delete.after_root d access p.apid r w)
  unfolding Ends
  after_root-Ends missing w g = g
  after_root-Ends completed w g = delete_of-Ends w

  deletion_steps-Ends :
      (remove_root : Bool) (w : W)
      → Ends (λ _. Gone) Any (Delete.deletion_steps d remove_root access p w)
  unfolding remove_root_directory
  deletion_steps-Ends false w = delete_of-Ends w
  deletion_steps-Ends true w =
      continue-Ends GoneIfMissing (λ _. Gone) Any _ _
        (or_clean_up-Ends
          (Delete.with_description d access p.fsid (fs_root p.apid)
            (access.local_cloud.describe_access_point p.apid w))
          (with_description-Ends w _ refl))
        after_root-Ends

  pub delete_access_point_volume-Gone :
      (w : W) → Ends (λ _. Gone) Any (delete_access_point_volume d access p w)
  unfolding delete_access_point_volume
  delete_access_point_volume-Gone w =
      continue-any (λ _. Gone) _ _
        λ _ v.
          deferred-Ends (λ _. Gone) (λ _. Gone) Any Any (d.unlock_mutex p.apid) _
            (deletion_steps-Ends _ v) (λ _ u g. h.stays_unlocked u g) (λ _ _. tt)
