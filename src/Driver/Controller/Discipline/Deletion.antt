-- ===== src/Driver/Controller/Discipline/Deletion.antt =====
-- The calls of `DeleteVolume` for access point volumes.
use aws_efs_csi_driver.Prelude.{
  Bool, true, false, ◌≡◌, refl, inl, inr, List, [], ◌∷◌, ◌++◌, Option, none, some, GoString, codes,
  is_empty, Result, ok, err, Bool-cases,
}
use aws_efs_csi_driver.Cloud.Types.{
  AccessPoint, AccessPointOptions, MountTarget, CloudError, not_found, already_exists,
  access_denied, other_error,
}
use aws_efs_csi_driver.Driver.Action.{Action, Ends, continue, continue-Ends, deferred-Ends}
use aws_efs_csi_driver.Driver.Status.{DriverError}
use aws_efs_csi_driver.Driver.Mounter.{
  Removal, removed, not_exist, remove_failed, PathInfo, directory, other_file, stat_failed,
}
use aws_efs_csi_driver.Driver.VolumeId.{ParsedVolume}
use aws_efs_csi_driver.Driver.Controller.{Driver, CloudAccess}
use aws_efs_csi_driver.Driver.Controller.Create.{take_lock, locked}
use aws_efs_csi_driver.Driver.Controller.Delete
use aws_efs_csi_driver.Driver.Controller.Delete.{
  fs_root, RootRemoval, missing, completed, clean_up, deletion_mount_options, mount_root,
  remove_found, remove_root_directory, delete_access_point_of, delete_access_point_volume,
}
use aws_efs_csi_driver.Driver.Controller.Discipline.{
  CloudRules, DriverRules, DescribesRoots, IsRooted, Ends-of_state, state_of-Ends,
}

module _ {W : Type 0} (P : Option GoString → W → Type 0) (MayCreate : AccessPointOptions → Type 0)
    (d : Driver W) (h : DriverRules P MayCreate d) (access : CloudAccess W)
    (k : CloudRules P MayCreate access.local_cloud) (g : DescribesRoots access.local_cloud)
    (id : GoString) where
  abbrev Held : W → Type 0
  Held = P (some id)

  checked_state : (r : Bool × W) → (Delete.checked d r).1 ≡ r.1
  checked_state (true, w) = refl
  checked_state (false, w) = refl

  after_unmount-Held : (r : Bool × W) → Held r.1 → Held (Delete.after_unmount d (fs_root id) r)
  after_unmount-Held (true, w) p = h.host_rules.removes id w p
  after_unmount-Held (false, w) p = p

  clean_up_mounted-Held :
      (r : Option Bool × W) → Held r.1 → Held (Delete.clean_up_mounted d (fs_root id) r)
  clean_up_mounted-Held (none, w) p = p
  clean_up_mounted-Held (some true, w) p = h.host_rules.removes id w p
  clean_up_mounted-Held (some false, w) p = after_unmount-Held _ (h.host_rules.unmounts id w p)

  clean_up-Held : (w : W) → Held w → Held (clean_up d (fs_root id) w)
  unfolding clean_up
  clean_up-Held w p = clean_up_mounted-Held _ (h.host_rules.asks_mount id w p)

  or_clean_up-Ends :
      (r : Result DriverError RootRemoval × W)
      → Held r.1
      → Ends (λ _. Held) Held (Delete.or_clean_up d (fs_root id) r)
  unfolding Ends
  or_clean_up-Ends (err e, w) p = clean_up-Held w p
  or_clean_up-Ends (ok missing, w) p = clean_up-Held w p
  or_clean_up-Ends (ok completed, w) p = p

  with_target_state :
      (options : List GoString) (r : Result CloudError MountTarget × W)
      → (Delete.with_target d options r).1 ≡ r.1
  with_target_state options (err e, w) = refl
  with_target_state options (ok t, w) = refl

  options-Held : (fs : GoString) (w : W) → Held w → Held (deletion_mount_options d access fs w).1
  unfolding deletion_mount_options
  options-Held fs w p = elim (Bool-cases (is_empty access.role_arn)) [
    | inl e ↦ rw e p
    | inr e ↦ elim (Bool-cases access.cross_account_dns_enabled) [
      | inl f ↦ rw e (rw f p)
      | inr f ↦ rw e (
          rw f (
            rw
              (with_target_state (codes "tls" ∷ codes "iam" ∷ [])
                (access.local_cloud.describe_mount_targets fs [] w))
              (k.describes_targets (some id) fs [] w p)))
    ]
  ]

  mount_unless-Ends :
      (fs : GoString) (options : List GoString) (r : Option Bool × W)
      → Held r.1
      → Ends (λ _. Held) Held (Delete.mount_unless d fs (fs_root id) options r)
  mount_unless-Ends fs options (none, w) p = Ends-of_state Held _ p
  mount_unless-Ends fs options (some false, w) p = Ends-of_state Held _ p
  mount_unless-Ends fs options (some true, w) p = Ends-of_state Held _ (
      rw (checked_state (d.mounter.mount fs (fs_root id) (codes "efs") options w))
        (h.host_rules.mounts id fs (codes "efs") options w p))

  remove_directory-Ends :
      (path : GoString) (r : PathInfo × W)
      → IsRooted path
      → Held r.1
      → Ends (λ _. Held) Held (Delete.remove_directory d (fs_root id ++ path) r)
  remove_directory-Ends path (directory, w) k p =
      Ends-of_state Held _ (h.host_rules.removes_all id path w k p)
  remove_directory-Ends path (other_file, w) k p = Ends-of_state Held _ p
  remove_directory-Ends path (stat_failed, w) k p = Ends-of_state Held _ p

  answered_state : (r : Removal × W) → (Delete.answered d r).1 ≡ r.1
  answered_state (removed, w) = refl
  answered_state (not_exist, w) = refl
  answered_state (remove_failed, w) = refl

  then_Held :
      {A B : Type 0} (r : Result DriverError A × W) (next : A → Action W B)
      → Ends (λ _. Held) Held r
      → ((a : A) (w : W) → Held w → Ends (λ _. Held) Held (next a w))
      → Ends (λ _. Held) Held (continue r next)
  then_Held r next p q = continue-Ends (λ _. Held) (λ _. Held) Held r next p q

  make_root-Ends : (w : W) → Held w → Ends (λ _. Held) Held (Delete.make_root d (fs_root id) w)
  make_root-Ends w p =
      Ends-of_state Held _
        (rw (checked_state (d.mounter.make_dir (fs_root id) w)) (h.host_rules.makes_dir id w p))

  unmount_root-Ends :
      (w : W) → Held w → Ends (λ _. Held) Held (Delete.unmount_root d (fs_root id) w)
  unmount_root-Ends w p =
      Ends-of_state Held _
        (rw (checked_state (d.mounter.unmount (fs_root id) w)) (h.host_rules.unmounts id w p))

  remove_root-Ends : (w : W) → Held w → Ends (λ _. Held) Held (Delete.remove_root d (fs_root id) w)
  remove_root-Ends w p =
      Ends-of_state Held _
        (rw (answered_state (d.mounter.remove (fs_root id) w)) (h.host_rules.removes id w p))

  empty_root-Ends :
      (fs path : GoString) (r : List GoString × W)
      → IsRooted path
      → Held r.1
      → Ends (λ _. Held) Held (Delete.empty_root d fs (fs_root id) (fs_root id ++ path) r)
  unfolding mount_root
  empty_root-Ends fs path (options, w) k p = then_Held _ _ (make_root-Ends w p) λ _ v q.
      then_Held _ _ (mount_unless-Ends fs options _ (h.host_rules.asks_mount id v q)) λ _ u r.
        then_Held _ _ (remove_directory-Ends path _ k (h.host_rules.stats id path u k r))
          λ _ t s. then_Held _ _ (unmount_root-Ends t s) λ _ x y. remove_root-Ends x y

  with_description-Ends :
      (fs : GoString) (r : Result CloudError AccessPoint × W)
      → ((ap : AccessPoint) → r.0 ≡ ok ap → IsRooted ap.access_point_root_dir)
      → Held r.1
      → Ends (λ _. Held) Held (Delete.with_description d access fs (fs_root id) r)
  unfolding remove_found
  with_description-Ends fs (ok ap, w) k p = empty_root-Ends fs _ _ (k ap refl) (options-Held fs w p)
  with_description-Ends fs (err access_denied, w) k p = Ends-of_state Held _ p
  with_description-Ends fs (err not_found, w) k p = Ends-of_state Held _ p
  with_description-Ends fs (err already_exists, w) k p = Ends-of_state Held _ p
  with_description-Ends fs (err other_error, w) k p = Ends-of_state Held _ p

  deletion_answer_state : (r : Option CloudError × W) → (Delete.deletion_answer d r).1 ≡ r.1
  deletion_answer_state (none, w) = refl
  deletion_answer_state (some access_denied, w) = refl
  deletion_answer_state (some not_found, w) = refl
  deletion_answer_state (some already_exists, w) = refl
  deletion_answer_state (some other_error, w) = refl

  delete_access_point_of-Ends :
      (w : W) → Held w → Ends (λ _. Held) Held (delete_access_point_of d access id w)
  unfolding delete_access_point_of
  delete_access_point_of-Ends w p =
      Ends-of_state Held _ (
        rw (deletion_answer_state (access.local_cloud.delete_access_point id w)) (k.deletes id w p))

  after_root-Ends :
      (r : RootRemoval) (w : W) → Held w → Ends (λ _. Held) Held (Delete.after_root d access id r w)
  after_root-Ends missing w p = Ends-of_state Held _ p
  after_root-Ends completed w p = delete_access_point_of-Ends w p

module _ {W : Type 0} (P : Option GoString → W → Type 0) (MayCreate : AccessPointOptions → Type 0)
    (d : Driver W) (h : DriverRules P MayCreate d) (access : CloudAccess W)
    (k : CloudRules P MayCreate access.local_cloud) (g : DescribesRoots access.local_cloud)
    (p : ParsedVolume) where
  deletion_steps-Ends :
      (remove_root : Bool) (w : W)
      → P (some p.apid) w
      → Ends
          (λ _. P (some p.apid))
          (P (some p.apid))
          (Delete.deletion_steps d remove_root access p w)
  unfolding remove_root_directory
  deletion_steps-Ends false w q = delete_access_point_of-Ends P MayCreate d h access k g p.apid w q
  deletion_steps-Ends true w q =
      then_Held P MayCreate d h access k g p.apid _ _
        (or_clean_up-Ends P MayCreate d h access k g p.apid _ (
          state_of-Ends (P (some p.apid)) _ (
            with_description-Ends P MayCreate d h access k g p.apid p.fsid
              (access.local_cloud.describe_access_point p.apid w) (g p.apid w)
              (k.describes (some p.apid) p.apid w q))))
        (λ a v r. after_root-Ends P MayCreate d h access k g p.apid a v r)

  locked-Held :
      (w : W) (r : Bool × W)
      → d.lock_mutex p.apid w ≡ r
      → P none w
      → Ends (λ _. P (some p.apid)) (P none) (locked d r)
  unfolding Ends
  locked-Held w (true, v) e q = h.locks p.apid w v q e
  locked-Held w (false, v) e q = h.times_out p.apid w v q e

  pub delete_access_point_volume-Ends :
      (w : W) → P none w → Ends (λ _. P none) (P none) (delete_access_point_volume d access p w)
  unfolding delete_access_point_volume take_lock
  delete_access_point_volume-Ends w q =
      continue-Ends (λ _. P (some p.apid)) (λ _. P none) (P none) _ _ (locked-Held w _ refl q)
        λ _ v r.
          deferred-Ends (λ _. P (some p.apid)) (λ _. P none) (P (some p.apid)) (P none)
            (d.unlock_mutex p.apid) _ (deletion_steps-Ends _ v r) (λ _ u s. h.unlocks p.apid u s)
            (λ u s. h.unlocks p.apid u s)
