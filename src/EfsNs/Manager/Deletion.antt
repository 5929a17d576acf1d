-- ===== src/EfsNs/Manager/Deletion.antt =====
-- pkg/driver/efs-ns/manager.go: `DeleteFileSystemForNamespace` with the deletion of the mount
-- targets and the wait for it. The goroutines that delete the mount targets are run in the order
-- of the list that AWS answers, which may be any.
pub mod Guard
use aws_efs_csi_driver.Prelude.{
  ℕ, zero, suc, Bool, true, false, not, List, [], ◌∷◌, Option, none, some, GoString, codes,
  is_empty, is_some, Result, ok, err, ◌>>=◌, ◌>>◌, reject, if◌then◌else◌, ltb,
}
use aws_efs_csi_driver.EfsNs.Errors.{
  GoError, efsns_error, efsns_caused, wrapped, plain, context_done, invalid_parameter,
  invalid_volume_id, kubernetes_api_failed, aws_api_failed, resource_not_ready,
  file_system_not_found, file_system_deletion_failed, is_efsns_error,
}
use aws_efs_csi_driver.EfsNs.VolumeId.{VolumeId, parse_efsns_volume_id}
use aws_efs_csi_driver.EfsNs.FileSystem.{FileSystemInfo, can_be_deleted}
use aws_efs_csi_driver.EfsNs.Cache.{cache_delete}
use aws_efs_csi_driver.EfsNs.Manager.{
  EfsClient, PvcTracker, ManagerState, MountTargetDescription, get_mount_targets,
  get_file_system_info,
}

-- What ends a wait of the loops that ask every ten seconds, or lets them ask again.
pub data WaitEvent : Type 0 where
  context_ended timed_out tick : WaitEvent

abbrev operation : GoString
operation = codes "DeleteFileSystemForNamespace"

-- The parameters, checked.
unfoldable pub checked_deletion : GoString → GoString → Result GoError VolumeId
checked_deletion namespace volume_id = do
  reject (is_empty namespace) (efsns_error invalid_parameter operation namespace)
  reject (is_empty volume_id) (efsns_error invalid_parameter operation namespace)
  elim (parse_efsns_volume_id volume_id) [
    | err e ↦ err (efsns_caused invalid_volume_id operation namespace e)
    | ok v ↦ ok v
  ]

module _ {W : Type 0} (efs : EfsClient W) (tracker : PvcTracker W) (cluster_id : GoString) where
  abbrev pub mount_targets_of : GoString → W → Result GoError (List MountTargetDescription) × W
  mount_targets_of = get_mount_targets efs tracker cluster_id

  -- One look at the mount targets: the answer if the wait is over, and the rest of it if not.
  abbrev look :
      Result GoError (List MountTargetDescription) × W
      → (W → Option GoError × W)
      → Option GoError × W
  look (err e, w) next = (some (wrapped e), w)
  look (ok [], w) next = (none, w)
  look (ok (t ∷ ts), w) next = next w

  -- The loop of `waitForMountTargetsDeleted`, over the events of its `select`. The timeout ends it;
  -- it stands at the end of the list too.
  unfoldable pub poll_deleted : List WaitEvent → GoString → W → Option GoError × W
  poll_deleted [] id w = (some plain, w)
  poll_deleted (context_ended ∷ _) id w = (some context_done, w)
  poll_deleted (timed_out ∷ _) id w = (some plain, w)
  poll_deleted (tick ∷ events) id w = look (mount_targets_of id w) (poll_deleted events id)

  -- `waitForMountTargetsDeleted`
  unfoldable pub wait_for_mount_targets_deleted : List WaitEvent → GoString → W → Option GoError × W
  wait_for_mount_targets_deleted events id w = look (mount_targets_of id w) (poll_deleted events id)

  -- The calls of `deleteMountTarget`, and how many failed.
  unfoldable pub delete_each : List MountTargetDescription → W → ℕ × W
  delete_each [] w = (0, w)
  delete_each (t ∷ ts) w =
      let r = efs.delete_mount_target t.target_id w in
      let rest = delete_each ts r.1 in (if is_some r.0 then suc rest.0 else rest.0, rest.1)

  abbrev pub wrapped_answer : Option GoError × W → Option GoError × W
  wrapped_answer (none, w) = (none, w)
  wrapped_answer (some e, w) = (some (wrapped e), w)

  abbrev after_deletions : List WaitEvent → GoString → ℕ × W → Option GoError × W
  after_deletions events id (zero, w) = wrapped_answer (wait_for_mount_targets_deleted events id w)
  after_deletions events id (suc failures, w) = (some plain, w)

  abbrev delete_found :
      List WaitEvent
      → GoString
      → Result GoError (List MountTargetDescription) × W
      → Option GoError × W
  delete_found events id (err e, w) = (some (wrapped e), w)
  delete_found events id (ok ts, w) = after_deletions events id (delete_each ts w)

  -- `deleteMountTargets`
  unfoldable pub delete_mount_targets : List WaitEvent → GoString → W → Option GoError × W
  delete_mount_targets events id w = delete_found events id (mount_targets_of id w)

  -- `deleteFileSystem`
  unfoldable pub delete_file_system : GoString → W → Option GoError × W
  delete_file_system id w = wrapped_answer (efs.delete_file_system id w)

  abbrev in_deletion :
      GoString
      → ManagerState W
      → Option GoError × W
      → (W → Option GoError × ManagerState W)
      → Option GoError × ManagerState W
  in_deletion namespace s (some e, w) next = (
    some (efsns_caused file_system_deletion_failed operation namespace e),
    record s { world = w },
  )
  in_deletion namespace s (none, w) next = next w

  abbrev pub forget : GoString → ManagerState W → ManagerState W
  forget namespace s = record s { cache = cache_delete namespace s.cache }

  -- The end of the deletion of a file system that can be deleted.
  unfoldable pub delete_whole :
      GoString → List WaitEvent → GoString → ManagerState W → Option GoError × ManagerState W
  delete_whole namespace events id s =
      in_deletion namespace s (delete_mount_targets events id s.world) λ w.
        in_deletion namespace s (delete_file_system id w)
          λ v. (none, forget namespace (record s { world = v }))

  abbrev with_info :
      GoString
      → List WaitEvent
      → Result GoError FileSystemInfo × ManagerState W
      → Option GoError × ManagerState W
  with_info namespace events (err e, s) =
      if is_efsns_error e file_system_not_found
      then (none, forget namespace s)
      else (some (efsns_caused aws_api_failed operation namespace e), s)
  with_info namespace events (ok i, s) =
      if can_be_deleted i
      then delete_whole namespace events i.file_system_id s
      else (some (efsns_error resource_not_ready operation namespace), s)

  abbrev with_count :
      GoString
      → ℕ
      → List WaitEvent
      → ManagerState W
      → Result GoError ℕ × W
      → Option GoError × ManagerState W
  with_count namespace now events s (err e, w) =
      (some (efsns_caused kubernetes_api_failed operation namespace e), record s { world = w })
  with_count namespace now events s (ok (suc n), w) =
      (some (efsns_error invalid_parameter operation namespace), record s { world = w })
  with_count namespace now events s (ok zero, w) =
      with_info namespace events
        (get_file_system_info efs tracker cluster_id namespace now (record s { world = w }))

  -- `DeleteFileSystemForNamespace`; `now` is the clock.
  unfoldable pub delete_file_system_for_namespace :
      GoString → GoString → ℕ → List WaitEvent → ManagerState W → Option GoError × ManagerState W
  delete_file_system_for_namespace namespace volume_id now events s =
      elim (checked_deletion namespace volume_id) [
        | err e ↦ (some e, s)
        | ok v ↦ with_count namespace now events s (tracker.pvc_count_of namespace s.world)
      ]
