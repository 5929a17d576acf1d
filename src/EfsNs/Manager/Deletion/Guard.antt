-- ===== src/EfsNs/Manager/Deletion/Guard.antt =====
-- When `DeleteFileSystemForNamespace` of pkg/driver/efs-ns/manager.go deletes.
use aws_efs_csi_driver.Prelude.{
  ℕ, zero, suc, ◌≡◌, ◌≢◌, refl, sym, ap, subst, ◌∙◌, inl, inr, true, List, [], ◌∷◌, Option, none,
  some, arith, GoString, Result, ok, err, Result-cases, Bool-cases,
}
use aws_efs_csi_driver.EfsNs.Errors.{GoError, file_system_not_found, is_efsns_error}
use aws_efs_csi_driver.EfsNs.FileSystem.{FileSystemInfo, can_be_deleted}
use aws_efs_csi_driver.EfsNs.Manager.{
  EfsClient, PvcTracker, ManagerState, MountTargetDescription, get_file_system_info,
}
use aws_efs_csi_driver.EfsNs.Manager.Deletion.{
  WaitEvent, context_ended, timed_out, tick, checked_deletion, mount_targets_of, look, poll_deleted,
  wait_for_mount_targets_deleted, delete_each, delete_mount_targets, after_deletions, delete_found,
  wrapped_answer, delete_file_system, delete_whole, with_info, with_count, forget, in_deletion,
  delete_file_system_for_namespace,
}

module _ {W : Type 0} (efs : EfsClient W) (tracker : PvcTracker W) (cluster_id : GoString) where
  abbrev pub delete :
      GoString → GoString → ℕ → List WaitEvent → ManagerState W → Option GoError × ManagerState W
  delete = delete_file_system_for_namespace efs tracker cluster_id

  -- A look that ends the wait with success has seen no mount targets.
  abbrev pub NoneLeft : GoString → W → Type 0
  NoneLeft id t =
      (w : W) × ((mount_targets_of efs tracker cluster_id id w).0 ≡ ok [])
      × (t ≡ (mount_targets_of efs tracker cluster_id id w).1)

  look-NoneLeft :
      (id : GoString) (w : W) (next : W → Option GoError × W)
      (r : Result GoError (List MountTargetDescription) × W)
      → ((v : W) → (next v).0 ≡ none → NoneLeft id (next v).1)
      → r ≡ mount_targets_of efs tracker cluster_id id w
      → (look efs tracker cluster_id r next).0 ≡ none
      → NoneLeft id (look efs tracker cluster_id r next).1
  look-NoneLeft id w next (err e, v) later q h = cc
  look-NoneLeft id w next (ok [], v) later q h = (
    w,
    sym (ap (λ (x : Result GoError (List MountTargetDescription) × W). x.0) q),
    ap (λ (x : Result GoError (List MountTargetDescription) × W). x.1) q,
  )
  look-NoneLeft id w next (ok (t ∷ ts), v) later q h = later v h

  poll_deleted-NoneLeft :
      (events : List WaitEvent) (id : GoString) (w : W)
      → (poll_deleted efs tracker cluster_id events id w).0 ≡ none
      → NoneLeft id (poll_deleted efs tracker cluster_id events id w).1
  unfolding poll_deleted
  poll_deleted-NoneLeft [] id w h = cc
  poll_deleted-NoneLeft (context_ended ∷ _) id w h = cc
  poll_deleted-NoneLeft (timed_out ∷ _) id w h = cc
  poll_deleted-NoneLeft (tick ∷ events) id w h =
      look-NoneLeft id w _ _ (poll_deleted-NoneLeft events id) refl h

  wrapped_answer-none :
      (r : Option GoError × W)
      → (wrapped_answer efs tracker cluster_id r).0 ≡ none
      → (r.0 ≡ none) × ((wrapped_answer efs tracker cluster_id r).1 ≡ r.1)
  wrapped_answer-none (none, w) h = (refl, refl)
  wrapped_answer-none (some e, w) h = cc

  deletions_done :
      (events : List WaitEvent) (id : GoString) (r : ℕ × W)
      → (after_deletions efs tracker cluster_id events id r).0 ≡ none
      → (r.0 ≡ 0) × NoneLeft id (after_deletions efs tracker cluster_id events id r).1
  unfolding wait_for_mount_targets_deleted
  deletions_done events id (zero, w) h =
      let (e, q) = wrapped_answer-none _ h in
      (
        refl,
        subst (NoneLeft id) (sym q)
            (look-NoneLeft id w _ _ (poll_deleted-NoneLeft events id) refl e),
      )
  deletions_done events id (suc n, w) h = cc

  found_done :
      (events : List WaitEvent) (id : GoString)
      (r : Result GoError (List MountTargetDescription) × W)
      → (delete_found efs tracker cluster_id events id r).0 ≡ none
      → (ts : List MountTargetDescription) × (r.0 ≡ ok ts)
        × ((delete_each efs tracker cluster_id ts r.1).0 ≡ 0)
        × NoneLeft id (delete_found efs tracker cluster_id events id r).1
  found_done events id (err e, w) h = cc
  found_done events id (ok ts, w) h =
      let (none_failed, left) =
        deletions_done events id (delete_each efs tracker cluster_id ts w) h in
      (ts, refl, none_failed, left)

  -- The deletion of the mount targets of a file system succeeds only if AWS described them, no
  -- deletion of one of them failed, and at last AWS described none any more.
  pub delete_mount_targets-none :
      (events : List WaitEvent) (id : GoString) (w : W)
      → (delete_mount_targets efs tracker cluster_id events id w).0 ≡ none
      → (ts : List MountTargetDescription) × ((mount_targets_of efs tracker cluster_id id w).0
          ≡ ok ts)
        × ((delete_each efs tracker cluster_id ts
              (mount_targets_of efs tracker cluster_id id w).1).0
            ≡ 0)
        × NoneLeft id (delete_mount_targets efs tracker cluster_id events id w).1
  unfolding delete_mount_targets
  delete_mount_targets-none events id w h =
      found_done events id (mount_targets_of efs tracker cluster_id id w) h

  -- What a deletion that succeeds has done to the file system `id`: its mount targets are gone,
  -- AWS has accepted to delete it, and the cache forgets it.
  pub record IsWhole (namespace : GoString) (events : List WaitEvent) (id : GoString)
      (s t : ManagerState W) : Type 0 where
    pub targets_gone : (delete_mount_targets efs tracker cluster_id events id s.world).0 ≡ none
    pub accepted :
        (efs.delete_file_system id
          (delete_mount_targets efs tracker cluster_id events id s.world).1).0
        ≡ none
    pub world_after :
        t.world
        ≡ (efs.delete_file_system id
            (delete_mount_targets efs tracker cluster_id events id s.world).1).1
    pub cache_after : t.cache ≡ (forget efs tracker cluster_id namespace s).cache

  in_deletion-none :
      (namespace : GoString) (s : ManagerState W) (d : Option GoError × W)
      (next : W → Option GoError × ManagerState W)
      → (in_deletion efs tracker cluster_id namespace s d next).0 ≡ none
      → (d.0 ≡ none) × (in_deletion efs tracker cluster_id namespace s d next ≡ next d.1)
  in_deletion-none namespace s (some e, w) next h = cc
  in_deletion-none namespace s (none, w) next h = (refl, refl)

  delete_whole-IsWhole :
      (namespace : GoString) (events : List WaitEvent) (id : GoString) (s : ManagerState W)
      → (delete_whole efs tracker cluster_id namespace events id s).0 ≡ none
      → IsWhole namespace events id s (delete_whole efs tracker cluster_id namespace events id s).1
  unfolding delete_whole delete_file_system
  delete_whole-IsWhole namespace events id s h =
      let d = delete_mount_targets efs tracker cluster_id events id s.world in
      let (gone, q) = in_deletion-none namespace s d _ h in
      let h' = sym (ap (λ (x : Option GoError × ManagerState W). x.0) q) ∙ h in
      let (accepted, q') =
        in_deletion-none namespace s (delete_file_system efs tracker cluster_id id d.1) _ h' in
      let (took, after) = wrapped_answer-none (efs.delete_file_system id d.1) accepted in
      let run = ap (λ (x : Option GoError × ManagerState W). x.1) (q ∙ q') in
      record {
        targets_gone = gone;
        accepted = took;
        world_after = ap (λ (x : ManagerState W). x.world) run ∙ after;
        cache_after = ap (λ (x : ManagerState W). x.cache) run;
      }

  -- Why a deletion succeeded: there was no file system, or there was one that could be deleted,
  -- and it was.
  pub data Reason (namespace : GoString) (events : List WaitEvent) (t : ManagerState W)
      : Result GoError FileSystemInfo × ManagerState W → Type 0 where
    none_there :
        (e : GoError) (s : ManagerState W)
        → is_efsns_error e file_system_not_found ≡ true
        → t ≡ forget efs tracker cluster_id namespace s
        → Reason namespace events t (err e, s)
    was_deleted :
        (i : FileSystemInfo) (s : ManagerState W)
        → can_be_deleted i ≡ true
        → IsWhole namespace events i.file_system_id s t
        → Reason namespace events t (ok i, s)

  with_info-Reason :
      (namespace : GoString) (events : List WaitEvent)
      (r : Result GoError FileSystemInfo × ManagerState W)
      → (with_info efs tracker cluster_id namespace events r).0 ≡ none
      → Reason namespace events (with_info efs tracker cluster_id namespace events r).1 r
  with_info-Reason namespace events (err e, s) h =
      elim (Bool-cases (is_efsns_error e file_system_not_found)) [
        | inl absent ↦ none_there e s absent (rw absent refl)
        | inr other ↦ absurd (ground (arith, other))
      ]
  with_info-Reason namespace events (ok i, s) h = elim (Bool-cases (can_be_deleted i)) [
    | inl yes_it_can ↦ was_deleted i s yes_it_can (
        rw yes_it_can
          (delete_whole-IsWhole namespace events i.file_system_id s (rw yes_it_can at h)))
    | inr not_now ↦ absurd (ground (arith, not_now))
  ]

  with_count-Reason :
      (namespace : GoString) (now : ℕ) (events : List WaitEvent) (s : ManagerState W)
      (r : Result GoError ℕ × W)
      → (with_count efs tracker cluster_id namespace now events s r).0 ≡ none
      → (r.0 ≡ ok 0)
        × Reason namespace events
            (with_count efs tracker cluster_id namespace now events s r).1
            (get_file_system_info efs tracker cluster_id namespace now (record s { world = r.1 }))
  with_count-Reason namespace now events s (err e, w) h = cc
  with_count-Reason namespace now events s (ok (suc n), w) h = cc
  with_count-Reason namespace now events s (ok zero, w) h =
      (refl, with_info-Reason namespace events _ h)

  refused :
      (namespace volume_id : GoString) (now : ℕ) (events : List WaitEvent) (s : ManagerState W)
      (e : GoError)
      → checked_deletion namespace volume_id ≡ err e
      → (delete namespace volume_id now events s).0 ≢ none
  unfolding delete_file_system_for_namespace
  refused namespace volume_id now events s e bad h = cc

  -- A request to delete the file system of a namespace succeeds only if the tracker counts no PVC
  -- there, and then for one of two reasons: no file system was found; or the one that was found
  -- could be deleted, its mount targets are gone, and AWS accepted its deletion. The cache forgets
  -- the namespace in both cases.
  pub deletion-Reason :
      (namespace volume_id : GoString) (now : ℕ) (events : List WaitEvent) (s : ManagerState W)
      → (delete namespace volume_id now events s).0 ≡ none
      → ((tracker.pvc_count_of namespace s.world).0 ≡ ok 0)
        × Reason namespace events (delete namespace volume_id now events s).1 (
            get_file_system_info efs tracker cluster_id namespace now
              (record s { world = (tracker.pvc_count_of namespace s.world).1 }))
  unfolding delete_file_system_for_namespace
  deletion-Reason namespace volume_id now events s h =
      elim (Result-cases (checked_deletion namespace volume_id)) [
        | inl (e, bad) ↦ absurd (refused namespace volume_id now events s e bad h)
        | inr (v, good) ↦
            rw (good, delete_file_system_for_namespace)
              (with_count-Reason namespace now events s (tracker.pvc_count_of namespace s.world)
                (rw (good, delete_file_system_for_namespace) at h))
      ]
