-- ===== src/EfsNs/Manager/Service.antt =====
-- pkg/driver/efs-ns/manager.go: `createFileSystem` and `CreateOrGetFileSystemForNamespace`, which
-- holds the mutex from its second look into the cache on. Both
-- looks and a store of what was found have the clock `now`.
pub mod Cleanup
use aws_efs_csi_driver.Prelude.{
  ℕ, Bool, true, false, List, [], ◌∷◌, ◌++◌, Option, none, some, GoString, codes, is_empty, Map,
  Result, ok, err, ◌>>=◌, ◌>>◌, reject, if◌then◌else◌,
}
use aws_efs_csi_driver.EfsNs.Errors.{
  GoError, efsns_error, efsns_caused, wrapped, plain, invalid_parameter, aws_api_failed,
  file_system_creation_failed,
}
use aws_efs_csi_driver.EfsNs.FileSystem.{
  FileSystemInfo, FileSystemOptions, validate_options, available,
}
use aws_efs_csi_driver.EfsNs.Cache.{Cache, cache_get, cache_set}
use aws_efs_csi_driver.EfsNs.Manager.{
  EfsClient, PvcTracker, ManagerState, CreateInput, file_system_name, find_existing_file_system,
}
use aws_efs_csi_driver.EfsNs.Manager.Deletion.{WaitEvent, delete_file_system}
use aws_efs_csi_driver.EfsNs.Manager.Creation.{
  Ec2Client, build_tags, create_input, wait_for_file_system_available, create_mount_targets,
}

-- What happens during a creation: the clock in the token and at the end, and the two waits.
pub record Events : Type 0 where
  pub stamp : GoString
  pub ended : ℕ
  pub until_available : List WaitEvent
  pub until_mounted : List WaitEvent

abbrev operation : GoString
operation = codes "CreateOrGetFileSystemForNamespace"

-- The parameters, checked; nil options are `none`.
unfoldable pub checked_creation :
    GoString → Option FileSystemOptions → Result GoError FileSystemOptions
checked_creation namespace none = err (efsns_error invalid_parameter operation namespace)
checked_creation namespace (some o) = do
  reject (is_empty namespace) (efsns_error invalid_parameter operation namespace)
  elim (validate_options o) [
    | err e ↦ err (efsns_caused invalid_parameter operation namespace e)
    | ok _ ↦ ok o
  ]

module _ {W : Type 0} (efs : EfsClient W) (ec2 : Ec2Client W) (tracker : PvcTracker W)
    (cluster_id vpc_id : GoString) where
  -- A step of the creation that fails has the new file system deleted; the answer to that is
  -- dropped.
  abbrev or_cleanup :
      GoString
      → Option GoError × W
      → (W → Result GoError FileSystemInfo × W)
      → Result GoError FileSystemInfo × W
  or_cleanup id (none, w) next = next w
  or_cleanup id (some e, w) next =
      (err (wrapped e), (delete_file_system efs tracker cluster_id id w).1)

  abbrev new_info : GoString → GoString → FileSystemOptions → CreateInput → ℕ → FileSystemInfo
  new_info id namespace o input ended = record {
    file_system_id = id;
    namespace = namespace;
    cluster_id = cluster_id;
    created_at = ended;
    mount_targets = [];
    security_group_id = [];
    state = available;
    pvc_count = 0;
    tags = build_tags namespace cluster_id o;
    performance_mode = input.performance_asked;
    throughput_mode = input.throughput_asked;
    encrypted = input.encrypted_asked;
  }

  abbrev answer_new :
      GoString
      → FileSystemOptions
      → CreateInput
      → Events
      → GoString
      → W
      → Result GoError FileSystemInfo × W
  answer_new namespace o input events id w = (ok (new_info id namespace o input events.ended), w)

  -- `createFileSystem` once the file system is available. The answers to the two calls that set
  -- tags are dropped.
  unfoldable pub mount_new :
      GoString
      → FileSystemOptions
      → CreateInput
      → Events
      → GoString
      → W
      → Result GoError FileSystemInfo × W
  mount_new namespace o input events id w =
      let t = efs.create_tags id (build_tags namespace cluster_id o) w in
      let n = efs.create_tags id ((codes "Name", file_system_name namespace cluster_id) ∷ []) t.1 in
      or_cleanup id
        (create_mount_targets efs ec2 tracker cluster_id vpc_id events.until_mounted id namespace
          n.1)
        (answer_new namespace o input events id)

  -- `createFileSystem` after AWS has answered with an ID.
  unfoldable pub finish_creation :
      GoString
      → FileSystemOptions
      → CreateInput
      → Events
      → GoString
      → W
      → Result GoError FileSystemInfo × W
  finish_creation namespace o input events id w =
      or_cleanup id
        (wait_for_file_system_available efs ec2 tracker cluster_id vpc_id events.until_available id
          w)
        (mount_new namespace o input events id)

  abbrev with_id :
      GoString
      → FileSystemOptions
      → CreateInput
      → Events
      → Result GoError (Option GoString) × W
      → Result GoError FileSystemInfo × W
  with_id namespace o input events (err e, w) = (err (wrapped e), w)
  with_id namespace o input events (ok none, w) = (err plain, w)
  with_id namespace o input events (ok (some id), w) = finish_creation namespace o input events id w

  abbrev input_of : GoString → FileSystemOptions → Events → CreateInput
  input_of namespace o events =
      create_input (file_system_name namespace cluster_id ++ (codes "-" ++ events.stamp)) o

  -- `createFileSystem`
  unfoldable pub create_file_system_for :
      GoString → FileSystemOptions → Events → W → Result GoError FileSystemInfo × W
  create_file_system_for namespace o events w =
      let input = input_of namespace o events in
      with_id namespace o input events (efs.create_file_system input w)

  abbrev keep_new :
      GoString
      → ℕ
      → Cache
      → Result GoError FileSystemInfo × W
      → Result GoError FileSystemInfo × ManagerState W
  keep_new namespace now c (err e, w) = (
    err (efsns_caused file_system_creation_failed operation namespace e),
    record { world = w; cache = c },
  )
  keep_new namespace now c (ok i, w) =
      (ok i, record { world = w; cache = cache_set namespace (some i) now c })

  abbrev or_create :
      GoString
      → FileSystemOptions
      → ℕ
      → Events
      → Cache
      → Result GoError (Option FileSystemInfo) × W
      → Result GoError FileSystemInfo × ManagerState W
  or_create namespace o now events c (err e, w) =
      (err (efsns_caused aws_api_failed operation namespace e), record { world = w; cache = c })
  or_create namespace o now events c (ok (some i), w) =
      (ok i, record { world = w; cache = cache_set namespace (some i) now c })
  or_create namespace o now events c (ok none, w) =
      keep_new namespace events.ended c (create_file_system_for namespace o events w)

  -- `CreateOrGetFileSystemForNamespace`
  unfoldable pub create_or_get :
      GoString
      → Option FileSystemOptions
      → ℕ
      → Events
      → ManagerState W
      → Result GoError FileSystemInfo × ManagerState W
  create_or_get namespace options now events s = elim (checked_creation namespace options) [
    | err e ↦ (err e, s)
    | ok o ↦ elim (cache_get namespace now s.cache) [
      | some i ↦ (ok i, s)
      | none ↦
          or_create namespace o now events s.cache
            (find_existing_file_system efs tracker cluster_id namespace s.world)
    ]
  ]
