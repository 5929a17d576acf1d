-- ===== src/EfsNs/Manager.antt =====
-- pkg/driver/efs-ns/manager.go: what the manager of the file systems of namespaces sees of AWS, and
-- how it finds the file system of a namespace. A call of AWS or of the tracker answers in a world
-- `W` and leaves another one.
pub mod Creation
pub mod Deletion
pub mod Service
pub mod Sync
mod Tests
use aws_efs_csi_driver.Prelude.{
  ℕ, zero, suc, Bool, true, false, not, ◌&&◌, ◌||◌, List, [], ◌∷◌, ◌++◌, Option, none, some,
  GoString, codes, str_eq, is_empty, is_some, ℤ, Map, lookup, insert, Result, ok, err,
  if◌then◌else◌,
}
use aws_efs_csi_driver.EfsNs.Errors.{
  GoError, efsns_error, efsns_caused, wrapped, plain, invalid_parameter, aws_api_failed,
  file_system_not_found, is_efsns_error,
}
use aws_efs_csi_driver.EfsNs.FileSystem.{
  FileSystemInfo, FileSystemState, MountTargetInfo, creating, available, deleting, deleted, error,
}
use aws_efs_csi_driver.EfsNs.Cache.{Cache, cache_get, cache_set, cache_delete, cache_list}

-- `efstypes.Tag`
pub record Tag : Type 0 where
  pub key : Option GoString
  pub value : Option GoString

-- `efstypes.FileSystemDescription`
pub record FileSystemDescription : Type 0 where
  pub description_id : Option GoString
  pub name : Option GoString
  pub creation_time : ℕ
  pub life_cycle_state : GoString
  pub performance : GoString
  pub throughput : GoString
  pub is_encrypted : Option Bool
  pub description_tags : List Tag

-- `efstypes.MountTargetDescription`. Its ID is there whenever AWS describes a mount target; the
-- code relies on it.
pub record MountTargetDescription : Type 0 where
  pub target_id : GoString
  pub target_subnet : Option GoString
  pub target_ip : Option GoString
  pub target_state : GoString

-- `efs.CreateFileSystemInput`
pub record CreateInput : Type 0 where
  pub creation_token : GoString
  pub performance_asked : GoString
  pub throughput_asked : GoString
  pub provisioned_asked : Option ℤ
  pub encrypted_asked : Bool
  pub kms_key_asked : Option GoString

-- `EFSClient`; a call that returns only an error answers `none` for nil.
pub record EfsClient (W : Type 0) : Type 0 where
  pub describe_file_systems : Option GoString → W → Result GoError (List FileSystemDescription) × W
  pub describe_mount_targets : GoString → W → Result GoError (List MountTargetDescription) × W
  -- the ID of the new file system
  pub create_file_system : CreateInput → W → Result GoError (Option GoString) × W
  pub create_tags : GoString → Map GoString → W → Option GoError × W
  -- by file system, subnet and security group
  pub create_mount_target : GoString → GoString → GoString → W → Option GoError × W
  pub delete_mount_target : GoString → W → Option GoError × W
  pub delete_file_system : GoString → W → Option GoError × W

-- `PVCTracker`, as far as the manager calls it.
pub record PvcTracker (W : Type 0) : Type 0 where
  pub pvc_count_of : GoString → W → Result GoError ℕ × W

pub record ManagerState (W : Type 0) : Type 0 where
  pub world : W
  pub cache : Cache

abbrev has_tag : GoString → GoString → Option GoString → Option GoString → Bool
has_tag k v (some key) (some value) = str_eq key k && str_eq value v
has_tag k v _ _ = false

abbrev managed_by : GoString
managed_by = codes "kubernetes.io/managed-by"

abbrev created_by : GoString
created_by = codes "kubernetes.io/created-by"

abbrev namespace_tag : GoString
namespace_tag = codes "kubernetes.io/namespace"

-- `isEFSNSManagedFileSystem`
abbrev pub is_managed : List Tag → Bool
is_managed [] = false
is_managed (t ∷ ts) =
    has_tag managed_by (codes "efs-csi-driver") t.key t.value
    || (has_tag created_by (codes "efs-ns-provisioner") t.key t.value || is_managed ts)

abbrev pub or_empty : Option GoString → GoString
or_empty none = []
or_empty (some s) = s

-- `convertMountTargets`
abbrev pub convert_mount_targets : List MountTargetDescription → List MountTargetInfo
convert_mount_targets [] = []
convert_mount_targets (t ∷ ts) =
    record {
      mount_target_id = t.target_id;
      subnet_id = or_empty t.target_subnet;
      ip_address = or_empty t.target_ip;
      state = t.target_state;
    }
    ∷ convert_mount_targets ts

-- `convertFileSystemState`
abbrev pub convert_state : GoString → FileSystemState
convert_state s =
    if str_eq s (codes "creating")
    then creating
    else if str_eq s (codes "available")
    then available
    else if str_eq s (codes "deleting")
    then deleting
    else if str_eq s (codes "deleted")
    then deleted
    else error

abbrev tag_into : Option GoString → Option GoString → Map GoString → Map GoString
tag_into (some k) (some v) m = insert k v m
tag_into _ _ m = m

-- The loop over the tags that makes a map; a later tag overwrites an earlier one.
abbrev tag_map : List Tag → Map GoString → Map GoString
tag_map [] m = m
tag_map (t ∷ ts) m = tag_map ts (tag_into t.key t.value m)

abbrev has_name : GoString → Option GoString → Bool
has_name expected none = false
has_name expected (some n) = str_eq n expected

-- `FileSystemNameFormat`
abbrev pub file_system_name : GoString → GoString → GoString
file_system_name namespace cluster_id = codes "efs-ns-" ++ (namespace ++ (codes "-" ++ cluster_id))

abbrev pub wrapping : {A : Type 0} → Result GoError A → Result GoError A
wrapping (err e) = err (wrapped e)
wrapping (ok a) = ok a

abbrev or_nil : Result GoError (List MountTargetDescription) → List MountTargetDescription
or_nil (err e) = []
or_nil (ok ts) = ts

abbrev or_zero : Result GoError ℕ → ℕ
or_zero (err e) = 0
or_zero (ok n) = n

abbrev is_true : Option Bool → Bool
is_true none = false
is_true (some b) = b

module _ {W : Type 0} (efs : EfsClient W) (tracker : PvcTracker W) (cluster_id : GoString) where
  -- `getMountTargets`
  abbrev pub get_mount_targets : GoString → W → Result GoError (List MountTargetDescription) × W
  get_mount_targets id w = let r = efs.describe_mount_targets id w in (wrapping r.0, r.1)

  -- The file system of a description whose ID is `id`.
  abbrev info_of :
      FileSystemDescription → GoString → GoString → List MountTargetDescription → ℕ → FileSystemInfo
  info_of d namespace id targets count = record {
    file_system_id = id;
    namespace = namespace;
    cluster_id = cluster_id;
    created_at = d.creation_time;
    mount_targets = convert_mount_targets targets;
    security_group_id = [];
    state = convert_state d.life_cycle_state;
    pvc_count = count;
    tags = tag_map d.description_tags [];
    performance_mode = d.performance;
    throughput_mode = d.throughput;
    encrypted = is_true d.is_encrypted;
  }

  -- `convertAWSFileSystemToInfo`; where a call fails, there are no mount targets, or no PVCs.
  unfoldable pub convert_file_system :
      FileSystemDescription → GoString → W → Result GoError FileSystemInfo × W
  convert_file_system d namespace w = elim d.description_id [
    | none ↦ (err plain, w)
    | some id ↦
        let t = get_mount_targets id w in
        let c = tracker.pvc_count_of namespace t.1 in
        (ok (info_of d namespace id (or_nil t.0) (or_zero c.0)), c.1)
  ]

  abbrev found_or_next :
      Result GoError FileSystemInfo × W
      → (W → Result GoError (Option FileSystemInfo) × W)
      → Result GoError (Option FileSystemInfo) × W
  found_or_next (err e, w) next = next w
  found_or_next (ok i, w) next = (ok (some i), w)

  -- The loop of `findExistingFileSystem`.
  unfoldable pub find_in :
      List FileSystemDescription → GoString → W → Result GoError (Option FileSystemInfo) × W
  find_in [] namespace w = (ok none, w)
  find_in (d ∷ ds) namespace w =
      let next = find_in ds namespace in
      if has_name (file_system_name namespace cluster_id) d.name && is_managed d.description_tags
      then found_or_next (convert_file_system d namespace w) next
      else next w

  abbrev search :
      GoString
      → Result GoError (List FileSystemDescription) × W
      → Result GoError (Option FileSystemInfo) × W
  search namespace (err e, w) = (err (wrapped e), w)
  search namespace (ok ds, w) = find_in ds namespace w

  -- `findExistingFileSystem`
  unfoldable pub find_existing_file_system :
      GoString → W → Result GoError (Option FileSystemInfo) × W
  find_existing_file_system namespace w = search namespace (efs.describe_file_systems none w)

  abbrev get_info : GoString
  get_info = codes "GetFileSystemInfo"

  abbrev keep_info :
      GoString
      → ℕ
      → Cache
      → Result GoError (Option FileSystemInfo) × W
      → Result GoError FileSystemInfo × ManagerState W
  keep_info namespace now c (err e, w) =
      (err (efsns_caused aws_api_failed get_info namespace e), record { world = w; cache = c })
  keep_info namespace now c (ok none, w) =
      (err (efsns_error file_system_not_found get_info namespace), record { world = w; cache = c })
  keep_info namespace now c (ok (some i), w) =
      (ok i, record { world = w; cache = cache_set namespace (some i) now c })

  -- `GetFileSystemInfo`; `now` is the clock.
  unfoldable pub get_file_system_info :
      GoString → ℕ → ManagerState W → Result GoError FileSystemInfo × ManagerState W
  get_file_system_info namespace now s =
      if is_empty namespace
      then (err (efsns_error invalid_parameter get_info namespace), s)
      else elim (cache_get namespace now s.cache) [
        | some i ↦ (ok i, s)
        | none ↦ keep_info namespace now s.cache (find_existing_file_system namespace s.world)
      ]

  abbrev listed :
      Result GoError FileSystemInfo × ManagerState W
      → Result GoError (List FileSystemInfo) × ManagerState W
  listed (ok i, s) = (ok (i ∷ []), s)
  listed (err e, s) = if is_efsns_error e file_system_not_found then (ok [], s) else (err e, s)

  -- `ListFileSystemsForNamespace`
  unfoldable pub list_file_systems_for_namespace :
      GoString → ℕ → ManagerState W → Result GoError (List FileSystemInfo) × ManagerState W
  list_file_systems_for_namespace namespace now s =
      if is_empty namespace
      then (err (efsns_error invalid_parameter (codes "ListFileSystemsForNamespace") namespace), s)
      else listed (get_file_system_info namespace now s)
