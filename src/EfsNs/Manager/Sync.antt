-- ===== src/EfsNs/Manager/Sync.antt =====
-- pkg/driver/efs-ns/manager.go: `SyncFromAWS`, which asks AWS again for every cached file system.
-- `now` is the clock; the cache is visited in the order of its entries.
use aws_efs_csi_driver.Prelude.{
  ℕ, ◌≡◌, refl, ◌∙◌, Bool, false, List, [], ◌∷◌, Option, none, some, GoString, str_eq, is_empty,
  Map, lookup, Result, ok, err, if◌then◌else◌, arith, Bool-cases, inl, inr,
}
use aws_efs_csi_driver.EfsNs.Errors.{GoError, wrapped, plain}
use aws_efs_csi_driver.EfsNs.FileSystem.{FileSystemInfo}
use aws_efs_csi_driver.EfsNs.Cache.{Cache, cache_get, cache_set, cache_delete, cache_list}
use aws_efs_csi_driver.EfsNs.Cache.View.{cache_get-set, cache_get-delete}
use aws_efs_csi_driver.EfsNs.Manager.{
  EfsClient, PvcTracker, ManagerState, FileSystemDescription, Tag, namespace_tag, or_empty,
  convert_file_system,
}

abbrev is_key : GoString → Option GoString → Bool
is_key k none = false
is_key k (some key) = str_eq key k

-- The namespace of a file system, by its first tag for it.
abbrev pub namespace_of : List Tag → GoString
namespace_of [] = []
namespace_of (t ∷ ts) =
    let rest = namespace_of ts in if is_key namespace_tag t.key then or_empty t.value else rest

module _ {W : Type 0} (efs : EfsClient W) (tracker : PvcTracker W) (cluster_id : GoString) where
  abbrev some_info : Result GoError FileSystemInfo × W → Result GoError (Option FileSystemInfo) × W
  some_info (err e, w) = (err e, w)
  some_info (ok i, w) = (ok (some i), w)

  abbrev described :
      Result GoError (List FileSystemDescription) × W → Result GoError (Option FileSystemInfo) × W
  described (err e, w) = (err (wrapped e), w)
  described (ok [], w) = (ok none, w)
  described (ok (d ∷ ds), w) =
      if is_empty (namespace_of d.description_tags)
      then (err plain, w)
      else some_info
          (convert_file_system efs tracker cluster_id d (namespace_of d.description_tags) w)

  -- `getFileSystemFromAWS`
  unfoldable pub get_file_system_from_aws :
      GoString → W → Result GoError (Option FileSystemInfo) × W
  get_file_system_from_aws id w = described (efs.describe_file_systems (some id) w)

  -- What the cache keeps of an answer for a namespace.
  abbrev refreshed_cache : GoString → ℕ → Result GoError (Option FileSystemInfo) → Cache → Cache
  refreshed_cache namespace now (err e) c = c
  refreshed_cache namespace now (ok none) c = cache_delete namespace c
  refreshed_cache namespace now (ok (some i)) c = cache_set namespace (some i) now c

  -- The loop of `SyncFromAWS`.
  unfoldable pub sync_each : Map FileSystemInfo → ℕ → ManagerState W → ManagerState W
  sync_each [] now s = s
  sync_each ((namespace, i) ∷ rest) now s =
      let r = get_file_system_from_aws i.file_system_id s.world in
      sync_each rest now (record { world = r.1; cache = refreshed_cache namespace now r.0 s.cache })

  -- `SyncFromAWS`
  unfoldable pub sync_from_aws : ℕ → ManagerState W → ManagerState W
  sync_from_aws now s = sync_each (cache_list now s.cache) now s

  refreshed-other :
      (namespace j : GoString) (now t : ℕ) (r : Result GoError (Option FileSystemInfo)) (c : Cache)
      → str_eq namespace j ≡ false
      → cache_get j t (refreshed_cache namespace now r c) ≡ cache_get j t c
  unfolding cache_set cache_delete
  refreshed-other namespace j now t (err e) c h = refl
  refreshed-other namespace j now t (ok none) c h = cache_get-delete namespace j t c ∙ rw h refl
  refreshed-other namespace j now t (ok (some i)) c h = elim (Bool-cases (is_empty namespace)) [
    | inl blank ↦ rw blank refl
    | inr there ↦ cache_get-set namespace j i now t c there ∙ rw h refl
  ]

  sync_each-other :
      (j : GoString) (now t : ℕ) (cached : Map FileSystemInfo) (s : ManagerState W)
      → lookup j cached ≡ none
      → cache_get j t (sync_each cached now s).cache ≡ cache_get j t s.cache
  unfolding sync_each
  sync_each-other j now t [] s h = refl
  sync_each-other j now t ((namespace, i) ∷ rest) s h =
      let r = get_file_system_from_aws i.file_system_id s.world in
      sync_each-other j now t rest _ (ground arith)
      ∙ refreshed-other namespace j now t r.0 s.cache (ground arith)

  -- A synchronisation with AWS leaves alone what `Get` says of a namespace that the cache did not
  -- list, now and at every other time.
  pub sync_from_aws-other :
      (j : GoString) (now t : ℕ) (s : ManagerState W)
      → lookup j (cache_list now s.cache) ≡ none
      → cache_get j t (sync_from_aws now s).cache ≡ cache_get j t s.cache
  unfolding sync_from_aws
  sync_from_aws-other j now t s h = sync_each-other j now t (cache_list now s.cache) s h
