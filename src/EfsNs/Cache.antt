-- ===== src/EfsNs/Cache.antt =====
-- pkg/driver/efs-ns/cache.go: file systems by namespace, with a time to live. Each method holds
-- the mutex, so it is one step; times are in nanoseconds, and `now` is the clock at the call.
pub mod View
mod Tests
use aws_efs_csi_driver.Prelude.{
  ℕ, ◌-◌, ◌*◌, Bool, true, false, not, List, [], ◌∷◌, Option, none, some, GoString, codes, is_empty,
  ℤ, pos, le_int, lt_int, Map, lookup, insert, remove, filter_values, length, Result, ok, err,
  if◌then◌else◌,
}
use aws_efs_csi_driver.EfsNs.Errors.{
  GoError, efsns_error, efsns_caused, invalid_parameter, cache_operation_failed,
}
use aws_efs_csi_driver.EfsNs.FileSystem.{FileSystemInfo}

pub record CacheEntry : Type 0 where
  pub cached : FileSystemInfo
  pub created_at : ℕ
  pub ttl : ℤ

-- `isExpired`; no expiry if the time to live is 0 or negative.
unfoldable pub is_expired : ℕ → CacheEntry → Bool
is_expired now e = if le_int e.ttl (pos 0) then false else lt_int e.ttl (pos (now - e.created_at))

-- `memoryCache`
pub record Cache : Type 0 where
  pub entries : Map CacheEntry
  pub ttl : ℤ

-- `DefaultCacheTTL`, five minutes
abbrev pub default_cache_ttl : ℤ
default_cache_ttl = pos (5 * 60 * 1000000000)

-- `NewFileSystemCache`
unfoldable pub new_cache : Cache
new_cache = record { entries = []; ttl = default_cache_ttl }

abbrev fresh : ℕ → Option CacheEntry → Option FileSystemInfo
fresh now none = none
fresh now (some e) = if is_expired now e then none else some e.cached

-- `Get`
unfoldable pub cache_get : GoString → ℕ → Cache → Option FileSystemInfo
unfolding is_expired
cache_get namespace now c =
    if is_empty namespace then none else fresh now (lookup namespace c.entries)

-- `Set`; `none` is a nil pointer.
unfoldable pub cache_set : GoString → Option FileSystemInfo → ℕ → Cache → Cache
cache_set namespace none now c = c
cache_set namespace (some info) now c = if is_empty namespace then c else record c {
  entries = insert namespace (record { cached = info; created_at = now; ttl = c.ttl }) c.entries;
}

-- `Delete`
unfoldable pub cache_delete : GoString → Cache → Cache
cache_delete namespace c =
    if is_empty namespace then c else record c { entries = remove namespace c.entries }

list_fresh : ℕ → Map CacheEntry → Map FileSystemInfo
list_fresh now [] = []
list_fresh now ((k, e) ∷ m) =
    let rest = list_fresh now m in if is_expired now e then rest else (k, e.cached) ∷ rest

-- `List`
unfoldable pub cache_list : ℕ → Cache → Map FileSystemInfo
unfolding list_fresh
cache_list now c = list_fresh now c.entries

abbrev refreshed :
    GoString → Result GoError (Option FileSystemInfo) → ℕ → Cache → Option GoError × Cache
refreshed namespace (err e) now c =
    (some (efsns_caused cache_operation_failed (codes "FileSystemCache.Refresh") namespace e), c)
refreshed namespace (ok none) now c = (none, cache_delete namespace c)
refreshed namespace (ok (some info)) now c = (none, cache_set namespace (some info) now c)

-- `Refresh`; the answer of the refresh function is given, `none` where it is not configured.
unfoldable pub cache_refresh :
    GoString → Option (Result GoError (Option FileSystemInfo)) → ℕ → Cache → Option GoError × Cache
cache_refresh namespace answer now c =
    if is_empty namespace
    then (some (efsns_error invalid_parameter (codes "FileSystemCache.Refresh") namespace), c)
    else elim answer [
      | none ↦
          (some (efsns_error cache_operation_failed (codes "FileSystemCache.Refresh") namespace), c)
      | some r ↦ refreshed namespace r now c
    ]

-- `SetTTL`
pub cache_set_ttl : ℤ → Cache → Cache
cache_set_ttl duration c = record c { ttl = duration }

-- `Clear`
pub cache_clear : Cache → Cache
cache_clear c = record c { entries = [] }

-- `GetSize`
unfoldable pub cache_size : Cache → ℕ
cache_size c = length c.entries

-- `cleanupExpiredEntries`
unfoldable pub cleanup_expired_entries : ℕ → Cache → Cache
cleanup_expired_entries now c = record c {
  entries = filter_values (λ e. not (is_expired now e)) c.entries;
}
