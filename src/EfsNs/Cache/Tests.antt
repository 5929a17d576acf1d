-- ===== src/EfsNs/Cache/Tests.antt =====
-- The cache of pkg/driver/efs-ns/cache.go at concrete entries.
use aws_efs_csi_driver.Prelude.{
  ◌≡◌, ◌≤◌, refl, true, [], ◌∷◌, none, some, GoString, codes, arith, pos, le_int, lt_int, str_eq,
  ◌-◌, lookup, Unique, if◌then◌else◌,
}
use aws_efs_csi_driver.EfsNs.FileSystem.{FileSystemInfo, available}
use aws_efs_csi_driver.EfsNs.Cache.{
  Cache, cache_get, cache_set, cache_list, cache_size, cleanup_expired_entries,
}
use aws_efs_csi_driver.EfsNs.Cache.View.{cache_get-set, cleanup_invisible, lookup-cache_list}

abbrev info : FileSystemInfo
info = record {
  file_system_id = codes "fs-1";
  namespace = codes "a";
  cluster_id = codes "main";
  created_at = 3;
  mount_targets = [];
  security_group_id = [];
  state = available;
  pvc_count = 1;
  tags = [];
  performance_mode = [];
  throughput_mode = [];
  encrypted = true;
}

abbrev a : GoString
a = codes "a"

abbrev b : GoString
b = codes "b"

abbrev cache : Cache
cache = record {
  entries =
      (a, record { cached = info; created_at = 10; ttl = pos 5 })
      ∷ (b, record { cached = info; created_at = 10; ttl = pos 50 })
      ∷ [];
  ttl = pos 7;
}

cache-Unique : Unique cache.entries
cache-Unique = (refl, (refl, tt))

cache_get-set_example : cache_get a 40 (cache_set b (some info) 30 cache) ≡ (
    if str_eq b a
    then (if le_int (pos 7) (pos 0)
        then some info
        else if lt_int (pos 7) (pos (40 - 30))
        then none
        else some info)
    else cache_get a 40 cache)
cache_get-set_example = cache_get-set b a info 30 40 cache refl

cleanup_invisible_example :
    (cache_get b 70 (cleanup_expired_entries 20 cache) ≡ cache_get b 70 cache)
    × (cache_size (cleanup_expired_entries 20 cache) ≤ cache_size cache)
cleanup_invisible_example = cleanup_invisible b 20 70 cache cache-Unique (omega arith)

lookup-cache_list_example : lookup a (cache_list 20 cache) ≡ cache_get a 20 cache
lookup-cache_list_example = lookup-cache_list a 20 cache cache-Unique refl
