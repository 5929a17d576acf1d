-- ===== src/EfsNs/Cache/View.antt =====
-- What a client of the cache of pkg/driver/efs-ns/cache.go sees.
use aws_efs_csi_driver.Prelude.{
  ℕ, ◌-◌, ◌≤◌, ◌≡◌, refl, true, false, not, [], ◌∷◌, Option, none, some, GoString, is_empty, str_eq,
  str_eq_iff, pos, le_int, lt_int, Map, lookup, lookup-remove, filter_option, lookup-filter_values,
  Unique, length-filter_values, if◌then◌else◌, arith,
}
use aws_efs_csi_driver.EfsNs.FileSystem.{FileSystemInfo}
use aws_efs_csi_driver.EfsNs.Cache.{
  Cache, CacheEntry, is_expired, fresh, cache_get, cache_set, cache_delete, list_fresh, cache_list,
  cache_size, cleanup_expired_entries,
}

-- What was set is found again as long as its time to live at the time of the call to `Set` has
-- not passed, and by every later call if that is 0 or negative; other namespaces are not
-- concerned.
pub cache_get-set :
    (namespace j : GoString) (info : FileSystemInfo) (at now : ℕ) (c : Cache)
    → is_empty namespace ≡ false
    → cache_get j now (cache_set namespace (some info) at c) ≡ (
        if str_eq namespace j
        then (if le_int c.ttl (pos 0)
            then some info
            else if lt_int c.ttl (pos (now - at))
            then none
            else some info)
        else cache_get j now c)
unfolding cache_get cache_set
cache_get-set namespace j info at now c h =
    ground (arith, lookup-remove namespace j c.entries, str_eq_iff namespace j)

-- A deleted namespace is not found; the others are as before.
pub cache_get-delete :
    (namespace j : GoString) (now : ℕ) (c : Cache)
    → cache_get j now (cache_delete namespace c)
      ≡ (if str_eq namespace j then none else cache_get j now c)
unfolding cache_get cache_delete
cache_get-delete namespace j now c =
    ground (arith, lookup-remove namespace j c.entries, str_eq_iff namespace j)

later_expired :
    (now t : ℕ) (e : CacheEntry) → now ≤ t → is_expired now e ≡ true → is_expired t e ≡ true
unfolding is_expired
later_expired now t e l h = ground arith

fresh-filter :
    (now t : ℕ) (o : Option CacheEntry)
    → now ≤ t
    → fresh t (filter_option (λ e. not (is_expired now e)) o) ≡ fresh t o
fresh-filter now t none l = refl
fresh-filter now t (some e) l = ground (arith, later_expired now t e l)

-- The periodic cleanup cannot be seen by `Get`, then or at any later time, and makes nothing
-- grow.
pub cleanup_invisible :
    (namespace : GoString) (now t : ℕ) (c : Cache)
    → Unique c.entries
    → now ≤ t
    → (cache_get namespace t (cleanup_expired_entries now c) ≡ cache_get namespace t c)
      × (cache_size (cleanup_expired_entries now c) ≤ cache_size c)
unfolding cache_get cleanup_expired_entries cache_size
cleanup_invisible namespace now t c u l = (
  rw (lookup-filter_values (λ e. not (is_expired now e)) namespace c.entries u)
      (rw (fresh-filter now t (lookup namespace c.entries) l) refl),
  length-filter_values (λ e. not (is_expired now e)) c.entries,
)

lookup-list_fresh :
    (namespace : GoString) (now : ℕ) (m : Map CacheEntry)
    → Unique m
    → lookup namespace (list_fresh now m) ≡ fresh now (lookup namespace m)
unfolding list_fresh
lookup-list_fresh namespace now [] u = refl
lookup-list_fresh namespace now ((k, e) ∷ m) u =
    ground (arith, lookup-list_fresh namespace now m u.1, u.0, str_eq_iff k namespace)

-- `List` and `Get` agree, at every namespace that is not empty.
pub lookup-cache_list :
    (namespace : GoString) (now : ℕ) (c : Cache)
    → Unique c.entries
    → is_empty namespace ≡ false
    → lookup namespace (cache_list now c) ≡ cache_get namespace now c
unfolding cache_list cache_get
lookup-cache_list namespace now c u h = ground (arith, lookup-list_fresh namespace now c.entries u)
