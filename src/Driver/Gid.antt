-- ===== src/Driver/Gid.antt =====
-- pkg/driver/gid_allocator.go: the group ID of a new access point. `getNextGid` runs under the
-- allocator's mutex, so one call is one step.
pub mod Search
mod Tests
use aws_efs_csi_driver.Prelude.{
  ℕ, zero, suc, Bool, true, false, List, [], ◌∷◌, Option, none, some, ◌||◌, ℤ, pos, le_int, lt_int,
  eq_int, minus_one, add_int64, sub_int64, Result, ok, err, if◌then◌else◌,
}
use aws_efs_csi_driver.Cloud.Types.{AccessPoint, PosixUser, access_point_per_fs_limit}
use aws_efs_csi_driver.Driver.Status.{DriverError, status, internal}

abbrev pub user_gids : Option PosixUser → List ℤ → List ℤ
user_gids none gids = gids
user_gids (some user) gids = user.gid ∷ gids

-- `getUsedGids`; `none` is a nil pointer among the access points.
unfoldable pub get_used_gids : List (Option AccessPoint) → List ℤ
get_used_gids [] = []
get_used_gids (none ∷ aps) = get_used_gids aps
get_used_gids (some ap ∷ aps) = user_gids ap.posix_user (get_used_gids aps)

-- `slices.Contains`
abbrev pub contains_int : List ℤ → ℤ → Bool
contains_int [] g = false
contains_int (x ∷ xs) g = eq_int x g || contains_int xs g

-- `for gid := gidMin; gid <= gidMax; gid++`, with fuel; -1 where no gid is found
unfoldable pub lookup_gid : ℕ → List ℤ → ℤ → ℤ → ℤ
lookup_gid zero used gid gid_max = minus_one
lookup_gid (suc fuel) used gid gid_max = elim (le_int gid gid_max) [
  | false ↦ minus_one
  | true ↦ elim (contains_int used gid) [
    | false ↦ gid
    | true ↦ lookup_gid fuel used (add_int64 gid (pos 1)) gid_max
  ]
]

-- The range is cut to the number of access points that a file system can have.
abbrev pub limited_max : ℤ → ℤ → ℤ
limited_max gid_min gid_max =
    if lt_int (pos access_point_per_fs_limit) (sub_int64 gid_max gid_min)
    then add_int64 gid_min (pos access_point_per_fs_limit)
    else gid_max

-- One round for each gid of a limited range, and one for the test that ends the loop.
unfoldable pub gid_fuel : ℕ
gid_fuel = 1002

-- `getNextUnusedGid`
unfoldable pub get_next_unused_gid : List ℤ → ℤ → ℤ → Option ℤ
get_next_unused_gid used gid_min gid_max =
    let next = lookup_gid gid_fuel used gid_min (limited_max gid_min gid_max) in
    if eq_int next minus_one then none else some next

-- `getNextGid`
unfoldable pub get_next_gid : List (Option AccessPoint) → ℤ → ℤ → Result DriverError ℤ
get_next_gid aps gid_min gid_max = elim (get_next_unused_gid (get_used_gids aps) gid_min gid_max) [
  | none ↦ err (status internal)
  | some gid ↦ ok gid
]
