-- ===== src/Driver/Controller/Create/Unused.antt =====
-- The group of a new access point, over the EFS API of pkg/cloud/cloud.go.
use aws_efs_csi_driver.Prelude.{
  ℕ, ◌-◌, ◌^◌, ◌≤◌, ◌<◌, ◌≡◌, refl, inl, inr, true, List, [], ◌∷◌, Option, none, some, GoString,
  arith, ℤ, pos, minus_one, Result, ok, ap, sym, ◌∙◌, subst, ok-injective,
}
use aws_efs_csi_driver.Cloud.Types.{PosixUser, access_point_per_fs_limit}
use aws_efs_csi_driver.Cloud.Client
use aws_efs_csi_driver.Cloud.Client.{
  EfsApi, AccessPointDescription, by_file_system, listed_points, list_points, cloud_client,
}
use aws_efs_csi_driver.Driver.Status.{DriverError}
use aws_efs_csi_driver.Driver.Gid.{get_used_gids, user_gids}
use aws_efs_csi_driver.Driver.Gid.Search.{
  get_next_gid-Allocates, get_used_gids-none, get_used_gids-some, last_gid, IsLeastFree,
}
use aws_efs_csi_driver.Driver.Controller.{Driver}
use aws_efs_csi_driver.Driver.Controller.Parameters.{Owner}
use aws_efs_csi_driver.Driver.Controller.Create.{
  needs_gid, with_allocated, allocate, posix_user_for,
}

-- The groups of the access points that the API answers.
abbrev pub gids_of : List AccessPointDescription → List ℤ
gids_of [] = []
gids_of (a ∷ s) = user_gids a.described_user (gids_of s)

user_gids-listed :
    (u : Option PosixUser) (gs : List ℤ) → user_gids (Client.listed_user u) gs ≡ user_gids u gs
user_gids-listed none gs = refl
user_gids-listed (some u) gs = refl

used-listed_points : (s : List AccessPointDescription) → get_used_gids (listed_points s) ≡ gids_of s
used-listed_points [] = get_used_gids-none
used-listed_points (a ∷ s) =
    get_used_gids-some (Client.listed_point a) (listed_points s)
    ∙ (ap (user_gids (Client.listed_user a.described_user)) (used-listed_points s)
        ∙ user_gids-listed a.described_user (gids_of s))

-- What the request leaves out: the group, and what is known of the range.
pub record LeavesGroup (o : Owner) (low high : ℕ) : Type 0 where
  pub no_gid : o.asked_gid ≡ minus_one
  pub from : o.gid_min ≡ pos low
  pub to : o.gid_max ≡ pos high
  pub in_order : low ≤ high
  pub below : high < 2 ^ 63 - 1

allocate-Least :
    (o : Owner) (low high : ℕ) (answers : List AccessPointDescription) (user : PosixUser)
    → LeavesGroup o low high
    → allocate o (listed_points answers) ≡ ok user
    → (next : ℕ) × (user.gid ≡ pos next)
      × IsLeastFree (gids_of answers) low (last_gid low high) next
unfolding allocate
allocate-Least o low high answers user h e =
    elim (get_next_gid-Allocates (listed_points answers) low high h.in_order h.below) [
      | inl (next, f, least) ↦
          let same : with_allocated o (pos next) ≡ user =
            ok-injective (sym (rw (h.from, h.to, f, allocate) refl) ∙ e) in
          (
            next,
            sym (ap (λ (u : PosixUser). u.gid) same) ∙ ground (arith, h.no_gid),
            subst (λ used. IsLeastFree used low (last_gid low high) next)
                (used-listed_points answers) least,
          )
      | inr (f, taken) ↦ absurd (ground (arith, h.from, h.to, f, e))
    ]

needs_gid_of : (o : Owner) → o.asked_gid ≡ minus_one → needs_gid o ≡ true
needs_gid_of o g = ground (arith, g)

module _ {W : Type 0} (d : Driver W) (api : EfsApi W) where
  listed_user_of :
      (o : Owner) (fs : GoString) (w u v : W) (answers : List AccessPointDescription)
      (user : PosixUser)
      → o.asked_gid ≡ minus_one
      → api.describe_points (by_file_system fs access_point_per_fs_limit) w ≡ (ok answers, u)
      → posix_user_for d (cloud_client api) fs o w ≡ (ok user, v)
      → allocate o (listed_points answers) ≡ ok user
  unfolding posix_user_for list_points
  listed_user_of o fs w u v answers user g a e =
      ap (λ (x : Result DriverError PosixUser × W). x.0) (rw (needs_gid_of o g, a) at e)

  -- A new access point whose group is left out gets the least group of the range that none of the
  -- access points has that AWS lists for the file system at that moment; the range is cut after
  -- 1001 groups. The user and the group are those that `creation_options` goes on with.
  pub posix_user_for-Unused :
      (o : Owner) (low high : ℕ) (fs : GoString) (w u v : W) (answers : List AccessPointDescription)
      (user : PosixUser)
      → LeavesGroup o low high
      → api.describe_points (by_file_system fs access_point_per_fs_limit) w ≡ (ok answers, u)
      → posix_user_for d (cloud_client api) fs o w ≡ (ok user, v)
      → (next : ℕ) × (user.gid ≡ pos next)
        × IsLeastFree (gids_of answers) low (last_gid low high) next
  posix_user_for-Unused o low high fs w u v answers user h a e =
      allocate-Least o low high answers user h (listed_user_of o fs w u v answers user h.no_gid a e)
