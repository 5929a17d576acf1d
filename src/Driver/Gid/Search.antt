-- ===== src/Driver/Gid/Search.antt =====
-- What the search of pkg/driver/gid_allocator.go finds.
use aws_efs_csi_driver.Prelude.{
  ℕ, zero, suc, ◌+◌, ◌-◌, ◌^◌, ◌≤◌, ◌<◌, ◌≡◌, refl, ◌⊎◌, inl, inr, true, false, List, [], ◌∷◌,
  Option, some, arith, ℤ, pos, minus_one, add_int64, add_int64_pos, sub_int64_pos, Result, ok, err,
  if◌then◌else◌, Bool-cases, leb,
}
use aws_efs_csi_driver.Cloud.Types.{AccessPoint}
use aws_efs_csi_driver.Driver.Status.{DriverError, status, internal}
use aws_efs_csi_driver.Driver.Gid.{
  get_used_gids, user_gids, contains_int, lookup_gid, limited_max, gid_fuel, get_next_unused_gid,
  get_next_gid,
}

-- All gids from `low` up to, but not including, `high` are taken.
abbrev pub Taken : List ℤ → ℕ → ℕ → Type 0
Taken used low high = (k : ℕ) → low ≤ k → k < high → contains_int used (pos k) ≡ true

-- `next` is the least gid of the range that is free.
pub record IsLeastFree (used : List ℤ) (low top : ℕ) (next : ℕ) : Type 0 where
  pub above : low ≤ next
  pub within : next ≤ top
  pub free : contains_int used (pos next) ≡ false
  pub least : Taken used low next

abbrev Found : List ℤ → ℕ → ℕ → ℤ → Type 0
Found used low top r =
    ((next : ℕ) × (r ≡ pos next) × IsLeastFree used low top next)
    ⊎ ((r ≡ minus_one) × Taken used low (suc top))

Taken-one :
    (used : List ℤ) (low high : ℕ)
    → contains_int used (pos low) ≡ true
    → Taken used (suc low) high
    → Taken used low high
Taken-one used low high h t k a b = ground (arith, t k)

-- One more round of the loop.
Found-next :
    (used : List ℤ) (low top : ℕ) (r : ℤ)
    → contains_int used (pos low) ≡ true
    → Found used (suc low) top r
    → Found used low top r
Found-next used low top r h (inl (n, e, f)) = inl (
  n,
  e,
  record {
    above = omega (arith, f.above);
    within = f.within;
    free = f.free;
    least = Taken-one used low n h f.least;
  },
)
Found-next used low top r h (inr (e, t)) = inr (e, Taken-one used low (suc top) h t)

-- With a round for each gid of the range and one more, the loop ends by its own test.
lookup_gid-Found :
    (fuel : ℕ) (used : List ℤ) (low top : ℕ)
    → top < 2 ^ 63 - 1
    → top < low + fuel
    → Found used low top (lookup_gid fuel used (pos low) (pos top))
unfolding lookup_gid
lookup_gid-Found zero used low top b f = inr (refl, λ k h l. absurd (omega arith))
lookup_gid-Found (suc fuel) used low top b f = elim (Bool-cases (leb low top)) [
  | inr over ↦ inr (ground arith, λ k h l. absurd (ground arith))
  | inl inside ↦ elim (Bool-cases (contains_int used (pos low))) [
    | inr free ↦ inl (
      low,
      ground arith,
      record {
        above = omega arith;
        within = ground arith;
        free = free;
        least = λ k h l. absurd (omega arith);
      },
    )
    | inl taken ↦
        let advance : add_int64 (pos low) (pos 1) ≡ pos (suc low) =
          ground (arith, add_int64_pos low 1) in
        let round : lookup_gid (suc fuel) used (pos low) (pos top)
            ≡ lookup_gid fuel used (pos (suc low)) (pos top) =
          ground (arith, advance) in
        rw round (
          Found-next used low top _ taken
            (lookup_gid-Found fuel used (suc low) top b (omega arith)))
  ]
]

-- Where the search of `getNextGid` ends: at the end of the range, or after as many gids as a file
-- system can have access points, and one more.
abbrev pub last_gid : ℕ → ℕ → ℕ
last_gid low high = if leb (high - low) 1000 then high else low + 1000

limited_max-last_gid :
    (low high : ℕ)
    → low ≤ high
    → high < 2 ^ 63 - 1
    → limited_max (pos low) (pos high) ≡ pos (last_gid low high)
limited_max-last_gid low high h b = ground (arith, sub_int64_pos high low, add_int64_pos low 1000)

next-Found :
    (used : List ℤ) (low high : ℕ)
    → low ≤ high
    → high < 2 ^ 63 - 1
    → Found used low
        (last_gid low high)
        (lookup_gid gid_fuel used (pos low) (limited_max (pos low) (pos high)))
unfolding gid_fuel
next-Found used low high h b =
    rw (limited_max-last_gid low high h b)
      (lookup_gid-Found 1002 used low (last_gid low high) (ground arith) (ground arith))

-- What `getNextGid` promises for a range.
abbrev pub Allocates : List ℤ → ℕ → ℕ → Result DriverError ℤ → Type 0
Allocates used low high r =
    ((next : ℕ) × (r ≡ ok (pos next)) × IsLeastFree used low (last_gid low high) next)
    ⊎ ((r ≡ err (status internal)) × Taken used low (suc (last_gid low high)))

-- For a range that is in order and ends below the largest int64, `getNextGid` returns the least
-- gid of the range that no access point uses, or the status Internal if all are used. Of a range
-- longer than 1000 it looks at the first 1001 gids only.
pub get_next_gid-Allocates :
    (aps : List (Option AccessPoint)) (low high : ℕ)
    → low ≤ high
    → high < 2 ^ 63 - 1
    → Allocates (get_used_gids aps) low high (get_next_gid aps (pos low) (pos high))
unfolding get_next_gid get_next_unused_gid
get_next_gid-Allocates aps low high h b = elim (next-Found (get_used_gids aps) low high h b) [
  | inl (n, e, least) ↦ inl (n, ground (arith, e), least)
  | inr (e, taken) ↦ inr (ground (arith, e), taken)
]

pub get_used_gids-none : get_used_gids [] ≡ []
unfolding get_used_gids
get_used_gids-none = refl

pub get_used_gids-some :
    (a : AccessPoint) (s : List (Option AccessPoint))
    → get_used_gids (some a ∷ s) ≡ user_gids a.posix_user (get_used_gids s)
unfolding get_used_gids
get_used_gids-some a s = refl
