-- ===== src/Driver/VolStatter/Limits.antt =====
-- How many measurements of pkg/driver/vol_statter.go run at a time.
use Prim.Native.Nat.{max}
use aws_efs_csi_driver.Prelude.{
  ℕ, suc, ◌-◌, ◌+◌, ◌≤◌, ◌≡◌, Bool, true, List, [], ◌∷◌, ◌++◌, Option, none, some, GoString, Map,
  Result-cases, Option-cases, inl, inr, ap, lookup, lookup-insert, lookup-remove, if◌then◌else◌,
  str_eq, str_eq_iff, arith,
}
use aws_efs_csi_driver.Driver.VolumeId.{parse_volume_id}
use aws_efs_csi_driver.Driver.VolStatter.{
  Job, Statter, DiskUsage, usage_failed, info_failed, measured, can_stat_fs, start_job,
  release_slot, launch_vol_stats_routine, compute_disk_usage, remove_from_cache, Step, launch,
  finish, evict, Reach, here, next,
}

-- The measurements that run on a file system, and for a volume.
abbrev pub running_on : GoString → List Job → ℕ
running_on fs [] = 0
running_on fs (j ∷ js) = let n = running_on fs js in if str_eq j.fs_id fs then suc n else n

abbrev pub running_for : GoString → List Job → ℕ
running_for vol [] = 0
running_for vol (j ∷ js) = let n = running_for vol js in if str_eq j.vol_id vol then suc n else n

abbrev pub slots : Option ℕ → ℕ
slots none = 0
slots (some n) = n

abbrev pub tracked : Option Bool → ℕ
tracked none = 0
tracked (some _) = 1

pub record IsLimited (limit : ℕ) (s : Statter) : Type 0 where
  pub counted : (fs : GoString) → running_on fs s.running ≤ slots (lookup fs s.limiter)
  pub bounded : (fs : GoString) → slots (lookup fs s.limiter) ≤ max 1 limit
  pub once : (vol : GoString) → running_for vol s.running ≤ tracked (lookup vol s.jobs)

running_on-append :
    (fs : GoString) (xs ys : List Job)
    → running_on fs (xs ++ ys) ≡ running_on fs xs + running_on fs ys
running_on-append fs [] ys = omega arith
running_on-append fs (x ∷ xs) ys = ground (arith, running_on-append fs xs ys)

pub running_for-append :
    (vol : GoString) (xs ys : List Job)
    → running_for vol (xs ++ ys) ≡ running_for vol xs + running_for vol ys
running_for-append vol [] ys = omega arith
running_for-append vol (x ∷ xs) ys = ground (arith, running_for-append vol xs ys)

-- The rate limiter after `canStatFS`, at any file system.
can_stat_fs-slots :
    (fs g : GoString) (limit : ℕ) (m : Map ℕ)
    → slots (lookup g (can_stat_fs fs limit m).1)
      ≡ slots (lookup g m)
        + (if (can_stat_fs fs limit m).0 then (if str_eq fs g then 1 else 0) else 0)
unfolding can_stat_fs
can_stat_fs-slots fs g limit m =
    ground (arith, lookup-insert fs g 1 m, lookup-remove fs g m, str_eq_iff fs g)

can_stat_fs_bound :
    (fs : GoString) (limit : ℕ) (m : Map ℕ)
    → (can_stat_fs fs limit m).0 ≡ true
    → slots (lookup fs m) + 1 ≤ max 1 limit
unfolding can_stat_fs
can_stat_fs_bound fs limit m h = ground arith

start_job-IsLimited :
    (fs vol path : GoString) (limit : ℕ) (s : Statter)
    → lookup vol s.jobs ≡ none
    → IsLimited limit s
    → IsLimited limit (start_job fs vol path (can_stat_fs fs limit s.limiter) s)
unfolding start_job
start_job-IsLimited fs vol path limit s new h = record {
  counted =
      λ g. ground (arith, h.counted g, can_stat_fs-slots fs g limit s.limiter, str_eq_iff fs g);
  bounded = λ g. ground (
    arith,
    h.bounded g,
    can_stat_fs-slots fs g limit s.limiter,
    str_eq_iff fs g,
    can_stat_fs_bound fs limit s.limiter,
  );
  once = λ v. ground (arith, h.once v, lookup-remove vol v s.jobs, str_eq_iff vol v);
}

launch-IsLimited :
    (vol path : GoString) (limit : ℕ) (s : Statter)
    → IsLimited limit s
    → IsLimited limit (launch_vol_stats_routine vol path limit s)
unfolding launch_vol_stats_routine
launch-IsLimited vol path limit s h = elim (Result-cases (parse_volume_id vol)) [
  | inl (e, bad) ↦ rw (bad, launch_vol_stats_routine) h
  | inr (p, good) ↦ elim (Option-cases (lookup vol s.jobs)) [
    | inr (b, old) ↦ rw (good, old, launch_vol_stats_routine) h
    | inl new ↦
        rw (good, new, launch_vol_stats_routine) (start_job-IsLimited p.fsid vol path limit s new h)
  ]
]

release_slot-slots :
    (fs g : GoString) (m : Map ℕ)
    → slots (lookup g (release_slot fs m)) ≡ slots (lookup g m) - (if str_eq fs g then 1 else 0)
unfolding release_slot
release_slot-slots fs g m =
    ground
      (arith, lookup-insert fs g (slots (lookup fs m) - 1) m, lookup-remove fs g m, str_eq_iff fs g)

-- A measurement that has left the goroutines, before its result is stored.
record IsLeaving (limit : ℕ) (j : Job) (s : Statter) : Type 0 where
  counted :
      (fs : GoString)
      → running_on fs s.running + (if str_eq j.fs_id fs then 1 else 0) ≤ slots (lookup fs s.limiter)
  bounded : (fs : GoString) → slots (lookup fs s.limiter) ≤ max 1 limit
  once :
      (vol : GoString)
      → running_for vol s.running + (if str_eq j.vol_id vol then 1 else 0)
        ≤ tracked (lookup vol s.jobs)

leave :
    (limit : ℕ) (j : Job) (s : Statter) (before after : List Job)
    → s.running ≡ before ++ (j ∷ after)
    → IsLimited limit s
    → IsLeaving limit j (record s { running = before ++ after })
leave limit j s before after e h = record {
  counted = λ fs. ground (
    arith,
    h.counted fs,
    ap (running_on fs) e,
    running_on-append fs before (j ∷ after),
    running_on-append fs before after,
  );
  bounded = h.bounded;
  once = λ vol. ground (
    arith,
    h.once vol,
    ap (running_for vol) e,
    running_for-append vol before (j ∷ after),
    running_for-append vol before after,
  );
}

compute-IsLimited :
    (limit : ℕ) (j : Job) (answer : DiskUsage) (now : ℕ) (s : Statter)
    → IsLeaving limit j s
    → IsLimited limit (compute_disk_usage j answer now s)
unfolding compute_disk_usage
compute-IsLimited limit j usage_failed now s h = record {
  counted = λ fs. omega (arith, h.counted fs);
  bounded = h.bounded;
  once = λ vol. omega (arith, h.once vol);
}
compute-IsLimited limit j info_failed now s h = record {
  counted = λ fs. omega (arith, h.counted fs);
  bounded = h.bounded;
  once = λ vol. omega (arith, h.once vol);
}
compute-IsLimited limit j (measured used available total) now s h = record {
  counted = λ fs. ground (arith, h.counted fs, release_slot-slots j.fs_id fs s.limiter);
  bounded = λ fs. ground (arith, h.bounded fs, release_slot-slots j.fs_id fs s.limiter);
  once = λ vol. ground (arith, h.once vol, lookup-remove j.vol_id vol s.jobs);
}

-- Every step keeps the limits.
Step-IsLimited :
    {limit : ℕ} {s t : Statter} → Step limit s t → IsLimited limit s → IsLimited limit t
unfolding remove_from_cache
Step-IsLimited {limit} {s} (launch vol path) h = launch-IsLimited vol path limit s h
Step-IsLimited {limit} {s} (finish before j after answer now e) h =
    compute-IsLimited limit j answer now (record s { running = before ++ after })
      (leave limit j s before after e h)
Step-IsLimited (evict vol) h = record { counted = h.counted; bounded = h.bounded; once = h.once }

abbrev pub idle : Statter
idle = record { usage = []; jobs = []; limiter = []; running = [] }

-- From a new driver on, whatever is launched, ends or is evicted in whatever order: on each file
-- system run at most as many measurements as the rate limiter counts, that is at most the limit
-- (and one where the limit is 0); and for each volume runs at most one, for which the volume is
-- tracked.
pub Reach-IsLimited : {limit : ℕ} {s : Statter} → Reach limit idle s → IsLimited limit s
Reach-IsLimited here = record {
  counted = λ fs. omega arith;
  bounded = λ fs. omega arith;
  once = λ vol. omega arith;
}
Reach-IsLimited (next r st) = Step-IsLimited st (Reach-IsLimited r)
