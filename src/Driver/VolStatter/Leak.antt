-- ===== src/Driver/VolStatter/Leak.antt =====
-- A measurement of pkg/driver/vol_statter.go that fails.
use aws_efs_csi_driver.Prelude.{
  ℕ, ◌≡◌, refl, true, List, ◌∷◌, ◌++◌, none, GoString, is_some, lookup, lookup-remove, str_eq_iff,
  str_eq_refl, arith, Result-cases, Option-cases, inl, inr, ap,
}
use aws_efs_csi_driver.Driver.VolumeId.{parse_volume_id}
use aws_efs_csi_driver.Driver.VolStatter.{
  Job, Statter, DiskUsage, usage_failed, info_failed, measured, can_stat_fs, start_job,
  launch_vol_stats_routine, compute_disk_usage, remove_from_cache, Step, launch, finish, evict,
  Reach, here, next,
}
use aws_efs_csi_driver.Driver.VolStatter.Limits.{
  IsLimited, idle, running_for, running_for-append, Reach-IsLimited,
}

-- The volume is tracked as being measured, and no measurement of it runs.
pub record IsStuck (vol : GoString) (s : Statter) : Type 0 where
  pub is_tracked : is_some (lookup vol s.jobs) ≡ true
  pub not_running : running_for vol s.running ≡ 0

start_job-IsStuck :
    (vol v fs path : GoString) (limit : ℕ) (s : Statter)
    → lookup v s.jobs ≡ none
    → IsStuck vol s
    → IsStuck vol (start_job fs v path (can_stat_fs fs limit s.limiter) s)
unfolding start_job can_stat_fs
start_job-IsStuck vol v fs path limit s new h =
    ground (arith, lookup-remove v vol s.jobs, str_eq_iff v vol)

launch-IsStuck :
    (vol v path : GoString) (limit : ℕ) (s : Statter)
    → IsStuck vol s
    → IsStuck vol (launch_vol_stats_routine v path limit s)
unfolding launch_vol_stats_routine
launch-IsStuck vol v path limit s h = elim (Result-cases (parse_volume_id v)) [
  | inl (e, bad) ↦ rw (bad, launch_vol_stats_routine) h
  | inr (p, good) ↦ elim (Option-cases (lookup v s.jobs)) [
    | inr (b, old) ↦ rw (good, old, launch_vol_stats_routine) h
    | inl new ↦
        rw (good, new, launch_vol_stats_routine) (start_job-IsStuck vol v p.fsid path limit s new h)
  ]
]

finish-IsStuck :
    (vol : GoString) (s : Statter) (before : List Job) (j : Job) (after : List Job)
    (answer : DiskUsage) (now : ℕ)
    → s.running ≡ before ++ (j ∷ after)
    → IsStuck vol s
    → IsStuck vol (compute_disk_usage j answer now (record s { running = before ++ after }))
unfolding compute_disk_usage
finish-IsStuck vol s before j after usage_failed now e h = ground (
  arith,
  ap (running_for vol) e,
  running_for-append vol before (j ∷ after),
  running_for-append vol before after,
)
finish-IsStuck vol s before j after info_failed now e h = ground (
  arith,
  ap (running_for vol) e,
  running_for-append vol before (j ∷ after),
  running_for-append vol before after,
)
finish-IsStuck vol s before j after (measured used available total) now e h = ground (
  arith,
  ap (running_for vol) e,
  running_for-append vol before (j ∷ after),
  running_for-append vol before after,
  lookup-remove j.vol_id vol s.jobs,
)

Step-IsStuck :
    {limit : ℕ} {s t : Statter} (vol : GoString) → Step limit s t → IsStuck vol s → IsStuck vol t
unfolding remove_from_cache
Step-IsStuck {limit} {s} vol (launch v path) h = launch-IsStuck vol v path limit s h
Step-IsStuck {limit} {s} vol (finish before j after answer now e) h =
    finish-IsStuck vol s before j after answer now e h
Step-IsStuck vol (evict v) h = record { is_tracked = h.is_tracked; not_running = h.not_running }

Reach-IsStuck :
    {limit : ℕ} {s t : Statter} (vol : GoString) → Reach limit s t → IsStuck vol s → IsStuck vol t
Reach-IsStuck vol here h = h
Reach-IsStuck vol (next r st) h = Step-IsStuck vol st (Reach-IsStuck vol r h)

-- The two ways in which a measurement fails.
pub data Fails : DiskUsage → Type 0 where
  no_usage : Fails usage_failed
  no_info : Fails info_failed

failed-IsStuck :
    (limit : ℕ) (s : Statter) (before : List Job) (j : Job) (after : List Job) (answer : DiskUsage)
    (now : ℕ)
    → IsLimited limit s
    → s.running ≡ before ++ (j ∷ after)
    → Fails answer
    → IsStuck j.vol_id (compute_disk_usage j answer now (record s { running = before ++ after }))
unfolding compute_disk_usage
failed-IsStuck limit s before j after _ now h e no_usage = ground (
  arith,
  h.once j.vol_id,
  ap (running_for j.vol_id) e,
  str_eq_refl j.vol_id,
  running_for-append j.vol_id before (j ∷ after),
  running_for-append j.vol_id before after,
)
failed-IsStuck limit s before j after _ now h e no_info = ground (
  arith,
  h.once j.vol_id,
  ap (running_for j.vol_id) e,
  str_eq_refl j.vol_id,
  running_for-append j.vol_id before (j ∷ after),
  running_for-append j.vol_id before after,
)

launch_of_IsStuck :
    (vol path : GoString) (limit : ℕ) (s : Statter)
    → IsStuck vol s
    → launch_vol_stats_routine vol path limit s ≡ s
unfolding launch_vol_stats_routine
launch_of_IsStuck vol path limit s h = elim (Result-cases (parse_volume_id vol)) [
  | inl (e, bad) ↦ rw (bad, launch_vol_stats_routine) refl
  | inr (p, good) ↦ rw (good, h.is_tracked, launch_vol_stats_routine) refl
]

-- A measurement that fails in a running driver is the last one of its volume: the volume stays
-- tracked and without a measurement whatever happens afterwards, and to launch one changes
-- nothing.
pub failed_is_last :
    {limit : ℕ} {s t : Statter} (before : List Job) (j : Job) (after : List Job)
    (answer : DiskUsage) (now : ℕ) (path : GoString)
    → Reach limit idle s
    → s.running ≡ before ++ (j ∷ after)
    → Fails answer
    → Reach limit (compute_disk_usage j answer now (record s { running = before ++ after })) t
    → IsStuck j.vol_id t × (launch_vol_stats_routine j.vol_id path limit t ≡ t)
failed_is_last {limit} {s} {t} before j after answer now path r e f later =
    let stuck =
      Reach-IsStuck j.vol_id later
        (failed-IsStuck limit s before j after answer now (Reach-IsLimited r) e f) in
    (stuck, launch_of_IsStuck j.vol_id path limit t stuck)
