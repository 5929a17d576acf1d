-- ===== src/Driver/VolStatter.antt =====
-- pkg/driver/vol_statter.go: volume usage, measured in the background. The maps that the code
-- guards by `mu` are one state; each locked region is one step. A measurement that was started
-- and has not ended is an entry of `running`.
pub mod Limits
pub mod Leak
mod Tests
use aws_efs_csi_driver.Prelude.{
  ℕ, suc, ◌-◌, ◌+◌, ◌≡◌, Bool, true, false, List, [], ◌∷◌, ◌++◌, Option, none, some, GoString,
  is_some, Map, lookup, insert, remove, Result, ok, err, if◌then◌else◌, ltb, str_eq,
}
use aws_efs_csi_driver.Driver.VolumeId.{parse_volume_id}

pub data VolumeUsage : Type 0 where
  unknown_usage : VolumeUsage
  bytes_usage : ℕ → ℕ → ℕ → VolumeUsage

pub record VolMetrics : Type 0 where
  pub vol_path : GoString
  pub time_stamp : ℕ
  pub vol_usage : VolumeUsage

pub record Job : Type 0 where
  pub vol_id : GoString
  pub fs_id : GoString
  pub job_path : GoString

-- `volUsageCache`, `volStatterJobTracker`, `fsRateLimiter`, and the goroutines.
pub record Statter : Type 0 where
  pub usage : Map VolMetrics
  pub jobs : Map Bool
  pub limiter : Map ℕ
  pub running : List Job

-- `canStatFS`: whether a measurement may start, and the rate limiter after the call.
pub can_stat_fs : GoString → ℕ → Map ℕ → Bool × Map ℕ
can_stat_fs fs limit m = elim (lookup fs m) [
  | none ↦ (true, insert fs 1 m)
  | some count ↦ if ltb count limit then (true, insert fs (count + 1) m) else (false, m)
]

start_job : GoString → GoString → GoString → Bool × Map ℕ → Statter → Statter
start_job fs vol path (false, m) s = record s { limiter = m }
start_job fs vol path (true, m) s = record s {
  jobs = insert vol true s.jobs;
  limiter = m;
  running = record { vol_id = vol; fs_id = fs; job_path = path } ∷ s.running;
}

-- `launchVolStatsRoutine`
unfoldable pub launch_vol_stats_routine : GoString → GoString → ℕ → Statter → Statter
unfolding start_job
launch_vol_stats_routine vol path limit s = elim (parse_volume_id vol) [
  | err _ ↦ s
  | ok p ↦
      if is_some (lookup vol s.jobs)
      then s
      else start_job p.fsid vol path (can_stat_fs p.fsid limit s.limiter) s
]

-- What the file system answers to a measurement: one of the two queries fails, or the usage.
pub data DiskUsage : Type 0 where
  usage_failed info_failed : DiskUsage
  measured : ℕ → ℕ → ℕ → DiskUsage

release_slot : GoString → Map ℕ → Map ℕ
release_slot fs m = elim (lookup fs m) [
  | none ↦ m
  | some count ↦ if ltb 0 count then insert fs (count - 1) m else m
]

-- The end of `computeDiskUsage`, when its goroutine is no more running.
unfoldable pub compute_disk_usage : Job → DiskUsage → ℕ → Statter → Statter
unfolding release_slot
compute_disk_usage j usage_failed now s = s
compute_disk_usage j info_failed now s = s
compute_disk_usage j (measured used available total) now s = record s {
  usage =
      insert j.vol_id
        (record {
          vol_path = j.job_path;
          time_stamp = now;
          vol_usage = bytes_usage used available total;
        })
        s.usage;
  jobs = remove j.vol_id s.jobs;
  limiter = release_slot j.fs_id s.limiter;
}

-- `retrieveFromCache`
pub retrieve_from_cache : GoString → Statter → Option VolMetrics
retrieve_from_cache vol s = lookup vol s.usage

-- `removeFromCache`
unfoldable pub remove_from_cache : GoString → Statter → Statter
remove_from_cache vol s = record s { usage = remove vol s.usage }

-- `computeVolumeMetrics`; times and the refresh rate are in the same unit.
unfoldable pub compute_volume_metrics :
    GoString → GoString → ℕ → ℕ → ℕ → Statter → VolMetrics × Statter
unfolding retrieve_from_cache
compute_volume_metrics vol path refresh_rate limit now s = elim (retrieve_from_cache vol s) [
  | some value ↦
      if ltb refresh_rate (now - value.time_stamp)
      then (value, launch_vol_stats_routine vol path limit s)
      else (value, s)
  | none ↦ (
    record { vol_path = path; time_stamp = now; vol_usage = unknown_usage },
    launch_vol_stats_routine vol path limit s,
  )
]

-- What can happen to the state, in any order: a launch, the end of any running measurement, and
-- an eviction.
pub data Step (limit : ℕ) (s : Statter) : Statter → Type 0 where
  launch : (vol path : GoString) → Step limit s (launch_vol_stats_routine vol path limit s)
  finish :
      (before : List Job) (j : Job) (after : List Job) (answer : DiskUsage) (now : ℕ)
      → s.running ≡ before ++ (j ∷ after)
      → Step limit s (compute_disk_usage j answer now (record s { running = before ++ after }))
  evict : (vol : GoString) → Step limit s (remove_from_cache vol s)

pub data Reach (limit : ℕ) (s : Statter) : Statter → Type 0 where
  here : Reach limit s s
  next : {t u : Statter} → Reach limit s t → Step limit t u → Reach limit s u
