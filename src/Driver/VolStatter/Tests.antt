-- ===== src/Driver/VolStatter/Tests.antt =====
-- The volume statistics of pkg/driver/vol_statter.go in a concrete run.
use aws_efs_csi_driver.Prelude.{◌≡◌, refl, ◌++◌, split, [], ◌∷◌, GoString, codes}
use aws_efs_csi_driver.Driver.VolumeId.{parse_volume_id}
use aws_efs_csi_driver.Driver.VolStatter.{
  Job, Statter, can_stat_fs, usage_failed, launch_vol_stats_routine, compute_disk_usage, Reach,
  here, next, launch,
}
use aws_efs_csi_driver.Driver.VolStatter.Limits.{IsLimited, idle, Reach-IsLimited}
use aws_efs_csi_driver.Driver.VolStatter.Leak.{IsStuck, no_usage, failed_is_last}

abbrev volume : GoString
volume = codes "fs-1::fsap-1"

abbrev path : GoString
path = codes "/mnt"

abbrev launched : Statter
launched = launch_vol_stats_routine volume path 5 idle

abbrev job : Job
job = record { vol_id = volume; fs_id = codes "fs-1"; job_path = path }

launched_runs : launched.running ≡ [] ++ (job ∷ [])
unfolding launch_vol_stats_routine parse_volume_id split can_stat_fs
launched_runs = refl

launched_reach : Reach 5 idle launched
launched_reach = next here (launch volume path)

Reach-IsLimited_example : IsLimited 5 launched
Reach-IsLimited_example = Reach-IsLimited launched_reach

failed_is_last_example :
    let t = compute_disk_usage job usage_failed 9 (record launched { running = [] }) in
    IsStuck volume t × (launch_vol_stats_routine volume path 5 t ≡ t)
failed_is_last_example =
    failed_is_last [] job [] usage_failed 9 path launched_reach launched_runs no_usage here
