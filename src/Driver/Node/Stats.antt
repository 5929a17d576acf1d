-- ===== src/Driver/Node/Stats.antt =====
-- pkg/driver/node.go: `NodeGetVolumeStats`, and the RPCs that answer from what is configured.
use aws_efs_csi_driver.Prelude.{
  ℕ, Bool, true, false, List, [], ◌∷◌, GoString, is_empty, Result, ok, err, if◌then◌else◌,
}
use aws_efs_csi_driver.Driver.Status.{Code, DriverError, status, invalid_argument, internal}
use aws_efs_csi_driver.Driver.VolStatter.{Statter, VolumeUsage, VolMetrics, compute_volume_metrics}

-- What `os.Stat` says of the path of the volume.
pub data PathStat : Type 0 where
  stat_done stat_missing stat_error : PathStat

-- The driver's settings for metrics.
pub record MetricsOptions : Type 0 where
  pub refresh_rate : ℕ
  pub fs_rate_limit : ℕ

abbrev usage_answer : VolMetrics × Statter → Result DriverError VolumeUsage × Statter
usage_answer (m, s) = (ok m.vol_usage, s)

abbrev with_stat :
    MetricsOptions
    → GoString
    → GoString
    → PathStat
    → ℕ
    → Statter
    → Result DriverError VolumeUsage × Statter
with_stat o volume_id target stat_missing now s = (err (status Code.not_found), s)
with_stat o volume_id target stat_error now s = (err (status internal), s)
with_stat o volume_id target stat_done now s =
    usage_answer (compute_volume_metrics volume_id target o.refresh_rate o.fs_rate_limit now s)

-- `NodeGetVolumeStats`; `computeVolumeMetrics` returns no error.
unfoldable pub node_get_volume_stats :
    MetricsOptions
    → GoString
    → GoString
    → PathStat
    → ℕ
    → Statter
    → Result DriverError VolumeUsage × Statter
node_get_volume_stats o volume_id target st now s =
    if is_empty volume_id
    then (err (status invalid_argument), s)
    else if is_empty target
    then (err (status invalid_argument), s)
    else with_stat o volume_id target st now s

-- `csi.NodeServiceCapability_RPC_Type`, and `SetNodeCapOptInFeatures` of driver.go.
pub data NodeCapability : Type 0 where
  get_volume_stats : NodeCapability

abbrev pub node_capabilities : Bool → List NodeCapability
node_capabilities true = get_volume_stats ∷ []
node_capabilities false = []
