-- ===== src/Driver/Node/Service.antt =====
-- pkg/driver/node.go: `NodePublishVolume` and `NodeUnpublishVolume` with their effects on the host,
-- on `volumeIdCounter` and on the cache of volume metrics.
pub mod Counter
use aws_efs_csi_driver.Prelude.{
  ℕ, zero, suc, ◌+◌, ◌-◌, Bool, true, false, not, Option, none, some, GoString, codes, is_empty,
  Map, lookup, insert, remove, Result, ok, err, if◌then◌else◌, ltb, ◌==◌,
}
use aws_efs_csi_driver.Driver.Status.{DriverError, status, internal}
use aws_efs_csi_driver.Driver.Mounter.{Mounter}
use aws_efs_csi_driver.Driver.VolStatter.{Statter, remove_from_cache}
use aws_efs_csi_driver.Driver.Node.{PublishRequest, MountCall, refused, mount_call}

pub record NodeState (W : Type 0) : Type 0 where
  pub world : W
  pub volume_id_counter : Map ℕ
  pub vol_statter : Statter

unfoldable pub count_up : GoString → Map ℕ → Map ℕ
count_up vol m = elim (lookup vol m) [
  | some value ↦ insert vol (value + 1) m
  | none ↦ insert vol 1 m
]

-- The counter goes down; with the last mount of a volume its metrics leave the cache.
unfoldable pub count_down : {W : Type 0} → GoString → NodeState W → NodeState W
count_down vol s = elim (lookup vol s.volume_id_counter) [
  | none ↦ s
  | some value ↦
      if ltb (value - 1) 1
      then record s {
        volume_id_counter = remove vol s.volume_id_counter;
        vol_statter = remove_from_cache vol s.vol_statter;
      }
      else record s { volume_id_counter = insert vol (value - 1) s.volume_id_counter }
]

-- `opt_in` is `volMetricsOptIn`.
module _ {W : Type 0} (mounter : Mounter W) (opt_in : Bool) where
  finish_publish :
      GoString → Bool × W → GoString → NodeState W → Result DriverError Unit × NodeState W
  finish_publish vol (false, w) target s =
      (err (status internal), record s { world = (mounter.remove target w).1 })
  finish_publish vol (true, w) target s = (
    ok tt,
    record s {
      world = w;
      volume_id_counter = if opt_in then count_up vol s.volume_id_counter else s.volume_id_counter;
    },
  )

  mount_made :
      PublishRequest → MountCall → Bool × W → NodeState W → Result DriverError Unit × NodeState W
  mount_made req call (false, w) s = (err (status internal), record s { world = w })
  mount_made req call (true, w) s =
      finish_publish req.volume_id
        (mounter.mount call.source req.target_path (codes "efs") call.options w) req.target_path s

  -- `NodePublishVolume`
  unfoldable pub node_publish_volume :
      PublishRequest → NodeState W → Result DriverError Unit × NodeState W
  unfolding finish_publish mount_made
  node_publish_volume req s = elim (mount_call req) [
    | err e ↦ (err e, s)
    | ok call ↦ mount_made req call (mounter.make_dir req.target_path s.world) s
  ]

  finish_unpublish : GoString → Bool × W → NodeState W → Result DriverError Unit × NodeState W
  finish_unpublish vol (false, w) s = (err (status internal), record s { world = w })
  finish_unpublish vol (true, w) s =
      let t = record s { world = w } in (ok tt, if opt_in then count_down vol t else t)

  unmount_target :
      GoString → GoString → Option ℕ × W → NodeState W → Result DriverError Unit × NodeState W
  unmount_target vol target (none, w) s = (err (status internal), record s { world = w })
  unmount_target vol target (some count, w) s =
      if count == 0
      then (ok tt, record s { world = w })
      else finish_unpublish vol (mounter.unmount target w) s

  -- `NodeUnpublishVolume`
  unfoldable pub node_unpublish_volume :
      GoString → GoString → NodeState W → Result DriverError Unit × NodeState W
  unfolding finish_unpublish unmount_target
  node_unpublish_volume vol target s =
      if is_empty target
      then (err refused, s)
      else unmount_target vol target (mounter.get_device_name target s.world) s
