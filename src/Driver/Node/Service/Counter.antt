-- ===== src/Driver/Node/Service/Counter.antt =====
-- The mounts that pkg/driver/node.go counts, and what a failed request leaves behind.
use aws_efs_csi_driver.Prelude.{
  ℕ, suc, ◌+◌, ◌-◌, ◌<◌, ◌≡◌, ◌≢◌, ◌⊎◌, Bool, true, Option, none, some, GoString, str_eq,
  str_eq_iff, str_eq_refl, Map, lookup, lookup-remove, lookup-insert, ok, err, if◌then◌else◌, ltb,
  ◌==◌, arith,
}
use aws_efs_csi_driver.Driver.Status.{DriverError, status, internal}
use aws_efs_csi_driver.Driver.Mounter.{Mounter}
use aws_efs_csi_driver.Driver.Node.{PublishRequest}
use aws_efs_csi_driver.Driver.VolStatter.{remove_from_cache}
use aws_efs_csi_driver.Driver.Node.Service.{
  NodeState, count_up, count_down, node_publish_volume, node_unpublish_volume,
}

-- How many mounts of a volume the node counts.
abbrev pub count_of : Option ℕ → ℕ
count_of none = 0
count_of (some n) = n

count_up-lookup :
    (vol v : GoString) (m : Map ℕ)
    → lookup v (count_up vol m)
      ≡ (if str_eq vol v then some (count_of (lookup vol m) + 1) else lookup v m)
unfolding count_up
count_up-lookup vol v m = ground (arith, lookup-remove vol v m)

-- No volume is counted with 0 mounts.
abbrev pub IsPositive : Map ℕ → Type 0
IsPositive m = (v : GoString) → lookup v m ≢ some 0

count_down-lookup :
    {W : Type 0} (vol v : GoString) (s : NodeState W)
    → lookup v ((count_down vol s).volume_id_counter) ≡ (
        if str_eq vol v
        then if ltb 1 (count_of (lookup vol s.volume_id_counter))
          then some (count_of (lookup vol s.volume_id_counter) - 1)
          else none
        else lookup v s.volume_id_counter)
unfolding count_down
count_down-lookup vol v s = ground (
  arith,
  lookup-remove vol v s.volume_id_counter,
  str_eq_iff vol v,
  lookup-insert vol v (count_of (lookup vol s.volume_id_counter) - 1) s.volume_id_counter,
)

count_down-vol_statter :
    {W : Type 0} (vol : GoString) (s : NodeState W)
    → let count = count_of (lookup vol s.volume_id_counter) in
      (count ≡ 1 → (count_down vol s).vol_statter ≡ remove_from_cache vol s.vol_statter)
      × (1 < count → (count_down vol s).vol_statter ≡ s.vol_statter)
unfolding count_down
count_down-vol_statter vol s = ground arith

module _ {W : Type 0} (mounter : Mounter W) where
  -- A publish that fails leaves the counters and the volume metrics alone; unless it fails with
  -- an internal error, the host is not touched either.
  pub publish_error :
      (opt_in : Bool) (req : PublishRequest) (s : NodeState W) {e : DriverError}
      → (node_publish_volume mounter opt_in req s).0 ≡ err e
      → ((node_publish_volume mounter opt_in req s).1.volume_id_counter ≡ s.volume_id_counter)
        × ((node_publish_volume mounter opt_in req s).1.vol_statter ≡ s.vol_statter)
        × ((e ≡ status internal) ⊎ ((node_publish_volume mounter opt_in req s).1 ≡ s))
  unfolding node_publish_volume
  publish_error opt_in req s h = ground arith

  -- A publish that succeeds counts one more mount of its volume, and changes no other count.
  publish_count :
      (req : PublishRequest) (s : NodeState W) (v : GoString)
      → (node_publish_volume mounter true req s).0 ≡ ok tt
      → lookup v (node_publish_volume mounter true req s).1.volume_id_counter ≡ (
          if str_eq req.volume_id v
          then some (count_of (lookup req.volume_id s.volume_id_counter) + 1)
          else lookup v s.volume_id_counter)
  unfolding node_publish_volume
  publish_count req s v h = ground (arith, count_up-lookup req.volume_id v s.volume_id_counter)

  unpublished :
      (vol target : GoString) (refs : ℕ) (s : NodeState W)
      → (mounter.get_device_name target s.world).0 ≡ some (suc refs)
      → (node_unpublish_volume mounter true vol target s).0 ≡ ok tt
      → (w : W) × ((node_unpublish_volume mounter true vol target s).1
          ≡ count_down vol (record s { world = w }))
  unfolding node_unpublish_volume
  unpublished vol target refs s m h =
      ((mounter.unmount target (mounter.get_device_name target s.world).1).1, ground arith)

  -- An unpublish of a counted volume that finds its target mounted and succeeds counts one mount
  -- less of it, forgets the volume and evicts its metrics with the last one, and changes no other
  -- count.
  pub unpublish_count :
      (vol target : GoString) (refs others : ℕ) (s : NodeState W) (v : GoString)
      → lookup vol s.volume_id_counter ≡ some (suc others)
      → (mounter.get_device_name target s.world).0 ≡ some (suc refs)
      → (node_unpublish_volume mounter true vol target s).0 ≡ ok tt
      → let t = (node_unpublish_volume mounter true vol target s).1 in
        (lookup v t.volume_id_counter ≡ (
          if str_eq vol v
          then (if others == 0 then none else some others)
          else lookup v s.volume_id_counter))
        × (t.vol_statter
            ≡ (if others == 0 then remove_from_cache vol s.vol_statter else s.vol_statter))
  unpublish_count vol target refs others s v counted m h =
      let (w, e) = unpublished vol target refs s m h in
      let t = record s { world = w } in
      rw e (
        ground (arith, count_down-lookup vol v t, counted),
        ground (arith, count_down-vol_statter vol t, counted),
      )

  -- With metrics on, and with counts that are all positive: after a publish that succeeds, an
  -- unpublish of the same volume that finds its target mounted and succeeds too brings every count
  -- back to what it was before the publish.
  pub publish-unpublish :
      (req : PublishRequest) (target : GoString) (refs : ℕ) (s : NodeState W) (v : GoString)
      → IsPositive s.volume_id_counter
      → (node_publish_volume mounter true req s).0 ≡ ok tt
      → (mounter.get_device_name target (node_publish_volume mounter true req s).1.world).0
        ≡ some (suc refs)
      → (node_unpublish_volume mounter true req.volume_id target
          (node_publish_volume mounter true req s).1).0
        ≡ ok tt
      → lookup v
          (node_unpublish_volume mounter true req.volume_id target
            (node_publish_volume mounter true req s).1).1.volume_id_counter
        ≡ lookup v s.volume_id_counter
  publish-unpublish req target refs s v pos h m u =
      let vol = req.volume_id in
      let t = (node_publish_volume mounter true req s).1 in
      let count = count_of (lookup vol s.volume_id_counter) in
      let again : lookup vol t.volume_id_counter ≡ some (suc count) =
        ground (arith, publish_count req s vol h, str_eq_refl vol) in
      ground (
        arith,
        unpublish_count vol target refs count t v again m u,
        publish_count req s v h,
        str_eq_refl vol,
        str_eq_iff vol v,
        pos vol,
        pos v,
      )
