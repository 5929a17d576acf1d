-- ===== src/Driver/Node/Tests.antt =====
-- The node service of pkg/driver/node.go at a concrete host and request.
use aws_efs_csi_driver.Prelude.{
  ℕ, suc, ◌+◌, ◌-◌, ◌≡◌, ◌⊎◌, refl, true, [], ◌∷◌, ◌++◌, none, some, ok, err, GoString, codes,
  lookup, str_eq, if◌then◌else◌, ◌==◌, split, append_if, ap, ◌≢◌,
}
use aws_efs_csi_driver.Driver.Status.{status, internal, invalid_argument}
use aws_efs_csi_driver.Driver.Mounter.{Mounter, directory, removed}
use aws_efs_csi_driver.Driver.Capabilities.{
  VolumeCapability, is_valid_volume_capabilities, single_node_writer,
}
use aws_efs_csi_driver.Driver.VolumeId.{ParsedVolume, parse_volume_id}
use aws_efs_csi_driver.EfsNs.VolumeId.{is_efsns_volume_id}
use aws_efs_csi_driver.Driver.VolStatter.{remove_from_cache}
use aws_efs_csi_driver.Driver.VolStatter.Limits.{idle}
use aws_efs_csi_driver.Driver.Node.{
  PublishRequest, MountCall, ContextOptions, mount_call, checked_mount, scan_context,
  resolve_volume, add_flags, base_options, with_tls, with_access_point,
}
use aws_efs_csi_driver.Driver.Node.Options.{MeetsRequest, Reads, mount_call-MeetsRequest}
use aws_efs_csi_driver.Driver.Node.Service.{
  NodeState, count_up, node_publish_volume, node_unpublish_volume,
}
use aws_efs_csi_driver.Driver.Node.Service.Counter.{
  publish_error, unpublish_count, publish-unpublish,
}

-- A host that counts its mounts, and on which everything succeeds.
abbrev host : Mounter ℕ
host = record {
  make_dir = λ path w. (true, w);
  mount = λ source target kind options w. (true, w + 1);
  unmount = λ target w. (true, w - 1);
  get_device_name = λ target w. (some w, w);
  is_likely_not_mount_point = λ target w. (some (w == 0), w);
  stat = λ path w. (directory, w);
  remove = λ path w. (removed, w);
  remove_all = λ path w. (true, w);
}

abbrev capability : VolumeCapability
capability = record {
  access_mode = single_node_writer;
  mount = some (record { fs_type = []; mount_flags = [] });
}

abbrev request : PublishRequest
request = record {
  volume_id = codes "fs-1";
  target_path = codes "/t";
  volume_capability = some capability;
  readonly = true;
  volume_context = [];
}

abbrev bad_request : PublishRequest
bad_request = record request { target_path = [] }

abbrev node : NodeState ℕ
node = record { world = 0; volume_id_counter = []; vol_statter = idle }

abbrev mounted : NodeState ℕ
mounted = record { world = 1; volume_id_counter = (codes "fs-1", 1) ∷ []; vol_statter = idle }

abbrev call : MountCall
call = record { source = codes "fs-1:/"; options = codes "tls" ∷ codes "ro" ∷ [] }

request-call : mount_call request ≡ ok call
unfolding mount_call checked_mount is_valid_volume_capabilities scan_context resolve_volume
    is_efsns_volume_id parse_volume_id split add_flags base_options append_if with_tls
    with_access_point
request-call = refl

request_published : node_publish_volume host true request node ≡ (ok tt, mounted)
unfolding node_publish_volume count_up
request_published = rw (request-call, node_publish_volume) refl

published : (node_publish_volume host true request node).0 ≡ ok tt
published = ap (λ r. r.0) request_published

still_mounted :
    (host.get_device_name (codes "/t") (node_publish_volume host true request node).1.world).0
    ≡ some (suc 0)
still_mounted = rw request_published refl

unpublished : (node_unpublish_volume host true (codes "fs-1") (codes "/t") mounted).0 ≡ ok tt
unfolding node_unpublish_volume
unpublished = refl

bad_refused : (node_publish_volume host true bad_request node).0 ≡ err (status invalid_argument)
unfolding node_publish_volume mount_call checked_mount
bad_refused = refl

node_IsPositive : (v : GoString) → lookup v node.volume_id_counter ≢ some 0
node_IsPositive v h = cc

mount_call-MeetsRequest_example :
    (s : ContextOptions) × (p : ParsedVolume) × Reads request s p
    × MeetsRequest request s p call.options
    × (call.source ≡ p.fsid ++ (codes ":" ++ p.subpath))
mount_call-MeetsRequest_example = mount_call-MeetsRequest request call request-call

publish_error_example :
    let r = node_publish_volume host true bad_request node in
    (r.1.volume_id_counter ≡ node.volume_id_counter)
    × (r.1.vol_statter ≡ node.vol_statter)
    × ((status invalid_argument ≡ status internal) ⊎ (r.1 ≡ node))
publish_error_example = publish_error host true bad_request node bad_refused

unpublish_count_example :
    let t = (node_unpublish_volume host true (codes "fs-1") (codes "/t") mounted).1 in
    (lookup (codes "fs-1") t.volume_id_counter
      ≡ (if str_eq (codes "fs-1") (codes "fs-1") then (if 0 == 0 then none else some 0) else none))
    × (t.vol_statter ≡ (
        if 0 == 0
        then remove_from_cache (codes "fs-1") mounted.vol_statter
        else mounted.vol_statter))
unpublish_count_example =
    unpublish_count host (codes "fs-1") (codes "/t") 0 0 mounted (codes "fs-1") refl refl
      unpublished

publish-unpublish_example :
    lookup
      (codes "fs-1")
      (node_unpublish_volume host true request.volume_id
        (codes "/t")
        (node_publish_volume host true request node).1).1.volume_id_counter
    ≡ lookup (codes "fs-1") node.volume_id_counter
publish-unpublish_example =
    publish-unpublish host request (codes "/t") 0 node (codes "fs-1") node_IsPositive published
      still_mounted (rw request_published unpublished)
