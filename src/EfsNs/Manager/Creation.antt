-- ===== src/EfsNs/Manager/Creation.antt =====
-- pkg/driver/efs-ns/manager.go: `CreateOrGetFileSystemForNamespace` with the creation of a file
-- system, its security group and its mount targets. The goroutines that create the mount targets
-- are run in the order of the subnets that AWS answers, which may be any.
pub mod SystemTags
use aws_efs_csi_driver.Prelude.{
  ℕ, zero, suc, Bool, true, false, not, ◌&&◌, List, [], ◌∷◌, ◌++◌, Option, none, some, GoString,
  codes, is_empty, is_some, str_eq, has_prefix, contains_str, Map, lookup, insert, Result, ok, err,
  if◌then◌else◌,
}
use aws_efs_csi_driver.EfsNs.Errors.{
  GoError, efsns_error, efsns_caused, wrapped, plain, context_done, invalid_parameter,
  aws_api_failed, file_system_creation_failed,
}
use aws_efs_csi_driver.EfsNs.FileSystem.{
  FileSystemInfo, FileSystemOptions, validate_options, available,
}
use aws_efs_csi_driver.EfsNs.Cache.{cache_get, cache_set}
use aws_efs_csi_driver.EfsNs.Manager.{
  EfsClient, PvcTracker, ManagerState, CreateInput, FileSystemDescription, MountTargetDescription,
  file_system_name, get_mount_targets, find_existing_file_system, managed_by, created_by,
  namespace_tag,
}
use aws_efs_csi_driver.EfsNs.Manager.Deletion.{
  WaitEvent, context_ended, timed_out, tick, delete_file_system,
}

-- `ec2types.Subnet`; its ID and its block are there whenever EC2 describes a subnet, on which the
-- code relies.
pub record Subnet : Type 0 where
  pub subnet_id : GoString
  pub cidr_block : GoString

-- `EC2Client`, as far as the manager calls it.
pub record Ec2Client (W : Type 0) : Type 0 where
  pub describe_subnets : GoString → W → Result GoError (List Subnet) × W
  -- by name, VPC and tags; the ID of the new group
  pub create_security_group : GoString → GoString → Map GoString → W → Result GoError GoString × W
  -- NFS from a block of addresses
  pub authorize_ingress : GoString → GoString → W → Option GoError × W
  pub delete_security_group : GoString → W → Option GoError × W

abbrev cluster_tag : GoString
cluster_tag = codes "kubernetes.io/cluster"

abbrev pub system_prefix : GoString
system_prefix = codes "kubernetes.io/"

abbrev pub system_tags : GoString → GoString → Map GoString
system_tags namespace cluster_id =
    (namespace_tag, namespace)
    ∷ (cluster_tag, cluster_id)
    ∷ (managed_by, codes "efs-csi-driver")
    ∷ (created_by, codes "efs-ns-provisioner")
    ∷ (codes "kubernetes.io/provisioner", codes "efs.csi.aws.com")
    ∷ (codes "kubernetes.io/component", codes "efs-ns-filesystem")
    ∷ []

-- The loop over the tags of the user.
unfoldable pub add_user_tags : Map GoString → Map GoString → Map GoString
add_user_tags [] tags = tags
add_user_tags ((k, v) ∷ user) tags =
    add_user_tags user (if not (has_prefix k system_prefix) then insert k v tags else tags)

-- `buildTags`
unfoldable pub build_tags : GoString → GoString → FileSystemOptions → Map GoString
build_tags namespace cluster_id options =
    add_user_tags options.tags (system_tags namespace cluster_id)

abbrev or_default : GoString → GoString → GoString
or_default asked default = if is_empty asked then default else asked

abbrev or_true : Option Bool → Bool
or_true none = true
or_true (some b) = b

abbrev not_blank : Option GoString → Option GoString
not_blank none = none
not_blank (some k) = if is_empty k then none else some k

-- The input of the call that creates a file system; `token` is its name with the clock.
abbrev pub create_input : GoString → FileSystemOptions → CreateInput
create_input token o = record {
  creation_token = token;
  performance_asked = or_default o.performance_mode (codes "generalPurpose");
  throughput_asked = or_default o.throughput_mode (codes "bursting");
  provisioned_asked =
      if str_eq o.throughput_mode (codes "provisioned")
      then o.provisioned_throughput_in_mibps
      else none;
  encrypted_asked = or_true o.encrypted;
  kms_key_asked = if or_true o.encrypted then not_blank o.kms_key_id else none;
}

-- `getVPCCidr`, on the block of the first subnet.
abbrev pub vpc_cidr : GoString → GoString
vpc_cidr block =
    if contains_str block (codes "10.")
    then codes "10.0.0.0/8"
    else if contains_str block (codes "172.")
    then codes "172.16.0.0/12"
    else if contains_str block (codes "192.168.")
    then codes "192.168.0.0/16"
    else block

-- What one look at the mount targets shows.
pub data Progress : Type 0 where
  failed ready waiting : Progress

abbrev with_state : GoString → Progress → Progress
with_state s failed = failed
with_state s rest =
    if str_eq s (codes "error")
    then failed
    else if str_eq s (codes "available")
    then rest
    else waiting

abbrev all_available : List MountTargetDescription → Progress
all_available [] = ready
all_available (t ∷ ts) = with_state t.target_state (all_available ts)

abbrev progress_of : List MountTargetDescription → Progress
progress_of [] = waiting
progress_of (t ∷ ts) = all_available (t ∷ ts)

module _ {W : Type 0} (efs : EfsClient W) (ec2 : Ec2Client W) (tracker : PvcTracker W)
    (cluster_id vpc_id : GoString) where
  abbrev seen :
      Result GoError (List FileSystemDescription) × W
      → (W → Option GoError × W)
      → Option GoError × W
  seen (err e, w) next = (some (wrapped e), w)
  seen (ok [], w) next = (some plain, w)
  seen (ok (d ∷ ds), w) next =
      if str_eq d.life_cycle_state (codes "available")
      then (none, w)
      else if str_eq d.life_cycle_state (codes "error")
      then (some plain, w)
      else next w

  -- `waitForFileSystemAvailable`, over the events of its `select`.
  unfoldable pub wait_for_file_system_available : List WaitEvent → GoString → W → Option GoError × W
  wait_for_file_system_available [] id w = (some plain, w)
  wait_for_file_system_available (context_ended ∷ _) id w = (some context_done, w)
  wait_for_file_system_available (timed_out ∷ _) id w = (some plain, w)
  wait_for_file_system_available (tick ∷ events) id w =
      seen (efs.describe_file_systems (some id) w) (wait_for_file_system_available events id)

  abbrev decide : Progress → W → (W → Option GoError × W) → Option GoError × W
  decide failed w next = (some plain, w)
  decide ready w next = (none, w)
  decide waiting w next = next w

  abbrev check_targets :
      Result GoError (List MountTargetDescription) × W
      → (W → Option GoError × W)
      → Option GoError × W
  check_targets (err e, w) next = (some (wrapped e), w)
  check_targets (ok ts, w) next = decide (progress_of ts) w next

  unfoldable pub poll_available : List WaitEvent → GoString → W → Option GoError × W
  poll_available [] id w = (some plain, w)
  poll_available (context_ended ∷ _) id w = (some context_done, w)
  poll_available (timed_out ∷ _) id w = (some plain, w)
  poll_available (tick ∷ events) id w =
      check_targets (get_mount_targets efs tracker cluster_id id w) (poll_available events id)

  -- `waitForMountTargetsAvailable`
  unfoldable pub wait_for_mount_targets_available :
      List WaitEvent → GoString → W → Option GoError × W
  wait_for_mount_targets_available events id w =
      check_targets (get_mount_targets efs tracker cluster_id id w) (poll_available events id)

  abbrev wrapped_error : Option GoError × W → Option GoError × W
  wrapped_error (none, w) = (none, w)
  wrapped_error (some e, w) = (some (wrapped e), w)

  abbrev first_block : Result GoError (List Subnet) → Result GoError GoString
  first_block (err e) = err (wrapped (wrapped e))
  first_block (ok []) = err plain
  first_block (ok (s ∷ _)) = ok (vpc_cidr s.cidr_block)

  abbrev authorize : GoString → Result GoError GoString × W → Option GoError × W
  authorize group (err e, w) = (some (wrapped e), w)
  authorize group (ok cidr, w) = wrapped_error (ec2.authorize_ingress group cidr w)

  -- `addNFSIngressRule`
  abbrev add_nfs_ingress_rule : GoString → W → Option GoError × W
  add_nfs_ingress_rule group w =
      let r = ec2.describe_subnets vpc_id w in authorize group (first_block r.0, r.1)

  abbrev with_rule : GoString → Option GoError × W → Result GoError GoString × W
  with_rule group (none, w) = (ok group, w)
  with_rule group (some e, w) = (err (wrapped e), (ec2.delete_security_group group w).1)

  abbrev group_made : Result GoError GoString × W → Result GoError GoString × W
  group_made (err e, w) = (err (wrapped e), w)
  group_made (ok group, w) = with_rule group (add_nfs_ingress_rule group w)

  -- `createSecurityGroup`
  unfoldable pub create_security_group_for : GoString → GoString → W → Result GoError GoString × W
  create_security_group_for id namespace w =
      let name = file_system_name namespace cluster_id in
      group_made (
        ec2.create_security_group name vpc_id
          ((codes "Name", name)
            ∷ (namespace_tag, namespace)
            ∷ (cluster_tag, cluster_id)
            ∷ (managed_by, codes "efs-csi-driver")
            ∷ (codes "efs-filesystem-id", id)
            ∷ [])
          w)

  -- The calls of `createMountTarget`, and how many failed.
  unfoldable pub create_each : GoString → GoString → List Subnet → W → ℕ × W
  create_each id group [] w = (0, w)
  create_each id group (s ∷ ss) w =
      let r = efs.create_mount_target id s.subnet_id group w in
      let rest = create_each id group ss r.1 in (if is_some r.0 then suc rest.0 else rest.0, rest.1)

  abbrev after_creations : List WaitEvent → GoString → ℕ × W → Option GoError × W
  after_creations events id (zero, w) = wrapped_error (wait_for_mount_targets_available events id w)
  after_creations events id (suc failures, w) = (some plain, w)

  abbrev in_group :
      List WaitEvent → GoString → List Subnet → Result GoError GoString × W → Option GoError × W
  in_group events id subnets (err e, w) = (some (wrapped e), w)
  in_group events id subnets (ok group, w) =
      after_creations events id (create_each id group subnets w)

  abbrev in_subnets :
      List WaitEvent → GoString → GoString → Result GoError (List Subnet) × W → Option GoError × W
  in_subnets events id namespace (err e, w) = (some (wrapped (wrapped e)), w)
  in_subnets events id namespace (ok [], w) = (some plain, w)
  in_subnets events id namespace (ok (s ∷ ss), w) =
      in_group events id (s ∷ ss) (create_security_group_for id namespace w)

  -- `createMountTargets`
  unfoldable pub create_mount_targets :
      List WaitEvent → GoString → GoString → W → Option GoError × W
  create_mount_targets events id namespace w =
      in_subnets events id namespace (ec2.describe_subnets vpc_id w)
