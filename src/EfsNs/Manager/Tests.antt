-- ===== src/EfsNs/Manager/Tests.antt =====
-- The manager of pkg/driver/efs-ns/manager.go in a concrete world.
use aws_efs_csi_driver.Prelude.{
  err, ℕ, ◌≡◌, refl, Bool, true, false, List, [], ◌∷◌, none, some, ok, GoString, codes,
  if◌then◌else◌, split, pos, lookup, has_prefix,
}
use aws_efs_csi_driver.EfsNs.FileSystem.{
  can_be_deleted, FileSystemInfo, FileSystemOptions, available, validate_options,
}
use aws_efs_csi_driver.EfsNs.VolumeId.{parse_efsns_volume_id}
use aws_efs_csi_driver.EfsNs.Cache.{cache_list, is_expired, cache_get}
use aws_efs_csi_driver.EfsNs.Errors.{wrapped, context_done}
use aws_efs_csi_driver.EfsNs.Manager.{
  EfsClient, PvcTracker, ManagerState, FileSystemDescription, MountTargetDescription,
  get_file_system_info, find_existing_file_system, find_in, convert_file_system,
}
use aws_efs_csi_driver.EfsNs.Manager.Deletion.{
  context_ended, wait_for_mount_targets_deleted, mount_targets_of, delete_each,
  delete_mount_targets, delete_file_system, delete_whole, checked_deletion,
  delete_file_system_for_namespace,
}
use aws_efs_csi_driver.EfsNs.Manager.Deletion.Guard.{
  NoneLeft, Reason, delete_mount_targets-none, deletion-Reason,
}
use aws_efs_csi_driver.EfsNs.Manager.Creation.{
  Ec2Client, system_prefix, system_tags, build_tags, wait_for_file_system_available,
}
use aws_efs_csi_driver.EfsNs.Manager.Creation.SystemTags.{build_tags-lookup}
use aws_efs_csi_driver.EfsNs.Manager.Service.{
  Events, checked_creation, create_file_system_for, finish_creation, create_or_get,
}
use aws_efs_csi_driver.EfsNs.Manager.Service.Cleanup.{
  CleanedUp, Holds, create-CleanedUp, create_or_get-Holds,
}
use aws_efs_csi_driver.EfsNs.Manager.Sync.{sync_from_aws, sync_from_aws-other}

-- A world says whether the file system is there.
abbrev description : FileSystemDescription
description = record {
  description_id = some (codes "fs-1");
  name = some (codes "efs-ns-web-main");
  creation_time = 3;
  life_cycle_state = codes "available";
  performance = [];
  throughput = [];
  is_encrypted = some true;
  description_tags =
      record {
        key = some (codes "kubernetes.io/managed-by");
        value = some (codes "efs-csi-driver");
      }
      ∷ [];
}

abbrev efs : EfsClient Bool
efs = record {
  describe_file_systems = λ id w. (ok (if w then description ∷ [] else []), w);
  describe_mount_targets = λ id w. (ok [], w);
  create_file_system = λ input w. (ok (some (codes "fs-1")), true);
  create_tags = λ id tags w. (none, w);
  create_mount_target = λ id subnet group w. (none, w);
  delete_mount_target = λ id w. (none, w);
  delete_file_system = λ id w. (none, false);
}

abbrev counting : ℕ → PvcTracker Bool
counting n = record { pvc_count_of = λ namespace w. (ok n, w) }

abbrev start : ManagerState Bool
start = record { world = true; cache = record { entries = []; ttl = pos 5 } }

abbrev web : GoString
web = codes "web"

abbrev web_id : GoString
web_id = codes "efs-ns::web::fs-1::main"

targets_deleted :
    (delete_mount_targets efs (counting 0) (codes "main") [] (codes "fs-1") true).0 ≡ none
unfolding delete_mount_targets delete_each wait_for_mount_targets_deleted
targets_deleted = refl

deletion_succeeds :
    (delete_file_system_for_namespace efs (counting 0) (codes "main") web web_id 7 [] start).0
    ≡ none
unfolding delete_file_system_for_namespace checked_deletion parse_efsns_volume_id split
    get_file_system_info cache_get find_existing_file_system find_in convert_file_system
    can_be_deleted delete_whole delete_mount_targets delete_each wait_for_mount_targets_deleted
    delete_file_system
deletion_succeeds = refl

delete_mount_targets-none_example :
    let w = (mount_targets_of efs (counting 0) (codes "main") (codes "fs-1") true).1 in
    (ts : List MountTargetDescription) × ((mount_targets_of efs
        (counting 0)
        (codes "main")
        (codes "fs-1")
        true).0
      ≡ ok ts)
    × ((delete_each efs (counting 0) (codes "main") ts w).0 ≡ 0)
    × NoneLeft efs
        (counting 0)
        (codes "main")
        (codes "fs-1")
        (delete_mount_targets efs (counting 0) (codes "main") [] (codes "fs-1") true).1
delete_mount_targets-none_example =
    delete_mount_targets-none efs (counting 0) (codes "main") [] (codes "fs-1") true targets_deleted

deletion-Reason_example :
    (((counting 0).pvc_count_of web true).0 ≡ ok 0)
    × Reason efs
        (counting 0)
        (codes "main")
        web
        []
        (delete_file_system_for_namespace efs (counting 0) (codes "main") web web_id 7 [] start).1
        (get_file_system_info efs (counting 0) (codes "main") web 7 start)
deletion-Reason_example =
    deletion-Reason efs (counting 0) (codes "main") web web_id 7 [] start deletion_succeeds

-- A network with one subnet.
abbrev ec2 : Ec2Client Bool
ec2 = record {
  describe_subnets = λ vpc w.
      (ok (record { subnet_id = codes "subnet-1"; cidr_block = codes "10.0.1.0/24" } ∷ []), w);
  create_security_group = λ name vpc tags w. (ok (codes "sg-1"), w);
  authorize_ingress = λ group cidr w. (none, w);
  delete_security_group = λ group w. (none, w);
}

abbrev options : FileSystemOptions
options = record {
  performance_mode = [];
  throughput_mode = [];
  provisioned_throughput_in_mibps = none;
  encrypted = none;
  kms_key_id = none;
  tags = (codes "team", codes "web") ∷ (codes "kubernetes.io/cluster", codes "other") ∷ [];
}

-- The context ends before the file system is available.
abbrev cut_short : Events
cut_short = record {
  stamp = codes "1";
  ended = 9;
  until_available = context_ended ∷ [];
  until_mounted = [];
}

creation_fails :
    (create_file_system_for efs ec2
      (counting 0)
      (codes "main")
      (codes "vpc-1")
      web
      options
      cut_short
      false).0
    ≡ err (wrapped context_done)
unfolding create_file_system_for finish_creation wait_for_file_system_available delete_file_system
creation_fails = refl

abbrev web_info : FileSystemInfo
web_info = record {
  file_system_id = codes "fs-1";
  namespace = web;
  cluster_id = codes "main";
  created_at = 3;
  mount_targets = [];
  security_group_id = [];
  state = available;
  pvc_count = 0;
  tags = (codes "kubernetes.io/managed-by", codes "efs-csi-driver") ∷ [];
  performance_mode = [];
  throughput_mode = [];
  encrypted = true;
}

request_succeeds :
    (create_or_get efs ec2
      (counting 0)
      (codes "main")
      (codes "vpc-1")
      web
      (some options)
      7
      cut_short
      start).0
    ≡ ok web_info
unfolding create_or_get checked_creation validate_options cache_get find_existing_file_system
    find_in convert_file_system
request_succeeds = refl

build_tags-lookup_example :
    lookup (codes "kubernetes.io/cluster") (build_tags web (codes "main") options) ≡ (
      if has_prefix (codes "kubernetes.io/cluster") system_prefix
      then lookup (codes "kubernetes.io/cluster") (system_tags web (codes "main"))
      else lookup (codes "kubernetes.io/cluster") options.tags)
build_tags-lookup_example =
    build_tags-lookup (codes "kubernetes.io/cluster") web (codes "main") options (refl, (refl, tt))

create-CleanedUp_example :
    CleanedUp efs ec2
      (counting 0)
      (codes "main")
      (codes "vpc-1")
      (codes "fs-1")
      (create_file_system_for efs ec2
        (counting 0)
        (codes "main")
        (codes "vpc-1")
        web
        options
        cut_short
        false).1
create-CleanedUp_example =
    create-CleanedUp efs ec2 (counting 0) (codes "main") (codes "vpc-1") web options cut_short false
      true (codes "fs-1") (wrapped context_done) refl creation_fails

create_or_get-Holds_example :
    Holds efs ec2
      (counting 0)
      (codes "main")
      (codes "vpc-1")
      web
      7
      cut_short
      web_info
      (create_or_get efs ec2
        (counting 0)
        (codes "main")
        (codes "vpc-1")
        web
        (some options)
        7
        cut_short
        start).1
create_or_get-Holds_example =
    create_or_get-Holds efs ec2 (counting 0) (codes "main") (codes "vpc-1") web (some options) 7
      cut_short start web_info request_succeeds

-- The cache of one namespace, a while ago.
abbrev cached : ManagerState Bool
cached = record {
  world = false;
  cache = record {
    entries = (web, record { cached = web_info; created_at = 1; ttl = pos 50 }) ∷ [];
    ttl = pos 50;
  };
}

sync_from_aws-other_example :
    cache_get (codes "shop") 9 (sync_from_aws efs (counting 0) (codes "main") 7 cached).cache
    ≡ cache_get (codes "shop") 9 cached.cache
unfolding cache_list is_expired
sync_from_aws-other_example =
    sync_from_aws-other efs (counting 0) (codes "main") (codes "shop") 7 9 cached refl
