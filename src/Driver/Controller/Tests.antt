-- ===== src/Driver/Controller/Tests.antt =====
-- Runs of the controller, and the theorems at concrete requests.
use aws_efs_csi_driver.Prelude.{
  parse_int64, trim_space, join_path, clean, split, Bool, true, ◌≡◌, refl, List, [], ◌∷◌, Option,
  none, some, GoString, codes, pos, Map, All, Result, ok, err, ap, arith, subst, ok-injective,
}
use aws_efs_csi_driver.Cloud.Types.{AccessPoint, AccessPointOptions, CloudError, CloudClient}
use aws_efs_csi_driver.Driver.Capabilities.{
  multi_node_multi_writer, is_valid_volume_capabilities, validate_access_mode, validate_access_type,
  validate_fs_type,
}
use aws_efs_csi_driver.Driver.Mounter.{Mounter, removed, directory}
use aws_efs_csi_driver.EfsNs.FileSystem.{FileSystemOptions, validate_options}
use aws_efs_csi_driver.Driver.VolumeId.{parse_volume_id}
use aws_efs_csi_driver.Driver.Controller.{
  Driver, CreateRequest, Volume, get_cloud, cross_account_dns,
}
use aws_efs_csi_driver.Driver.Action.{continue}
use aws_efs_csi_driver.Driver.Controller.Create.{
  create_access_point_volume, obtain_access_point, new_access_point, creation_options,
  posix_user_for, root_directory_name, take_lock, answer_volume, volume_context_for,
}
use aws_efs_csi_driver.Driver.Controller.Parameters.{
  Owner, parse_owner, parse_id, parse_gid_min, parse_gid_max, checked_request, reuse_choice,
  provisioning_mode, file_system_parameter, validate_efs_path_requirements,
}
use aws_efs_csi_driver.Driver.Controller.Parameters.Namespaces.{parse_storage_class}
use aws_efs_csi_driver.Driver.Controller.Parameters.Names.{parse_storage_class-valid}
use aws_efs_csi_driver.Driver.Controller.Create.Options.{EndsBelow}
use aws_efs_csi_driver.Driver.Controller.Create.Ids.{DriverIds, IsAccessPointId}
use aws_efs_csi_driver.Driver.Controller.Delete.{
  delete_access_point_volume, remove_root_directory, remove_found, mount_root,
  delete_access_point_of, deletion_mount_options, clean_up,
}
use aws_efs_csi_driver.EfsNs.VolumeId.{is_efsns_volume_id}
use aws_efs_csi_driver.Driver.Controller.Service.{create_volume, delete_volume}
use aws_efs_csi_driver.Driver.Controller.Service.Volumes.{create_volume-parses}
use aws_efs_csi_driver.Driver.Controller.Discipline.{CloudRules, DriverRules}
use aws_efs_csi_driver.Driver.Controller.Discipline.Options.{FitsRequest, create_volume-FitsRequest}

-- A world that remembers who holds a lock, what was made, and what was deleted.
abbrev pub World : Type 0
World = Option GoString × List AccessPointOptions × List GoString

abbrev pub fsap : GoString
fsap = codes "fsap-1"

abbrev pub point : AccessPoint
point = record {
  access_point_id = fsap;
  file_system_id = codes "fs-1";
  access_point_root_dir = codes "/pv-1";
  capacity_gib = pos 0;
  posix_user = none;
}

abbrev pub cloud_of_world : CloudClient World
cloud_of_world = record {
  create_access_point = λ token o w. (ok point, (w.0, o ∷ w.1, w.2));
  delete_access_point = λ id w. (none, (w.0, w.1, id ∷ w.2));
  describe_access_point = λ id w. (ok point, w);
  find_access_point_by_client_token = λ token fs w. (ok none, w);
  list_access_points = λ fs w. (ok [], w);
  describe_file_system = λ fs w. (ok (record { file_system_id = fs }), w);
  describe_mount_targets = λ fs az w. (err CloudError.not_found, w);
}

abbrev host : Mounter World
host = record {
  make_dir = λ p w. (true, w);
  mount = λ s t k o w. (true, w);
  unmount = λ p w. (true, w);
  get_device_name = λ p w. (some 0, w);
  is_likely_not_mount_point = λ p w. (some true, w);
  stat = λ p w. (directory, w);
  remove = λ p w. (removed, w);
  remove_all = λ p w. (true, w);
}

abbrev pub driver : Driver World
driver = record {
  cloud = cloud_of_world;
  new_cloud_with_role = λ role w. (none, w);
  mounter = host;
  lock_mutex = λ id w. (true, (some id, w.1, w.2));
  unlock_mutex = λ id w. (none, w.1, w.2);
  new_uuid = λ w. (codes "u", w);
  sha256_hex = λ s. s;
  namespace_manager = none;
  pvc_tracker = none;
  driver_tags = [];
  delete_access_point_root_dir = true;
}

abbrev pub request : CreateRequest
request = record {
  name = codes "pv-1";
  required_bytes = pos 1;
  capabilities =
      record {
        access_mode = multi_node_multi_writer;
        mount = some (record { fs_type = codes "efs"; mount_flags = [] });
      }
      ∷ [];
  parameters =
      (codes "provisioningMode", codes "efs-ap")
      ∷ (codes "fileSystemId", codes "fs-1")
      ∷ (codes "uid", codes "7")
      ∷ (codes "gid", codes "8")
      ∷ [];
  secrets = [];
}

-- Who holds the lock, and that all that was made fits the request.
abbrev Rule : Option GoString → World → Type 0
Rule l w = (w.0 ≡ l) × All (FitsRequest request) w.1

cloud_of_world-Rules :
    (MayCreate : AccessPointOptions → Type 0)
    → CloudRules (λ l w. (w.0 ≡ l) × All MayCreate w.1) MayCreate cloud_of_world
cloud_of_world-Rules MayCreate = record {
  creates = λ token o w m p. (p.0, (m, p.1));
  deletes = λ id w p. p;
  describes = λ l id w p. p;
  finds = λ l token fs w p. p;
  lists = λ l fs w p. p;
  describes_fs = λ l fs w p. p;
  describes_targets = λ l fs az w p. p;
}

driver-Rules :
    (MayCreate : AccessPointOptions → Type 0)
    → DriverRules (λ l w. (w.0 ≡ l) × All MayCreate w.1) MayCreate driver
driver-Rules MayCreate = record {
  cloud_rules = cloud_of_world-Rules MayCreate;
  role_rules = λ role w v c e. absurd (cc);
  takes_role = λ role w p. p;
  host_rules = record {
    makes_dir = λ id w p. p;
    mounts = λ id fs kind options w p. p;
    unmounts = λ id w p. p;
    asks_mount = λ id w p. p;
    stats = λ id path w k p. p;
    removes = λ id w p. p;
    removes_all = λ id path w k p. p;
  };
  locks = λ id w v p e.
      subst (λ (x : World). (x.0 ≡ some id) × All MayCreate x.1) (ap (λ (x : Bool × World). x.1) e)
        (refl, p.1);
  times_out = λ id w v p e. absurd (cc);
  unlocks = λ id w p. (refl, p.1);
  makes_uuid = λ w p. p;
  manager_creates = λ m namespace o w e p. absurd (cc);
  manager_deletes = λ m namespace id w e p. absurd (cc);
  tracker_adds = λ t namespace name id w e p. absurd (cc);
  tracker_removes = λ t namespace name w e p. absurd (cc);
}

request_below : (o : Owner) → parse_owner request.parameters ≡ ok o → EndsBelow o
unfolding parse_owner parse_id parse_int64 parse_gid_min parse_gid_max
request_below o e = subst EndsBelow (ok-injective e) refl

create_volume-FitsRequest_example : Rule none (create_volume driver request (none, [], [])).1
create_volume-FitsRequest_example =
    create_volume-FitsRequest Rule driver request (none, [], [])
      (driver-Rules (FitsRequest request)) request_below (refl, tt)

abbrev pub made : World
made = (create_volume driver request (none, [], [])).1

abbrev pub volume : Volume
volume = record { capacity_bytes = pos 1; volume_id = codes "fs-1::fsap-1"; volume_context = [] }

created : create_volume driver request (none, [], []) ≡ (ok volume, made)
unfolding create_volume continue checked_request reuse_choice is_valid_volume_capabilities
    validate_access_mode validate_access_type validate_fs_type provisioning_mode
    create_access_point_volume file_system_parameter trim_space get_cloud cross_account_dns
    obtain_access_point new_access_point parse_owner parse_id parse_int64 parse_gid_min
    parse_gid_max creation_options posix_user_for root_directory_name join_path clean split
    validate_efs_path_requirements take_lock answer_volume volume_context_for
created = refl

abbrev gone : World
gone = (none, [], fsap ∷ [])

deleted : delete_volume driver volume.volume_id [] (none, [], []) ≡ (ok tt, gone)
unfolding delete_volume continue get_cloud cross_account_dns is_efsns_volume_id parse_volume_id
    split delete_access_point_volume take_lock remove_root_directory remove_found mount_root
    delete_access_point_of deletion_mount_options clean_up
deleted = refl

pub fsap-IsAccessPointId : IsAccessPointId fsap
fsap-IsAccessPointId = record { has_prefix = refl; plain = omega arith }

driver-Ids : DriverIds driver
driver-Ids = record {
  cloud_ids = record {
    created_id = λ token o made_point w v e.
        point_id made_point
          (ok-injective (ap (λ (x : Result CloudError AccessPoint × World). x.0) e));
    found_id = λ token fs found_point w v e. absurd (cc);
  };
  role_ids = λ role c w v e. absurd (cc);
}
  where
    point_id : (a : AccessPoint) → point ≡ a → IsAccessPointId a.access_point_id
    point_id a e =
        subst (λ (a : AccessPoint). IsAccessPointId a.access_point_id) e fsap-IsAccessPointId

fs-there : file_system_parameter request.parameters ≡ ok (codes "fs-1")
unfolding file_system_parameter trim_space
fs-there = refl

create_volume-parses_example :
    (id : GoString) × (parse_volume_id volume.volume_id
      ≡ ok (record { fsid = codes "fs-1"; subpath = []; apid = id }))
    × IsAccessPointId id
create_volume-parses_example =
    create_volume-parses driver request (codes "fs-1") (none, [], []) volume made driver-Ids refl
      fs-there refl (omega arith) created

abbrev storage_class : Map GoString
storage_class =
    (codes "throughputMode", codes "provisioned")
    ∷ (codes "provisionedThroughputInMibps", codes "5")
    ∷ (codes "tag:team", codes "a")
    ∷ []

abbrev class_options : FileSystemOptions
class_options = record {
  performance_mode = [];
  throughput_mode = codes "provisioned";
  provisioned_throughput_in_mibps = some (pos 5);
  encrypted = none;
  kms_key_id = none;
  tags = (codes "team", codes "a") ∷ [];
}

parsed_class : parse_storage_class storage_class ≡ ok class_options
unfolding parse_storage_class parse_int64
parsed_class = refl

parse_storage_class-valid_example : validate_options class_options ≡ ok tt
parse_storage_class-valid_example =
    parse_storage_class-valid storage_class class_options parsed_class
