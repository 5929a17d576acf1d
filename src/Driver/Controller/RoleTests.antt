-- ===== src/Driver/Controller/RoleTests.antt =====
-- A volume that is made and deleted with a role in another account.
use aws_efs_csi_driver.Prelude.{
  Bool, true, false, ◌≡◌, refl, [], ◌∷◌, ◌++◌, Option, none, some, GoString, codes, contains, Map,
  Result, ok, err, ap, subst, arith, Bool-cases, inl, inr, ◌∙◌, ok-injective, str_eq_refl,
  trim_space, join_path, clean, split, parse_int64,
}
use aws_efs_csi_driver.Cloud.Types.{AccessPoint, CloudError, not_found, CloudClient}
use aws_efs_csi_driver.Driver.Capabilities.{
  is_valid_volume_capabilities, validate_access_mode, validate_access_type, validate_fs_type,
}
use aws_efs_csi_driver.Driver.Action.{continue}
use aws_efs_csi_driver.Driver.VolumeId.{parse_volume_id}
use aws_efs_csi_driver.EfsNs.VolumeId.{is_efsns_volume_id}
use aws_efs_csi_driver.Driver.Controller.{Driver, CreateRequest, get_cloud, cross_account_dns}
use aws_efs_csi_driver.Driver.Controller.Create.{
  create_access_point_volume, obtain_access_point, new_access_point, creation_options,
  posix_user_for, root_directory_name, take_lock, answer_volume, volume_context_for,
}
use aws_efs_csi_driver.Driver.Controller.Create.Ids.{DriverIds, CloudIds, IsAccessPointId}
use aws_efs_csi_driver.Driver.Controller.Parameters.{
  parse_owner, parse_id, parse_gid_min, parse_gid_max, checked_request, reuse_choice,
  provisioning_mode, file_system_parameter, validate_efs_path_requirements,
}
use aws_efs_csi_driver.Driver.Controller.Delete.{
  delete_access_point_volume, remove_root_directory, clean_up,
}
use aws_efs_csi_driver.Driver.Controller.Delete.Gone.{GoneRules}
use aws_efs_csi_driver.Driver.Controller.Service.{create_volume, delete_volume}
use aws_efs_csi_driver.Driver.Controller.Service.Volumes.{VolumeGone, create_volume-delete_volume}
use aws_efs_csi_driver.Driver.Controller.Tests.{
  World, fsap, point, cloud_of_world, driver, request, volume, fsap-IsAccessPointId,
}

-- The account of the role knows an access point until it is deleted.
abbrev role_described : Bool → World → Result CloudError AccessPoint × World
role_described true w = (err not_found, w)
role_described false w = (ok point, w)

abbrev deletion : GoString → Bool → World → Option CloudError × World
deletion id true w = (some not_found, w)
deletion id false w = (none, (w.0, w.1, id ∷ w.2))

abbrev role_cloud : CloudClient World
role_cloud = record cloud_of_world {
  describe_access_point = λ id w. role_described (contains w.2 id) w;
  delete_access_point = λ id w. deletion id (contains w.2 id) w;
}

-- The account of the driver itself knows none.
abbrev role_driver : Driver World
role_driver = record driver {
  cloud = record cloud_of_world {
    describe_access_point = λ id w. (err not_found, w);
    delete_access_point = λ id w. (some not_found, w);
  };
  new_cloud_with_role = λ role w. (some role_cloud, w);
}

abbrev role_secrets : Map GoString
role_secrets = (codes "awsRoleArn", codes "arn:b") ∷ []

abbrev role_request : CreateRequest
role_request = record request { secrets = role_secrets }

abbrev Gone : GoString → World → Type 0
Gone id w = contains w.2 id ≡ true

abbrev state : {A : Type 0} → A × World → World
state r = r.1

deletion-Gone : (id : GoString) (w : World) → Gone id (deletion id (contains w.2 id) w).1
deletion-Gone id w = elim (Bool-cases (contains w.2 id)) [
  | inl there ↦ rw there there
  | inr new ↦ rw new (ground (arith, str_eq_refl id))
]

described-Gone :
    (id : GoString) (w v : World)
    → role_described (contains w.2 id) w ≡ (err not_found, v)
    → Gone id v
described-Gone id w v e = elim (Bool-cases (contains w.2 id)) [
  | inl there ↦ subst (Gone id) (ap state (rw there at e)) there
  | inr new ↦ absurd (ground (arith, rw new at e))
]

role_cloud-GoneRules : (id : GoString) → GoneRules role_driver role_cloud id (Gone id)
role_cloud-GoneRules id = record {
  deleted = λ w v e. subst (Gone id) (ap state e) (deletion-Gone id w);
  not_there = λ w v e. subst (Gone id) (ap state e) (deletion-Gone id w);
  not_described = λ w v e. described-Gone id w v e;
  stays_asked = λ w g. g;
  stays_unmounted = λ w g. g;
  stays_removed = λ w g. g;
  stays_unlocked = λ w g. g;
}

abbrev answer : {A : Type 0} → A × World → A
answer r = r.0

abbrev or_cloud : Option (CloudClient World) × World → CloudClient World
or_cloud (none, w) = role_cloud
or_cloud (some c, w) = c

role-VolumeGone : (id : GoString) → VolumeGone role_driver (codes "arn:b") id (Gone id)
role-VolumeGone id = record {
  of_driver = λ e. absurd (cc);
  of_role = λ c w v n e.
      subst (λ c. GoneRules role_driver c id (Gone id)) (ap or_cloud e) (role_cloud-GoneRules id);
}

made_id :
    (o : Result CloudError AccessPoint) (a : AccessPoint)
    → ok point ≡ o
    → o ≡ ok a
    → IsAccessPointId a.access_point_id
made_id o a e f =
    subst (λ (a : AccessPoint). IsAccessPointId a.access_point_id) (ok-injective (e ∙ f))
      fsap-IsAccessPointId

role_cloud-Ids : CloudIds role_cloud
role_cloud-Ids = record {
  created_id = λ token o a w v e. made_id _ a refl (ap answer e);
  found_id = λ token fs a w v e. absurd (cc);
}

role_driver-Ids : DriverIds role_driver
role_driver-Ids = record {
  cloud_ids = record {
    created_id = λ token o a w v e. made_id _ a refl (ap answer e);
    found_id = λ token fs a w v e. absurd (cc);
  };
  role_ids = λ role c w v e. subst (λ c. CloudIds c) (ap or_cloud e) role_cloud-Ids;
}

abbrev empty : World
empty = (none, [], [])

abbrev made : World
made = (create_volume role_driver role_request empty).1

created : create_volume role_driver role_request empty ≡ (ok volume, made)
unfolding create_volume continue checked_request reuse_choice is_valid_volume_capabilities
    validate_access_mode validate_access_type validate_fs_type provisioning_mode
    create_access_point_volume file_system_parameter trim_space get_cloud cross_account_dns
    obtain_access_point new_access_point parse_owner parse_id parse_int64 parse_gid_min
    parse_gid_max creation_options posix_user_for root_directory_name join_path clean split
    validate_efs_path_requirements take_lock answer_volume volume_context_for
created = refl

-- The account of the role has lost the access point before, and says that it is not found.
abbrev lost : World
lost = (none, [], fsap ∷ [])

deleted : delete_volume role_driver volume.volume_id role_secrets lost ≡ (ok tt, lost)
unfolding delete_volume continue get_cloud cross_account_dns is_efsns_volume_id parse_volume_id
    split delete_access_point_volume take_lock remove_root_directory clean_up
deleted = refl

fs-there : file_system_parameter role_request.parameters ≡ ok (codes "fs-1")
unfolding file_system_parameter trim_space
fs-there = refl

create_volume-delete_volume_example :
    (id : GoString) × (volume.volume_id ≡ codes "fs-1" ++ (codes "::" ++ id)) × Gone id lost
create_volume-delete_volume_example =
    create_volume-delete_volume role_driver Gone role_request (codes "fs-1") role_secrets empty made
      lost lost volume role_driver-Ids role-VolumeGone refl refl fs-there refl (omega arith) created
      deleted
