-- ===== src/Cloud/Client/Tests.antt =====
-- The calls of pkg/cloud/cloud.go on a concrete API.
use aws_efs_csi_driver.Prelude.{◌≡◌, refl, List, [], ◌∷◌, some, none, GoString, codes, pos, ok, err}
use aws_efs_csi_driver.Cloud.Types.{other_error}
use aws_efs_csi_driver.Cloud.Client.{
  EfsApi, file_system_not_found, AccessPointDescription, MountTargetAnswer, describe_targets_of,
}
use aws_efs_csi_driver.Cloud.Client.Answers.{Chosen, describe_targets_of-Chosen}

abbrev target_in : GoString → GoString → GoString → MountTargetAnswer
target_in state zone address = record {
  life_cycle_state = state;
  zone_name = zone;
  zone_id = zone;
  target_id = codes "fsmt-1";
  address = address;
}

abbrev targets : List MountTargetAnswer
targets =
    target_in (codes "creating") (codes "a") (codes "10.0.0.1")
    ∷ target_in (codes "available") (codes "b") (codes "10.0.0.2")
    ∷ target_in (codes "available") (codes "a") (codes "10.0.0.3")
    ∷ []

abbrev pub points : List AccessPointDescription
points =
    record {
      described_id = codes "fsap-1";
      described_fs = codes "fs-1";
      root_path = codes "/a";
      described_token = codes "pv-1";
      described_user = some (record { gid = pos 50000; uid = pos 7 });
    }
    ∷ []

abbrev pub api : EfsApi (Unit {0})
api = record {
  create = λ i w. (ok (codes "fsap-2", i.file_system_id), w);
  delete = λ id w. (none, w);
  describe_points = λ q w. (ok points, w);
  describe_fs = λ fs w. (err file_system_not_found, w);
  describe_targets = λ fs w. (ok targets, w);
  random_below = λ n w. (0, w);
  nil_dereference = λ w. (err other_error, w);
}

in_zone :
    (describe_targets_of api (codes "fs-1") (codes "a") tt).0
    ≡ ok (record {
      az_name = codes "a";
      az_id = codes "a";
      mount_target_id = codes "fsmt-1";
      ip_address = codes "10.0.0.3";
    })
unfolding describe_targets_of
in_zone = refl

describe_targets_of-Chosen_example :
    Chosen (codes "a") targets (describe_targets_of api (codes "fs-1") (codes "a") tt).0
describe_targets_of-Chosen_example =
    describe_targets_of-Chosen api (λ n w h. h) (codes "fs-1") (codes "a") tt tt targets refl
