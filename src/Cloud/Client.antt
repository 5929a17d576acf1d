-- ===== src/Cloud/Client.antt =====
-- pkg/cloud/cloud.go: the calls of the EFS API, and how their errors and answers are read. A call
-- of the API answers in a world `W` and leaves another one. Where the code dereferences a pointer
-- of an answer that AWS always sets, the model has the value.
pub mod Answers
pub mod Tests
use aws_efs_csi_driver.Prelude.{
  ℕ, zero, suc, ◌+◌, Bool, true, false, List, [], ◌∷◌, Option, none, some, GoString, codes, str_eq,
  is_empty, length, ℤ, pos, Map, Result, ok, err, if◌then◌else◌,
}
use aws_efs_csi_driver.Cloud.Types.{
  FileSystem, AccessPoint, AccessPointOptions, MountTarget, PosixUser, CloudError, not_found,
  already_exists, access_denied, other_error, CloudClient, access_point_per_fs_limit,
}

-- The errors of the API: the exceptions that the code asks for by their type, and others with or
-- without a code. Every exception has its name as its code.
pub data ApiError : Type 0 where
  file_system_not_found access_point_not_found : ApiError
  coded : GoString → ApiError
  uncoded : ApiError

-- `ErrorCode`, of an error that has one
abbrev pub error_code : ApiError → GoString
error_code file_system_not_found = codes "FileSystemNotFound"
error_code access_point_not_found = codes "AccessPointNotFound"
error_code (coded c) = c
error_code uncoded = []

-- `isFileSystemNotFound`, `isAccessPointNotFound`
abbrev pub is_file_system_not_found_error : ApiError → Bool
is_file_system_not_found_error file_system_not_found = true
is_file_system_not_found_error _ = false

abbrev pub is_access_point_not_found_error : ApiError → Bool
is_access_point_not_found_error access_point_not_found = true
is_access_point_not_found_error _ = false

-- `isAccessDenied`, `isAccessPointAlreadyExists`
abbrev pub is_access_denied_error : ApiError → Bool
is_access_denied_error e = str_eq (error_code e) (codes "AccessDeniedException")

abbrev pub is_already_exists_error : ApiError → Bool
is_already_exists_error e = str_eq (error_code e) (codes "AccessPointAlreadyExists")

-- What a call that fails returns, by the test for the error that the call looks for.
abbrev pub classify : (ApiError → Bool) → CloudError → ApiError → CloudError
classify looked_for answer e =
    if is_access_denied_error e then access_denied else if looked_for e then answer else other_error

-- `efs.CreateAccessPointInput`; the owner of the directory is the user.
pub record CreateAccessPointInput : Type 0 where
  pub client_token : GoString
  pub file_system_id : GoString
  pub posix_user : PosixUser
  pub creation_owner : PosixUser
  pub permissions : GoString
  pub path : GoString
  pub tags : Map GoString

-- `types.AccessPointDescription`
pub record AccessPointDescription : Type 0 where
  pub described_id : GoString
  pub described_fs : GoString
  pub root_path : GoString
  pub described_token : GoString
  pub described_user : Option PosixUser

-- `types.MountTargetDescription`
pub record MountTargetAnswer : Type 0 where
  pub life_cycle_state : GoString
  pub zone_name : GoString
  pub zone_id : GoString
  pub target_id : GoString
  pub address : GoString

-- `efs.DescribeAccessPointsInput`: by ID, or by file system with the largest number of answers.
pub data AccessPointQuery : Type 0 where
  by_id : GoString → AccessPointQuery
  by_file_system : GoString → ℕ → AccessPointQuery

-- `Efs`, and `rand.Intn`
pub record EfsApi (W : Type 0) : Type 0 where
  pub create : CreateAccessPointInput → W → Result ApiError (GoString × GoString) × W
  pub delete : GoString → W → Option ApiError × W
  pub describe_points : AccessPointQuery → W → Result ApiError (List AccessPointDescription) × W
  pub describe_fs : GoString → W → Result ApiError (List GoString) × W
  pub describe_targets : GoString → W → Result ApiError (List MountTargetAnswer) × W
  pub random_below : ℕ → W → ℕ × W
  pub nil_dereference : W → Result CloudError (Option AccessPoint) × W

abbrev pub create_point_input : GoString → AccessPointOptions → CreateAccessPointInput
create_point_input token o = record {
  client_token = token;
  file_system_id = o.file_system_id;
  posix_user = record { gid = o.gid; uid = o.uid };
  creation_owner = record { gid = o.gid; uid = o.uid };
  permissions = o.directory_perms;
  path = o.directory_path;
  tags = o.tags;
}

-- The access points of the answers; a field that the code leaves out is its zero value.
abbrev pub created_point : AccessPointOptions → GoString × GoString → AccessPoint
created_point o (id, fs) = record {
  access_point_id = id;
  file_system_id = fs;
  access_point_root_dir = [];
  capacity_gib = o.capacity_gib;
  posix_user = none;
}

abbrev pub described_point : AccessPointDescription → AccessPoint
described_point a = record {
  access_point_id = a.described_id;
  file_system_id = a.described_fs;
  access_point_root_dir = a.root_path;
  capacity_gib = pos 0;
  posix_user = none;
}

-- The user that `ListAccessPoints` reads: its uid is the gid of the answer.
abbrev pub listed_user : Option PosixUser → Option PosixUser
listed_user none = none
listed_user (some u) = some (record { gid = u.gid; uid = u.gid })

abbrev pub listed_point : AccessPointDescription → AccessPoint
listed_point a = record {
  access_point_id = a.described_id;
  file_system_id = a.described_fs;
  access_point_root_dir = [];
  capacity_gib = pos 0;
  posix_user = listed_user a.described_user;
}

abbrev pub listed_points : List AccessPointDescription → List (Option AccessPoint)
listed_points [] = []
listed_points (a ∷ s) = some (listed_point a) ∷ listed_points s

-- `getAvailableMountTargets`
abbrev pub available_targets : List MountTargetAnswer → List MountTargetAnswer
available_targets [] = []
available_targets (t ∷ s) =
    let rest = available_targets s in
    if str_eq t.life_cycle_state (codes "available") then t ∷ rest else rest

-- `getMountTargetForAz`
abbrev pub target_for_az : List MountTargetAnswer → GoString → Option MountTargetAnswer
target_for_az [] az = none
target_for_az (t ∷ s) az =
    let rest = target_for_az s az in if str_eq t.zone_name az then some t else rest

abbrev pub nth : ℕ → List MountTargetAnswer → Option MountTargetAnswer
nth n [] = none
nth zero (t ∷ s) = some t
nth (suc n) (t ∷ s) = nth n s

abbrev pub read_target : MountTargetAnswer → MountTarget
read_target t = record {
  az_name = t.zone_name;
  az_id = t.zone_id;
  mount_target_id = t.target_id;
  ip_address = t.address;
}

module _ {W : Type 0} (api : EfsApi W) where
  abbrev pub created_answer :
      AccessPointOptions
      → Result ApiError (GoString × GoString) × W
      → Result CloudError AccessPoint × W
  created_answer o (err e, w) = (err (classify is_already_exists_error already_exists e), w)
  created_answer o (ok ids, w) = (ok (created_point o ids), w)

  -- `CreateAccessPoint`
  unfoldable pub create_point :
      GoString → AccessPointOptions → W → Result CloudError AccessPoint × W
  create_point token o w = created_answer o (api.create (create_point_input token o) w)

  abbrev deleted_answer : Option ApiError × W → Option CloudError × W
  deleted_answer (none, w) = (none, w)
  deleted_answer (some e, w) = (some (classify is_access_point_not_found_error not_found e), w)

  -- `DeleteAccessPoint`
  unfoldable pub delete_point : GoString → W → Option CloudError × W
  delete_point id w = deleted_answer (api.delete id w)

  abbrev described_answer :
      Result ApiError (List AccessPointDescription) × W → Result CloudError AccessPoint × W
  described_answer (err e, w) = (err (classify is_access_point_not_found_error not_found e), w)
  described_answer (ok (a ∷ []), w) = (ok (described_point a), w)
  described_answer (ok _, w) = (err other_error, w)

  -- `DescribeAccessPoint`
  unfoldable pub describe_point : GoString → W → Result CloudError AccessPoint × W
  describe_point id w = described_answer (api.describe_points (by_id id) w)

  -- The access point that is found. The code dereferences its user; where it is nil, the Go
  -- runtime ends the process, and what a caller sees of that is a parameter.
  abbrev found_point :
      AccessPointDescription → Option PosixUser → W → Result CloudError (Option AccessPoint) × W
  found_point a none w = api.nil_dereference w
  found_point a (some u) w = (
    ok (
        some (record {
          access_point_id = a.described_id;
          file_system_id = a.described_fs;
          access_point_root_dir = a.root_path;
          capacity_gib = pos 0;
          posix_user = some u;
        })),
    w,
  )

  -- The first access point with the token.
  abbrev with_token :
      GoString → List AccessPointDescription → W → Result CloudError (Option AccessPoint) × W
  with_token token [] w = (ok none, w)
  with_token token (a ∷ s) w =
      let rest = with_token token s w in
      if str_eq a.described_token token then found_point a a.described_user w else rest

  abbrev found_answer :
      GoString
      → Result ApiError (List AccessPointDescription) × W
      → Result CloudError (Option AccessPoint) × W
  found_answer token (err e, w) = (err (classify is_file_system_not_found_error not_found e), w)
  found_answer token (ok s, w) = with_token token s w

  -- `FindAccessPointByClientToken`
  unfoldable pub find_point : GoString → GoString → W → Result CloudError (Option AccessPoint) × W
  find_point token fs w =
      found_answer token (api.describe_points (by_file_system fs access_point_per_fs_limit) w)

  abbrev pub listed_answer :
      Result ApiError (List AccessPointDescription) × W
      → Result CloudError (List (Option AccessPoint)) × W
  listed_answer (err e, w) = (err (classify is_file_system_not_found_error not_found e), w)
  listed_answer (ok s, w) = (ok (listed_points s), w)

  -- `ListAccessPoints`
  unfoldable pub list_points : GoString → W → Result CloudError (List (Option AccessPoint)) × W
  list_points fs w =
      listed_answer (api.describe_points (by_file_system fs access_point_per_fs_limit) w)

  abbrev fs_answer : Result ApiError (List GoString) × W → Result CloudError FileSystem × W
  fs_answer (err e, w) = (err (classify is_file_system_not_found_error not_found e), w)
  fs_answer (ok (id ∷ []), w) = (ok (record { file_system_id = id }), w)
  fs_answer (ok _, w) = (err other_error, w)

  -- `DescribeFileSystem`
  unfoldable pub describe_fs_of : GoString → W → Result CloudError FileSystem × W
  describe_fs_of fs w = fs_answer (api.describe_fs fs w)

  abbrev pub read_nth : Option MountTargetAnswer → W → Result CloudError MountTarget × W
  read_nth none w = (err other_error, w)
  read_nth (some t) w = (ok (read_target t), w)

  abbrev pub nth_answer : List MountTargetAnswer → ℕ × W → Result CloudError MountTarget × W
  nth_answer ts (n, w) = read_nth (nth n ts) w

  abbrev pub random_target : List MountTargetAnswer → W → Result CloudError MountTarget × W
  random_target [] w = (err other_error, w)
  random_target (t ∷ s) w = nth_answer (t ∷ s) (api.random_below (length (t ∷ s)) w)

  abbrev pub or_random :
      List MountTargetAnswer → Option MountTargetAnswer → W → Result CloudError MountTarget × W
  or_random ts none w = random_target ts w
  or_random ts (some t) w = (ok (read_target t), w)

  -- The target among those that are available.
  abbrev pub pick_target : GoString → List MountTargetAnswer → W → Result CloudError MountTarget × W
  pick_target az ts w = or_random ts (if is_empty az then none else target_for_az ts az) w

  abbrev pub targets_answer :
      GoString → Result ApiError (List MountTargetAnswer) × W → Result CloudError MountTarget × W
  targets_answer az (err e, w) = (err (classify is_file_system_not_found_error not_found e), w)
  targets_answer az (ok ts, w) = pick_target az (available_targets ts) w

  -- `DescribeMountTargets`
  unfoldable pub describe_targets_of : GoString → GoString → W → Result CloudError MountTarget × W
  describe_targets_of fs az w = targets_answer az (api.describe_targets fs w)

  -- The calls that the controller makes, over the API.
  abbrev pub cloud_client : CloudClient W
  cloud_client = record {
    create_access_point = create_point;
    delete_access_point = delete_point;
    describe_access_point = describe_point;
    find_access_point_by_client_token = find_point;
    list_access_points = list_points;
    describe_file_system = describe_fs_of;
    describe_mount_targets = describe_targets_of;
  }
