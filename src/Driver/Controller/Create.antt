-- ===== src/Driver/Controller/Create.antt =====
-- pkg/driver/controller.go: `CreateVolume` for access point volumes.
pub mod Options
pub mod Ids
pub mod Unused
use aws_efs_csi_driver.Prelude.{
  ℕ, Bool, true, false, not, ◌&&◌, ◌||◌, List, [], ◌∷◌, ◌++◌, Option, none, some, GoString, codes,
  is_empty, ℤ, pos, minus_one, eq_int, parse_bool, join_path, Map, lookup, insert, Result, ok, err,
  if◌then◌else◌,
}
use aws_efs_csi_driver.Cloud.Types.{
  FileSystem, AccessPoint, AccessPointOptions, MountTarget, PosixUser, CloudError, not_found,
  already_exists, access_denied, other_error, CloudClient,
}
use aws_efs_csi_driver.Driver.Action.{
  Action, ◌>>=◌, ◌>>◌, continue, give, pure_step, refuse_if, deferred,
}
use aws_efs_csi_driver.Driver.Status.{
  Code, DriverError, status, unclassified, invalid_argument, internal, unauthenticated,
}
use aws_efs_csi_driver.Driver.Gid.{get_next_gid}
use aws_efs_csi_driver.Driver.Controller.{
  Driver, CreateRequest, Volume, CloudAccess, invalid, value_or_empty, parameter, get_cloud,
}
use aws_efs_csi_driver.Driver.Controller.Parameters.{
  ReuseChoice, Owner, file_system_parameter, parse_owner, interpolate_root_directory_name,
  validate_efs_path_requirements, validate_existing_access_point,
}

-- The status that stands for a failure to ask for the file system.
abbrev pub fetch_error : CloudError → DriverError
fetch_error access_denied = status unauthenticated
fetch_error not_found = invalid
fetch_error _ = status internal

-- The tags of a new access point: the default one and those of the driver, which may replace it.
abbrev pub add_tags : Map GoString → Map GoString → Map GoString
add_tags [] tags = tags
add_tags ((k, v) ∷ more) tags = add_tags more (insert k v tags)

abbrev pub access_point_tags : Map GoString → Map GoString
access_point_tags driver_tags =
    add_tags driver_tags ((codes "efs.csi.aws.com/cluster", codes "true") ∷ [])

abbrev pub is_unset : ℤ → Bool
is_unset n = eq_int n minus_one

abbrev pub or_allocated : ℤ → ℤ → ℤ
or_allocated n allocated = if is_unset n then allocated else n

-- Whether a group has to be allocated.
abbrev pub needs_gid : Owner → Bool
needs_gid o = is_unset o.asked_uid || is_unset o.asked_gid

abbrev pub with_allocated : Owner → ℤ → PosixUser
with_allocated o allocated = record {
  gid = or_allocated o.asked_gid allocated;
  uid = or_allocated o.asked_uid allocated;
}

-- The group of the range that the access points leave free, for what is not asked for.
unfoldable pub allocate : Owner → List (Option AccessPoint) → Result DriverError PosixUser
allocate o aps = elim (get_next_gid aps o.gid_min o.gid_max) [
  | err e ↦ err e
  | ok gid ↦ ok (with_allocated o gid)
]

-- The ID of the access point of a volume, and the preferred zone, which is read only where an
-- access point is made.
pub record Obtained : Type 0 where
  pub ap_id : GoString
  pub az : GoString

module _ {W : Type 0} (d : Driver W) where
  abbrev pub owner_listed :
      Owner → Result CloudError (List (Option AccessPoint)) × W → Result DriverError PosixUser × W
  owner_listed o (err e, w) = (err (fetch_error e), w)
  owner_listed o (ok aps, w) = (allocate o aps, w)

  abbrev pub owner_described :
      Owner → Result CloudError FileSystem × W → Result DriverError PosixUser × W
  owner_described o (err e, w) = (err (fetch_error e), w)
  owner_described o (ok _, w) = (ok (record { gid = o.asked_gid; uid = o.asked_uid }), w)

  -- The user and group: the file system is asked for, and a free group allocated where the
  -- parameters leave one out.
  unfoldable pub posix_user_for : CloudClient W → GoString → Owner → Action W PosixUser
  posix_user_for c fs o w =
      if needs_gid o
      then owner_listed o (c.list_access_points fs w)
      else owner_described o (c.describe_file_system fs w)

  -- The name, with a unique ID appended.
  abbrev pub with_uuid : GoString → GoString × W → Result DriverError GoString × W
  with_uuid name (uuid, w) = (ok (name ++ (codes "-" ++ uuid)), w)

  -- Whether `ensureUniqueDirectory` asks for a name without a unique ID.
  abbrev pub not_unique : Option GoString → Bool
  not_unique none = false
  not_unique (some value) = elim (parse_bool value) [ none ↦ false | some b ↦ not b ]

  abbrev pub made_unique : GoString → Bool → Action W GoString
  made_unique name true w = (ok name, w)
  made_unique name false w = with_uuid name (d.new_uuid w)

  abbrev pub named_by : GoString → Map GoString → Option GoString → Action W GoString
  named_by name params none = give name
  named_by name params (some pattern) = do
    val ← pure_step (interpolate_root_directory_name pattern params)
    made_unique val (not_unique (lookup (codes "ensureUniqueDirectory") params))

  -- `rootDirName`
  unfoldable pub root_directory_name : GoString → Map GoString → Action W GoString
  root_directory_name name params = named_by name params (lookup (codes "subPathPattern") params)

  -- What `CreateAccessPoint` is asked for.
  abbrev pub options_of : CreateRequest → GoString → PosixUser → GoString → AccessPointOptions
  options_of req fs user root = record {
    capacity_gib = req.required_bytes;
    file_system_id = fs;
    uid = user.uid;
    gid = user.gid;
    directory_perms = parameter (codes "directoryPerms") req.parameters;
    directory_path = root;
    tags = access_point_tags d.driver_tags;
  }

  -- What is asked for, checked; up to the call of `CreateAccessPoint`.
  unfoldable pub creation_options :
      CloudClient W → CreateRequest → GoString → Owner → Action W AccessPointOptions
  creation_options c req fs o = do
    user ← posix_user_for c fs o
    name ← root_directory_name req.name req.parameters
    let root = join_path (codes "/" ∷ parameter (codes "basePath") req.parameters ∷ name ∷ [])
    pure_step (validate_efs_path_requirements root)
    give (options_of req fs user root)

  -- The access point that has the token already, if it fits the parameters.
  abbrev pub existing :
      GoString
      → Owner
      → Result CloudError (Option AccessPoint) × W
      → Result DriverError AccessPoint × W
  existing base o (err e, w) = (err unclassified, w)
  existing base o (ok none, w) = (err unclassified, w)
  existing base o (ok (some ap), w) =
      if validate_existing_access_point ap base o.gid_min o.gid_max
      then (ok ap, w)
      else (err (status Code.already_exists), w)

  abbrev pub created :
      CloudClient W
      → CreateRequest
      → GoString
      → GoString
      → Owner
      → Result CloudError AccessPoint × W
      → Result DriverError AccessPoint × W
  created c req token fs o (ok ap, w) = (ok ap, w)
  created c req token fs o (err access_denied, w) = (err (status unauthenticated), w)
  created c req token fs o (err already_exists, w) =
      existing (parameter (codes "basePath") req.parameters) o
        (c.find_access_point_by_client_token token fs w)
  created c req token fs o (err _, w) = (err (status internal), w)

  abbrev pub locked : Bool × W → Result DriverError (Unit {0}) × W
  locked (true, w) = (ok tt, w)
  locked (false, w) = (err (status internal), w)

  -- `lockMutex`, where a failure ends the function.
  unfoldable pub take_lock : GoString → Action W (Unit {0})
  take_lock id w = locked (d.lock_mutex id w)

  abbrev pub ask_creation :
      CloudClient W
      → CreateRequest
      → GoString
      → GoString
      → Owner
      → AccessPointOptions
      → Action W AccessPoint
  ask_creation c req token fs o options w =
      created c req token fs o (c.create_access_point token options w)

  abbrev pub lock_obtained : GoString → GoString → Action W Obtained
  lock_obtained id az = take_lock id >> give (record { ap_id = id; az = az })

  -- A new access point, with its lock taken.
  unfoldable pub new_access_point :
      CloudClient W → CreateRequest → GoString → GoString → Action W Obtained
  new_access_point c req token fs = do
    o ← pure_step (parse_owner req.parameters)
    options ← creation_options c req fs o
    ap ← ask_creation c req token fs o options
    lock_obtained ap.access_point_id (parameter (codes "az") req.parameters)

  abbrev pub reused :
      CloudClient W
      → CreateRequest
      → GoString
      → GoString
      → Result CloudError (Option AccessPoint) × W
      → Result DriverError Obtained × W
  reused c req token fs (err e, w) = (err unclassified, w)
  reused c req token fs (ok none, w) = new_access_point c req token fs w
  reused c req token fs (ok (some ap), w) = lock_obtained ap.access_point_id [] w

  -- The access point of the volume, with its lock taken: one that has the token, if it may be
  -- used again, or a new one.
  unfoldable pub obtain_access_point :
      CloudClient W → CreateRequest → ReuseChoice → GoString → Action W Obtained
  obtain_access_point c req choice fs w =
      if choice.reuse
      then reused c req choice.client_token fs
          (c.find_access_point_by_client_token choice.client_token fs w)
      else new_access_point c req choice.client_token fs w

  abbrev pub target_context : Result CloudError MountTarget × W → Map GoString × W
  target_context (err e, w) = ([], w)
  target_context (ok t, w) = ((codes "mounttargetip", t.ip_address) ∷ [], w)

  -- The context of the volume, for mounts across accounts.
  unfoldable pub volume_context_for : CloudAccess W → GoString → GoString → W → Map GoString × W
  volume_context_for access fs az w =
      if is_empty access.role_arn
      then ([], w)
      else if access.cross_account_dns_enabled
      then ((codes "crossaccount", codes "true") ∷ [], w)
      else target_context (access.local_cloud.describe_mount_targets fs az w)

  abbrev pub access_point_volume : CreateRequest → GoString → GoString → Map GoString → Volume
  access_point_volume req fs ap_id context = record {
    capacity_bytes = req.required_bytes;
    volume_id = fs ++ (codes "::" ++ ap_id);
    volume_context = context;
  }

  abbrev pub answered :
      CreateRequest → GoString → GoString → Map GoString × W → Result DriverError Volume × W
  answered req fs ap_id (context, w) = (ok (access_point_volume req fs ap_id context), w)

  -- The end of `CreateVolume`; its lock is given back.
  unfoldable pub answer_volume :
      CloudAccess W → CreateRequest → GoString → Obtained → Action W Volume
  answer_volume access req fs ap w =
      deferred (answered req fs ap.ap_id (volume_context_for access fs ap.az w))
        (d.unlock_mutex ap.ap_id)

  -- `CreateVolume` for an access point, after the mode has been read.
  unfoldable pub create_access_point_volume : CreateRequest → ReuseChoice → Action W Volume
  create_access_point_volume req choice = do
    fs ← pure_step (file_system_parameter req.parameters)
    access ← get_cloud d req.secrets
    ap ← obtain_access_point access.local_cloud req choice fs
    answer_volume access req fs ap
