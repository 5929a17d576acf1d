-- ===== src/Driver/Controller/Namespaces.antt =====
-- pkg/driver/controller.go: `createEFSNSVolume` and `deleteEFSNSVolume`.
pub mod Ids
use aws_efs_csi_driver.Prelude.{
  ℕ, Bool, true, false, not, ◌&&◌, List, [], ◌∷◌, ◌++◌, Option, none, some, GoString, codes,
  is_empty, Map, lookup, Result, ok, err, if◌then◌else◌,
}
use aws_efs_csi_driver.Driver.Action.{Action, ◌>>=◌, ◌>>◌, give, pure_step, refuse_if}
use aws_efs_csi_driver.Driver.Status.{DriverError, status, internal, invalid_argument}
use aws_efs_csi_driver.EfsNs.Errors.{
  GoError, EfsNsErrorType, efsns_error, efsns_caused, namespace_validation_failed,
}
use aws_efs_csi_driver.EfsNs.VolumeId.{VolumeId, volume_id_string, parse_efsns_volume_id}
use aws_efs_csi_driver.EfsNs.FileSystem.{
  FileSystemInfo, FileSystemOptions, MountTargetInfo, validate_options,
}
use aws_efs_csi_driver.Driver.Controller.{
  Driver, NamespaceManager, ClaimTracker, CreateRequest, Volume, CloudAccess, invalid,
  value_or_empty, parameter, get_cloud,
}
use aws_efs_csi_driver.Driver.Controller.Parameters.Namespaces.{
  validate_namespace_name, parse_storage_class,
}

-- The namespace of the volume: the parameter, or that of the claim.
unfoldable pub namespace_parameter : Map GoString → Result DriverError GoString
namespace_parameter params =
    let own = parameter (codes "namespace") params in
    let claimed = parameter (codes "csi.storage.k8s.io/pvc/namespace") params in
    if not (is_empty own)
    then ok own
    else if not (is_empty claimed)
    then ok claimed
    else err invalid

abbrev non_empty_parameter : GoString → Map GoString → Result DriverError GoString
non_empty_parameter k params =
    let value = parameter k params in if is_empty value then err invalid else ok value

abbrev or_invalid : {A : Type 0} → Result GoError A → Result DriverError A
or_invalid (err e) = err invalid
or_invalid (ok a) = ok a

-- The status that stands for a failure of the manager: the switch is on an `EFSNSError` that is
-- not wrapped.
abbrev type_status : EfsNsErrorType → DriverError
type_status namespace_validation_failed = invalid
type_status _ = status internal

abbrev manager_error : GoError → DriverError
manager_error (efsns_error t op ns) = type_status t
manager_error (efsns_caused t op ns cause) = type_status t
manager_error _ = status internal

abbrev first_target : List MountTargetInfo → Map GoString
first_target [] = []
first_target (t ∷ _) = (codes "mounttargetip", t.ip_address) ∷ []

abbrev encryption_of : Option GoString → GoString
encryption_of none = codes "true"
encryption_of (some value) = value

-- What a request for a namespace asks for, checked.
pub record NamespaceRequest : Type 0 where
  pub wanted_namespace : GoString
  pub wanted_cluster : GoString
  pub wanted_options : FileSystemOptions

module _ {W : Type 0} (d : Driver W) where
  -- `createEFSNSVolume` up to `getCloud`.
  unfoldable pub checked_namespace_request : Map GoString → Action W NamespaceRequest
  checked_namespace_request params = do
    namespace ← pure_step (namespace_parameter params)
    cluster ← pure_step (non_empty_parameter (codes "clusterId") params)
    pure_step (validate_namespace_name namespace)
    options ← pure_step (parse_storage_class params)
    pure_step (or_invalid (validate_options options))
    give (record {
      wanted_namespace = namespace;
      wanted_cluster = cluster;
      wanted_options = options;
    })

  abbrev pub answer_of : Result GoError FileSystemInfo × W → Result DriverError FileSystemInfo × W
  answer_of (err e, w) = (err (manager_error e), w)
  answer_of (ok i, w) = (ok i, w)

  abbrev pub ask_manager : Option (NamespaceManager W) → NamespaceRequest → Action W FileSystemInfo
  ask_manager none r w = (err (status internal), w)
  ask_manager (some m) r w =
      answer_of (m.create_or_get_file_system r.wanted_namespace r.wanted_options w)

  -- The claim is added to the tracker; a failure is only logged.
  abbrev pub track : Option (ClaimTracker W) → GoString → GoString → GoString → W → W
  track none namespace name volume w = w
  track (some t) namespace name volume w = (t.add_claim namespace name volume w).1

  abbrev pub namespace_context : CloudAccess W → Map GoString → FileSystemInfo → Map GoString
  namespace_context access params i =
      (codes "encryptInTransit", encryption_of (lookup (codes "encryptInTransit") params))
      ∷ (if is_empty access.role_arn
          then []
          else if access.cross_account_dns_enabled
          then (codes "crossaccount", codes "true") ∷ []
          else first_target i.mount_targets)

  abbrev pub namespace_volume_id : NamespaceRequest → FileSystemInfo → GoString
  namespace_volume_id r i = volume_id_string (record {
    namespace = r.wanted_namespace;
    file_system_id = i.file_system_id;
    cluster_id = r.wanted_cluster;
  })

  abbrev pub finish_namespace_volume :
      CreateRequest → NamespaceRequest → CloudAccess W → FileSystemInfo → Action W Volume
  finish_namespace_volume req r access i w = (
    ok (record {
      capacity_bytes = req.required_bytes;
      volume_id = namespace_volume_id r i;
      volume_context = namespace_context access req.parameters i;
    }),
    track d.pvc_tracker r.wanted_namespace
        (parameter (codes "csi.storage.k8s.io/pvc/name") req.parameters) (namespace_volume_id r i)
        w,
  )

  -- `createEFSNSVolume`
  unfoldable pub create_efsns_volume : CreateRequest → Action W Volume
  create_efsns_volume req = do
    r ← checked_namespace_request req.parameters
    access ← get_cloud d req.secrets
    i ← ask_manager d.namespace_manager r
    finish_namespace_volume req r access i

  abbrev pub untracked : Option GoError × W → Result DriverError (Unit {0}) × W
  untracked (none, w) = (ok tt, w)
  untracked (some e, w) = (err (status internal), w)

  -- The claim that the deletion takes from the tracker: "pvc-" and the file system.
  abbrev pub untrack : Option (ClaimTracker W) → VolumeId → Action W (Unit {0})
  untrack none v w = (ok tt, w)
  untrack (some t) v w = untracked (t.remove_claim v.namespace (codes "pvc-" ++ v.file_system_id) w)

  -- The answer of the manager is only logged.
  abbrev pub delete_of : NamespaceManager W → GoString → GoString → Action W (Unit {0})
  delete_of m namespace volume_id w = (ok tt, (m.delete_for_namespace namespace volume_id w).1)

  abbrev pub delete_parsed : Option (NamespaceManager W) → GoString → VolumeId → Action W (Unit {0})
  delete_parsed none volume_id v w = (err (status internal), w)
  delete_parsed (some m) volume_id v w =
      (untrack d.pvc_tracker v >> delete_of m v.namespace volume_id) w

  abbrev pub delete_by_id : GoString → Result GoError VolumeId → Action W (Unit {0})
  delete_by_id volume_id (err e) w = (ok tt, w)
  delete_by_id volume_id (ok v) w = delete_parsed d.namespace_manager volume_id v w

  -- `deleteEFSNSVolume`
  unfoldable pub delete_efsns_volume : GoString → Action W (Unit {0})
  delete_efsns_volume volume_id = delete_by_id volume_id (parse_efsns_volume_id volume_id)
