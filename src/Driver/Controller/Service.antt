-- ===== src/Driver/Controller/Service.antt =====
-- pkg/driver/controller.go: the RPCs of the controller service.
pub mod Volumes
use aws_efs_csi_driver.Prelude.{
  ℕ, Bool, true, false, not, List, [], ◌∷◌, Option, none, some, GoString, codes, is_empty, is_some,
  Map, Result, ok, err, if◌then◌else◌,
}
use aws_efs_csi_driver.Driver.Action.{Action, ◌>>=◌, ◌>>◌, give, pure_step, refuse_if}
use aws_efs_csi_driver.Driver.Status.{Code, DriverError, status, internal, unimplemented}
use aws_efs_csi_driver.Driver.Capabilities.{VolumeCapability, is_valid_volume_capabilities}
use aws_efs_csi_driver.Driver.VolumeId.{ParsedVolume, parse_volume_id}
use aws_efs_csi_driver.EfsNs.Errors.{GoError, file_system_not_found, is_efsns_error}
use aws_efs_csi_driver.EfsNs.FileSystem.{FileSystemInfo}
use aws_efs_csi_driver.EfsNs.VolumeId.{VolumeId, parse_efsns_volume_id, is_efsns_volume_id}
use aws_efs_csi_driver.Driver.Controller.{
  Driver, NamespaceManager, CreateRequest, Volume, CloudAccess, invalid, get_cloud,
}
use aws_efs_csi_driver.Driver.Controller.Parameters.{
  CheckedRequest, Mode, access_point_mode, namespace_mode, checked_request,
}
use aws_efs_csi_driver.Driver.Controller.Create.{create_access_point_volume}
use aws_efs_csi_driver.Driver.Controller.Delete.{delete_access_point_volume}
use aws_efs_csi_driver.Driver.Controller.Namespaces.{create_efsns_volume, delete_efsns_volume}

-- `controllerCaps`, and the answer of `ControllerGetCapabilities`
pub data ControllerCapability : Type 0 where
  create_delete_volume : ControllerCapability

abbrev pub controller_get_capabilities : List ControllerCapability
controller_get_capabilities = create_delete_volume ∷ []

-- The RPCs that the controller does not implement.
pub data UnimplementedRpc : Type 0 where
  controller_publish_volume controller_unpublish_volume list_volumes get_capacity : UnimplementedRpc
  create_snapshot delete_snapshot list_snapshots controller_expand_volume : UnimplementedRpc
  controller_get_volume controller_modify_volume : UnimplementedRpc

abbrev pub answer_unimplemented : UnimplementedRpc → DriverError
answer_unimplemented _ = status unimplemented

module _ {W : Type 0} (d : Driver W) where
  abbrev pub by_mode : CreateRequest → CheckedRequest → Mode → Action W Volume
  by_mode req r access_point_mode = create_access_point_volume d req r.choice
  by_mode req r namespace_mode = create_efsns_volume d req

  -- `CreateVolume`
  unfoldable pub create_volume : CreateRequest → Action W Volume
  create_volume req = do
    r ← pure_step (checked_request d.sha256_hex (is_some d.namespace_manager) req)
    by_mode req r r.mode

  abbrev pub delete_plain : CloudAccess W → Result DriverError ParsedVolume → Action W (Unit {0})
  delete_plain access (err e) = give tt
  delete_plain access (ok p) =
      if is_empty p.apid then give tt else delete_access_point_volume d access p

  abbrev pub delete_by_kind : GoString → CloudAccess W → Action W (Unit {0})
  delete_by_kind volume_id access =
      if is_efsns_volume_id volume_id
      then delete_efsns_volume d volume_id
      else delete_plain access (parse_volume_id volume_id)

  -- `DeleteVolume`, on the ID of the volume and the secrets. The check of the ID before it is
  -- only logged.
  unfoldable pub delete_volume : GoString → Map GoString → Action W (Unit {0})
  delete_volume volume_id secrets = do
    access ← get_cloud d secrets
    refuse_if (is_empty volume_id) invalid
    delete_by_kind volume_id access

  abbrev pub info_answer : Result GoError FileSystemInfo × W → Result DriverError (Unit {0}) × W
  info_answer (ok i, w) = (ok tt, w)
  info_answer (err e, w) = (
    err (if is_efsns_error e file_system_not_found then status Code.not_found else status internal),
    w,
  )

  abbrev pub info_there : Option (NamespaceManager W) → GoString → Action W (Unit {0})
  info_there none namespace w = (ok tt, w)
  info_there (some m) namespace w = info_answer (m.file_system_info namespace w)

  abbrev pub efsns_volume_there : Result GoError VolumeId → Action W (Unit {0})
  efsns_volume_there (err e) = λ w. (err (status Code.not_found), w)
  efsns_volume_there (ok v) = info_there d.namespace_manager v.namespace

  abbrev pub volume_there : Result DriverError ParsedVolume → Action W (Unit {0})
  volume_there (err e) = λ w. (err (status Code.not_found), w)
  volume_there (ok p) = give tt

  -- `ValidateVolumeCapabilities`: whether the capabilities are confirmed.
  unfoldable pub validate_volume_capabilities : GoString → List VolumeCapability → Action W Bool
  validate_volume_capabilities volume_id caps = do
    refuse_if (is_empty volume_id) invalid
    refuse_if (is_empty caps) invalid
    if is_efsns_volume_id volume_id
        then efsns_volume_there (parse_efsns_volume_id volume_id)
        else volume_there (parse_volume_id volume_id)
    give (is_valid_volume_capabilities caps)
