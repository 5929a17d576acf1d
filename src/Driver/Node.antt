-- ===== src/Driver/Node.antt =====
-- pkg/driver/node.go: `NodePublishVolume` and `NodeUnpublishVolume`.
pub mod Options
pub mod Service
pub mod Stats
mod Tests
use aws_efs_csi_driver.Prelude.{
  ℕ, suc, ◌-◌, ◌+◌, Bool, true, false, not, ◌&&◌, List, [], ◌∷◌, ◌++◌, Option, none, some, GoString,
  codes, str_eq, has_prefix, is_empty, contains, append_if, drop, to_lower, join_path, parse_bool,
  Map, lookup, insert, remove, Result, ok, err, ◌>>=◌, ◌>>◌, reject, if◌then◌else◌, ltb, ◌==◌,
}
use aws_efs_csi_driver.Driver.Status.{Code, DriverError, status, invalid_argument, internal}
use aws_efs_csi_driver.Driver.Capabilities.{
  MountVolume, VolumeCapability, is_valid_volume_capabilities,
}
use aws_efs_csi_driver.Driver.VolumeId.{ParsedVolume, parse_volume_id, parse_efsns_volume_for_mount}
use aws_efs_csi_driver.EfsNs.VolumeId.{is_efsns_volume_id}

abbrev pub refused : DriverError
refused = status invalid_argument

-- The variables of the loop over the volume context.
pub record ContextOptions : Type 0 where
  pub subpath : GoString
  pub encrypt_in_transit : Bool
  pub cross_account_dns_enabled : Bool
  pub mount_options : List GoString

abbrev pub default_context : ContextOptions
default_context = record {
  subpath = codes "/";
  encrypt_in_transit = true;
  cross_account_dns_enabled = false;
  mount_options = [];
}

abbrev or_empty : Option GoString → GoString
or_empty none = []
or_empty (some v) = v

mount_target_option : Map GoString → GoString
mount_target_option context =
    codes "mounttargetip=" ++ or_empty (lookup (codes "mounttargetip") context)

-- One round of the loop: the `switch` on the key in lower case.
pub context_entry :
    Map GoString → GoString → GoString → ContextOptions → Result DriverError ContextOptions
context_entry context k v s =
    let key = to_lower k in
    if str_eq key (codes "path")
    then if has_prefix v (codes "/")
      then ok (record s { subpath = join_path (s.subpath ∷ v ∷ []) })
      else err refused
    else if str_eq key (codes "storage.kubernetes.io/csiprovisioneridentity")
    then ok s
    else if str_eq key (codes "encryptintransit")
    then elim (parse_bool v) [
      | none ↦ err refused
      | some b ↦ ok (record s { encrypt_in_transit = b })
    ]
    else if str_eq key (codes "mounttargetip")
    then ok (record s { mount_options = s.mount_options ++ mount_target_option context ∷ [] })
    else if str_eq key (codes "crossaccount")
    then elim (parse_bool v) [
      | none ↦ err refused
      | some b ↦ ok (record s { cross_account_dns_enabled = b })
    ]
    else err refused

-- The loop, over the entries in the order in which `range` visits them.
pub scan_context : Map GoString → Map GoString → ContextOptions → Result DriverError ContextOptions
scan_context context [] s = ok s
scan_context context ((k, v) ∷ rest) s =
    context_entry context k v s >>= λ t. scan_context context rest t

-- `fsid`, `subpath` and `apid` of the volume ID, with the path of the context where it has none.
unfoldable pub resolve_volume : GoString → GoString → Result DriverError ParsedVolume
resolve_volume volume_id context_path =
    if is_efsns_volume_id volume_id
    then (do
      fsid ← parse_efsns_volume_for_mount volume_id
      ok (record { fsid = fsid; subpath = codes "/"; apid = [] }))
    else (do
      p ← parse_volume_id volume_id
      ok (record p { subpath = if is_empty p.subpath then context_path else p.subpath }))

abbrev pub tls : GoString
tls = codes "tls"

abbrev pub access_point_option : GoString → GoString
access_point_option apid = codes "accesspoint=" ++ apid

-- An access point wants its ID and TLS among the options.
pub with_access_point : GoString → List GoString → List GoString
with_access_point apid options =
    append_if (not (is_empty apid)) tls
      (append_if (not (is_empty apid)) (access_point_option apid) options)

-- With TLS on, both kinds of volume get it once.
pub with_tls : Bool → List GoString → List GoString
with_tls encrypt options = append_if (encrypt && not (contains options tls)) tls options

-- The options before the mount flags.
pub base_options : ContextOptions → GoString → Bool → List GoString
base_options s apid readonly = append_if readonly (codes "ro") (
    append_if s.cross_account_dns_enabled (codes "crossaccount")
      (with_tls s.encrypt_in_transit (with_access_point apid s.mount_options)))

abbrev pub accesspoint_is : GoString
accesspoint_is = codes "accesspoint="

-- One round of the loop over the mount flags, with the flag in lower case.
pub add_lower_flag :
    Bool → GoString → Bool → GoString → List GoString → Result DriverError (List GoString)
add_lower_flag efsns apid encrypt f options = do
  reject (has_prefix f accesspoint_is && efsns) refused
  reject (has_prefix f accesspoint_is && (not (is_empty apid) && not (str_eq (drop 12 f) apid)))
      refused
  reject (str_eq f tls && not encrypt) refused
  ok (
      if has_prefix f (codes "awscredsuri")
      then options
      else append_if (not (contains options f)) f options)

pub add_flag :
    Bool → GoString → Bool → GoString → List GoString → Result DriverError (List GoString)
add_flag efsns apid encrypt flag options = add_lower_flag efsns apid encrypt (to_lower flag) options

pub add_flags :
    Bool → GoString → Bool → List GoString → List GoString → Result DriverError (List GoString)
add_flags efsns apid encrypt [] options = ok options
add_flags efsns apid encrypt (f ∷ fs) options =
    add_flag efsns apid encrypt f options >>= λ o. add_flags efsns apid encrypt fs o

-- `csi.NodePublishVolumeRequest`
pub record PublishRequest : Type 0 where
  pub volume_id : GoString
  pub target_path : GoString
  pub volume_capability : Option VolumeCapability
  pub readonly : Bool
  pub volume_context : Map GoString

pub record MountCall : Type 0 where
  pub source : GoString
  pub options : List GoString

-- The mount volume of a capability that passes the checks.
unfoldable pub checked_mount : PublishRequest → Result DriverError MountVolume
checked_mount req = if is_empty req.target_path then err refused else elim req.volume_capability [
  | none ↦ err refused
  | some cap ↦
      if is_valid_volume_capabilities (cap ∷ [])
      then elim cap.mount [ none ↦ err refused | some m ↦ ok m ]
      else err refused
]

-- `NodePublishVolume` up to the first change: what to mount, and with which options.
unfoldable pub mount_call : PublishRequest → Result DriverError MountCall
mount_call req = do
  m ← checked_mount req
  s ← scan_context req.volume_context req.volume_context default_context
  p ← resolve_volume req.volume_id s.subpath
  options ←
      add_flags (is_efsns_volume_id req.volume_id) p.apid s.encrypt_in_transit m.mount_flags
        (base_options s p.apid req.readonly)
  ok (record { source = p.fsid ++ (codes ":" ++ p.subpath); options = options })
