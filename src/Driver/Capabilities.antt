-- ===== src/Driver/Capabilities.antt =====
-- pkg/driver/node.go: the checks of volume capabilities.
use aws_efs_csi_driver.Prelude.{
  Bool, true, false, List, [], ◌∷◌, Option, none, some, ◌||◌, GoString, codes, str_eq, is_empty,
  is_some, if◌then◌else◌, not,
}

-- `csi.VolumeCapability_AccessMode_Mode`; `unknown` also where no access mode is set.
pub data AccessMode : Type 0 where
  unknown single_node_writer single_node_reader_only multi_node_reader_only : AccessMode
  multi_node_single_writer multi_node_multi_writer : AccessMode
  single_node_single_writer single_node_multi_writer : AccessMode

-- `csi.VolumeCapability_MountVolume`
pub record MountVolume : Type 0 where
  pub fs_type : GoString
  pub mount_flags : List GoString

-- `csi.VolumeCapability`; `mount` is what `GetMount` returns, `none` is nil.
pub record VolumeCapability : Type 0 where
  pub access_mode : AccessMode
  pub mount : Option MountVolume

-- `volumeCapAccessModes`
abbrev pub is_supported_access_mode : AccessMode → Bool
is_supported_access_mode single_node_writer = true
is_supported_access_mode multi_node_multi_writer = true
is_supported_access_mode _ = false

-- The loop of `validateAccessMode`: the modes that are not supported.
abbrev invalid_modes : List VolumeCapability → List AccessMode
invalid_modes [] = []
invalid_modes (c ∷ cs) =
    let rest = invalid_modes cs in
    if is_supported_access_mode c.access_mode then rest else c.access_mode ∷ rest

-- `validateAccessMode`; `true` is a nil error, here and below.
unfoldable pub validate_access_mode : List VolumeCapability → Bool
validate_access_mode caps = is_empty (invalid_modes caps)

-- `validateAccessType`
unfoldable pub validate_access_type : List VolumeCapability → Bool
validate_access_type [] = true
validate_access_type (c ∷ cs) =
    let rest = validate_access_type cs in if is_some c.mount then rest else false

-- `isValidVolumeCapabilities`
unfoldable pub is_valid_volume_capabilities : List VolumeCapability → Bool
unfolding validate_access_mode validate_access_type
is_valid_volume_capabilities caps =
    if not (validate_access_mode caps) then false else validate_access_type caps

-- `supportedFSTypes`. A nil mount is refused here; the code dereferences it, and both of its
-- callers have refused it before.
abbrev pub is_supported_fs_type : Option MountVolume → Bool
is_supported_fs_type none = false
is_supported_fs_type (some m) = str_eq (codes "efs") m.fs_type || is_empty m.fs_type

abbrev invalid_fs_types : List VolumeCapability → List VolumeCapability
invalid_fs_types [] = []
invalid_fs_types (c ∷ cs) =
    let rest = invalid_fs_types cs in if is_supported_fs_type c.mount then rest else c ∷ rest

-- `validateFStype`
unfoldable pub validate_fs_type : List VolumeCapability → Bool
validate_fs_type caps = is_empty (invalid_fs_types caps)
