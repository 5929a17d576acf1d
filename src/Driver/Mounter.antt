-- ===== src/Driver/Mounter.antt =====
-- pkg/driver/mounter.go and the calls of package os: what the driver asks of the host, on a world
-- `W` that the host keeps. A Boolean answer is `true` for a nil error.
use aws_efs_csi_driver.Prelude.{ℕ, Bool, List, Option, GoString}

-- `os.Remove`
pub data Removal : Type 0 where
  removed not_exist remove_failed : Removal

-- `Stat` on a path that is to be removed: a directory, something else, or an error.
pub data PathInfo : Type 0 where
  directory other_file stat_failed : PathInfo

pub record Mounter (W : Type 0) : Type 0 where
  pub make_dir : GoString → W → Bool × W
  pub mount : GoString → GoString → GoString → List GoString → W → Bool × W
  pub unmount : GoString → W → Bool × W
  -- the reference count of `GetDeviceName`
  pub get_device_name : GoString → W → Option ℕ × W
  pub is_likely_not_mount_point : GoString → W → Option Bool × W
  pub stat : GoString → W → PathInfo × W
  pub remove : GoString → W → Removal × W
  pub remove_all : GoString → W → Bool × W
