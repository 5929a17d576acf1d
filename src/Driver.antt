-- ===== src/Driver.antt =====
-- pkg/driver: the CSI services.
pub mod Status
pub mod Mounter
pub mod VolumeId
pub mod Gid
pub mod Action
pub mod Capabilities
pub mod Controller
pub mod LockManager
pub mod Node
pub mod Taints
pub mod VolStatter
