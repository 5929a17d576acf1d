-- ===== src/EfsNs.antt =====
-- pkg/driver/efs-ns: one EFS file system for each Kubernetes namespace.
pub mod Errors
pub mod VolumeId
pub mod FileSystem
pub mod Cache
pub mod Retry
pub mod Tracker
pub mod Finalizer
pub mod Manager
