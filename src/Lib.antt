-- ===== src/Lib.antt =====
-- The Amazon EFS CSI driver with its namespace provisioning ("efs-ns"): Kubernetes asks the
-- controller for volumes and the nodes to mount them. A volume is an access point of a file
-- system, or the file system that a whole namespace shares.
--
-- The parts, each a module named for it:
--   EfsNs (pkg/driver/efs-ns): EfsNs.Errors is errors.go, EfsNs.VolumeId and EfsNs.FileSystem are
--     types.go, EfsNs.Cache is cache.go (`cache_get` is `Get`, and so on), EfsNs.Retry is retry.go.
--     EfsNs.Tracker is tracker.go, with `SyncWithCluster` in EfsNs.Tracker.Sync. EfsNs.Manager is
--     manager.go: `findExistingFileSystem` and `GetFileSystemInfo` in the module itself, the
--     deletion in EfsNs.Manager.Deletion, the creation in EfsNs.Manager.Creation and
--     EfsNs.Manager.Service, and `SyncFromAWS` in EfsNs.Manager.Sync. EfsNs.Finalizer is
--     finalizer.go, over Kubernetes, the tracker and the manager as the record `FinalizerApi`.
--   Driver (pkg/driver): Driver.VolumeId, Driver.Capabilities and Driver.Node are node.go, where
--     `mount_call` is `NodePublishVolume` up to its first effect and Driver.Node.Service the two
--     requests whole; Driver.Mounter is the interface of mounter.go; Driver.Gid is
--     gid_allocator.go; Driver.VolStatter is vol_statter.go; Driver.Status are the errors, and
--     Driver.Action the operations that end in one. Driver.Taints is the removal of the taint of a
--     node in node.go. Driver.LockManager is lock_manager.go, with the atomic operations of its
--     calls as moves that interleave.
--     Driver.Node.Stats is `NodeGetVolumeStats`.
--     Driver.Controller is controller.go: the record `Driver` with what it sees of its
--     surroundings, the parameters of a storage class in Parameters (with the mode of compatibility.go),
--     `CreateVolume` for access points in Create, `DeleteVolume` for them in Delete, both for
--     namespaces in Namespaces, and the RPCs in Service.
--   Cloud (pkg/cloud): Cloud.Types are the types of cloud.go with the interface `Cloud`, and
--     Cloud.Client is its implementation over the EFS API.
--   Prelude: Go's strings, maps and int64 as far as the code uses them, and shared lemmas.
--
-- How they interact: the node service reads a volume ID with Driver.VolumeId, which for a namespace
-- volume asks EfsNs.VolumeId; it mounts through the Mounter, counts the mounts of each volume, and
-- with the last one evicts the metrics that VolStatter caches.
--
-- The controller makes access points, with no lock held, and deletes one, while it holds its lock,
-- through the record CloudClient, which Cloud.Client fills. What it asks of its surroundings, and
-- which lock it then holds, are the rules of Driver.Controller.Discipline: a property of the state
-- that these calls keep holds after the RPC.
--
-- The manager asks the tracker how many claims use the file system of a namespace before it
-- deletes it; the tracker keeps the claims in ConfigMaps through the interface Cluster, the manager
-- reaches AWS through the interface EfsClient, and caches what it finds in EfsNs.Cache.
--
-- Conventions. A string is the list of its bytes; a map is a list of pairs; an int64 is an integer
-- whose arithmetic wraps around. Code that holds a mutex is one step; only the locks of the
-- controller are taken apart. State is passed explicitly, an error is a value. Times are numbers
-- that the caller gives; so are drawn random numbers. What a platform or the Go runtime decides (a
-- float64 that does not fit an int64, a nil dereference) is a parameter.
--
-- Bounds and fuel: the loop of the GID allocator has 1002 rounds of fuel, one for each gid of a
-- range that the code has cut to 1001 and one for the test that ends it; the retry loop has one
-- round for each attempt, and so has that of the finalizers, of which there are five; each wait for AWS runs over the events of its select, of which the timeout
-- is the last.
--
-- Not modelled: the recovery, the namespace controller, the security groups and the enhanced
-- manager, the validators of compatibility.go, the metrics and health checks; log lines and
-- the texts of errors, the gRPC and HTTP servers, the start of the program, the processes that it
-- watches, and the vendored packages. What the code calls of the host, of AWS or of Kubernetes is
-- an interface or a parameter.
pub mod Prelude
pub mod Cloud
pub mod Driver
pub mod EfsNs
