-- ===== src/Driver/Controller/Discipline.antt =====
-- The calls that the controller of pkg/driver/controller.go makes, and the lock that it holds
-- while it makes them. `P none` is a property of the state where the function holds no lock,
-- `P (some id)` where it holds that of the access point `id`.
pub mod Creation
pub mod Deletion
pub mod Service
pub mod Options
use aws_efs_csi_driver.Prelude.{
  Bool, true, false, List, ◌≡◌, refl, ◌⊎◌, inl, inr, ◌++◌, Option, none, some, GoString, codes,
  is_empty, Map, Result, ok, err, Bool-cases, Option-cases, Result-cases, if◌then◌else◌, lookup,
  arith, has_prefix, contains_str,
}
use aws_efs_csi_driver.Cloud.Types.{AccessPoint, AccessPointOptions, CloudClient}
use aws_efs_csi_driver.EfsNs.FileSystem.{FileSystemOptions}
use aws_efs_csi_driver.Driver.Action.{Action, Ends, Ends-any, continue-Ends, pure_step}
use aws_efs_csi_driver.Driver.Status.{DriverError}
use aws_efs_csi_driver.Driver.Controller.{
  NamespaceManager, ClaimTracker, Driver, CloudAccess, get_cloud, cross_account_dns, chosen_cloud,
  with_role, parameter,
}
use aws_efs_csi_driver.Driver.Controller.Delete.{fs_root}

-- The calls of AWS: an access point is made with options that may be asked for and with no lock
-- held, and deleted with its lock held. The other calls only read.
pub record CloudRules {W : Type 0} (P : Option GoString → W → Type 0)
    (MayCreate : AccessPointOptions → Type 0) (c : CloudClient W) : Type 0 where
  pub creates :
      (token : GoString) (o : AccessPointOptions) (w : W)
      → MayCreate o
      → P none w
      → P none (c.create_access_point token o w).1
  pub deletes : (id : GoString) (w : W) → P (some id) w → P (some id) (c.delete_access_point id w).1
  pub describes :
      (l : Option GoString) (id : GoString) (w : W) → P l w → P l (c.describe_access_point id w).1
  pub finds :
      (l : Option GoString) (token fs : GoString) (w : W)
      → P l w
      → P l (c.find_access_point_by_client_token token fs w).1
  pub lists :
      (l : Option GoString) (fs : GoString) (w : W) → P l w → P l (c.list_access_points fs w).1
  pub describes_fs :
      (l : Option GoString) (fs : GoString) (w : W) → P l w → P l (c.describe_file_system fs w).1
  pub describes_targets :
      (l : Option GoString) (fs az : GoString) (w : W)
      → P l w
      → P l (c.describe_mount_targets fs az w).1

-- The path of a root directory, as AWS documents it: it starts with `/`, and no part of it starts
-- with a dot.
pub record IsRooted (path : GoString) : Type 0 where
  pub starts : has_prefix path (codes "/") ≡ true
  pub no_dots : contains_str path (codes "/.") ≡ false

-- The access points that AWS describes have such root directories.
abbrev pub DescribesRoots : {W : Type 0} → CloudClient W → Type 0
DescribesRoots {W} c =
    (id : GoString) (w : W) (ap : AccessPoint)
    → (c.describe_access_point id w).0 ≡ ok ap
    → IsRooted ap.access_point_root_dir

pub record DocumentsRoots {W : Type 0} (d : Driver W) : Type 0 where
  pub of_driver : DescribesRoots d.cloud
  pub of_role :
      (role : GoString) (w v : W) (c : CloudClient W)
      → d.new_cloud_with_role role w ≡ (some c, v)
      → DescribesRoots c

-- The calls of the host: with the lock of an access point held, on its temporary mount point; data
-- is only removed at a path that starts with the mount point and goes on with a `/`, without a part
-- after it that starts with a dot.
pub record HostRules {W : Type 0} (P : Option GoString → W → Type 0) (d : Driver W) : Type 0 where
  pub makes_dir :
      (id : GoString) (w : W) → P (some id) w → P (some id) (d.mounter.make_dir (fs_root id) w).1
  pub mounts :
      (id fs kind : GoString) (options : List GoString) (w : W)
      → P (some id) w
      → P (some id) (d.mounter.mount fs (fs_root id) kind options w).1
  pub unmounts :
      (id : GoString) (w : W) → P (some id) w → P (some id) (d.mounter.unmount (fs_root id) w).1
  pub asks_mount :
      (id : GoString) (w : W)
      → P (some id) w
      → P (some id) (d.mounter.is_likely_not_mount_point (fs_root id) w).1
  pub stats :
      (id path : GoString) (w : W)
      → IsRooted path
      → P (some id) w
      → P (some id) (d.mounter.stat (fs_root id ++ path) w).1
  pub removes :
      (id : GoString) (w : W) → P (some id) w → P (some id) (d.mounter.remove (fs_root id) w).1
  pub removes_all :
      (id path : GoString) (w : W)
      → IsRooted path
      → P (some id) w
      → P (some id) (d.mounter.remove_all (fs_root id ++ path) w).1

-- The locks, a role's client of AWS, and the calls of the parts of efs-ns, which no lock guards.
pub record DriverRules {W : Type 0} (P : Option GoString → W → Type 0)
    (MayCreate : AccessPointOptions → Type 0) (d : Driver W) : Type 0 where
  pub cloud_rules : CloudRules P MayCreate d.cloud
  pub role_rules :
      (role : GoString) (w v : W) (c : CloudClient W)
      → d.new_cloud_with_role role w ≡ (some c, v)
      → CloudRules P MayCreate c
  pub takes_role : (role : GoString) (w : W) → P none w → P none (d.new_cloud_with_role role w).1
  pub host_rules : HostRules P d
  pub locks : (id : GoString) (w v : W) → P none w → d.lock_mutex id w ≡ (true, v) → P (some id) v
  pub times_out : (id : GoString) (w v : W) → P none w → d.lock_mutex id w ≡ (false, v) → P none v
  pub unlocks : (id : GoString) (w : W) → P (some id) w → P none (d.unlock_mutex id w)
  pub makes_uuid : (w : W) → P none w → P none (d.new_uuid w).1
  pub manager_creates :
      (m : NamespaceManager W) (namespace : GoString) (o : FileSystemOptions) (w : W)
      → d.namespace_manager ≡ some m
      → P none w
      → P none (m.create_or_get_file_system namespace o w).1
  pub manager_deletes :
      (m : NamespaceManager W) (namespace id : GoString) (w : W)
      → d.namespace_manager ≡ some m
      → P none w
      → P none (m.delete_for_namespace namespace id w).1
  pub tracker_adds :
      (t : ClaimTracker W) (namespace name id : GoString) (w : W)
      → d.pvc_tracker ≡ some t
      → P none w
      → P none (t.add_claim namespace name id w).1
  pub tracker_removes :
      (t : ClaimTracker W) (namespace name : GoString) (w : W)
      → d.pvc_tracker ≡ some t
      → P none w
      → P none (t.remove_claim namespace name w).1

pub Ends-of_state :
    {W A : Type 0} (P : W → Type 0) (r : Result DriverError A × W) → P r.1 → Ends (λ _. P) P r
unfolding Ends
Ends-of_state P (ok a, w) h = h
Ends-of_state P (err e, w) h = h

pub state_of-Ends :
    {W A : Type 0} (P : W → Type 0) (r : Result DriverError A × W) → Ends (λ _. P) P r → P r.1
unfolding Ends
state_of-Ends P (ok a, w) h = h
state_of-Ends P (err e, w) h = h

module _ {W : Type 0} (P : Option GoString → W → Type 0) (MayCreate : AccessPointOptions → Type 0)
    (d : Driver W) (h : DriverRules P MayCreate d) where
  abbrev pub Ready : CloudAccess W → W → Type 0
  Ready access w = CloudRules P MayCreate access.local_cloud × P none w

  with_role-Ready :
      (role : GoString) (dns : Bool) (w : W) (r : Option (CloudClient W) × W)
      → d.new_cloud_with_role role w ≡ r
      → P none r.1
      → Ends Ready (P none) (with_role d role dns r)
  unfolding Ends
  with_role-Ready role dns w (none, v) e p = p
  with_role-Ready role dns w (some c, v) e p = (h.role_rules role w v c e, p)

  chosen_cloud-Ready :
      (role : GoString) (dns : Bool) (w : W)
      → P none w
      → Ends Ready (P none) (chosen_cloud d role dns w)
  unfolding Ends
  chosen_cloud-Ready role dns w p = elim (Bool-cases (is_empty role)) [
    | inl e ↦ rw e (h.cloud_rules, p)
    | inr e ↦ rw e (with_role-Ready role dns w _ refl (h.takes_role role w p))
  ]

  pub get_cloud-Ready :
      (secrets : Map GoString) (w : W) → P none w → Ends Ready (P none) (get_cloud d secrets w)
  unfolding get_cloud
  get_cloud-Ready secrets w p =
      continue-Ends (λ _. P none) Ready (P none) (pure_step (cross_account_dns secrets) w) _
        (Ends-of_state (P none) _ p) (λ dns v q. chosen_cloud-Ready _ dns v q)

module _ {W : Type 0} (d : Driver W) (h : DocumentsRoots d) where
  abbrev Rooted : CloudAccess W → W → Type 0
  Rooted access w = DescribesRoots access.local_cloud

  abbrev Any : W → Type 0
  Any w = Unit {0}

  with_role-Rooted :
      (role : GoString) (dns : Bool) (w : W) (r : Option (CloudClient W) × W)
      → d.new_cloud_with_role role w ≡ r
      → Ends Rooted Any (with_role d role dns r)
  unfolding Ends
  with_role-Rooted role dns w (none, v) e = tt
  with_role-Rooted role dns w (some c, v) e = h.of_role role w v c e

  chosen_cloud-Rooted :
      (role : GoString) (dns : Bool) (w : W) → Ends Rooted Any (chosen_cloud d role dns w)
  unfolding Ends
  chosen_cloud-Rooted role dns w = elim (Bool-cases (is_empty role)) [
    | inl e ↦ rw e h.of_driver
    | inr e ↦ rw e (with_role-Rooted role dns w _ refl)
  ]

  pub get_cloud-Rooted : (secrets : Map GoString) (w : W) → Ends Rooted Any (get_cloud d secrets w)
  unfolding get_cloud
  get_cloud-Rooted secrets w =
      continue-Ends (λ _. Any) Rooted Any _ _ (Ends-any (pure_step (cross_account_dns secrets) w))
        (λ dns v _. chosen_cloud-Rooted _ dns v)

pub Ends-both :
    {W A : Type 0} (P Q : A → W → Type 0) (E F : W → Type 0) (r : Result DriverError A × W)
    → Ends P E r
    → Ends Q F r
    → Ends (λ a w. P a w × Q a w) E r
unfolding Ends
Ends-both P Q E F (ok a, w) p q = (p, q)
Ends-both P Q E F (err e, w) p q = p
