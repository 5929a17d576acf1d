-- ===== src/EfsNs/Manager/Service/Cleanup.antt =====
-- How a creation of pkg/driver/efs-ns/manager.go ends.
use aws_efs_csi_driver.Prelude.{
  ℕ, ◌≡◌, refl, ap, ◌∙◌, ◌⊎◌, inl, inr, false, Option, none, some, GoString, is_empty, str_eq_refl,
  Result, ok, err, ok-injective, Result-cases, reject-ok, Option-cases, arith,
}
use aws_efs_csi_driver.EfsNs.Errors.{GoError}
use aws_efs_csi_driver.EfsNs.FileSystem.{FileSystemInfo, FileSystemOptions}
use aws_efs_csi_driver.EfsNs.Cache.{Cache, cache_get, cache_set}
use aws_efs_csi_driver.EfsNs.Cache.View.{cache_get-set}
use aws_efs_csi_driver.EfsNs.Manager.{EfsClient, PvcTracker, ManagerState, CreateInput}
use aws_efs_csi_driver.EfsNs.Manager.Deletion.{delete_file_system, wrapped_answer}
use aws_efs_csi_driver.EfsNs.Manager.Creation.{Ec2Client, wait_for_file_system_available}
use aws_efs_csi_driver.EfsNs.Manager.Service.{
  Events, checked_creation, or_cleanup, answer_new, mount_new, finish_creation, input_of,
  create_file_system_for, keep_new, or_create, create_or_get,
}

module _ {W : Type 0} (efs : EfsClient W) (ec2 : Ec2Client W) (tracker : PvcTracker W)
    (cluster_id vpc_id : GoString) where
  -- AWS was asked last to delete the file system.
  abbrev pub CleanedUp : GoString → W → Type 0
  CleanedUp id t = (x : W) × (t ≡ (efs.delete_file_system id x).1)

  answer_world : (r : Option GoError × W) → (wrapped_answer efs tracker cluster_id r).1 ≡ r.1
  answer_world (none, w) = refl
  answer_world (some e, w) = refl

  or_cleanup-err :
      (id : GoString) (r : Option GoError × W) (next : W → Result GoError FileSystemInfo × W)
      {e : GoError}
      → ((x : W) → (next x).0 ≡ err e → CleanedUp id (next x).1)
      → (or_cleanup efs ec2 tracker cluster_id vpc_id id r next).0 ≡ err e
      → CleanedUp id (or_cleanup efs ec2 tracker cluster_id vpc_id id r next).1
  unfolding delete_file_system
  or_cleanup-err id (none, w) next later h = later w h
  or_cleanup-err id (some e, w) next later h = (w, answer_world (efs.delete_file_system id w))

  mount_new-err :
      (namespace : GoString) (o : FileSystemOptions) (input : CreateInput) (events : Events)
      (id : GoString) (w : W) {e : GoError}
      → (mount_new efs ec2 tracker cluster_id vpc_id namespace o input events id w).0 ≡ err e
      → CleanedUp id (mount_new efs ec2 tracker cluster_id vpc_id namespace o input events id w).1
  unfolding mount_new
  mount_new-err namespace o input events id w h =
      or_cleanup-err id _ (answer_new efs ec2 tracker cluster_id vpc_id namespace o input events id)
        (λ x h1. absurd (not_both h1)) h
    where
      not_both :
          {i : FileSystemInfo} {e : GoError}
          → ◌≡◌ {A = Result GoError FileSystemInfo} (ok i) (err e)
          → ⊥
      not_both h = cc

  finish_creation-err :
      (namespace : GoString) (o : FileSystemOptions) (input : CreateInput) (events : Events)
      (id : GoString) (w : W) {e : GoError}
      → (finish_creation efs ec2 tracker cluster_id vpc_id namespace o input events id w).0 ≡ err e
      → CleanedUp id
          (finish_creation efs ec2 tracker cluster_id vpc_id namespace o input events id w).1
  unfolding finish_creation
  finish_creation-err namespace o input events id w h =
      or_cleanup-err id
        (wait_for_file_system_available efs ec2 tracker cluster_id vpc_id events.until_available id
          w)
        (mount_new efs ec2 tracker cluster_id vpc_id namespace o input events id)
        (λ x h1. mount_new-err namespace o input events id x h1) h

  -- If AWS has made a file system and its creation fails all the same, the last thing that the
  -- manager did was to ask AWS to delete this file system.
  pub create-CleanedUp :
      (namespace : GoString) (o : FileSystemOptions) (events : Events) (w v : W) (id : GoString)
      (e : GoError)
      → efs.create_file_system (input_of efs ec2 tracker cluster_id vpc_id namespace o events) w
        ≡ (ok (some id), v)
      → (create_file_system_for efs ec2 tracker cluster_id vpc_id namespace o events w).0 ≡ err e
      → CleanedUp id
          (create_file_system_for efs ec2 tracker cluster_id vpc_id namespace o events w).1
  unfolding create_file_system_for
  create-CleanedUp namespace o events w v id e made h =
      rw (made, create_file_system_for)
        (finish_creation-err namespace o _ events id v (rw (made, create_file_system_for) at h))

  kept :
      (namespace : GoString) (i : FileSystemInfo) (at : ℕ) (c : Cache)
      → is_empty namespace ≡ false
      → cache_get namespace at (cache_set namespace (some i) at c) ≡ some i
  kept namespace i at c h =
      ground (arith, cache_get-set namespace namespace i at at c h, str_eq_refl namespace)

  new-kept :
      (namespace : GoString) (at : ℕ) (c : Cache) (r : Result GoError FileSystemInfo × W)
      (i : FileSystemInfo)
      → is_empty namespace ≡ false
      → (keep_new efs ec2 tracker cluster_id vpc_id namespace at c r).0 ≡ ok i
      → cache_get namespace at (keep_new efs ec2 tracker cluster_id vpc_id namespace at c r).1.cache
        ≡ some i
  new-kept namespace at c (err e, w) i n h = cc
  new-kept namespace at c (ok j, w) i n h = kept namespace j at c n ∙ ap some (ok-injective h)

  -- The cache holds the answer when the request ends, on the clock of the request or of the end of
  -- the creation.
  abbrev pub Holds : GoString → ℕ → Events → FileSystemInfo → ManagerState W → Type 0
  Holds namespace now events i t =
      (cache_get namespace now t.cache ≡ some i)
      ⊎ (cache_get namespace events.ended t.cache ≡ some i)

  found-Holds :
      (namespace : GoString) (o : FileSystemOptions) (now : ℕ) (events : Events) (c : Cache)
      (r : Result GoError (Option FileSystemInfo) × W) (i : FileSystemInfo)
      → is_empty namespace ≡ false
      → (or_create efs ec2 tracker cluster_id vpc_id namespace o now events c r).0 ≡ ok i
      → Holds namespace now events i
          (or_create efs ec2 tracker cluster_id vpc_id namespace o now events c r).1
  found-Holds namespace o now events c (err e, w) i n h = cc
  found-Holds namespace o now events c (ok (some j), w) i n h =
      inl (kept namespace j now c n ∙ ap some (ok-injective h))
  found-Holds namespace o now events c (ok none, w) i n h =
      inr (new-kept namespace events.ended c _ i n h)

  checked-there :
      (namespace : GoString) (options : Option FileSystemOptions) (o : FileSystemOptions)
      → checked_creation namespace options ≡ ok o
      → is_empty namespace ≡ false
  unfolding checked_creation
  checked-there namespace none o h = cc
  checked-there namespace (some p) o h = (reject-ok (is_empty namespace) _ _ h).0

  -- After a request for the file system of a namespace that succeeds, the cache holds the answer.
  pub create_or_get-Holds :
      (namespace : GoString) (options : Option FileSystemOptions) (now : ℕ) (events : Events)
      (s : ManagerState W) (i : FileSystemInfo)
      → (create_or_get efs ec2 tracker cluster_id vpc_id namespace options now events s).0 ≡ ok i
      → Holds namespace now events i
          (create_or_get efs ec2 tracker cluster_id vpc_id namespace options now events s).1
  unfolding create_or_get
  create_or_get-Holds namespace options now events s i h =
      elim (Result-cases (checked_creation namespace options)) [
        | inl (e, bad) ↦ absurd (ground (arith, bad))
        | inr (o, good) ↦ elim (Option-cases (cache_get namespace now s.cache)) [
          | inr (j, hit) ↦ inl (
              rw (good, hit, create_or_get)
                (hit ∙ ap some (ok-injective (rw (good, hit, create_or_get) at h))))
          | inl miss ↦
              rw (good, miss, create_or_get)
                (found-Holds namespace o now events s.cache _ i
                  (checked-there namespace options o good) (rw (good, miss, create_or_get) at h))
        ]
      ]
