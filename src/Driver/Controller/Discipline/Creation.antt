-- ===== src/Driver/Controller/Discipline/Creation.antt =====
-- The calls of `CreateVolume` for access point volumes.
use aws_efs_csi_driver.Prelude.{
  Bool, true, false, ◌≡◌, refl, inl, inr, List, [], Option, none, some, GoString, codes, is_empty,
  Map, Result, ok, err, Bool-cases, arith,
}
use aws_efs_csi_driver.Cloud.Types.{
  FileSystem, AccessPoint, AccessPointOptions, MountTarget, CloudError, not_found, already_exists,
  access_denied, other_error, CloudClient,
}
use aws_efs_csi_driver.Driver.Action.{Ends, continue-Ends, deferred, Ends-equation, pure_step-Ends}
use aws_efs_csi_driver.Driver.Controller.{Driver, CreateRequest, CloudAccess, parameter}
use aws_efs_csi_driver.Driver.Controller.Parameters.{
  ReuseChoice, Owner, file_system_parameter, parse_owner,
}
use aws_efs_csi_driver.Driver.Controller.Create
use aws_efs_csi_driver.Driver.Controller.Create.{
  Obtained, posix_user_for, root_directory_name, creation_options, take_lock, new_access_point,
  obtain_access_point, volume_context_for, answer_volume, create_access_point_volume,
}
use aws_efs_csi_driver.Driver.Controller.Discipline.{
  CloudRules, DriverRules, Ready, Ends-of_state, get_cloud-Ready,
}

-- What `CreateAccessPoint` may be asked for, by the checks of the request.
abbrev pub Computed : {W : Type 0} → Driver W → CreateRequest → AccessPointOptions → Type 0
Computed {W} d req options =
    (c : CloudClient W) × (fs : GoString) × (o : Owner) × (v w : W) × (file_system_parameter
        req.parameters
      ≡ ok fs)
    × (parse_owner req.parameters ≡ ok o)
    × (creation_options d c req fs o v ≡ (ok options, w))

module _ {W : Type 0} (P : Option GoString → W → Type 0) (d : Driver W) (req : CreateRequest)
    (h : DriverRules P (Computed d req) d) where
  locked-Ends :
      (id : GoString) (w : W) (r : Bool × W)
      → d.lock_mutex id w ≡ r
      → P none w
      → Ends (λ _. P (some id)) (P none) (Create.locked d r)
  unfolding Ends
  locked-Ends id w (true, v) e p = h.locks id w v p e
  locked-Ends id w (false, v) e p = h.times_out id w v p e

  pub take_lock-Ends :
      (id : GoString) (w : W) → P none w → Ends (λ _. P (some id)) (P none) (take_lock d id w)
  unfolding take_lock
  take_lock-Ends id w p = locked-Ends id w _ refl p

  listed_state :
      (o : Owner) (r : Result CloudError (List (Option AccessPoint)) × W)
      → (Create.owner_listed d o r).1 ≡ r.1
  listed_state o (ok aps, w) = refl
  listed_state o (err e, w) = refl

  described_state :
      (o : Owner) (r : Result CloudError FileSystem × W) → (Create.owner_described d o r).1 ≡ r.1
  described_state o (ok fs, w) = refl
  described_state o (err e, w) = refl

  posix_user_for-Ends :
      (c : CloudClient W) (fs : GoString) (o : Owner) (w : W)
      → CloudRules P (Computed d req) c
      → P none w
      → Ends (λ _. P none) (P none) (posix_user_for d c fs o w)
  unfolding posix_user_for
  posix_user_for-Ends c fs o w k p =
      Ends-of_state (P none) _ (elim (Bool-cases (Create.needs_gid o)) [
        | inl e ↦ rw e (rw (listed_state o _) (k.lists none fs w p))
        | inr e ↦ rw e (rw (described_state o _) (k.describes_fs none fs w p))
      ])

  with_uuid-Ends :
      (name : GoString) (r : GoString × W)
      → P none r.1
      → Ends (λ _. P none) (P none) (Create.with_uuid d name r)
  unfolding Ends
  with_uuid-Ends name (u, w) p = p

  made_unique-Ends :
      (name : GoString) (b : Bool) (w : W)
      → P none w
      → Ends (λ _. P none) (P none) (Create.made_unique d name b w)
  unfolding Ends
  made_unique-Ends name true w p = p
  made_unique-Ends name false w p = with_uuid-Ends name (d.new_uuid w) (h.makes_uuid w p)

  named_by-Ends :
      (name : GoString) (params : Map GoString) (o : Option GoString) (w : W)
      → P none w
      → Ends (λ _. P none) (P none) (Create.named_by d name params o w)
  unfolding Ends
  named_by-Ends name params none w p = p
  named_by-Ends name params (some pattern) w p =
      continue-Ends (λ _. P none) (λ _. P none) (P none) _ _ (Ends-of_state (P none) _ p)
        (λ val v q. made_unique-Ends val _ v q)

  creation_options-Ends :
      (c : CloudClient W) (fs : GoString) (o : Owner) (w : W)
      → CloudRules P (Computed d req) c
      → P none w
      → Ends (λ _. P none) (P none) (creation_options d c req fs o w)
  unfolding creation_options root_directory_name Ends
  creation_options-Ends c fs o w k p =
      continue-Ends (λ _. P none) (λ _. P none) (P none) _ _ (posix_user_for-Ends c fs o w k p)
        λ user v q.
          continue-Ends (λ _. P none) (λ _. P none) (P none) _ _
            (named_by-Ends req.name req.parameters _ v q)
            λ name u r.
              continue-Ends (λ _. P none) (λ _. P none) (P none) _ _ (Ends-of_state (P none) _ r)
                λ _ t s. s

  existing_state :
      (base : GoString) (o : Owner) (r : Result CloudError (Option AccessPoint) × W)
      → (Create.existing d base o r).1 ≡ r.1
  existing_state base o (err e, w) = refl
  existing_state base o (ok none, w) = refl
  existing_state base o (ok (some ap), w) = ground arith

  created-Ends :
      (c : CloudClient W) (token fs : GoString) (o : Owner) (r : Result CloudError AccessPoint × W)
      → CloudRules P (Computed d req) c
      → P none r.1
      → Ends (λ _. P none) (P none) (Create.created d c req token fs o r)
  unfolding Ends
  created-Ends c token fs o (ok ap, w) k p = p
  created-Ends c token fs o (err access_denied, w) k p = p
  created-Ends c token fs o (err already_exists, w) k p = Ends-of_state (P none) _ (
      rw
        (existing_state (parameter (codes "basePath") req.parameters) o
          (c.find_access_point_by_client_token token fs w))
        (k.finds none token fs w p))
  created-Ends c token fs o (err not_found, w) k p = p
  created-Ends c token fs o (err other_error, w) k p = p

  abbrev HasLock : Obtained → W → Type 0
  HasLock ap = P (some ap.ap_id)

  lock_obtained-Ends :
      (id az : GoString) (w : W) → P none w → Ends HasLock (P none) (Create.lock_obtained d id az w)
  unfolding Ends
  lock_obtained-Ends id az w p =
      continue-Ends (λ _. P (some id)) HasLock (P none) _ _ (take_lock-Ends id w p) (λ _ v q. q)

  new_access_point-Ends :
      (c : CloudClient W) (token fs : GoString) (w : W)
      → CloudRules P (Computed d req) c
      → file_system_parameter req.parameters ≡ ok fs
      → P none w
      → Ends HasLock (P none) (new_access_point d c req token fs w)
  unfolding new_access_point
  new_access_point-Ends c token fs w k f p =
      continue-Ends (λ o v. (parse_owner req.parameters ≡ ok o) × P none v) HasLock (P none) _ _
        (pure_step-Ends (P none) _ w p)
        λ o v q.
          continue-Ends
            (λ options u. (creation_options d c req fs o v ≡ (ok options, u)) × P none u) HasLock
            (P none) _ _
            (Ends-equation (λ _. P none) (P none) _ (creation_options-Ends c fs o v k q.1))
            λ options u r.
              continue-Ends (λ _. P none) HasLock (P none) _ _
                (created-Ends c token fs o _ k
                  (k.creates token options u (c, fs, o, v, u, f, q.0, r.0) r.1))
                λ ap t s. lock_obtained-Ends ap.access_point_id _ t s

  reused-Ends :
      (c : CloudClient W) (token fs : GoString) (r : Result CloudError (Option AccessPoint) × W)
      → CloudRules P (Computed d req) c
      → file_system_parameter req.parameters ≡ ok fs
      → P none r.1
      → Ends HasLock (P none) (Create.reused d c req token fs r)
  unfolding Ends
  reused-Ends c token fs (err e, w) k f p = p
  reused-Ends c token fs (ok none, w) k f p = new_access_point-Ends c token fs w k f p
  reused-Ends c token fs (ok (some ap), w) k f p = lock_obtained-Ends ap.access_point_id [] w p

  obtain-Ends :
      (c : CloudClient W) (choice : ReuseChoice) (fs : GoString) (w : W)
      → CloudRules P (Computed d req) c
      → file_system_parameter req.parameters ≡ ok fs
      → P none w
      → Ends HasLock (P none) (obtain_access_point d c req choice fs w)
  unfolding obtain_access_point
  obtain-Ends c choice fs w k f p = elim (Bool-cases choice.reuse) [
    | inl e ↦
        rw e (reused-Ends c choice.client_token fs _ k f (k.finds none choice.client_token fs w p))
    | inr e ↦ rw e (new_access_point-Ends c choice.client_token fs w k f p)
  ]

  target_context_state :
      (r : Result CloudError MountTarget × W) → (Create.target_context d r).1 ≡ r.1
  target_context_state (err e, w) = refl
  target_context_state (ok t, w) = refl

  volume_context_state :
      (access : CloudAccess W) (id fs az : GoString) (w : W)
      → CloudRules P (Computed d req) access.local_cloud
      → P (some id) w
      → P (some id) (volume_context_for d access fs az w).1
  unfolding volume_context_for
  volume_context_state access id fs az w k p = elim (Bool-cases (is_empty access.role_arn)) [
    | inl e ↦ rw e p
    | inr e ↦ elim (Bool-cases access.cross_account_dns_enabled) [
      | inl f ↦ rw e (rw f p)
      | inr f ↦ rw e (
          rw f (
            rw (target_context_state (access.local_cloud.describe_mount_targets fs az w))
              (k.describes_targets (some id) fs az w p)))
    ]
  ]

  answered_state :
      (fs id : GoString) (r : Map GoString × W)
      → P (some id) r.1
      → Ends (λ _. P none) (P none) (deferred (Create.answered d req fs id r) (d.unlock_mutex id))
  unfolding Ends
  answered_state fs id (context, w) p = h.unlocks id w p

  answer_volume-Ends :
      (access : CloudAccess W) (fs : GoString) (ap : Obtained) (w : W)
      → CloudRules P (Computed d req) access.local_cloud
      → HasLock ap w
      → Ends (λ _. P none) (P none) (answer_volume d access req fs ap w)
  unfolding answer_volume
  answer_volume-Ends access fs ap w k p =
      answered_state fs ap.ap_id _ (volume_context_state access ap.ap_id fs ap.az w k p)

  pub create_access_point_volume-Ends :
      (choice : ReuseChoice) (w : W)
      → P none w
      → Ends (λ _. P none) (P none) (create_access_point_volume d req choice w)
  unfolding create_access_point_volume
  create_access_point_volume-Ends choice w p =
      continue-Ends (λ fs v. (file_system_parameter req.parameters ≡ ok fs) × P none v)
        (λ _. P none) (P none) _ _ (pure_step-Ends (P none) _ w p)
        λ fs v q.
          continue-Ends (Ready P (Computed d req) d h) (λ _. P none) (P none) _ _
            (get_cloud-Ready P (Computed d req) d h req.secrets v q.1)
            λ access u r.
              continue-Ends HasLock (λ _. P none) (P none) _ _
                (obtain-Ends access.local_cloud choice fs u r.0 q.0 r.1)
                λ ap t s. answer_volume-Ends access fs ap t r.0 s
