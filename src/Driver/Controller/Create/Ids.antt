-- ===== src/Driver/Controller/Create/Ids.antt =====
-- The IDs of the volumes that `CreateVolume` makes of access points.
use aws_efs_csi_driver.Prelude.{
  Bool, true, ◌≡◌, refl, inl, inr, [], ◌++◌, Option, none, some, GoString, codes, is_empty, Map,
  Lacks, Result, ok, err, Bool-cases, ok-injective, sym, ◌∙◌, arith,
}
use aws_efs_csi_driver.Cloud.Types.{
  AccessPoint, AccessPointOptions, CloudError, not_found, already_exists, access_denied,
  other_error, CloudClient,
}
use aws_efs_csi_driver.Driver.Action.{
  Ends, continue-Ends, continue-any, deferred, pure_step, pure_step-Ends, Ends-weaken,
}
use aws_efs_csi_driver.Driver.VolumeId.{is_valid_access_point_id}
use aws_efs_csi_driver.Driver.Controller.{
  Driver, CreateRequest, Volume, CloudAccess, get_cloud, chosen_cloud, with_role, cross_account_dns,
}
use aws_efs_csi_driver.Driver.Controller.Parameters.{
  ReuseChoice, Owner, file_system_parameter, parse_owner,
}
use aws_efs_csi_driver.Driver.Controller.Create
use aws_efs_csi_driver.Driver.Controller.Create.{
  Obtained, creation_options, take_lock, new_access_point, obtain_access_point, answer_volume,
  volume_context_for, create_access_point_volume,
}

-- The IDs that AWS gives to access points.
pub record IsAccessPointId (id : GoString) : Type 0 where
  pub has_prefix : is_valid_access_point_id id ≡ true
  pub plain : Lacks b':' id

pub record CloudIds {W : Type 0} (c : CloudClient W) : Type 0 where
  pub created_id :
      (token : GoString) (o : AccessPointOptions) (ap : AccessPoint) (w v : W)
      → c.create_access_point token o w ≡ (ok ap, v)
      → IsAccessPointId ap.access_point_id
  pub found_id :
      (token fs : GoString) (ap : AccessPoint) (w v : W)
      → c.find_access_point_by_client_token token fs w ≡ (ok (some ap), v)
      → IsAccessPointId ap.access_point_id

pub record DriverIds {W : Type 0} (d : Driver W) : Type 0 where
  pub cloud_ids : CloudIds d.cloud
  pub role_ids :
      (role : GoString) (c : CloudClient W) (w v : W)
      → d.new_cloud_with_role role w ≡ (some c, v)
      → CloudIds c

-- A volume of an access point of the file system.
abbrev pub VolumeOf : GoString → Volume → Type 0
VolumeOf fs v = (id : GoString) × (v.volume_id ≡ fs ++ (codes "::" ++ id)) × IsAccessPointId id

module _ {W : Type 0} (d : Driver W) where
  abbrev Any : W → Type 0
  Any w = Unit {0}

  abbrev OfCloud : CloudAccess W → W → Type 0
  OfCloud access w = CloudIds access.local_cloud

  with_role-OfCloud :
      (role : GoString) (dns : Bool) (w : W) (r : Option (CloudClient W) × W)
      → DriverIds d
      → d.new_cloud_with_role role w ≡ r
      → Ends OfCloud Any (with_role d role dns r)
  unfolding Ends
  with_role-OfCloud role dns w (none, v) h e = tt
  with_role-OfCloud role dns w (some c, v) h e = h.role_ids role c w v e

  chosen_cloud-OfCloud :
      (role : GoString) (dns : Bool) (w : W)
      → DriverIds d
      → Ends OfCloud Any (chosen_cloud d role dns w)
  unfolding Ends
  chosen_cloud-OfCloud role dns w h = elim (Bool-cases (is_empty role)) [
    | inl e ↦ rw e h.cloud_ids
    | inr e ↦ rw e (with_role-OfCloud role dns w _ h refl)
  ]

  get_cloud-OfCloud :
      (secrets : Map GoString) (w : W) → DriverIds d → Ends OfCloud Any (get_cloud d secrets w)
  unfolding get_cloud
  get_cloud-OfCloud secrets w h =
      continue-any OfCloud (pure_step (cross_account_dns secrets) w) _
        (λ dns v. chosen_cloud-OfCloud _ dns v h)

  abbrev HasId : AccessPoint → W → Type 0
  HasId ap w = IsAccessPointId ap.access_point_id

  abbrev ObtainedId : Obtained → W → Type 0
  ObtainedId ap w = IsAccessPointId ap.ap_id

  module _ (req : CreateRequest) (c : CloudClient W) (token fs : GoString) (h : CloudIds c) where
    existing-HasId :
        (base : GoString) (o : Owner) (w : W) (r : Result CloudError (Option AccessPoint) × W)
        → c.find_access_point_by_client_token token fs w ≡ r
        → Ends HasId Any (Create.existing d base o r)
    unfolding Ends
    existing-HasId base o w (err e, v) f = tt
    existing-HasId base o w (ok none, v) f = tt
    existing-HasId base o w (ok (some ap), v) f = ground (arith, h.found_id token fs ap w v f)

    created-HasId :
        (o : Owner) (options : AccessPointOptions) (w : W) (r : Result CloudError AccessPoint × W)
        → c.create_access_point token options w ≡ r
        → Ends HasId Any (Create.created d c req token fs o r)
    unfolding Ends
    created-HasId o options w (ok ap, v) e = h.created_id token options ap w v e
    created-HasId o options w (err access_denied, v) e = tt
    created-HasId o options w (err already_exists, v) e = existing-HasId _ o v _ refl
    created-HasId o options w (err not_found, v) e = tt
    created-HasId o options w (err other_error, v) e = tt

    lock_obtained-Id :
        (id az : GoString) (w : W)
        → IsAccessPointId id
        → Ends ObtainedId Any (Create.lock_obtained d id az w)
    unfolding Ends
    lock_obtained-Id id az w k = continue-any ObtainedId _ _ (λ _ _. k)

    new_access_point-Id : (w : W) → Ends ObtainedId Any (new_access_point d c req token fs w)
    unfolding new_access_point
    new_access_point-Id w =
        continue-any ObtainedId (pure_step (parse_owner req.parameters) w) _ λ o v.
          continue-any ObtainedId _ _ λ options u.
            continue-Ends HasId ObtainedId Any _ _ (created-HasId o options u _ refl)
              (λ ap t k. lock_obtained-Id ap.access_point_id _ t k)

    reused-Id :
        (w : W) (r : Result CloudError (Option AccessPoint) × W)
        → c.find_access_point_by_client_token token fs w ≡ r
        → Ends ObtainedId Any (Create.reused d c req token fs r)
    unfolding Ends
    reused-Id w (err e, v) f = tt
    reused-Id w (ok none, v) f = new_access_point-Id v
    reused-Id w (ok (some ap), v) f =
        lock_obtained-Id ap.access_point_id [] v (h.found_id token fs ap w v f)

  obtain-Id :
      (req : CreateRequest) (c : CloudClient W) (choice : ReuseChoice) (fs : GoString) (w : W)
      → CloudIds c
      → Ends ObtainedId Any (obtain_access_point d c req choice fs w)
  unfolding obtain_access_point
  obtain-Id req c choice fs w h = elim (Bool-cases choice.reuse) [
    | inl e ↦ rw e (reused-Id req c choice.client_token fs h w _ refl)
    | inr e ↦ rw e (new_access_point-Id req c choice.client_token fs h w)
  ]

  answered-VolumeOf :
      (req : CreateRequest) (fs id : GoString) (r : Map GoString × W)
      → IsAccessPointId id
      → Ends
          (λ v _. VolumeOf fs v)
          Any
          (deferred (Create.answered d req fs id r) (d.unlock_mutex id))
  unfolding Ends
  answered-VolumeOf req fs id (context, w) h = (id, refl, h)

  pub create_access_point_volume-VolumeOf :
      (req : CreateRequest) (choice : ReuseChoice) (fs : GoString) (w : W)
      → DriverIds d
      → file_system_parameter req.parameters ≡ ok fs
      → Ends (λ v _. VolumeOf fs v) Any (create_access_point_volume d req choice w)
  unfolding create_access_point_volume answer_volume
  create_access_point_volume-VolumeOf req choice fs w h e =
      continue-Ends (λ f _. f ≡ fs) (λ v _. VolumeOf fs v) Any _ _
        (Ends-weaken _ (λ f _. f ≡ fs) Any Any _
          (pure_step-Ends Any (file_system_parameter req.parameters) w tt)
          (λ f v q. ok-injective (sym q.0 ∙ e)) (λ _ _. tt))
        λ f v same.
          continue-Ends OfCloud (λ v _. VolumeOf fs v) Any _ _ (get_cloud-OfCloud req.secrets v h)
            λ access u ids.
              continue-Ends ObtainedId (λ v _. VolumeOf fs v) Any _ _
                (obtain-Id req access.local_cloud choice f u ids)
                λ ap t k.
                  rw same
                    (answered-VolumeOf req fs ap.ap_id (volume_context_for d access fs ap.az t) k)
