-- ===== src/Driver/Controller/Service/Volumes.antt =====
-- A volume of an access point, from `CreateVolume` to `DeleteVolume`.
use aws_efs_csi_driver.Prelude.{
  Bool, true, false, not, ◌≡◌, refl, inl, inr, [], ◌∷◌, ◌++◌, Option, none, some, GoString, codes,
  is_empty, is_some, Map, lookup, Lacks, Result, ok, reject-ok, >>=-eq-ok, Bool-cases, ok-injective,
  sym, ◌∙◌, ap, subst, arith,
}
use aws_efs_csi_driver.Cloud.Types.{CloudClient}
use aws_efs_csi_driver.Driver.Action.{
  Ends, answer_of-Ends, continue-Ends, continue-eq-ok, pure_step, refuse_if, refuse_if-Ends,
  Ends-any,
}
use aws_efs_csi_driver.Driver.Status.{DriverError}
use aws_efs_csi_driver.Driver.VolumeId.{
  ParsedVolume, parse_volume_id, is_valid_file_system_id, is_valid_access_point_id,
}
use aws_efs_csi_driver.Driver.VolumeId.Fields.{parse-access_point_volume, parse_volume_id-efsns}
use aws_efs_csi_driver.EfsNs.VolumeId.{is_efsns_volume_id}
use aws_efs_csi_driver.Driver.Controller.{
  Driver, CreateRequest, Volume, CloudAccess, get_cloud, chosen_cloud, with_role, cross_account_dns,
  invalid, parameter,
}
use aws_efs_csi_driver.Driver.Controller.Parameters.{
  CheckedRequest, access_point_mode, checked_request, provisioning_mode, reuse_choice,
  file_system_parameter,
}
use aws_efs_csi_driver.Driver.Capabilities.{is_valid_volume_capabilities, validate_fs_type}
use aws_efs_csi_driver.Driver.Controller.Create.Ids.{
  DriverIds, IsAccessPointId, VolumeOf, create_access_point_volume-VolumeOf,
}
use aws_efs_csi_driver.Driver.Controller.Delete.Gone.{GoneRules, delete_access_point_volume-Gone}
use aws_efs_csi_driver.Driver.Controller.Service
use aws_efs_csi_driver.Driver.Controller.Service.{create_volume, delete_volume}

-- The mode of a request that asks for an access point.
abbrev pub AsksAccessPoint : CreateRequest → Type 0
AsksAccessPoint req = lookup (codes "provisioningMode") req.parameters ≡ some (codes "efs-ap")

checked_request-mode :
    (sha256 : GoString → GoString) (has_manager : Bool) (req : CreateRequest) (r : CheckedRequest)
    → AsksAccessPoint req
    → checked_request sha256 has_manager req ≡ ok r
    → r.mode ≡ access_point_mode
unfolding checked_request provisioning_mode
checked_request-mode sha256 has_manager req r a e =
    let (choice, ec, s) = >>=-eq-ok (reuse_choice sha256 req) _ e in
    let (_, t) = reject-ok (is_empty req.name) invalid _ s in
    let (_, u) = reject-ok (is_empty req.capabilities) invalid _ t in
    let (_, v) = reject-ok (not (is_valid_volume_capabilities req.capabilities)) invalid _ u in
    let (_, x) = reject-ok (not (validate_fs_type req.capabilities)) invalid _ v in
    ap (λ (c : CheckedRequest). c.mode) (sym (ok-injective (rw a at x)))

by_mode-VolumeOf :
    {W : Type 0} (d : Driver W) (req : CreateRequest) (r : CheckedRequest) (fs : GoString) (w : W)
    (v : Volume) (u : W)
    → DriverIds d
    → file_system_parameter req.parameters ≡ ok fs
    → r.mode ≡ access_point_mode
    → Service.by_mode d req r r.mode w ≡ (ok v, u)
    → VolumeOf fs v
by_mode-VolumeOf d req r fs w v u h ef m e =
    answer_of-Ends (λ v _. VolumeOf fs v) (λ _. Unit {0}) _
      (create_access_point_volume-VolumeOf d req r.choice fs w h ef)
      (subst (λ mode. Service.by_mode d req r mode w ≡ (ok v, u)) m e)

create_volume-VolumeOf :
    {W : Type 0} (d : Driver W) (req : CreateRequest) (fs : GoString) (w : W) (v : Volume) (u : W)
    → DriverIds d
    → AsksAccessPoint req
    → file_system_parameter req.parameters ≡ ok fs
    → create_volume d req w ≡ (ok v, u)
    → VolumeOf fs v
unfolding create_volume
create_volume-VolumeOf d req fs w v u h a ef e =
    let (r, w1, er, s) =
      continue-eq-ok (pure_step (checked_request d.sha256_hex (is_some d.namespace_manager) req) w)
        _ e in
    let checked =
      checked_request-mode d.sha256_hex (is_some d.namespace_manager) req r a
        (ap (λ (x : Result DriverError CheckedRequest × _). x.0) er) in
    by_mode-VolumeOf d req r fs w1 v u h ef checked s

-- The volume that `CreateVolume` answers for a file system with a valid ID, where AWS gives valid
-- IDs to access points: its ID parses, on the node and in `DeleteVolume`, to that file system, no
-- path and an access point, which is the one that is named.
pub create_volume-parses :
    {W : Type 0} (d : Driver W) (req : CreateRequest) (fs : GoString) (w : W) (v : Volume) (u : W)
    → DriverIds d
    → AsksAccessPoint req
    → file_system_parameter req.parameters ≡ ok fs
    → is_valid_file_system_id fs ≡ true
    → Lacks b':' fs
    → create_volume d req w ≡ (ok v, u)
    → (id : GoString) × (parse_volume_id v.volume_id
        ≡ ok (record { fsid = fs; subpath = []; apid = id }))
      × IsAccessPointId id
create_volume-parses d req fs w v u h a ef valid plain e =
    let (id, same, good) = create_volume-VolumeOf d req fs w v u h a ef e in
    (
      id,
      ap parse_volume_id same
          ∙ parse-access_point_volume fs id valid good.has_prefix plain good.plain,
      good,
    )

-- The role that the secrets name; none is empty.
abbrev pub role_of : Map GoString → GoString
role_of secrets = parameter (codes "awsRoleArn") secrets

-- The rules for the clients of AWS that one role gives, or for the driver's own without a role:
-- what they answer is said of the account of that role alone.
pub record VolumeGone {W : Type 0} (d : Driver W) (role id : GoString) (Gone : W → Type 0)
    : Type 0 where
  pub of_driver : is_empty role ≡ true → GoneRules d d.cloud id Gone
  pub of_role :
      (c : CloudClient W) (w v : W)
      → is_empty role ≡ false
      → d.new_cloud_with_role role w ≡ (some c, v)
      → GoneRules d c id Gone

module _ {W : Type 0} (d : Driver W) (Gone : W → Type 0) (p : ParsedVolume) (secrets : Map GoString)
    (h : VolumeGone d (role_of secrets) p.apid Gone) where
  abbrev Any : W → Type 0
  Any w = Unit {0}

  abbrev Ruled : CloudAccess W → W → Type 0
  Ruled access w = GoneRules d access.local_cloud p.apid Gone

  with_role-Ruled :
      (dns : Bool) (w : W) (r : Option (CloudClient W) × W)
      → is_empty (role_of secrets) ≡ false
      → d.new_cloud_with_role (role_of secrets) w ≡ r
      → Ends Ruled Any (with_role d (role_of secrets) dns r)
  unfolding Ends
  with_role-Ruled dns w (none, v) n e = tt
  with_role-Ruled dns w (some c, v) n e = h.of_role c w v n e

  chosen_cloud-Ruled :
      (dns : Bool) (w : W) → Ends Ruled Any (chosen_cloud d (role_of secrets) dns w)
  unfolding Ends
  chosen_cloud-Ruled dns w = elim (Bool-cases (is_empty (role_of secrets))) [
    | inl e ↦ rw e (h.of_driver e)
    | inr e ↦ rw e (with_role-Ruled dns w _ e refl)
  ]

  get_cloud-Ruled : (w : W) → Ends Ruled Any (get_cloud d secrets w)
  unfolding get_cloud
  get_cloud-Ruled w =
      continue-Ends (λ _. Any) Ruled Any _ _ (Ends-any (pure_step (cross_account_dns secrets) w))
        (λ dns v _. chosen_cloud-Ruled dns v)

  plain_id : (id : GoString) → parse_volume_id id ≡ ok p → is_efsns_volume_id id ≡ false
  plain_id id e = elim (Bool-cases (is_efsns_volume_id id)) [
    | inr f ↦ f
    | inl f ↦ absurd (ground (arith, parse_volume_id-efsns id f, e))
  ]

  delete_by_kind-Gone :
      (id : GoString) (access : CloudAccess W) (w : W)
      → parse_volume_id id ≡ ok p
      → is_empty p.apid ≡ false
      → Ruled access w
      → Ends (λ _. Gone) Any (Service.delete_by_kind d id access w)
  delete_by_kind-Gone id access w e there k =
      rw (plain_id id e) (rw e (rw there (delete_access_point_volume-Gone d access p Gone k w)))

  -- When `DeleteVolume` reports success for the ID of a volume that names an access point, the
  -- access point is gone: AWS has deleted it, or has said that it is not there. `Gone` is any
  -- property of the state that these answers of AWS, to the client of the role that the secrets
  -- name, give and that the end of the function keeps.
  pub delete_volume-Gone :
      (id : GoString) (w u : W)
      → parse_volume_id id ≡ ok p
      → is_empty p.apid ≡ false
      → delete_volume d id secrets w ≡ (ok tt, u)
      → Gone u
  unfolding delete_volume
  delete_volume-Gone id w u e there f =
      answer_of-Ends (λ _. Gone) Any _
        (continue-Ends Ruled (λ _. Gone) Any _ _ (get_cloud-Ruled w)
          λ access v k.
            continue-Ends (λ _. Ruled access) (λ _. Gone) Any _ _ (refused access v k)
              λ _ x m. delete_by_kind-Gone id access x e there m)
        f
    where
      refused :
          (access : CloudAccess W) (v : W)
          → Ruled access v
          → Ends (λ _. Ruled access) Any (refuse_if (is_empty id) invalid v)
      refused access v k = refuse_if-Ends (Ruled access) Any (is_empty id) invalid v k tt

valid_id_there : (id : GoString) → is_valid_access_point_id id ≡ true → is_empty id ≡ false
valid_id_there [] h = cc
valid_id_there (c ∷ s) h = refl

-- From creation to deletion, where AWS gives valid IDs to access points: for a volume that
-- `CreateVolume` answered for a file system with a valid ID, a `DeleteVolume` that reports success,
-- at any time and with secrets that name the role of the request (or none, as there), leaves the
-- access point that the volume names gone from the account of this role: AWS has deleted it for the
-- client of this role, or has answered this client that it is not there, and the calls after that
-- do not bring it back.
pub create_volume-delete_volume :
    {W : Type 0} (d : Driver W) (Gone : GoString → W → Type 0) (req : CreateRequest) (fs : GoString)
    (secrets : Map GoString) (w w1 w2 u : W) (v : Volume)
    → DriverIds d
    → ((id : GoString) → VolumeGone d (role_of req.secrets) id (Gone id))
    → role_of secrets ≡ role_of req.secrets
    → AsksAccessPoint req
    → file_system_parameter req.parameters ≡ ok fs
    → is_valid_file_system_id fs ≡ true
    → Lacks b':' fs
    → create_volume d req w ≡ (ok v, w1)
    → delete_volume d v.volume_id secrets w2 ≡ (ok tt, u)
    → (id : GoString) × (v.volume_id ≡ fs ++ (codes "::" ++ id)) × Gone id u
create_volume-delete_volume d Gone req fs secrets w w1 w2 u v h g same_role a ef valid plain ec ed =
    let (id, same, good) = create_volume-VolumeOf d req fs w v w1 h a ef ec in
    let parsed =
      ap parse_volume_id same
      ∙ parse-access_point_volume fs id valid good.has_prefix plain good.plain in
    (
      id,
      same,
      delete_volume-Gone d (Gone id) (record { fsid = fs; subpath = []; apid = id }) secrets
          (subst (λ role. VolumeGone d role id (Gone id)) (sym same_role) (g id)) v.volume_id w2 u
          parsed (valid_id_there id good.has_prefix) ed,
    )
