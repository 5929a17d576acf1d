-- ===== src/Driver/Controller/Discipline/Service.antt =====
-- The calls of the RPCs `CreateVolume` and `DeleteVolume`, for volumes of both kinds.
use aws_efs_csi_driver.Prelude.{
  ◌≡◌, refl, inl, inr, Option, none, some, GoString, codes, is_empty, Map, Result, ok, err,
  Bool-cases, ◌++◌,
}
use aws_efs_csi_driver.Cloud.Types.{AccessPointOptions}
use aws_efs_csi_driver.Driver.Action.{
  Action, Ends, continue, continue-Ends, pure_step, refuse_if-Ends,
}
use aws_efs_csi_driver.Driver.Status.{DriverError}
use aws_efs_csi_driver.Driver.VolumeId.{ParsedVolume, parse_volume_id}
use aws_efs_csi_driver.EfsNs.Errors.{GoError}
use aws_efs_csi_driver.EfsNs.VolumeId.{VolumeId, parse_efsns_volume_id, is_efsns_volume_id}
use aws_efs_csi_driver.EfsNs.FileSystem.{FileSystemInfo}
use aws_efs_csi_driver.Driver.Controller.{
  get_cloud, invalid, NamespaceManager, ClaimTracker, Driver, CreateRequest, CloudAccess,
}
use aws_efs_csi_driver.Driver.Controller.Parameters.{
  CheckedRequest, Mode, access_point_mode, namespace_mode,
}
use aws_efs_csi_driver.Driver.Controller.Namespaces
use aws_efs_csi_driver.Driver.Controller.Namespaces.{
  NamespaceRequest, checked_namespace_request, create_efsns_volume, delete_efsns_volume,
}
use aws_efs_csi_driver.Driver.Controller.Service
use aws_efs_csi_driver.Driver.Controller.Service.{create_volume, delete_volume}
use aws_efs_csi_driver.Driver.Controller.Discipline.{
  DriverRules, DescribesRoots, DocumentsRoots, Ready, Ends-of_state, Ends-both, state_of-Ends,
  get_cloud-Ready, get_cloud-Rooted,
}
use aws_efs_csi_driver.Driver.Controller.Discipline.Creation.{
  Computed, create_access_point_volume-Ends,
}
use aws_efs_csi_driver.Driver.Controller.Discipline.Deletion.{delete_access_point_volume-Ends}

module _ {W : Type 0} (P : Option GoString → W → Type 0) (MayCreate : AccessPointOptions → Type 0)
    (d : Driver W) (h : DriverRules P MayCreate d) where
  answer_state : (r : Result GoError FileSystemInfo × W) → (Namespaces.answer_of d r).1 ≡ r.1
  answer_state (ok i, w) = refl
  answer_state (err e, w) = refl

  ask_manager-Ends :
      (m : Option (NamespaceManager W)) (r : NamespaceRequest) (w : W)
      → d.namespace_manager ≡ m
      → P none w
      → Ends (λ _. P none) (P none) (Namespaces.ask_manager d m r w)
  ask_manager-Ends none r w e p = Ends-of_state (P none) _ p
  ask_manager-Ends (some m) r w e p = Ends-of_state (P none) _ (
      rw (answer_state (m.create_or_get_file_system r.wanted_namespace r.wanted_options w))
        (h.manager_creates m r.wanted_namespace r.wanted_options w e p))

  track-Free :
      (t : Option (ClaimTracker W)) (namespace name id : GoString) (w : W)
      → d.pvc_tracker ≡ t
      → P none w
      → P none (Namespaces.track d t namespace name id w)
  track-Free none namespace name id w e p = p
  track-Free (some t) namespace name id w e p = h.tracker_adds t namespace name id w e p

  pure_Ends :
      {A B : Type 0} (r : Result DriverError A) (next : A → Action W B) (w : W)
      → P none w
      → ((a : A) (w : W) → P none w → Ends (λ _. P none) (P none) (next a w))
      → Ends (λ _. P none) (P none) (continue (pure_step r w) next)
  pure_Ends r next w p k =
      continue-Ends (λ _. P none) (λ _. P none) (P none) _ next (Ends-of_state (P none) (r, w) p) k

  checked_namespace_request-Ends :
      (params : Map GoString) (w : W)
      → P none w
      → Ends (λ _. P none) (P none) (checked_namespace_request d params w)
  unfolding checked_namespace_request
  checked_namespace_request-Ends params w p = pure_Ends _ _ w p λ _ w p. pure_Ends _ _ w p λ _ w p.
      pure_Ends _ _ w p
        λ _ w p. pure_Ends _ _ w p λ _ w p. pure_Ends _ _ w p (λ _ w p. Ends-of_state (P none) _ p)

  create_efsns_volume-Ends :
      (req : CreateRequest) (w : W)
      → P none w
      → Ends (λ _. P none) (P none) (create_efsns_volume d req w)
  unfolding create_efsns_volume
  create_efsns_volume-Ends req w p =
      continue-Ends (λ _. P none) (λ _. P none) (P none) _ _
        (checked_namespace_request-Ends req.parameters w p)
        λ r v q.
          continue-Ends (Ready P MayCreate d h) (λ _. P none) (P none) _ _
            (get_cloud-Ready P MayCreate d h req.secrets v q)
            λ access u s.
              continue-Ends (λ _. P none) (λ _. P none) (P none) _ _
                (ask_manager-Ends _ r u refl s.1)
                λ i t x. Ends-of_state (P none) _ (track-Free _ _ _ _ t refl x)

  untracked_state : (r : Option GoError × W) → (Namespaces.untracked d r).1 ≡ r.1
  untracked_state (none, w) = refl
  untracked_state (some e, w) = refl

  untrack-Ends :
      (t : Option (ClaimTracker W)) (v : VolumeId) (w : W)
      → d.pvc_tracker ≡ t
      → P none w
      → Ends (λ _. P none) (P none) (Namespaces.untrack d t v w)
  untrack-Ends none v w e p = Ends-of_state (P none) _ p
  untrack-Ends (some t) v w e p = Ends-of_state (P none) _ (
      rw (untracked_state (t.remove_claim v.namespace (codes "pvc-" ++ v.file_system_id) w))
        (h.tracker_removes t v.namespace (codes "pvc-" ++ v.file_system_id) w e p))

  delete_parsed-Ends :
      (m : Option (NamespaceManager W)) (id : GoString) (v : VolumeId) (w : W)
      → d.namespace_manager ≡ m
      → P none w
      → Ends (λ _. P none) (P none) (Namespaces.delete_parsed d m id v w)
  delete_parsed-Ends none id v w e p = Ends-of_state (P none) _ p
  delete_parsed-Ends (some m) id v w e p =
      continue-Ends (λ _. P none) (λ _. P none) (P none) _ _ (untrack-Ends _ v w refl p)
        λ _ u q. Ends-of_state (P none) _ (h.manager_deletes m v.namespace id u e q)

  delete_efsns_volume-Ends :
      (id : GoString) (w : W) → P none w → Ends (λ _. P none) (P none) (delete_efsns_volume d id w)
  unfolding delete_efsns_volume
  delete_efsns_volume-Ends id w p = parsed_Ends (parse_efsns_volume_id id)
    where
      parsed_Ends :
          (r : Result GoError VolumeId)
          → Ends (λ _. P none) (P none) (Namespaces.delete_by_id d id r w)
      parsed_Ends (err e) = Ends-of_state (P none) _ p
      parsed_Ends (ok v) = delete_parsed-Ends _ id v w refl p

  delete_plain-Ends :
      (access : CloudAccess W) (r : Result DriverError ParsedVolume) (w : W)
      → DescribesRoots access.local_cloud
      → Ready P MayCreate d h access w
      → Ends (λ _. P none) (P none) (Service.delete_plain d access r w)
  delete_plain-Ends access (err e) w g k = Ends-of_state (P none) _ k.1
  delete_plain-Ends access (ok p) w g k = elim (Bool-cases (is_empty p.apid)) [
    | inl e ↦ rw e (Ends-of_state (P none) _ k.1)
    | inr e ↦ rw e (delete_access_point_volume-Ends P MayCreate d h access k.0 g p w k.1)
  ]

  delete_by_kind-Ends :
      (id : GoString) (access : CloudAccess W) (w : W)
      → DescribesRoots access.local_cloud
      → Ready P MayCreate d h access w
      → Ends (λ _. P none) (P none) (Service.delete_by_kind d id access w)
  delete_by_kind-Ends id access w g k = elim (Bool-cases (is_efsns_volume_id id)) [
    | inl e ↦ rw e (delete_efsns_volume-Ends id w k.1)
    | inr e ↦ rw e (delete_plain-Ends access (parse_volume_id id) w g k)
  ]

  -- `DeleteVolume` holds no lock when it returns, on any path, errors included. Whatever the rules
  -- keep holds of the state it leaves, so that an access point is only deleted with its lock held,
  -- and on the host only the temporary mount point of the access point whose lock is held is
  -- mounted, unmounted and removed, and data is only removed at paths that go on from it with a
  -- `/`, and without a part that starts with a dot. This takes the paths of root directories as AWS
  -- documents them, with a `/` first and no such parts.
  pub delete_volume-KeepsRules :
      (id : GoString) (secrets : Map GoString) (w : W)
      → DocumentsRoots d
      → P none w
      → P none (delete_volume d id secrets w).1
  unfolding delete_volume
  delete_volume-KeepsRules id secrets w g p = state_of-Ends (P none) _ (
      continue-Ends Served (λ _. P none) (P none) _ _
        (Ends-both (Ready P MayCreate d h) _ (P none) _ (get_cloud d secrets w)
          (get_cloud-Ready P MayCreate d h secrets w p) (get_cloud-Rooted d g secrets w))
        λ access v q.
          continue-Ends (λ _. Served access) (λ _. P none) (P none) _ _
            (refuse_if-Ends (Served access) (P none) (is_empty id) invalid v q q.0.1)
            λ _ u r. delete_by_kind-Ends id access u r.1 r.0)
    where
      Served : CloudAccess W → W → Type 0
      Served access w = Ready P MayCreate d h access w × DescribesRoots access.local_cloud

module _ {W : Type 0} (P : Option GoString → W → Type 0) (d : Driver W) (req : CreateRequest)
    (h : DriverRules P (Computed d req) d) where
  by_mode-Ends :
      (r : CheckedRequest) (mode : Mode) (w : W)
      → P none w
      → Ends (λ _. P none) (P none) (Service.by_mode d req r mode w)
  by_mode-Ends r access_point_mode w p = create_access_point_volume-Ends P d req h r.choice w p
  by_mode-Ends r namespace_mode w p = create_efsns_volume-Ends P (Computed d req) d h req w p

  -- `CreateVolume` holds no lock when it returns, on any path, errors included. Whatever the rules
  -- keep holds of the state it leaves, so that an access point is only made with options that
  -- `creation_options` computes for the file system and the owner of the request, and with no lock
  -- held.
  pub create_volume-KeepsRules : (w : W) → P none w → P none (create_volume d req w).1
  unfolding create_volume
  create_volume-KeepsRules w p =
      state_of-Ends (P none) _
        (pure_Ends P (Computed d req) d h _ _ w p (λ r v q. by_mode-Ends r _ v q))
