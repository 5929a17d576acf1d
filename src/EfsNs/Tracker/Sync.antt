-- ===== src/EfsNs/Tracker/Sync.antt =====
-- pkg/driver/efs-ns/tracker.go: `SyncWithCluster`, which forgets the claims that are no more. It
-- holds the tracker's mutex; the mappings are visited in the order of their entries.
pub mod Survivors
use aws_efs_csi_driver.Prelude.{
  ℕ, ◌≡◌, refl, sym, ◌∙◌, ap, Bool, true, false, not, ◌&&◌, ◌||◌, List, [], ◌∷◌, Option, none, some,
  GoString, codes, str_eq, str_eq_iff, is_empty, contains, Map, lookup, insert, Unique, Result, ok,
  err, Result-cases, inl, inr, if◌then◌else◌, arith,
}
use aws_efs_csi_driver.EfsNs.Errors.{
  GoError, efsns_caused, wrapped, tracker_operation_failed, is_not_found,
}
use aws_efs_csi_driver.EfsNs.FileSystem.{PvcMappingEntry}
use aws_efs_csi_driver.EfsNs.Tracker.{
  ConfigMap, Claim, Cluster, Codec, mappings_key, target_namespace_label, or_empty, parse_mappings,
  serialize_mappings,
}

abbrev is_efsns_mode : Option GoString → Bool
is_efsns_mode none = false
is_efsns_mode (some mode) = str_eq mode (codes "efs-ns")

abbrev pub has_efsns_mode : Result GoError (Map GoString) → Bool
has_efsns_mode (err e) = false
has_efsns_mode (ok parameters) = is_efsns_mode (lookup (codes "provisioningMode") parameters)

-- The mappings of the claims that there are.
abbrev pub still_there : List GoString → Map PvcMappingEntry → Map PvcMappingEntry
still_there names [] = []
still_there names ((k, e) ∷ m) =
    let rest = still_there names m in if contains names k then (k, e) ∷ rest else rest

-- Whether a claim has gone.
abbrev pub has_gone : List GoString → Map PvcMappingEntry → Bool
has_gone names [] = false
has_gone names ((k, _) ∷ m) = not (contains names k) || has_gone names m

abbrev wrapped_error : Option GoError → Option GoError
wrapped_error none = none
wrapped_error (some e) = some (wrapped e)

abbrev unless_not_found : Option GoError → Option GoError
unless_not_found none = none
unless_not_found (some e) = if is_not_found e then none else some (wrapped e)

-- The errors so far: the first one.
abbrev first_error : Option GoError → Option GoError → Option GoError
first_error none e = e
first_error (some e) _ = some e

abbrev sync_error : Option GoError → Option GoError
sync_error none = none
sync_error (some e) = some (efsns_caused tracker_operation_failed (codes "SyncWithCluster") [] e)

module _ {W : Type 0} (cluster : Cluster W) (codec : Codec) where
  abbrev pub is_actual : Option GoString → W → Bool
  is_actual none w = false
  is_actual (some name) w = has_efsns_mode (cluster.get_storage_class name w)

  -- The claims of the namespace that are provisioned in the mode efs-ns.
  abbrev pub actual_names : List Claim → W → List GoString
  actual_names [] w = []
  actual_names (c ∷ cs) w =
      let rest = actual_names cs w in
      if is_actual c.storage_class_name w then c.claim_name ∷ rest else rest

  -- The ConfigMap gets the mappings that remain, or goes with the last of them.
  unfoldable pub store_rest : ConfigMap → Map PvcMappingEntry → W → Option GoError × W
  store_rest c m w =
      if is_empty m
      then (let r = cluster.delete_config_map c.name w in (unless_not_found r.0, r.1))
      else elim (serialize_mappings codec m) [
        | err e ↦ (some (wrapped e), w)
        | ok text ↦
            let d = record c { contents = insert mappings_key text c.contents } in
            let r = cluster.update_config_map d w in (wrapped_error r.0, r.1)
      ]

  -- `syncNamespace`
  unfoldable pub sync_namespace : GoString → ConfigMap → W → Option GoError × W
  sync_namespace namespace c w =
      elim (parse_mappings codec (or_empty (lookup mappings_key c.contents))) [
        | err e ↦ (some (wrapped e), w)
        | ok m ↦ elim (cluster.list_claims namespace w) [
          | err e ↦ (some (wrapped e), w)
          | ok claims ↦
              if has_gone (actual_names claims w) m
              then store_rest c (still_there (actual_names claims w) m) w
              else (none, w)
        ]
      ]

  -- The loop over the ConfigMaps, with the first error so far.
  unfoldable pub sync_all : List ConfigMap → Option GoError → W → Option GoError × W
  sync_all [] e w = (e, w)
  sync_all (c ∷ cs) e w =
      let namespace = or_empty (lookup target_namespace_label c.labels) in
      let r = if is_empty namespace then (none, w) else sync_namespace namespace c w in
      sync_all cs (first_error e r.0) r.1

  -- `SyncWithCluster`
  unfoldable pub sync_with_cluster : W → Option GoError × W
  sync_with_cluster w = elim (cluster.list_config_maps w) [
    | err e ↦ (sync_error (some e), w)
    | ok cs ↦ let r = sync_all cs none w in (sync_error r.0, r.1)
  ]
