-- ===== src/EfsNs/Tracker/Tracked/Addition.antt =====
-- `AddPVC` of pkg/driver/efs-ns/tracker.go, and what is tracked after it.
use aws_efs_csi_driver.Prelude.{
  ℕ, ◌≡◌, ◌≢◌, refl, ◌∙◌, sym, ap, subst, Bool, true, false, Option, none, some, GoString, str_eq,
  is_empty, Map, insert, ok, err, >>=-eq-ok, reject-ok, ok-injective, Result-cases, inl, inr,
  if◌then◌else◌,
}
use aws_efs_csi_driver.EfsNs.Errors.{GoError}
use aws_efs_csi_driver.EfsNs.VolumeId.{VolumeId, parse_efsns_volume_id}
use aws_efs_csi_driver.EfsNs.FileSystem.{PvcMappingEntry}
use aws_efs_csi_driver.EfsNs.Tracker.{
  ConfigMap, Cluster, Codec, config_map_name, parse_mappings, find_config_map, read_mappings,
  write_mappings, checked_addition, plan_addition, add_pvc, or_new, entry, store, in_answer, add,
}
use aws_efs_csi_driver.EfsNs.Tracker.Tracked.{
  StoresConfigMaps, SameEntries, IsKept, mappings_of, tracked, find-stored, find_name,
  in_operation-ok, write-mappings_of, mappings_of_if,
}

module _ {W : Type 0} (cluster : Cluster W) (codec : Codec) (cluster_id : GoString)
    (laws : StoresConfigMaps cluster) where
  store-stored :
      (new : Bool) (c : ConfigMap) (n : GoString) (w : W)
      → (store cluster codec cluster_id (new, c) w).0 ≡ none
      → laws.stored n (store cluster codec cluster_id (new, c) w).1
        ≡ (if str_eq c.name n then some c else laws.stored n w)
  store-stored true c n w h = laws.create_ok c n w h
  store-stored false c n w h = laws.update_ok c n w h

  in_answer-none :
      (namespace : GoString) (r : Option GoError) → in_answer add namespace r ≡ none → r ≡ none
  in_answer-none namespace none h = refl
  in_answer-none namespace (some e) h = cc

  -- The ConfigMap that an addition writes, and what it is made from.
  plan-stored :
      (namespace : GoString) (w : W) (found : Option ConfigMap) {m : Map PvcMappingEntry}
      → laws.stored (config_map_name cluster_id namespace) w ≡ found
      → read_mappings cluster codec cluster_id add namespace
          (or_new cluster codec cluster_id namespace found).1
        ≡ ok m
      → tracked cluster codec cluster_id laws namespace w ≡ ok m
  unfolding read_mappings parse_mappings
  plan-stored namespace w none e h =
      rw e (in_operation-ok cluster codec cluster_id laws add namespace _ h)
  plan-stored namespace w (some c) e h =
      rw e (in_operation-ok cluster codec cluster_id laws add namespace _ h)

  checked-parsed :
      (namespace pvc volume_id : GoString) (u : VolumeId)
      → checked_addition namespace pvc volume_id ≡ ok u
      → parse_efsns_volume_id volume_id ≡ ok u
  unfolding checked_addition
  checked-parsed namespace pvc volume_id u h =
      let (_, h1) = reject-ok (is_empty namespace) _ _ h in
      let (_, h2) = reject-ok (is_empty pvc) _ _ h1 in
      let (_, h3) = reject-ok (is_empty volume_id) _ _ h2 in
      in_operation-ok cluster codec cluster_id laws add namespace (parse_efsns_volume_id volume_id)
        h3

  or_new_name :
      (namespace : GoString) (w : W) (found : Option ConfigMap)
      → find_config_map cluster codec cluster_id add namespace w ≡ ok found
      → (or_new cluster codec cluster_id namespace found).1.name
        ≡ config_map_name cluster_id namespace
  or_new_name namespace w none h = refl
  or_new_name namespace w (some c) h = find_name cluster codec cluster_id laws add namespace w h

  abbrev pub added :
      GoString → GoString → GoString → ℕ → VolumeId → Map PvcMappingEntry → Map PvcMappingEntry
  added namespace pvc volume_id now v m =
      insert pvc (entry cluster codec cluster_id namespace pvc volume_id v now) m

  written_plan :
      (namespace pvc volume_id : GoString) (now : ℕ) (v u : VolumeId) (found : Option ConfigMap)
      (m m' : Map PvcMappingEntry) (c : ConfigMap) (plan : Bool × ConfigMap)
      → u ≡ v
      → m' ≡ m
      → IsKept codec (added namespace pvc volume_id now v m)
      → (or_new cluster codec cluster_id namespace found).1.name
        ≡ config_map_name cluster_id namespace
      → write_mappings cluster codec cluster_id add namespace
          (or_new cluster codec cluster_id namespace found).1
          (added namespace pvc volume_id now u m')
        ≡ ok c
      → ((or_new cluster codec cluster_id namespace found).0, c) ≡ plan
      → (n : Map PvcMappingEntry) × (mappings_of cluster codec cluster_id laws (some plan.1) ≡ ok n)
        × SameEntries n (added namespace pvc volume_id now v m)
        × (plan.1.name ≡ config_map_name cluster_id namespace)
  written_plan namespace pvc volume_id now v u found m m' c plan same_id same_map k named h e =
      let h' = rw (same_id, same_map) at h in
      let (n, read, same, kept) =
        write-mappings_of cluster codec cluster_id laws add namespace
          (or_new cluster codec cluster_id namespace found).1 c
          (added namespace pvc volume_id now v m) k h' in
      let e1 = ap (λ (x : Bool × ConfigMap). x.1) e in
      (
        n,
        subst (λ x. mappings_of cluster codec cluster_id laws (some x) ≡ ok n) e1 read,
        same,
        subst (λ (x : ConfigMap). x.name ≡ config_map_name cluster_id namespace) e1 (kept ∙ named),
      )

  -- What an addition that gets as far as its write is about to write.
  plan-mappings_of :
      (namespace pvc volume_id : GoString) (now : ℕ) (w : W) (m : Map PvcMappingEntry)
      (v : VolumeId) (plan : Bool × ConfigMap)
      → tracked cluster codec cluster_id laws namespace w ≡ ok m
      → parse_efsns_volume_id volume_id ≡ ok v
      → IsKept codec (added namespace pvc volume_id now v m)
      → plan_addition cluster codec cluster_id namespace pvc volume_id now w ≡ ok plan
      → (n : Map PvcMappingEntry) × (mappings_of cluster codec cluster_id laws (some plan.1) ≡ ok n)
        × SameEntries n (added namespace pvc volume_id now v m)
        × (plan.1.name ≡ config_map_name cluster_id namespace)
  unfolding plan_addition checked_addition
  plan-mappings_of namespace pvc volume_id now w m v plan t p k h =
      let (u, checked, h1) = >>=-eq-ok (checked_addition namespace pvc volume_id) _ h in
      let (found, there, h2) =
        >>=-eq-ok (find_config_map cluster codec cluster_id add namespace w) _ h1 in
      let (m', read, h3) =
        >>=-eq-ok
          (read_mappings cluster codec cluster_id add namespace
            (or_new cluster codec cluster_id namespace found).1)
          _ h2 in
      let (c, written, h4) =
        >>=-eq-ok (write_mappings cluster codec cluster_id add namespace _ _) _ h3 in
      let same_map = ok-injective (
        sym (
          plan-stored namespace w found
            (find-stored cluster codec cluster_id laws add namespace w there) read)
        ∙ t) in
      let same_id = ok-injective (sym (checked-parsed namespace pvc volume_id u checked) ∙ p) in
      written_plan namespace pvc volume_id now v u found m m' c plan same_id same_map k
        (or_new_name namespace w found there) written (ok-injective h4)

  planned :
      (namespace pvc volume_id : GoString) (now : ℕ) (w : W) (plan : Bool × ConfigMap)
      → plan_addition cluster codec cluster_id namespace pvc volume_id now w ≡ ok plan
      → add_pvc cluster codec cluster_id namespace pvc volume_id now w ≡ (
        in_answer add namespace (store cluster codec cluster_id plan w).0,
        (store cluster codec cluster_id plan w).1,
      )
  unfolding add_pvc
  planned namespace pvc volume_id now w plan h = rw (h, add_pvc) refl

  planned_failure :
      (namespace pvc volume_id : GoString) (now : ℕ) (w : W) (e : GoError)
      → plan_addition cluster codec cluster_id namespace pvc volume_id now w ≡ err e
      → (add_pvc cluster codec cluster_id namespace pvc volume_id now w).0 ≢ none
  unfolding add_pvc
  planned_failure namespace pvc volume_id now w e bad h = cc

  stored_plan :
      (other : GoString) (w : W) (new : Bool) (c : ConfigMap) (n : Map PvcMappingEntry)
      (name : GoString)
      → mappings_of cluster codec cluster_id laws (some c) ≡ ok n
      → c.name ≡ name
      → (store cluster codec cluster_id (new, c) w).0 ≡ none
      → tracked cluster codec cluster_id laws other (store cluster codec cluster_id (new, c) w).1
        ≡ (if str_eq name (config_map_name cluster_id other)
            then ok n
            else tracked cluster codec cluster_id laws other w)
  stored_plan other w new c n name read named done =
      ap (mappings_of cluster codec cluster_id laws)
        (store-stored new c (config_map_name cluster_id other) w done)
      ∙ subst
          (λ s.
            mappings_of cluster codec cluster_id laws (
              if str_eq c.name (config_map_name cluster_id other)
              then some c
              else laws.stored (config_map_name cluster_id other) w)
            ≡ (if str_eq s (config_map_name cluster_id other)
                then ok n
                else tracked cluster codec cluster_id laws other w))
          named
          (mappings_of_if cluster codec cluster_id laws
            (str_eq c.name (config_map_name cluster_id other)) c _ n read)

  -- After an addition that succeeds, the namespace tracks the claim with its new entry, and every
  -- other claim as before; a namespace with another ConfigMap tracks what it did. This is for a
  -- namespace whose mappings can be read, a volume ID that parses, and new mappings that the codec
  -- can write and read back with the same entries.
  pub tracked-add_pvc :
      (namespace pvc volume_id : GoString) (now : ℕ) (w : W) (m : Map PvcMappingEntry)
      (v : VolumeId) (other : GoString)
      → tracked cluster codec cluster_id laws namespace w ≡ ok m
      → parse_efsns_volume_id volume_id ≡ ok v
      → IsKept codec (added namespace pvc volume_id now v m)
      → (add_pvc cluster codec cluster_id namespace pvc volume_id now w).0 ≡ none
      → (n : Map PvcMappingEntry) × SameEntries n (added namespace pvc volume_id now v m)
        × (tracked cluster codec cluster_id laws other
              (add_pvc cluster codec cluster_id namespace pvc volume_id now w).1
            ≡ (if str_eq (config_map_name cluster_id namespace) (config_map_name cluster_id other)
                then ok n
                else tracked cluster codec cluster_id laws other w))
  unfolding add_pvc
  tracked-add_pvc namespace pvc volume_id now w m v other t p k h =
      elim (Result-cases (plan_addition cluster codec cluster_id namespace pvc volume_id now w)) [
        | inl (e, bad) ↦ absurd (planned_failure namespace pvc volume_id now w e bad h)
        | inr ((new, c), good) ↦
            let (n, read, same, named) =
              plan-mappings_of namespace pvc volume_id now w m v (new, c) t p k good in
            let run = planned namespace pvc volume_id now w (new, c) good in
            let done =
              in_answer-none namespace _ (sym (ap (λ (x : Option GoError × W). x.0) run) ∙ h) in
            (
              n,
              same,
              ap (λ (x : Option GoError × W). tracked cluster codec cluster_id laws other x.1) run
                  ∙ stored_plan other w new c n (config_map_name cluster_id namespace) read named
                      done,
            )
      ]
