-- ===== src/EfsNs/Tracker/Tracked/Removal.antt =====
-- `RemovePVC` of pkg/driver/efs-ns/tracker.go, and what is tracked after it.
use aws_efs_csi_driver.Prelude.{
  ◌≡◌, ◌≢◌, ◌⊎◌, refl, ◌∙◌, sym, ap, subst, Bool, true, false, ◌||◌, [], ◌∷◌, Option, none, some,
  GoString, str_eq, eq_of_str_eq, is_empty, Map, remove, Result, ok, err, ok-injective,
  Result-cases, Bool-cases, inl, inr, if◌then◌else◌, arith,
}
use aws_efs_csi_driver.EfsNs.Errors.{GoError, is_not_found}
use aws_efs_csi_driver.EfsNs.FileSystem.{PvcMappingEntry}
use aws_efs_csi_driver.EfsNs.Tracker.{
  ConfigMap, Cluster, Codec, config_map_name, find_config_map, read_mappings, write_mappings,
  keep_rest, remove_pvc, removal, deleted, updated,
}
use aws_efs_csi_driver.EfsNs.Tracker.Tracked.{
  StoresConfigMaps, SameEntries, IsKept, mappings_of, tracked, find-stored, find_name,
  write-mappings_of, found-stored, mappings_of_if,
}

module _ {W : Type 0} (cluster : Cluster W) (codec : Codec) (cluster_id : GoString)
    (laws : StoresConfigMaps cluster) where
  abbrev pub name_of : GoString → GoString
  name_of namespace = config_map_name cluster_id namespace

  abbrev pub view : GoString → W → Result GoError (Map PvcMappingEntry)
  view = tracked cluster codec cluster_id laws

  -- What a removal leaves: `m` are the mappings that remain.
  abbrev pub Leaves : GoString → GoString → Map PvcMappingEntry → W → W → Bool → Type 0
  Leaves namespace other m w t b =
      (b ≡ is_empty m)
      × ((n : Map PvcMappingEntry) × SameEntries n m
          × (view other t
              ≡ (if str_eq (name_of namespace) (name_of other) then ok n else view other w)))

  view_if :
      (b : Bool) (o : Option ConfigMap)
      → mappings_of cluster codec cluster_id laws (if b then none else o)
        ≡ (if b then ok [] else mappings_of cluster codec cluster_id laws o)
  view_if true o = refl
  view_if false o = refl

  deleted-ok :
      (namespace : GoString) (r : Option GoError) {b : Bool}
      → deleted cluster codec cluster_id namespace r ≡ ok b
      → (b ≡ true) × ((r ≡ none) ⊎ ((e : GoError) × (r ≡ some e) × (is_not_found e ≡ true)))
  deleted-ok namespace none h = (sym (ok-injective h), inl refl)
  deleted-ok namespace (some e) h = elim (Bool-cases (is_not_found e)) [
    | inl absent ↦ (ground (arith, absent), inr (e, refl, absent))
    | inr other_error ↦ ground (arith, other_error)
  ]

  deleted_all :
      (namespace other : GoString) (w : W) {b : Bool}
      → deleted cluster codec cluster_id namespace
          (cluster.delete_config_map (name_of namespace) w).0
        ≡ ok b
      → Leaves namespace other [] w (cluster.delete_config_map (name_of namespace) w).1 b
  deleted_all namespace other w h =
      let (answer, how) = deleted-ok namespace _ h in
      (
        answer,
        (
          [],
          record { found = λ _. refl; size = refl },
          ap (mappings_of cluster codec cluster_id laws) (gone how)
              ∙ view_if (str_eq (name_of namespace) (name_of other)) _,
        ),
      )
    where
      gone :
          ((cluster.delete_config_map (name_of namespace) w).0 ≡ none)
            ⊎ ((e : GoError) × ((cluster.delete_config_map (name_of namespace) w).0 ≡ some e)
                × (is_not_found e ≡ true))
          → laws.stored (name_of other) (cluster.delete_config_map (name_of namespace) w).1 ≡ (
              if str_eq (name_of namespace) (name_of other)
              then none
              else laws.stored (name_of other) w)
      gone (inl fine) = laws.delete_ok (name_of namespace) (name_of other) w fine
      gone (inr (e, bad, absent)) =
          laws.delete_not_found (name_of namespace) (name_of other) w bad absent

  updated-ok :
      (namespace : GoString) (r : Option GoError) {b : Bool}
      → updated cluster codec cluster_id namespace r ≡ ok b
      → (b ≡ false) × (r ≡ none)
  updated-ok namespace none h = (sym (ok-injective h), refl)
  updated-ok namespace (some e) h = cc

  updated_rest :
      (namespace other : GoString) (c d : ConfigMap) (m : Map PvcMappingEntry) (w : W) {b : Bool}
      → is_empty m ≡ false
      → IsKept codec m
      → c.name ≡ name_of namespace
      → write_mappings cluster codec cluster_id removal namespace c m ≡ ok d
      → updated cluster codec cluster_id namespace (cluster.update_config_map d w).0 ≡ ok b
      → Leaves namespace other m w (cluster.update_config_map d w).1 b
  updated_rest namespace other c d m w some_left k named written h =
      let (stays, done) = updated-ok namespace _ h in
      let (n, read, same, kept) =
        write-mappings_of cluster codec cluster_id laws removal namespace c d m k written in
      (
        stays ∙ sym some_left,
        (
          n,
          same,
          ap (mappings_of cluster codec cluster_id laws) (laws.update_ok d (name_of other) w done)
              ∙ subst
                  (λ s.
                    mappings_of cluster codec cluster_id laws (
                      if str_eq d.name (name_of other)
                      then some d
                      else laws.stored (name_of other) w)
                    ≡ (if str_eq s (name_of other) then ok n else view other w))
                  (kept ∙ named)
                  (mappings_of_if cluster codec cluster_id laws (str_eq d.name (name_of other)) d _
                    n read),
        ),
      )

  rest_written :
      (namespace : GoString) (c d : ConfigMap) (x : GoString × PvcMappingEntry)
      (m : Map PvcMappingEntry) (w : W)
      → write_mappings cluster codec cluster_id removal namespace c (x ∷ m) ≡ ok d
      → keep_rest cluster codec cluster_id namespace c (x ∷ m) w ≡ (
        updated cluster codec cluster_id namespace (cluster.update_config_map d w).0,
        (cluster.update_config_map d w).1,
      )
  unfolding keep_rest
  rest_written namespace c d x m w h = rw (h, keep_rest) refl

  rest_failed :
      (namespace : GoString) (c : ConfigMap) (e : GoError) (x : GoString × PvcMappingEntry)
      (m : Map PvcMappingEntry) (w : W) {b : Bool}
      → write_mappings cluster codec cluster_id removal namespace c (x ∷ m) ≡ err e
      → (keep_rest cluster codec cluster_id namespace c (x ∷ m) w).0 ≢ ok b
  unfolding keep_rest
  rest_failed namespace c e x m w bad h = cc

  -- The end of a removal whose ConfigMap was there.
  keep_rest-Leaves :
      (namespace other : GoString) (c : ConfigMap) (m : Map PvcMappingEntry) (w : W) {b : Bool}
      → c.name ≡ name_of namespace
      → (is_empty m ≡ true) ⊎ IsKept codec m
      → (keep_rest cluster codec cluster_id namespace c m w).0 ≡ ok b
      → Leaves namespace other m w (keep_rest cluster codec cluster_id namespace c m w).1 b
  unfolding keep_rest
  keep_rest-Leaves namespace other c [] w named k h = deleted_all namespace other w h
  keep_rest-Leaves namespace other c (x ∷ m) w named (inl none_left) h = cc
  keep_rest-Leaves namespace other c (x ∷ m) w {b} named (inr k) h =
      elim (Result-cases (write_mappings cluster codec cluster_id removal namespace c (x ∷ m))) [
        | inl (e, bad) ↦ absurd (rest_failed namespace c e x m w bad h)
        | inr (d, good) ↦
            let run = rest_written namespace c d x m w good in
            subst (λ (r : Result GoError Bool × W). Leaves namespace other (x ∷ m) w r.1 b)
              (sym run)
              (updated_rest namespace other c d (x ∷ m) w refl k named good
                (sym (ap (λ (r : Result GoError Bool × W). r.0) run) ∙ h))
      ]

  -- Nothing is tracked where there is no ConfigMap.
  view-absent :
      (namespace other : GoString) (w : W)
      → laws.stored (name_of namespace) w ≡ none
      → view other w ≡ (if str_eq (name_of namespace) (name_of other) then ok [] else view other w)
  view-absent namespace other w h = elim (Bool-cases (str_eq (name_of namespace) (name_of other))) [
    | inl equal ↦ rw equal (
        ap (mappings_of cluster codec cluster_id laws) (
          ap (λ n. laws.stored n w) (sym (eq_of_str_eq (name_of namespace) (name_of other) equal))
          ∙ h))
    | inr different ↦ rw different refl
  ]

  absent-Leaves :
      (namespace pvc other : GoString) (w : W) (m : Map PvcMappingEntry)
      → laws.stored (name_of namespace) w ≡ none
      → view namespace w ≡ ok m
      → Leaves namespace other (remove pvc m) w w true
  absent-Leaves namespace pvc other w [] h t =
      (refl, ([], record { found = λ _. refl; size = refl }, view-absent namespace other w h))
  absent-Leaves namespace pvc other w (x ∷ m) h t =
      absurd (nothing m x (sym (ap (mappings_of cluster codec cluster_id laws) h) ∙ t))
    where
      nothing :
          (m : Map PvcMappingEntry) (x : GoString × PvcMappingEntry)
          → ◌≡◌ {A = Result GoError (Map PvcMappingEntry)} (ok []) (ok (x ∷ m))
          → ⊥
      nothing m x e = cc

  removed_absent :
      (namespace pvc : GoString) (w : W)
      → (is_empty namespace || is_empty pvc) ≡ false
      → find_config_map cluster codec cluster_id removal namespace w ≡ ok none
      → remove_pvc cluster codec cluster_id namespace pvc w ≡ (ok true, w)
  unfolding remove_pvc
  removed_absent namespace pvc w a f = ground arith

  removed_there :
      (namespace pvc : GoString) (w : W) {c : ConfigMap} {m : Map PvcMappingEntry}
      → (is_empty namespace || is_empty pvc) ≡ false
      → find_config_map cluster codec cluster_id removal namespace w ≡ ok (some c)
      → read_mappings cluster codec cluster_id removal namespace c ≡ ok m
      → remove_pvc cluster codec cluster_id namespace pvc w
        ≡ keep_rest cluster codec cluster_id namespace c (remove pvc m) w
  unfolding remove_pvc
  removed_there namespace pvc w a f r = ground arith

  -- What a removal that succeeds has found.
  remove_pvc-found :
      (namespace pvc : GoString) (w : W) {b : Bool}
      → (remove_pvc cluster codec cluster_id namespace pvc w).0 ≡ ok b
      → ((is_empty namespace || is_empty pvc) ≡ false)
        × ((find_config_map cluster codec cluster_id removal namespace w ≡ ok none)
            ⊎ ((c : ConfigMap) × (m : Map PvcMappingEntry) × (find_config_map cluster codec
                    cluster_id removal namespace w
                  ≡ ok (some c))
                × (read_mappings cluster codec cluster_id removal namespace c ≡ ok m)))
  unfolding remove_pvc
  remove_pvc-found namespace pvc w h = elim (Bool-cases (is_empty namespace || is_empty pvc)) [
    | inl blank ↦ absurd (ground (arith, blank))
    | inr named ↦
        elim (Result-cases (find_config_map cluster codec cluster_id removal namespace w)) [
          | inl (e, bad) ↦ absurd (ground (arith, named, bad))
          | inr (none, absent) ↦ (named, inl absent)
          | inr (some c, there) ↦
              elim (Result-cases (read_mappings cluster codec cluster_id removal namespace c)) [
                | inl (e, bad) ↦ absurd (ground (arith, named, there, bad))
                | inr (m, read) ↦ (named, inr (c, m, there, read))
              ]
        ]
  ]

  -- `RemovePVC` that succeeds says whether nothing is tracked for the namespace any more; what is
  -- tracked then is what was, without the claim, and other ConfigMaps are as before. This is for
  -- a namespace whose mappings can be read, and remaining mappings that are none or that JSON
  -- keeps.
  pub tracked-remove_pvc :
      (namespace pvc other : GoString) (w : W) (m : Map PvcMappingEntry) (b : Bool)
      → view namespace w ≡ ok m
      → (is_empty (remove pvc m) ≡ true) ⊎ IsKept codec (remove pvc m)
      → (remove_pvc cluster codec cluster_id namespace pvc w).0 ≡ ok b
      → Leaves namespace other
          (remove pvc m)
          w
          (remove_pvc cluster codec cluster_id namespace pvc w).1
          b
  tracked-remove_pvc namespace pvc other w m b t k h =
      let (named, what) = remove_pvc-found namespace pvc w h in
      elim what [
        | inl absent ↦
            let run = removed_absent namespace pvc w named absent in
            let answer = ok-injective (sym (ap (λ (r : Result GoError Bool × W). r.0) run) ∙ h) in
            subst (λ (r : Result GoError Bool × W). Leaves namespace other (remove pvc m) w r.1 b)
              (sym run)
              (subst (Leaves namespace other (remove pvc m) w w) answer (
                absent-Leaves namespace pvc other w m
                  (find-stored cluster codec cluster_id laws removal namespace w absent) t))
        | inr (c, m', there, read) ↦
            let same = ok-injective (
              sym (
                found-stored cluster codec cluster_id laws removal namespace w (some c)
                  (find-stored cluster codec cluster_id laws removal namespace w there) read)
              ∙ t) in
            let run =
              removed_there namespace pvc w named there read
              ∙ ap (λ x. keep_rest cluster codec cluster_id namespace c (remove pvc x) w) same in
            subst (λ (r : Result GoError Bool × W). Leaves namespace other (remove pvc m) w r.1 b)
              (sym run)
              (keep_rest-Leaves namespace other c (remove pvc m) w
                (find_name cluster codec cluster_id laws removal namespace w there) k
                (sym (ap (λ (r : Result GoError Bool × W). r.0) run) ∙ h))
      ]
