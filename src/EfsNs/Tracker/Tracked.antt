-- ===== src/EfsNs/Tracker/Tracked.antt =====
-- The tracker of pkg/driver/efs-ns/tracker.go against a plain map of claims for each namespace.
pub mod Addition
pub mod Removal
use aws_efs_csi_driver.Prelude.{
  ℕ, suc, ◌+◌, ◌≤◌, ◌≡◌, ◌≢◌, refl, ◌∙◌, sym, ap, subst, Bool, true, false, not, ◌&&◌, ◌||◌, List,
  [], ◌∷◌, ◌++◌, Option, none, some, GoString, codes, str_eq, str_eq_iff, str_eq_refl, is_empty,
  is_some, Map, lookup, insert, remove, length, lookup-remove, lookup-insert, lookup-insert_self,
  Unique, Result, ok, err, ◌>>=◌, ◌>>◌, reject, >>=-eq-ok, reject-ok, ok-injective, Result-cases,
  Option-cases, Bool-cases, inl, inr, if◌then◌else◌, arith, length-remove, remove_absent,
}
use aws_efs_csi_driver.EfsNs.Errors.{GoError, is_not_found}
use aws_efs_csi_driver.EfsNs.VolumeId.{VolumeId, parse_efsns_volume_id}
use aws_efs_csi_driver.EfsNs.FileSystem.{PvcMappingEntry}
use aws_efs_csi_driver.EfsNs.Tracker.{
  ConfigMap, Cluster, Codec, mappings_key, config_map_name, or_empty, parse_mappings,
  serialize_mappings, in_operation, find_config_map, read_mappings, write_mappings,
  checked_addition, plan_addition, add_pvc, keep_rest, remove_pvc, get_pvc_count, mappings_found,
  count, removal, deleted, updated, or_new, new_config_map, entry, store, in_answer, add,
}

-- The Kubernetes API, by what it stores: a read shows it, and a write that succeeds changes one
-- ConfigMap and no other. To delete a ConfigMap that is not found leaves none either.
pub record StoresConfigMaps {W : Type 0} (cluster : Cluster W) : Type 0 where
  pub stored : GoString → W → Option ConfigMap
  pub get_ok :
      (n : GoString) (w : W) {c : ConfigMap}
      → cluster.get_config_map n w ≡ ok c
      → (stored n w ≡ some c) × (c.name ≡ n)
  pub get_not_found :
      (n : GoString) (w : W) {e : GoError}
      → cluster.get_config_map n w ≡ err e
      → is_not_found e ≡ true
      → stored n w ≡ none
  pub create_ok :
      (c : ConfigMap) (n : GoString) (w : W)
      → (cluster.create_config_map c w).0 ≡ none
      → stored n (cluster.create_config_map c w).1
        ≡ (if str_eq c.name n then some c else stored n w)
  pub update_ok :
      (c : ConfigMap) (n : GoString) (w : W)
      → (cluster.update_config_map c w).0 ≡ none
      → stored n (cluster.update_config_map c w).1
        ≡ (if str_eq c.name n then some c else stored n w)
  pub delete_ok :
      (m n : GoString) (w : W)
      → (cluster.delete_config_map m w).0 ≡ none
      → stored n (cluster.delete_config_map m w).1 ≡ (if str_eq m n then none else stored n w)
  pub delete_not_found :
      (m n : GoString) (w : W) {e : GoError}
      → (cluster.delete_config_map m w).0 ≡ some e
      → is_not_found e ≡ true
      → stored n (cluster.delete_config_map m w).1 ≡ (if str_eq m n then none else stored n w)

-- The same map, whatever the order of its entries.
pub record SameEntries (m n : Map PvcMappingEntry) : Type 0 where
  pub found : (k : GoString) → lookup k m ≡ lookup k n
  pub size : length m ≡ length n

-- JSON keeps a map: its text is not blank and not `{}`, and gives a map with the same entries.
pub record IsKept (codec : Codec) (m : Map PvcMappingEntry) : Type 0 where
  pub text : GoString
  pub there : codec.encode m ≡ ok text
  pub proper : (is_empty text || str_eq text (codes "{}")) ≡ false
  pub again : Map PvcMappingEntry
  pub back : codec.decode text ≡ ok (some again)
  pub same : SameEntries again m

pub round_trip :
    (codec : Codec) (m : Map PvcMappingEntry) {text : GoString}
    → IsKept codec m
    → serialize_mappings codec m ≡ ok text
    → (n : Map PvcMappingEntry) × (parse_mappings codec text ≡ ok n) × SameEntries n m
unfolding serialize_mappings parse_mappings
round_trip codec [] k h = ([], ground arith, record { found = λ _. refl; size = refl })
round_trip codec (x ∷ m) k h = (k.again, ground (arith, k.there, k.proper, k.back), k.same)

module _ {W : Type 0} (cluster : Cluster W) (codec : Codec) (cluster_id : GoString)
    (laws : StoresConfigMaps cluster) where
  abbrev pub mappings_of : Option ConfigMap → Result GoError (Map PvcMappingEntry)
  mappings_of none = ok []
  mappings_of (some c) = parse_mappings codec (or_empty (lookup mappings_key c.contents))

  -- The claims that are tracked for a namespace.
  abbrev pub tracked : GoString → W → Result GoError (Map PvcMappingEntry)
  tracked namespace w = mappings_of (laws.stored (config_map_name cluster_id namespace) w)

  -- What is found is what is stored.
  pub find-stored :
      (op namespace : GoString) (w : W) {found : Option ConfigMap}
      → find_config_map cluster codec cluster_id op namespace w ≡ ok found
      → laws.stored (config_map_name cluster_id namespace) w ≡ found
  unfolding find_config_map
  find-stored op namespace w h =
      let name = config_map_name cluster_id namespace in
      elim (Result-cases (cluster.get_config_map name w)) [
        | inl (e, bad) ↦ elim (Bool-cases (is_not_found e)) [
          | inl absent ↦ ground (arith, bad, absent, laws.get_not_found name w bad absent)
          | inr other ↦ ground (arith, bad, other)
        ]
        | inr (c, good) ↦ ground (arith, good, laws.get_ok name w good)
      ]

  pub find_name :
      (op namespace : GoString) (w : W) {c : ConfigMap}
      → find_config_map cluster codec cluster_id op namespace w ≡ ok (some c)
      → c.name ≡ config_map_name cluster_id namespace
  unfolding find_config_map
  find_name op namespace w h =
      let name = config_map_name cluster_id namespace in
      elim (Result-cases (cluster.get_config_map name w)) [
        | inl (e, bad) ↦ ground (arith, bad)
        | inr (c, good) ↦ ground (arith, good, laws.get_ok name w good)
      ]

  pub in_operation-ok :
      {A : Type 0} (op namespace : GoString) (r : Result GoError A) {a : A}
      → in_operation op namespace r ≡ ok a
      → r ≡ ok a
  in_operation-ok op namespace (ok a) h = h
  in_operation-ok op namespace (err e) h = cc

  -- Mappings that are written are read again.
  pub write-mappings_of :
      (op namespace : GoString) (c d : ConfigMap) (m : Map PvcMappingEntry)
      → IsKept codec m
      → write_mappings cluster codec cluster_id op namespace c m ≡ ok d
      → (n : Map PvcMappingEntry) × (mappings_of (some d) ≡ ok n)
        × SameEntries n m
        × (d.name ≡ c.name)
  unfolding write_mappings
  write-mappings_of op namespace c d m k h =
      let (text, e, r) = >>=-eq-ok (in_operation op namespace (serialize_mappings codec m)) _ h in
      let (n, back, same) = round_trip codec m k (in_operation-ok op namespace _ e) in
      let made = ok-injective r in
      (
        n,
        subst (λ x. mappings_of (some x) ≡ ok n) made back,
        same,
        ap (λ (x : ConfigMap). x.name) (sym made),
      )

  pub found-stored :
      (op namespace : GoString) (w : W) (found : Option ConfigMap) {m : Map PvcMappingEntry}
      → laws.stored (config_map_name cluster_id namespace) w ≡ found
      → mappings_found cluster codec cluster_id op namespace found ≡ ok m
      → tracked namespace w ≡ ok m
  unfolding read_mappings
  found-stored op namespace w none e h = rw e h
  found-stored op namespace w (some c) e h = rw e (in_operation-ok op namespace _ h)

  pub mappings_of_if :
      (b : Bool) (c : ConfigMap) (o : Option ConfigMap) (n : Map PvcMappingEntry)
      → mappings_of (some c) ≡ ok n
      → mappings_of (if b then some c else o) ≡ (if b then ok n else mappings_of o)
  mappings_of_if true c o n h = h
  mappings_of_if false c o n h = refl

  -- `GetPVCCount` is the number of claims that are tracked, where it succeeds for a namespace whose
  -- mappings can be read.
  pub get_pvc_count-tracked :
      (namespace : GoString) (w : W) (m : Map PvcMappingEntry) (n : ℕ)
      → tracked namespace w ≡ ok m
      → get_pvc_count cluster codec cluster_id namespace w ≡ ok n
      → n ≡ length m
  unfolding get_pvc_count
  get_pvc_count-tracked namespace w m n t h =
      let (_, h1) = reject-ok (is_empty namespace) _ _ h in
      let (found, there, h2) =
        >>=-eq-ok (find_config_map cluster codec cluster_id count namespace w) _ h1 in
      let (m', read, h3) =
        >>=-eq-ok (mappings_found cluster codec cluster_id count namespace found) _ h2 in
      let same_map = ok-injective (
        sym (found-stored count namespace w found (find-stored count namespace w there) read)
        ∙ t) in
      sym (ok-injective h3) ∙ ap length same_map
