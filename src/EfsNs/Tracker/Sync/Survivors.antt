-- ===== src/EfsNs/Tracker/Sync/Survivors.antt =====
-- What is tracked after `syncNamespace` of pkg/driver/efs-ns/tracker.go.
use aws_efs_csi_driver.Prelude.{
  ◌≡◌, refl, ◌∙◌, ap, subst, ◌⊎◌, inl, inr, true, false, List, [], ◌∷◌, Option, none, some,
  GoString, codes, Result, err, str_eq, eq_of_str_eq, str_eq_iff, str_eq_refl, is_empty, contains,
  Map, lookup, insert, Unique, ok, Result-cases, Option-cases, Bool-cases, if◌then◌else◌, arith,
}
use aws_efs_csi_driver.EfsNs.Errors.{GoError, is_not_found}
use aws_efs_csi_driver.EfsNs.FileSystem.{PvcMappingEntry}
use aws_efs_csi_driver.EfsNs.Tracker.{
  ConfigMap, Claim, Cluster, Codec, mappings_key, config_map_name, or_empty, parse_mappings,
  serialize_mappings,
}
use aws_efs_csi_driver.EfsNs.Tracker.Tracked.{
  StoresConfigMaps, IsKept, tracked, mappings_of, round_trip,
}
use aws_efs_csi_driver.EfsNs.Tracker.Sync.{
  is_actual, has_efsns_mode, still_there, has_gone, actual_names, wrapped_error, unless_not_found,
  store_rest, sync_namespace,
}

lookup-still_there :
    (names : List GoString) (k : GoString) (m : Map PvcMappingEntry)
    → Unique m
    → lookup k (still_there names m) ≡ (if contains names k then lookup k m else none)
lookup-still_there names k [] u = ground arith
lookup-still_there names k ((j, e) ∷ m) u =
    ground (arith, lookup-still_there names k m u.1, str_eq_iff j k, u.0)

none_gone :
    (names : List GoString) (k : GoString) (m : Map PvcMappingEntry)
    → has_gone names m ≡ false
    → lookup k m ≡ (if contains names k then lookup k m else none)
none_gone names k [] h = ground arith
none_gone names k ((j, e) ∷ m) h = ground (arith, none_gone names k m, str_eq_iff j k)

module _ {W : Type 0} (cluster : Cluster W) (codec : Codec) (cluster_id : GoString)
    (laws : StoresConfigMaps cluster) where
  -- The claim has the name `k`, and a storage class that can be read and has the mode efs-ns.
  pub record IsProvisioned (k : GoString) (w : W) (c : Claim) : Type 0 where
    pub named : c.claim_name ≡ k
    pub class_name : GoString
    pub has_class : c.storage_class_name ≡ some class_name
    pub parameters : Map GoString
    pub read_class : cluster.get_storage_class class_name w ≡ ok parameters
    pub has_mode : lookup (codes "provisioningMode") parameters ≡ some (codes "efs-ns")

  -- One of the claims is such.
  abbrev pub IsListed : GoString → W → List Claim → Type 0
  IsListed k w [] = ⊥
  IsListed k w (c ∷ cs) = IsProvisioned k w c ⊎ IsListed k w cs

  -- Of `m` those are tracked that `claims` provision.
  abbrev pub Survives : GoString → List Claim → Map PvcMappingEntry → W → W → Type 0
  Survives namespace claims m w t =
      (n : Map PvcMappingEntry) × (tracked cluster codec cluster_id laws namespace t ≡ ok n)
      × ((k : GoString)
          → (IsListed k w claims → lookup k n ≡ lookup k m)
            × (¬ IsListed k w claims → lookup k n ≡ none))

  mode_of :
      (r : Result GoError (Map GoString))
      → has_efsns_mode r ≡ true
      → (p : Map GoString) × (r ≡ ok p)
        × (lookup (codes "provisioningMode") p ≡ some (codes "efs-ns"))
  mode_of (err e) h = absurd (cc)
  mode_of (ok p) h = elim (Option-cases (lookup (codes "provisioningMode") p)) [
    | inl missing ↦ absurd (ground (arith, rw missing at h))
    | inr (mode, there) ↦
        (p, refl, there ∙ ap some (eq_of_str_eq mode (codes "efs-ns") (rw there at h)))
  ]

  actual-IsProvisioned :
      (k : GoString) (w : W) (c : Claim) (class : Option GoString)
      → c.storage_class_name ≡ class
      → is_actual cluster codec class w ≡ true
      → c.claim_name ≡ k
      → IsProvisioned k w c
  actual-IsProvisioned k w c none e h named = absurd (cc)
  actual-IsProvisioned k w c (some name) e h named =
      let (p, read, mode) = mode_of (cluster.get_storage_class name w) h in
      record {
        named = named;
        class_name = name;
        has_class = e;
        parameters = p;
        read_class = read;
        has_mode = mode;
      }

  is_actual-IsProvisioned :
      (k : GoString) (w : W) (c : Claim)
      → IsProvisioned k w c
      → is_actual cluster codec c.storage_class_name w ≡ true
  is_actual-IsProvisioned k w c p = rw p.has_class (rw p.read_class (rw p.has_mode refl))

  contains-IsListed :
      (k : GoString) (w : W) (claims : List Claim)
      → contains (actual_names cluster codec claims w) k ≡ true
      → IsListed k w claims
  contains-IsListed k w [] h = absurd (cc)
  contains-IsListed k w (c ∷ cs) h =
      elim (Bool-cases (is_actual cluster codec c.storage_class_name w)) [
        | inr other ↦ inr (contains-IsListed k w cs (rw other at h))
        | inl actual ↦ elim (Bool-cases (str_eq c.claim_name k)) [
          | inl same ↦ inl (
              actual-IsProvisioned k w c c.storage_class_name refl actual
                (eq_of_str_eq c.claim_name k same))
          | inr differs ↦ inr (contains-IsListed k w cs (ground (arith, rw actual at h, differs)))
        ]
      ]

  IsListed-contains :
      (k : GoString) (w : W) (claims : List Claim)
      → IsListed k w claims
      → contains (actual_names cluster codec claims w) k ≡ true
  IsListed-contains k w [] h = absurd h
  IsListed-contains k w (c ∷ cs) (inl p) =
      rw (is_actual-IsProvisioned k w c p) (ground (arith, p.named, str_eq_iff c.claim_name k))
  IsListed-contains k w (c ∷ cs) (inr h) = ground (arith, IsListed-contains k w cs h)

  kept_or_gone :
      (k : GoString) (w : W) (claims : List Claim) (m n : Map PvcMappingEntry)
      → lookup k n ≡ (if contains (actual_names cluster codec claims w) k then lookup k m else none)
      → (IsListed k w claims → lookup k n ≡ lookup k m)
        × (¬ IsListed k w claims → lookup k n ≡ none)
  kept_or_gone k w claims m n e = (
    λ h. rw (IsListed-contains k w claims h) at e,
    λ h. elim (Bool-cases (contains (actual_names cluster codec claims w) k)) [
      | inl listed ↦ absurd (h (contains-IsListed k w claims listed))
      | inr other ↦ rw other at e
    ],
  )

  gone-or :
      (n : GoString) (w : W)
      → unless_not_found (cluster.delete_config_map n w).0 ≡ none
      → laws.stored n (cluster.delete_config_map n w).1 ≡ none
  gone-or n w h = elim (Option-cases (cluster.delete_config_map n w).0) [
    | inl fine ↦ laws.delete_ok n n w fine ∙ rw (str_eq_refl n) refl
    | inr (e, bad) ↦ elim (Bool-cases (is_not_found e)) [
      | inl absent ↦ laws.delete_not_found n n w bad absent ∙ rw (str_eq_refl n) refl
      | inr other ↦ absurd (ground (arith, bad, other))
    ]
  ]

  no_error : (r : Option GoError) → wrapped_error r ≡ none → r ≡ none
  no_error none h = refl
  no_error (some e) h = cc

  abbrev with_text : ConfigMap → GoString → ConfigMap
  with_text c text = record c { contents = insert mappings_key text c.contents }

  written :
      (c : ConfigMap) (name text : GoString) (w : W)
      → c.name ≡ name
      → (cluster.update_config_map (with_text c text) w).0 ≡ none
      → laws.stored name (cluster.update_config_map (with_text c text) w).1
        ≡ some (with_text c text)
  written c name text w named done =
      subst
        (λ s.
          laws.stored s (cluster.update_config_map (with_text c text) w).1
          ≡ some (with_text c text))
        named (laws.update_ok (with_text c text) c.name w done ∙ rw (str_eq_refl c.name) refl)

  stored_rest :
      (namespace : GoString) (c : ConfigMap) (r : Map PvcMappingEntry) (w : W)
      → c.name ≡ config_map_name cluster_id namespace
      → (is_empty r ≡ true) ⊎ IsKept codec r
      → (store_rest cluster codec c r w).0 ≡ none
      → (n : Map PvcMappingEntry) × (tracked cluster codec cluster_id laws namespace
            (store_rest cluster codec c r w).1
          ≡ ok n)
        × ((k : GoString) → lookup k n ≡ lookup k r)
  unfolding store_rest
  stored_rest namespace c [] w named kept h = (
    [],
    ap (mappings_of cluster codec cluster_id laws) (
        subst (λ x. laws.stored x (cluster.delete_config_map c.name w).1 ≡ none) named
          (gone-or c.name w h)),
    λ k. refl,
  )
  stored_rest namespace c (x ∷ r) w named (inl e) h = cc
  stored_rest namespace c (x ∷ r) w named (inr kept) h =
      elim (Result-cases (serialize_mappings codec (x ∷ r))) [
        | inl (e, bad) ↦ absurd (ground (arith, bad))
        | inr (text, good) ↦
            let (n, read, same) = round_trip codec (x ∷ r) kept good in
            let done = no_error _ (rw (good, store_rest) at h) in
            let after = written c (config_map_name cluster_id namespace) text w named done in
            (
              n,
              rw (good, store_rest) (ap (mappings_of cluster codec cluster_id laws) after ∙ read),
              same.found,
            )
      ]

  -- After the synchronisation of a namespace that succeeds, exactly those claims are tracked as
  -- before that the cluster lists and that name a storage class which can be read and has the mode
  -- efs-ns; the others, also claims whose class cannot be read, are tracked no more. This is for a
  -- ConfigMap that is the stored one, whose mappings can be read, with no name twice, and remaining
  -- mappings that are none or that the codec can write and read back.
  pub sync_namespace-Survives :
      (namespace : GoString) (c : ConfigMap) (w : W) (m : Map PvcMappingEntry) (claims : List Claim)
      → laws.stored (config_map_name cluster_id namespace) w ≡ some c
      → c.name ≡ config_map_name cluster_id namespace
      → Unique m
      → parse_mappings codec (or_empty (lookup mappings_key c.contents)) ≡ ok m
      → cluster.list_claims namespace w ≡ ok claims
      → (is_empty (still_there (actual_names cluster codec claims w) m) ≡ true)
        ⊎ IsKept codec (still_there (actual_names cluster codec claims w) m)
      → (sync_namespace cluster codec namespace c w).0 ≡ none
      → Survives namespace claims m w (sync_namespace cluster codec namespace c w).1
  unfolding sync_namespace
  sync_namespace-Survives namespace c w m claims here named u p l kept h =
      let names = actual_names cluster codec claims w in
      elim (Bool-cases (has_gone names m)) [
        | inr stay ↦ (
          m,
          rw (p, l, stay, sync_namespace) (ap (mappings_of cluster codec cluster_id laws) here ∙ p),
          λ k. kept_or_gone k w claims m m (none_gone names k m stay),
        )
        | inl gone ↦
            let (n, read, found) =
              stored_rest namespace c (still_there names m) w named kept
                (rw (p, l, gone, sync_namespace) at h) in
            (
              n,
              rw (p, l, gone, sync_namespace) read,
              λ k. kept_or_gone k w claims m n (found k ∙ lookup-still_there names k m u),
            )
      ]
