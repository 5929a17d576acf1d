-- ===== src/EfsNs/Tracker/Tests.antt =====
-- The tracker of pkg/driver/efs-ns/tracker.go in a concrete cluster.
use aws_efs_csi_driver.Prelude.{
  ◌≡◌, refl, ap, sym, inl, inr, true, [], ◌∷◌, Option, none, some, Result, ok, err, GoString, codes,
  ◌==◌, remove, str_eq, eq_of_str_eq, ok-injective, Bool-cases, Map, if◌then◌else◌, length, split,
}
use aws_efs_csi_driver.EfsNs.Errors.{GoError, k8s_error, is_not_found}
use aws_efs_csi_driver.EfsNs.Errors
use aws_efs_csi_driver.EfsNs.VolumeId.{VolumeId, parse_efsns_volume_id}
use aws_efs_csi_driver.EfsNs.FileSystem.{PvcMappingEntry}
use aws_efs_csi_driver.EfsNs.Tracker.{
  ConfigMap, Claim, Cluster, Codec, plan_addition, checked_addition, find_config_map, read_mappings,
  parse_mappings, write_mappings, serialize_mappings, keep_rest, add_pvc, remove_pvc, get_pvc_count,
  config_map_name,
}
use aws_efs_csi_driver.EfsNs.Tracker.Tracked.{
  StoresConfigMaps, SameEntries, IsKept, tracked, get_pvc_count-tracked,
}
use aws_efs_csi_driver.EfsNs.Tracker.Tracked.Addition.{tracked-add_pvc}
use aws_efs_csi_driver.EfsNs.Tracker.Tracked.Removal.{Leaves, tracked-remove_pvc}
use aws_efs_csi_driver.EfsNs.Tracker.Sync.{sync_namespace, store_rest}
use aws_efs_csi_driver.EfsNs.Tracker.Sync.Survivors.{Survives, sync_namespace-Survives}

-- A cluster is what is stored under each name: labels and data.
abbrev Stored : Type 0
Stored = GoString → Option (Map GoString × Map GoString)

abbrev as_config_map : GoString → Option (Map GoString × Map GoString) → Option ConfigMap
as_config_map n none = none
as_config_map n (some (l, d)) = some (record { name = n; labels = l; contents = d })

abbrev found_or : Option ConfigMap → Result GoError ConfigMap
found_or none = err (k8s_error Errors.not_found)
found_or (some c) = ok c

abbrev put : ConfigMap → Stored → Stored
put c w = λ n. if str_eq c.name n then some (c.labels, c.contents) else w n

abbrev take_out : GoString → Stored → Stored
take_out m w = λ n. if str_eq m n then none else w n

abbrev claim : GoString
claim = codes "claim"

abbrev living : Claim
living = record { claim_name = claim; storage_class_name = some (codes "efs") }

abbrev cluster : Cluster Stored
cluster = record {
  get_config_map = λ n w. found_or (as_config_map n (w n));
  create_config_map = λ c w. (none, put c w);
  update_config_map = λ c w. (none, put c w);
  delete_config_map = λ n w. (none, take_out n w);
  list_config_maps = λ w. ok [];
  list_claims = λ n w. ok (living ∷ []);
  get_storage_class = λ n w. ok ((codes "provisioningMode", codes "efs-ns") ∷ []);
}

put_stored :
    (c : ConfigMap) (n : GoString) (w : Stored)
    → as_config_map n (put c w n) ≡ (if str_eq c.name n then some c else as_config_map n (w n))
put_stored c n w = elim (Bool-cases (str_eq c.name n)) [
  | inl same ↦ rw same (
      ap (λ m. some (record { name = m; labels = c.labels; contents = c.contents }))
        (sym (eq_of_str_eq c.name n same)))
  | inr other ↦ rw other refl
]

got :
    (n : GoString) (o : Option (Map GoString × Map GoString)) (c : ConfigMap)
    → found_or (as_config_map n o) ≡ ok c
    → (as_config_map n o ≡ some c) × (c.name ≡ n)
got n none c h = cc
got n (some (l, d)) c h =
    (ap some (ok-injective h), ap (λ (x : ConfigMap). x.name) (sym (ok-injective h)))

got_nothing :
    (n : GoString) (o : Option (Map GoString × Map GoString)) (e : GoError)
    → found_or (as_config_map n o) ≡ err e
    → as_config_map n o ≡ none
got_nothing n none e h = refl
got_nothing n (some x) e h = cc

taken :
    (m n : GoString) (w : Stored)
    → as_config_map n (take_out m w n) ≡ (if str_eq m n then none else as_config_map n (w n))
taken m n w = elim (Bool-cases (str_eq m n)) [ inl same ↦ rw same refl | inr other ↦ rw other refl ]

abbrev laws : StoresConfigMaps cluster
laws = record {
  stored = λ n w. as_config_map n (w n);
  get_ok = λ n w {c} h. got n (w n) c h;
  get_not_found = λ n w {e} h _. got_nothing n (w n) e h;
  create_ok = λ c n w h. put_stored c n w;
  update_ok = λ c n w h. put_stored c n w;
  delete_ok = λ m n w h. taken m n w;
  delete_not_found = λ m n w h _. taken m n w;
}

abbrev web : GoString
web = codes "web"

abbrev web_volume : VolumeId
web_volume = record { namespace = web; file_system_id = codes "fs-1"; cluster_id = codes "main" }

abbrev web_id : GoString
web_id = codes "efs-ns::web::fs-1::main"

abbrev claim_entry : PvcMappingEntry
claim_entry = record {
  namespace = web;
  pvc_name = claim;
  volume_id = web_id;
  file_system_id = codes "fs-1";
  created_at = 5;
}

abbrev one : Map PvcMappingEntry
one = (claim, claim_entry) ∷ []

abbrev two : Map PvcMappingEntry
two = (codes "gone", record claim_entry { pvc_name = codes "gone" }) ∷ one

-- A format that knows two maps.
abbrev codec : Codec
codec = record {
  encode = λ m. ok (if length m == 2 then codes "two" else codes "one");
  decode = λ s. ok (some (if str_eq s (codes "two") then two else one));
}

one-IsKept : IsKept codec one
one-IsKept = record {
  text = codes "one";
  there = refl;
  proper = refl;
  again = one;
  back = refl;
  same = record { found = λ k. refl; size = refl };
}

abbrev nothing : Stored
nothing = λ n. none

abbrev two_claims : Stored
two_claims = λ n. some ([], (codes "pvc-mappings", codes "two") ∷ [])

abbrev one_claim : Stored
one_claim = λ n. some ([], (codes "pvc-mappings", codes "one") ∷ [])

web_id_parses : parse_efsns_volume_id web_id ≡ ok web_volume
unfolding parse_efsns_volume_id split
web_id_parses = refl

addition_succeeds : (add_pvc cluster codec (codes "main") web claim web_id 5 nothing).0 ≡ none
unfolding add_pvc plan_addition checked_addition parse_efsns_volume_id split find_config_map
    read_mappings parse_mappings write_mappings serialize_mappings is_not_found
addition_succeeds = refl

removal_succeeds : (remove_pvc cluster codec (codes "main") web claim one_claim).0 ≡ ok true
unfolding remove_pvc find_config_map read_mappings parse_mappings keep_rest
removal_succeeds = refl

count_is_one : get_pvc_count cluster codec (codes "main") web one_claim ≡ ok 1
unfolding get_pvc_count find_config_map read_mappings parse_mappings
count_is_one = refl

tracked-add_pvc_example :
    (n : Map PvcMappingEntry) × SameEntries n one
    × (tracked cluster codec
          (codes "main")
          laws
          web
          (add_pvc cluster codec (codes "main") web claim web_id 5 nothing).1
        ≡ (if str_eq (config_map_name (codes "main") web) (config_map_name (codes "main") web)
            then ok n
            else ok []))
tracked-add_pvc_example =
    tracked-add_pvc cluster codec (codes "main") laws web claim web_id 5 nothing [] web_volume web
      refl web_id_parses one-IsKept addition_succeeds

one_claim-tracked : tracked cluster codec (codes "main") laws web one_claim ≡ ok one
unfolding parse_mappings
one_claim-tracked = refl

tracked-remove_pvc_example :
    Leaves cluster codec
      (codes "main")
      laws
      web
      (codes "shop")
      (remove claim one)
      one_claim
      (remove_pvc cluster codec (codes "main") web claim one_claim).1
      true
tracked-remove_pvc_example =
    tracked-remove_pvc cluster codec (codes "main") laws web claim (codes "shop") one_claim one true
      one_claim-tracked (inl refl) removal_succeeds

get_pvc_count-tracked_example : 1 ≡ length one
get_pvc_count-tracked_example =
    get_pvc_count-tracked cluster codec (codes "main") laws web one_claim one 1 one_claim-tracked
      count_is_one

abbrev stored_map : ConfigMap
stored_map = record {
  name = config_map_name (codes "main") web;
  labels = [];
  contents = (codes "pvc-mappings", codes "two") ∷ [];
}

stored_map_parses : parse_mappings codec (codes "two") ≡ ok two
unfolding parse_mappings
stored_map_parses = refl

sync_succeeds : (sync_namespace cluster codec web stored_map two_claims).0 ≡ none
unfolding sync_namespace parse_mappings store_rest serialize_mappings
sync_succeeds = refl

-- Of two tracked claims the one that the cluster lists stays.
sync_namespace-Survives_example :
    Survives cluster codec
      (codes "main")
      laws
      web
      (living ∷ [])
      two
      two_claims
      (sync_namespace cluster codec web stored_map two_claims).1
sync_namespace-Survives_example =
    sync_namespace-Survives cluster codec (codes "main") laws web stored_map two_claims two
      (living ∷ []) refl refl (refl, (refl, tt)) stored_map_parses refl (inr one-IsKept)
      sync_succeeds
