-- ===== src/EfsNs/Tracker.antt =====
-- pkg/driver/efs-ns/tracker.go: which PVCs use the file system of a namespace, kept as JSON in a
-- ConfigMap for each namespace. A method holds the tracker's mutex, so it is one step. The
-- Kubernetes API and encoding/json are parameters. A ConfigMap without data has an empty map here;
-- the code panics when it stores into a nil one.
pub mod Sync
pub mod Tracked
mod Tests
use aws_efs_csi_driver.Prelude.{
  ℕ, Bool, true, false, not, ◌&&◌, ◌||◌, List, [], ◌∷◌, ◌++◌, Option, none, some, GoString, codes,
  str_eq, is_empty, Map, lookup, insert, remove, length, Result, ok, err, ◌>>=◌, ◌>>◌, reject,
  if◌then◌else◌,
}
use aws_efs_csi_driver.EfsNs.Errors.{
  GoError, efsns_error, efsns_caused, wrapped, tracker_operation_failed, invalid_parameter,
  is_not_found,
}
use aws_efs_csi_driver.EfsNs.VolumeId.{VolumeId, parse_efsns_volume_id}
use aws_efs_csi_driver.EfsNs.FileSystem.{PvcMappingEntry}

-- `corev1.ConfigMap`
pub record ConfigMap : Type 0 where
  pub name : GoString
  pub labels : Map GoString
  pub contents : Map GoString

-- `corev1.PersistentVolumeClaim`, as far as the tracker reads it.
pub record Claim : Type 0 where
  pub claim_name : GoString
  pub storage_class_name : Option GoString

-- The calls of the Kubernetes API, on ConfigMaps of the namespace kube-system, on claims and on
-- storage classes, in a cluster `W`. To read does not change the cluster.
pub record Cluster (W : Type 0) : Type 0 where
  pub get_config_map : GoString → W → Result GoError ConfigMap
  pub create_config_map : ConfigMap → W → Option GoError × W
  pub update_config_map : ConfigMap → W → Option GoError × W
  pub delete_config_map : GoString → W → Option GoError × W
  -- by the labels of the tracker
  pub list_config_maps : W → Result GoError (List ConfigMap)
  pub list_claims : GoString → W → Result GoError (List Claim)
  -- the parameters of a storage class
  pub get_storage_class : GoString → W → Result GoError (Map GoString)

-- `json.Marshal` and `json.Unmarshal` on the mappings; `none` is a nil map.
pub record Codec : Type 0 where
  pub encode : Map PvcMappingEntry → Result GoError GoString
  pub decode : GoString → Result GoError (Option (Map PvcMappingEntry))

abbrev pub mappings_key : GoString
mappings_key = codes "pvc-mappings"

abbrev pub target_namespace_label : GoString
target_namespace_label = codes "efs-ns.csi.aws.com/target-namespace"

abbrev tracker_labels : GoString → Map GoString
tracker_labels namespace =
    (codes "app.kubernetes.io/managed-by", codes "efs-csi-driver")
    ∷ (codes "app.kubernetes.io/component", codes "efs-ns-pvc-tracker")
    ∷ (target_namespace_label, namespace)
    ∷ []

abbrev pub or_empty : Option GoString → GoString
or_empty none = []
or_empty (some s) = s

abbrev empty_object : GoString
empty_object = codes "{}"

-- `getConfigMapName`
abbrev pub config_map_name : GoString → GoString → GoString
config_map_name cluster_id namespace =
    codes "efs-ns-pvc-tracker-" ++ (namespace ++ (codes "-" ++ cluster_id))

abbrev decoded :
    Result GoError (Option (Map PvcMappingEntry)) → Result GoError (Map PvcMappingEntry)
decoded (err e) = err (wrapped e)
decoded (ok none) = ok []
decoded (ok (some m)) = ok m

abbrev encoded : Result GoError GoString → Result GoError GoString
encoded (err e) = err (wrapped e)
encoded (ok s) = ok s

-- `parseMappings`
unfoldable pub parse_mappings : Codec → GoString → Result GoError (Map PvcMappingEntry)
parse_mappings codec text =
    if is_empty text || str_eq text empty_object then ok [] else decoded (codec.decode text)

-- `serializeMappings`
unfoldable pub serialize_mappings : Codec → Map PvcMappingEntry → Result GoError GoString
serialize_mappings codec m = if is_empty m then ok empty_object else encoded (codec.encode m)

-- An error is passed on as the cause of a structured one.
abbrev pub in_operation : {A : Type 0} → GoString → GoString → Result GoError A → Result GoError A
in_operation op namespace (err e) = err (efsns_caused tracker_operation_failed op namespace e)
in_operation op namespace (ok a) = ok a

abbrev in_answer : GoString → GoString → Option GoError → Option GoError
in_answer op namespace none = none
in_answer op namespace (some e) = some (efsns_caused tracker_operation_failed op namespace e)

abbrev add : GoString
add = codes "AddPVC"

abbrev removal : GoString
removal = codes "RemovePVC"

-- The parameters of `AddPVC`, checked.
unfoldable pub checked_addition : GoString → GoString → GoString → Result GoError VolumeId
checked_addition namespace pvc volume_id = do
  reject (is_empty namespace) (efsns_error invalid_parameter add namespace)
  reject (is_empty pvc) (efsns_error invalid_parameter add namespace)
  reject (is_empty volume_id) (efsns_error invalid_parameter add namespace)
  in_operation add namespace (parse_efsns_volume_id volume_id)

abbrev count : GoString
count = codes "GetPVCCount"

abbrev pub keys : {V : Type 0} → Map V → List GoString
keys [] = []
keys ((k, _) ∷ m) = k ∷ keys m

abbrev listing : GoString
listing = codes "ListPVCsInNamespace"

module _ {W : Type 0} (cluster : Cluster W) (codec : Codec) (cluster_id : GoString) where
  abbrev new_config_map : GoString → ConfigMap
  new_config_map namespace = record {
    name = config_map_name cluster_id namespace;
    labels = tracker_labels namespace;
    contents = (mappings_key, empty_object) ∷ [];
  }

  -- The ConfigMap of a namespace; `none` if there is none.
  unfoldable pub find_config_map : GoString → GoString → W → Result GoError (Option ConfigMap)
  find_config_map op namespace w =
      elim (cluster.get_config_map (config_map_name cluster_id namespace) w) [
        | ok c ↦ ok (some c)
        | err e ↦
            if is_not_found e
            then ok none
            else err (efsns_caused tracker_operation_failed op namespace e)
      ]

  -- The mappings of a ConfigMap.
  unfoldable pub read_mappings :
      GoString → GoString → ConfigMap → Result GoError (Map PvcMappingEntry)
  read_mappings op namespace c =
      in_operation op namespace (parse_mappings codec (or_empty (lookup mappings_key c.contents)))

  -- The ConfigMap with other mappings.
  unfoldable pub write_mappings :
      GoString → GoString → ConfigMap → Map PvcMappingEntry → Result GoError ConfigMap
  write_mappings op namespace c m = do
    text ← in_operation op namespace (serialize_mappings codec m)
    ok (record c { contents = insert mappings_key text c.contents })

  abbrev or_new : GoString → Option ConfigMap → Bool × ConfigMap
  or_new namespace none = (true, new_config_map namespace)
  or_new namespace (some c) = (false, c)

  abbrev entry : GoString → GoString → GoString → VolumeId → ℕ → PvcMappingEntry
  entry namespace pvc volume_id v now = record {
    namespace = namespace;
    pvc_name = pvc;
    volume_id = volume_id;
    file_system_id = v.file_system_id;
    created_at = now;
  }

  -- `AddPVC` up to its write: whether the ConfigMap is new, and what it is to be.
  unfoldable pub plan_addition :
      GoString → GoString → GoString → ℕ → W → Result GoError (Bool × ConfigMap)
  plan_addition namespace pvc volume_id now w = do
    v ← checked_addition namespace pvc volume_id
    found ← find_config_map add namespace w
    m ← read_mappings add namespace (or_new namespace found).1
    c ←
        write_mappings add namespace (or_new namespace found).1
          (insert pvc (entry namespace pvc volume_id v now) m)
    ok ((or_new namespace found).0, c)

  abbrev store : Bool × ConfigMap → W → Option GoError × W
  store (true, c) w = cluster.create_config_map c w
  store (false, c) w = cluster.update_config_map c w

  -- `AddPVC`; `now` is the clock.
  unfoldable pub add_pvc : GoString → GoString → GoString → ℕ → W → Option GoError × W
  add_pvc namespace pvc volume_id now w = elim (plan_addition namespace pvc volume_id now w) [
    | err e ↦ (some e, w)
    | ok plan ↦ (in_answer add namespace (store plan w).0, (store plan w).1)
  ]

  -- The answer of a deletion, where a ConfigMap that is not there is as good as deleted.
  abbrev deleted : GoString → Option GoError → Result GoError Bool
  deleted namespace none = ok true
  deleted namespace (some e) =
      if is_not_found e
      then ok true
      else err (efsns_caused tracker_operation_failed removal namespace e)

  abbrev updated : GoString → Option GoError → Result GoError Bool
  updated namespace none = ok false
  updated namespace (some e) = err (efsns_caused tracker_operation_failed removal namespace e)

  -- The end of `RemovePVC`: `m` are the mappings that remain.
  unfoldable pub keep_rest :
      GoString → ConfigMap → Map PvcMappingEntry → W → Result GoError Bool × W
  keep_rest namespace c m w =
      if is_empty m
      then (let r = cluster.delete_config_map (config_map_name cluster_id namespace) w in
          (deleted namespace r.0, r.1))
      else elim (write_mappings removal namespace c m) [
        | err e ↦ (err e, w)
        | ok d ↦ let r = cluster.update_config_map d w in (updated namespace r.0, r.1)
      ]

  -- `RemovePVC`: whether the namespace is empty now.
  unfoldable pub remove_pvc : GoString → GoString → W → Result GoError Bool × W
  remove_pvc namespace pvc w =
      if is_empty namespace || is_empty pvc
      then (err (efsns_error invalid_parameter removal namespace), w)
      else elim (find_config_map removal namespace w) [
        | err e ↦ (err e, w)
        | ok none ↦ (ok true, w)
        | ok (some c) ↦ elim (read_mappings removal namespace c) [
          | err e ↦ (err e, w)
          | ok m ↦ keep_rest namespace c (remove pvc m) w
        ]
      ]

  abbrev mappings_found :
      GoString → GoString → Option ConfigMap → Result GoError (Map PvcMappingEntry)
  mappings_found op namespace none = ok []
  mappings_found op namespace (some c) = read_mappings op namespace c

  -- `GetPVCCount`; a ConfigMap holds at most a megabyte, so the count fits an int32.
  unfoldable pub get_pvc_count : GoString → W → Result GoError ℕ
  get_pvc_count namespace w = do
    reject (is_empty namespace) (efsns_error invalid_parameter count namespace)
    found ← find_config_map count namespace w
    m ← mappings_found count namespace found
    ok (length m)

  -- `ListPVCsInNamespace`
  unfoldable pub list_pvcs_in_namespace : GoString → W → Result GoError (List GoString)
  list_pvcs_in_namespace namespace w = do
    reject (is_empty namespace) (efsns_error invalid_parameter listing namespace)
    found ← find_config_map listing namespace w
    m ← mappings_found listing namespace found
    ok (keys m)
