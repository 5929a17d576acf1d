-- ===== src/EfsNs/Finalizer.antt =====
-- pkg/driver/efs-ns/finalizer.go: the finalizers of claims and namespaces. The mutex is held by
-- each of the four operations, so one call is one step. Kubernetes answers in a world `W`.
pub mod Effect
mod Tests
use aws_efs_csi_driver.Prelude.{
  ℕ, zero, suc, Bool, true, false, not, ◌&&◌, ◌||◌, List, [], ◌∷◌, ◌++◌, Option, none, some,
  GoString, codes, str_eq, is_empty, contains, Map, lookup, Result, ok, err, if◌then◌else◌, ltb,
}
use aws_efs_csi_driver.EfsNs.Errors.{
  GoError, efsns_error, efsns_caused, plain, context_done, invalid_parameter, kubernetes_api_failed,
  finalizer_operation_failed, timeout, is_not_found, is_efsns_error,
}
use aws_efs_csi_driver.EfsNs.VolumeId.{VolumeId, volume_id_string}
use aws_efs_csi_driver.EfsNs.FileSystem.{FileSystemInfo}

abbrev pub finalizer_name : GoString
finalizer_name = codes "efs-csi.aws.com/efs-ns-cleanup"

abbrev pub namespace_finalizer_name : GoString
namespace_finalizer_name = codes "efs-csi.aws.com/efs-ns-namespace-cleanup"

-- `Get` and `Update` of one claim or namespace, as far as its finalizers go.
pub record ObjectApi (W : Type 0) : Type 0 where
  pub get_object : W → Result GoError (List GoString) × W
  pub update_object : List GoString → W → Option GoError × W

-- `corev1.PersistentVolumeClaim`
pub record Claim : Type 0 where
  pub claim_name : GoString
  pub claim_namespace : GoString
  pub claim_finalizers : List GoString
  pub annotations : Map GoString
  pub volume_name : GoString

-- What the manager of the finalizers asks: Kubernetes, the context, the tracker and the manager of
-- the file systems. `cancelled` is the look at `ctx.Done()`, and `waits` is the pause between two
-- attempts, `false` where the context ends it. `volume_handle` is the CSI handle of a volume.
pub record FinalizerApi (W : Type 0) : Type 0 where
  pub claims : GoString → GoString → ObjectApi W
  pub namespaces : GoString → ObjectApi W
  pub volume_handle : GoString → W → Result GoError (Option GoString) × W
  pub cancelled : W → Bool
  pub waits : W → Bool × W
  pub is_conflict : GoError → Bool
  pub remove_claim : GoString → GoString → W → Result GoError Bool × W
  pub claim_count : GoString → W → Result GoError ℕ × W
  pub delete_for_namespace : GoString → GoString → W → Option GoError × W
  pub file_system_info : GoString → W → Result GoError FileSystemInfo × W
  pub own_cluster_id : GoString

abbrev pub retry_name : GoString
retry_name = codes "retryOperation"

abbrev pub api_failed : GoString → GoString → GoError → GoError
api_failed op namespace e = efsns_caused kubernetes_api_failed op namespace e

-- The finalizers without one.
abbrev pub without : GoString → List GoString → List GoString
without f [] = []
without f (x ∷ xs) = let rest = without f xs in if str_eq x f then rest else x ∷ rest

module _ {W : Type 0} (object : ObjectApi W) (op namespace f : GoString) where
  abbrev pub update_answer : Option GoError × W → Option GoError × W
  update_answer (none, w) = (none, w)
  update_answer (some e, w) = (some (api_failed op namespace e), w)

  abbrev pub get_failed : GoError → W → Option GoError × W
  get_failed e w = if is_not_found e then (none, w) else (some (api_failed op namespace e), w)

  abbrev pub add_to : Result GoError (List GoString) × W → Option GoError × W
  add_to (err e, w) = get_failed e w
  add_to (ok fs, w) =
      if contains fs f then (none, w) else update_answer (object.update_object (fs ++ f ∷ []) w)

  -- One attempt to add the finalizer.
  unfoldable pub add_once : W → Option GoError × W
  add_once w = add_to (object.get_object w)

  abbrev pub remove_from : Result GoError (List GoString) × W → Option GoError × W
  remove_from (err e, w) = get_failed e w
  remove_from (ok fs, w) =
      if contains fs f then update_answer (object.update_object (without f fs) w) else (none, w)

  -- One attempt to remove it.
  unfoldable pub remove_once : W → Option GoError × W
  remove_once w = remove_from (object.get_object w)

module _ {W : Type 0} (api : FinalizerApi W) where
  abbrev pub is_retryable_here : GoError → Bool
  is_retryable_here e = api.is_conflict e || is_efsns_error e kubernetes_api_failed

  abbrev pub attempts_failed : GoError → GoError
  attempts_failed e = efsns_caused finalizer_operation_failed retry_name [] e

  abbrev pub timed_out : GoError
  timed_out = efsns_caused timeout retry_name [] context_done

  abbrev pub after_wait : Bool × W → (W → Option GoError × W) → Option GoError × W
  after_wait (false, w) next = (some timed_out, w)
  after_wait (true, w) next = next w

  -- After an attempt; with none left, the last error is reported.
  abbrev pub after_attempt : ℕ → Option GoError × W → (W → Option GoError × W) → Option GoError × W
  after_attempt left (none, w) next = (none, w)
  after_attempt zero (some e, w) next = (some (attempts_failed e), w)
  after_attempt (suc left) (some e, w) next =
      if is_retryable_here e then after_wait (api.waits w) next else (some (attempts_failed e), w)

  abbrev pub unless_cancelled : W → Option GoError × W → Option GoError × W
  unless_cancelled w r = if api.cancelled w then (some timed_out, w) else r

  -- The loop of `retryOperation`, with the attempts that are left.
  unfoldable pub attempts : ℕ → (W → Option GoError × W) → W → Option GoError × W
  attempts zero operation w = (some (efsns_error finalizer_operation_failed retry_name []), w)
  attempts (suc left) operation w =
      unless_cancelled w (after_attempt left (operation w) (attempts left operation))

  -- `retryOperation`
  abbrev pub retry_operation : (W → Option GoError × W) → W → Option GoError × W
  retry_operation = attempts 5

  abbrev pub missing_parameter : GoString → W → Option GoError × W
  missing_parameter op w = (some (efsns_error invalid_parameter op []), w)

  -- `AddFinalizer`; a nil claim is `none`.
  unfoldable pub add_finalizer : Option Claim → W → Option GoError × W
  add_finalizer none w = missing_parameter (codes "AddFinalizer") w
  add_finalizer (some c) w =
      if contains c.claim_finalizers finalizer_name
      then (none, w)
      else retry_operation
          (add_once (api.claims c.claim_namespace c.claim_name) (codes "AddFinalizer")
            c.claim_namespace finalizer_name)
          w

  -- `RemoveFinalizer`
  unfoldable pub remove_finalizer : Option Claim → W → Option GoError × W
  remove_finalizer none w = missing_parameter (codes "RemoveFinalizer") w
  remove_finalizer (some c) w =
      retry_operation
        (remove_once (api.claims c.claim_namespace c.claim_name) (codes "RemoveFinalizer")
          c.claim_namespace finalizer_name)
        w

  -- `AddNamespaceFinalizer`
  unfoldable pub add_namespace_finalizer : GoString → W → Option GoError × W
  add_namespace_finalizer namespace w =
      if is_empty namespace
      then missing_parameter (codes "AddNamespaceFinalizer") w
      else retry_operation
          (add_once (api.namespaces namespace) (codes "AddNamespaceFinalizer") namespace
            namespace_finalizer_name)
          w

  -- `RemoveNamespaceFinalizer`
  unfoldable pub remove_namespace_finalizer : GoString → W → Option GoError × W
  remove_namespace_finalizer namespace w =
      if is_empty namespace
      then missing_parameter (codes "RemoveNamespaceFinalizer") w
      else retry_operation
          (remove_once (api.namespaces namespace) (codes "RemoveNamespaceFinalizer") namespace
            namespace_finalizer_name)
          w

  abbrev pub finalized : GoString → GoString → Option GoError × W → Option GoError × W
  finalized op namespace (none, w) = (none, w)
  finalized op namespace (some e, w) =
      (some (efsns_caused finalizer_operation_failed op namespace e), w)

  abbrev pub handle_of : Result GoError (Option GoString) × W → GoString × W
  handle_of (ok (some id), w) = (id, w)
  handle_of (_, w) = ([], w)

  abbrev pub annotated : Option GoString → GoString
  annotated none = []
  annotated (some id) = id

  -- The volume ID of a claim: the annotation, or the handle of its volume.
  unfoldable pub volume_id_of : Claim → W → GoString × W
  volume_id_of c w =
      let id =
        annotated (lookup (codes "volume.kubernetes.io/storage-provisioner") c.annotations) in
      if is_empty id && not (is_empty c.volume_name)
      then handle_of (api.volume_handle c.volume_name w)
      else (id, w)

  -- After the claim has left the tracker; errors are only logged.
  abbrev pub after_untracking : Claim → GoString → Result GoError Bool × W → W
  after_untracking c id (err e, w) = w
  after_untracking c id (ok false, w) = w
  after_untracking c id (ok true, w) = (api.delete_for_namespace c.claim_namespace id w).1

  abbrev pub untrack_claim : Claim → GoString × W → W
  untrack_claim c (id, w) =
      if is_empty id
      then w
      else after_untracking c id (api.remove_claim c.claim_namespace c.claim_name w)

  -- `processPVCFinalization`
  unfoldable pub process_pvc_finalization : Claim → W → Option GoError × W
  process_pvc_finalization c w =
      if contains c.claim_finalizers finalizer_name
      then finalized (codes "processPVCFinalization") c.claim_namespace
          (remove_finalizer (some c) (untrack_claim c (volume_id_of c w)))
      else (none, w)

  abbrev pub counted_claims : Result GoError ℕ × W → ℕ × W
  counted_claims (ok n, w) = (n, w)
  counted_claims (err e, w) = (0, w)

  abbrev pub delete_info : GoString → Result GoError FileSystemInfo × W → W
  delete_info namespace (err e, w) = w
  delete_info namespace (ok i, w) =
      (api.delete_for_namespace namespace
        (volume_id_string (record {
          namespace = namespace;
          file_system_id = i.file_system_id;
          cluster_id = api.own_cluster_id;
        }))
        w).1

  abbrev pub with_claim_count : GoString → ℕ × W → Option GoError × W
  with_claim_count namespace (suc n, w) = (
    some (efsns_error finalizer_operation_failed (codes "processNamespaceFinalization") namespace),
    w,
  )
  with_claim_count namespace (zero, w) =
      finalized (codes "processNamespaceFinalization") namespace (
        remove_namespace_finalizer namespace
          (delete_info namespace (api.file_system_info namespace w)))

  -- `processNamespaceFinalization`, on the name and the finalizers of the namespace.
  unfoldable pub process_namespace_finalization : GoString → List GoString → W → Option GoError × W
  process_namespace_finalization namespace finalizers w =
      if contains finalizers namespace_finalizer_name
      then with_claim_count namespace (counted_claims (api.claim_count namespace w))
      else (none, w)

-- What `ProcessFinalization` is given.
pub data FinalizedObject : Type 0 where
  claim_object : Claim → FinalizedObject
  namespace_object : GoString → List GoString → FinalizedObject
  nothing_given unsupported : FinalizedObject

-- `ProcessFinalization`; the context with the timeout is that of `api`.
unfoldable pub process_finalization :
    {W : Type 0} → FinalizerApi W → FinalizedObject → W → Option GoError × W
process_finalization api (claim_object c) w = process_pvc_finalization api c w
process_finalization api (namespace_object n fs) w = process_namespace_finalization api n fs w
process_finalization api nothing_given w = missing_parameter api (codes "ProcessFinalization") w
process_finalization api unsupported w = missing_parameter api (codes "ProcessFinalization") w
