-- ===== src/EfsNs/Errors.antt =====
-- pkg/driver/efs-ns/errors.go: structured errors and their classification. The texts of messages
-- are left out; the type, the operation, the namespace and the cause are kept.
use aws_efs_csi_driver.Prelude.{ℕ, Bool, true, false, Option, none, some, GoString, ◌==◌}

pub data EfsNsErrorType : Type 0 where
  file_system_creation_failed file_system_deletion_failed : EfsNsErrorType
  file_system_not_found file_system_already_exists : EfsNsErrorType
  security_group_creation_failed security_group_deletion_failed : EfsNsErrorType
  security_group_not_found : EfsNsErrorType
  mount_target_creation_failed mount_target_deletion_failed : EfsNsErrorType
  mount_target_not_found : EfsNsErrorType
  cache_operation_failed cache_miss cache_invalidation : EfsNsErrorType
  tracker_operation_failed pvc_not_found pvc_already_exists : EfsNsErrorType
  namespace_validation_failed invalid_volume_id invalid_parameter : EfsNsErrorType
  kubernetes_api_failed finalizer_operation_failed : EfsNsErrorType
  aws_api_failed aws_permission_denied aws_throttled : EfsNsErrorType
  aws_resource_limit_exceeded : EfsNsErrorType
  metrics_registration metrics_collection : EfsNsErrorType
  namespace_controller_failed : EfsNsErrorType
  timeout concurrent_operation resource_not_ready internal_error : EfsNsErrorType

-- Why the Kubernetes API refused a request (`metav1.StatusReason`, those that the code asks for).
pub data K8sReason : Type 0 where
  not_found is_timeout server_timeout service_unavailable : K8sReason
  too_many_requests internal unexpected_server other_reason : K8sReason

-- `error`: an `EFSNSError` without or with a cause, an error that wraps another one by `%w`, one
-- that wraps none, and the errors of the libraries that the code looks into.
pub data GoError : Type 0 where
  efsns_error : EfsNsErrorType → GoString → GoString → GoError
  efsns_caused : EfsNsErrorType → GoString → GoString → GoError → GoError
  wrapped : GoError → GoError
  plain : GoError
  context_done : GoError
  api_error : GoString → GoError
  response_error : ℕ → GoError → GoError
  k8s_error : K8sReason → GoError

-- `errors.As(err, &efsnsErr)` followed by `efsnsErr.Type`: the first `EFSNSError` of the chain.
unfoldable pub as_efsns : GoError → Option EfsNsErrorType
as_efsns (efsns_error t op ns) = some t
as_efsns (efsns_caused t op ns cause) = some t
as_efsns (wrapped e) = as_efsns e
as_efsns (response_error status e) = as_efsns e
as_efsns _ = none

-- `Unwrap`
unfoldable pub unwrap : GoError → Option GoError
unwrap (efsns_caused t op ns cause) = some cause
unwrap (wrapped e) = some e
unwrap (response_error status e) = some e
unwrap _ = none

-- The constant that stands for a type; `==` on the constants.
abbrev pub type_code : EfsNsErrorType → ℕ
type_code file_system_creation_failed = 0
type_code file_system_deletion_failed = 1
type_code file_system_not_found = 2
type_code file_system_already_exists = 3
type_code security_group_creation_failed = 4
type_code security_group_deletion_failed = 5
type_code security_group_not_found = 6
type_code mount_target_creation_failed = 7
type_code mount_target_deletion_failed = 8
type_code mount_target_not_found = 9
type_code cache_operation_failed = 10
type_code cache_miss = 11
type_code cache_invalidation = 12
type_code tracker_operation_failed = 13
type_code pvc_not_found = 14
type_code pvc_already_exists = 15
type_code namespace_validation_failed = 16
type_code invalid_volume_id = 17
type_code invalid_parameter = 18
type_code kubernetes_api_failed = 19
type_code finalizer_operation_failed = 20
type_code aws_api_failed = 21
type_code aws_permission_denied = 22
type_code aws_throttled = 23
type_code aws_resource_limit_exceeded = 24
type_code metrics_registration = 25
type_code metrics_collection = 26
type_code namespace_controller_failed = 27
type_code timeout = 28
type_code concurrent_operation = 29
type_code resource_not_ready = 30
type_code internal_error = 31

abbrev pub same_type : EfsNsErrorType → EfsNsErrorType → Bool
same_type s t = type_code s == type_code t

-- `IsEFSNSError`
unfoldable pub is_efsns_error : GoError → EfsNsErrorType → Bool
unfolding as_efsns
is_efsns_error e t = elim (as_efsns e) [ none ↦ false | some s ↦ same_type s t ]

-- `(*EFSNSError).Is`: two structured errors match if their types do.
unfoldable pub matches_error : GoError → GoError → Bool
matches_error (efsns_error s _ _) (efsns_error t _ _) = same_type s t
matches_error (efsns_error s _ _) (efsns_caused t _ _ _) = same_type s t
matches_error (efsns_caused s _ _ _) (efsns_error t _ _) = same_type s t
matches_error (efsns_caused s _ _ _) (efsns_caused t _ _ _) = same_type s t
matches_error _ _ = false

pub is_file_system_not_found : GoError → Bool
is_file_system_not_found e = is_efsns_error e file_system_not_found

pub is_file_system_creation_failed : GoError → Bool
is_file_system_creation_failed e = is_efsns_error e file_system_creation_failed

pub is_file_system_deletion_failed : GoError → Bool
is_file_system_deletion_failed e = is_efsns_error e file_system_deletion_failed

pub is_invalid_volume_id : GoError → Bool
is_invalid_volume_id e = is_efsns_error e invalid_volume_id

pub is_invalid_parameter : GoError → Bool
is_invalid_parameter e = is_efsns_error e invalid_parameter

pub is_cache_operation_failed : GoError → Bool
is_cache_operation_failed e = is_efsns_error e cache_operation_failed

pub is_tracker_operation_failed : GoError → Bool
is_tracker_operation_failed e = is_efsns_error e tracker_operation_failed

pub is_aws_api_failed : GoError → Bool
is_aws_api_failed e = is_efsns_error e aws_api_failed

pub is_kubernetes_api_failed : GoError → Bool
is_kubernetes_api_failed e = is_efsns_error e kubernetes_api_failed

abbrev retryable_type : EfsNsErrorType → Bool
retryable_type aws_throttled = true
retryable_type timeout = true
retryable_type resource_not_ready = true
retryable_type concurrent_operation = true
retryable_type aws_api_failed = true
retryable_type kubernetes_api_failed = true
retryable_type cache_operation_failed = true
retryable_type tracker_operation_failed = true
retryable_type _ = false

-- `IsRetryable`
unfoldable pub is_retryable : GoError → Bool
unfolding as_efsns
is_retryable e = elim (as_efsns e) [ none ↦ false | some t ↦ retryable_type t ]

abbrev temporary_type : EfsNsErrorType → Bool
temporary_type timeout = true
temporary_type resource_not_ready = true
temporary_type concurrent_operation = true
temporary_type aws_throttled = true
temporary_type _ = false

-- `IsTemporary`
unfoldable pub is_temporary : GoError → Bool
unfolding as_efsns
is_temporary e = elim (as_efsns e) [ none ↦ false | some t ↦ temporary_type t ]

-- The reason that `k8serrors.ReasonForError` finds.
unfoldable pub k8s_reason : GoError → Option K8sReason
k8s_reason (k8s_error r) = some r
k8s_reason (wrapped e) = k8s_reason e
k8s_reason (efsns_caused t op ns cause) = k8s_reason cause
k8s_reason (response_error status e) = k8s_reason e
k8s_reason _ = none

abbrev not_found_reason : Option K8sReason → Bool
not_found_reason (some not_found) = true
not_found_reason _ = false

-- `errors.IsNotFound` of k8s.io/apimachinery
unfoldable pub is_not_found : GoError → Bool
unfolding k8s_reason
is_not_found e = not_found_reason (k8s_reason e)
