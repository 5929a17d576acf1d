-- ===== src/EfsNs/Retry.antt =====
-- pkg/driver/efs-ns/retry.go: the circuit breaker and the retry loop. The operation is a function
-- on a state `S` that says whether it failed; the clock is given at each call.
pub mod Breaker
pub mod Attempts
pub mod Delay
mod Tests
use aws_efs_csi_driver.Prelude.{
  ℕ, zero, suc, [], ◌+◌, ◌-◌, ◌*◌, ◌^◌, Bool, true, false, not, ◌||◌, Option, none, some, GoString,
  codes, str_eq, contains_str, leb, ltb, ℤ, pos, lt_int, add_int64, ◌==◌, if◌then◌else◌,
}
use aws_efs_csi_driver.EfsNs.Errors.{
  GoError, efsns_error, efsns_caused, wrapped, plain, context_done, api_error, response_error,
  k8s_error, K8sReason, is_timeout, server_timeout, service_unavailable, too_many_requests,
  internal, unexpected_server, timeout, is_retryable, k8s_reason,
}

-- `CircuitBreakerState`
pub data BreakerState : Type 0 where
  closed open_state half_open : BreakerState

-- `CircuitBreaker`
pub record CircuitBreaker : Type 0 where
  pub max_failures : ℕ
  pub recovery_timeout : ℕ
  pub failure_count : ℕ
  pub last_failure_time : ℕ
  pub state : BreakerState
  pub success_threshold : ℕ
  pub success_count : ℕ

-- `NewCircuitBreaker`
abbrev pub new_circuit_breaker : ℕ → ℕ → CircuitBreaker
new_circuit_breaker max_failures recovery_timeout = record {
  max_failures = max_failures;
  recovery_timeout = recovery_timeout;
  failure_count = 0;
  last_failure_time = 0;
  state = closed;
  success_threshold = 3;
  success_count = 0;
}

failed_in : BreakerState → CircuitBreaker → CircuitBreaker
failed_in half_open cb = record cb { state = open_state; success_count = 0 }
failed_in _ cb =
    if leb cb.max_failures cb.failure_count then record cb { state = open_state } else cb

-- `recordFailure`
unfoldable pub record_failure : ℕ → CircuitBreaker → CircuitBreaker
unfolding failed_in
record_failure now cb =
    failed_in cb.state (record cb { failure_count = cb.failure_count + 1; last_failure_time = now })

succeeded_in : BreakerState → CircuitBreaker → CircuitBreaker
succeeded_in half_open cb =
    let n = cb.success_count + 1 in
    if leb cb.success_threshold n
    then record cb { success_count = n; state = closed }
    else record cb { success_count = n }
succeeded_in _ cb = cb

-- `recordSuccess`
unfoldable pub record_success : CircuitBreaker → CircuitBreaker
unfolding succeeded_in
record_success cb = succeeded_in cb.state (record cb { failure_count = 0 })

-- Whether `Execute` calls the function, and the breaker at that call; `none` where it does not.
admit_in : BreakerState → ℕ → CircuitBreaker → Option CircuitBreaker
admit_in open_state now cb =
    if ltb (now - cb.last_failure_time) cb.recovery_timeout
    then none
    else some (record cb { state = half_open; success_count = 0 })
admit_in _ now cb = some cb

unfoldable pub admit : ℕ → CircuitBreaker → Option CircuitBreaker
unfolding admit_in
admit now cb = admit_in cb.state now cb

pub after_call : Option GoError → ℕ → CircuitBreaker → CircuitBreaker
after_call none now cb = record_success cb
after_call (some e) now cb = record_failure now cb

abbrev breaker_is_open : GoError
breaker_is_open = efsns_error timeout (codes "CircuitBreaker") []

-- `Execute`: `now` is the clock at the call, `done` when the function has returned.
unfoldable pub execute :
    {S : Type 0}
    → (S → Option GoError × S)
    → ℕ
    → ℕ
    → CircuitBreaker
    → S
    → Option GoError × CircuitBreaker × S
unfolding admit after_call
execute fn now done cb s = elim (admit now cb) [
  | none ↦ (some breaker_is_open, cb, s)
  | some admitted ↦ let (e, t) = fn s in (e, after_call e done admitted, t)
]

-- `errors.As(err, &responseError)` and the HTTP status of what it finds.
abbrev http_status : GoError → Option ℕ
http_status (response_error status e) = some status
http_status (wrapped e) = http_status e
http_status (efsns_caused t op ns cause) = http_status cause
http_status _ = none

-- `errors.As(err, &apiError)` and the code of what it finds.
abbrev api_code : GoError → Option GoString
api_code (api_error c) = some c
api_code (wrapped e) = api_code e
api_code (efsns_caused t op ns cause) = api_code cause
api_code (response_error status e) = api_code e
api_code _ = none

abbrev retryable_status : Option ℕ → Bool
retryable_status none = false
retryable_status (some n) = n == 429 || (n == 500 || (n == 502 || (n == 503 || n == 504)))

abbrev retryable_code : Option GoString → Bool
retryable_code none = false
retryable_code (some c) =
    str_eq c (codes "Throttling")
    || (str_eq c (codes "ThrottledException")
        || (str_eq c (codes "TooManyRequestsException")
            || (str_eq c (codes "InternalServerError")
                || (str_eq c (codes "ServiceUnavailable")
                    || (str_eq c (codes "RequestTimeout")
                        || str_eq c (codes "RequestTimeoutException"))))))

abbrev retryable_reason : Option K8sReason → Bool
retryable_reason (some is_timeout) = true
retryable_reason (some server_timeout) = true
retryable_reason (some service_unavailable) = true
retryable_reason (some too_many_requests) = true
retryable_reason (some internal) = true
retryable_reason (some unexpected_server) = true
retryable_reason _ = false

-- `text` is the text of an error, which is not modelled.
module _ (text : GoError → GoString) where
  -- `isAWSRetryableError`
  unfoldable pub is_aws_retryable_error : GoError → Bool
  is_aws_retryable_error e =
      retryable_status (http_status e)
      || (retryable_code (api_code e)
          || (contains_str (text e) (codes "connection")
              || (contains_str (text e) (codes "timeout")
                  || contains_str (text e) (codes "network"))))

  -- `isKubernetesRetryableError`
  unfoldable pub is_kubernetes_retryable_error : GoError → Bool
  unfolding k8s_reason
  is_kubernetes_retryable_error e = retryable_reason (k8s_reason e)

  -- `DefaultShouldRetryFunc` on an error that is not nil
  unfoldable pub default_should_retry : GoError → Bool
  default_should_retry e =
      is_retryable e || (is_aws_retryable_error e || is_kubernetes_retryable_error e)

-- `calculateDelay`, with the jitter that was drawn (0 without one); in nanoseconds. The base delay
-- is one that is exact in a float64, so that its doubles are; `to_duration` is the conversion of a
-- float64 to a `time.Duration`, which is up to the platform where the result does not fit.
unfoldable pub calculate_delay : (ℕ → ℤ) → ℕ → ℕ → ℕ → ℤ → ℤ
calculate_delay to_duration attempt base_delay max_delay jitter =
    let grown = to_duration (base_delay * 2 ^ attempt) in
    let capped = if lt_int (pos max_delay) grown then pos max_delay else grown in
    let delay = add_int64 capped jitter in if lt_int delay (pos 0) then pos base_delay else delay

-- `RetryWithExponentialBackoff`. `cancelled` says for each wait whether the context ends first,
-- and with which error. `max_retries` is not negative, as in
-- every configuration of the code. A round is left for each attempt of the loop.
module _ {S : Type 0} (max_retries : ℕ) (should_retry : GoError → Bool)
    (cancelled : ℕ → Option GoError) (fn : S → Option GoError × S) where
  -- What follows an attempt that ended in `e`: `next` is the rest of the loop.
  abbrev after_failure : ℕ → GoError → S → Option GoError × S → Option GoError × S
  after_failure attempt e t next =
      if attempt == max_retries
      then (some e, t)
      else if not (should_retry e)
      then (some e, t)
      else elim (cancelled attempt) [ some c ↦ (some c, t) | none ↦ next ]

  pub retry_rounds : ℕ → ℕ → Option GoError → S → Option GoError × S
  retry_rounds zero attempt last s = (last, s)
  retry_rounds (suc rounds) attempt last s =
      let t = (fn s).1 in
      elim (fn s).0 [
        | none ↦ (none, t)
        | some e ↦
            let next = retry_rounds rounds (attempt + 1) (some e) t in
            after_failure attempt e t next
      ]

  pub retry_with_exponential_backoff : S → Option GoError × S
  retry_with_exponential_backoff s = retry_rounds (suc max_retries) 0 none s
