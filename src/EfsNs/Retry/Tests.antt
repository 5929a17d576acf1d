-- ===== src/EfsNs/Retry/Tests.antt =====
-- The circuit breaker and the retry loop of pkg/driver/efs-ns/retry.go at concrete operations.
use aws_efs_csi_driver.Prelude.{
  ℕ, zero, suc, ◌≡◌, refl, [], Option, none, some, codes, arith, ◌+◌, ◌≤◌, pos, negsuc,
}
use aws_efs_csi_driver.EfsNs.Errors.{GoError, efsns_error, timeout, is_retryable}
use aws_efs_csi_driver.EfsNs.Retry.{
  CircuitBreaker, new_circuit_breaker, calculate_delay, execute, retry_rounds,
  retry_with_exponential_backoff,
}
use aws_efs_csi_driver.EfsNs.Retry.Breaker.{IsSound, execute-IsSound}
use aws_efs_csi_driver.EfsNs.Retry.Delay.{backoff, calculate_delay_bound}
use aws_efs_csi_driver.EfsNs.Retry.Attempts.{EndsAfter, retry-EndsAfter}

abbrev timed_out : GoError
timed_out = efsns_error timeout (codes "CreateFileSystem") []

-- An operation that fails as often as its state says.
abbrev flaky : ℕ → Option GoError × ℕ
flaky zero = (none, 0)
flaky (suc n) = (some timed_out, n)

abbrev never : ℕ → Option GoError
never attempt = none

abbrev breaker : CircuitBreaker
breaker = new_circuit_breaker 1 60

two_failures : retry_with_exponential_backoff 5 is_retryable never flaky 2 ≡ (none, 0)
unfolding retry_with_exponential_backoff retry_rounds is_retryable
two_failures = refl

execute-IsSound_example :
    let r = execute flaky 7 8 breaker 2 in
    IsSound r.1 × (r.1.max_failures ≡ 1) × (r.1.success_threshold ≡ 3) × (r.1.recovery_timeout ≡ 60)
execute-IsSound_example =
    execute-IsSound flaky 7 8 breaker 2 (omega arith) (omega arith) (omega arith)

retry-EndsAfter_example :
    (n : ℕ) × EndsAfter 5 is_retryable never flaky 0 n 2
      (retry_with_exponential_backoff 5 is_retryable never flaky 2)
retry-EndsAfter_example = retry-EndsAfter 5 is_retryable never flaky 2

calculate_delay_bound_example :
    (d : ℕ) × (calculate_delay pos 3 100 500 (negsuc 9) ≡ pos d)
    × (d ≤ backoff 3 100 500 + backoff 3 100 500)
    × (d ≤ 500 + 500)
calculate_delay_bound_example =
    calculate_delay_bound pos 3 100 500 (negsuc 9) (λ x h. refl) (omega arith) (omega arith)
      (omega arith)
