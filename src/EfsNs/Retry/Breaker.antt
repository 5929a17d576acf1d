-- ===== src/EfsNs/Retry/Breaker.antt =====
-- The states of the circuit breaker of pkg/driver/efs-ns/retry.go.
use aws_efs_csi_driver.Prelude.{ℕ, ◌<◌, ◌≡◌, Option, arith}
use aws_efs_csi_driver.EfsNs.Errors.{GoError}
use aws_efs_csi_driver.EfsNs.Retry.{
  BreakerState, closed, open_state, half_open, CircuitBreaker, record_failure, record_success,
  execute,
}

-- Between two calls: a closed breaker has seen fewer failures in a row than it takes, a half-open
-- one fewer successes.
abbrev SoundIn : BreakerState → CircuitBreaker → Type 0
SoundIn closed cb = cb.failure_count < cb.max_failures
SoundIn half_open cb = cb.success_count < cb.success_threshold
SoundIn open_state cb = Unit

abbrev pub IsSound : CircuitBreaker → Type 0
IsSound cb = SoundIn cb.state cb

record_failure-IsSound :
    (now : ℕ) (cb : CircuitBreaker) → IsSound cb → IsSound (record_failure now cb)
unfolding record_failure
record_failure-IsSound now cb h = ground arith

record_success-IsSound :
    (cb : CircuitBreaker) → 0 < cb.max_failures → IsSound cb → IsSound (record_success cb)
unfolding record_success
record_success-IsSound cb z h = ground arith

module _ {S : Type 0} (fn : S → Option GoError × S) where
  -- With a positive number of failures that it takes and of successes that it wants: every call
  -- of a sound breaker leaves a sound one, which is closed with fewer failures than it takes, half
  -- open with fewer successes than it wants, or open. No call changes one of the three settings.
  pub execute-IsSound :
      (now done : ℕ) (cb : CircuitBreaker) (s : S)
      → 0 < cb.max_failures
      → 0 < cb.success_threshold
      → IsSound cb
      → let r = execute fn now done cb s in
        IsSound r.1
        × (r.1.max_failures ≡ cb.max_failures)
        × (r.1.success_threshold ≡ cb.success_threshold)
        × (r.1.recovery_timeout ≡ cb.recovery_timeout)
  unfolding execute record_failure record_success
  execute-IsSound now done cb s z y h = ground arith
