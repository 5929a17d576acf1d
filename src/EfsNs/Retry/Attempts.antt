-- ===== src/EfsNs/Retry/Attempts.antt =====
-- How the loop `RetryWithExponentialBackoff` of pkg/driver/efs-ns/retry.go ends.
use aws_efs_csi_driver.Prelude.{
  ℕ, zero, suc, ◌+◌, ◌≤◌, ◌<◌, ◌≡◌, refl, subst, ◌⊎◌, inl, inr, Bool, true, false, Option, none,
  some, arith, Bool-cases, Option-cases,
}
use aws_efs_csi_driver.EfsNs.Errors.{GoError}
use aws_efs_csi_driver.EfsNs.Retry.{after_failure, retry_rounds, retry_with_exponential_backoff}

-- The state after a number of calls of the operation.
abbrev pub calls : {S : Type 0} → (S → Option GoError × S) → ℕ → S → S
calls fn zero s = s
calls fn (suc n) s = calls fn n (fn s).1

module _ {S : Type 0} (max_retries : ℕ) (should_retry : GoError → Bool)
    (cancelled : ℕ → Option GoError) (fn : S → Option GoError × S) where
  -- An attempt after which the loop goes on.
  pub record GoesOn (attempt : ℕ) (s : S) : Type 0 where
    pub failure : GoError
    pub failed : (fn s).0 ≡ some failure
    pub retried : should_retry failure ≡ true
    pub waited : cancelled attempt ≡ none
    pub left : attempt < max_retries

  -- The answer of an attempt that ends the loop: no error, the error of the operation, or the
  -- one of the context.
  pub data Answer (attempt : ℕ) (s : S) : Option GoError → Type 0 where
    success : (fn s).0 ≡ none → Answer attempt s none
    given_up :
        (e : GoError)
        → (fn s).0 ≡ some e
        → (attempt ≡ max_retries) ⊎ (should_retry e ≡ false)
        → Answer attempt s (some e)
    context_ended :
        (e c : GoError) → (fn s).0 ≡ some e → cancelled attempt ≡ some c → Answer attempt s (some c)

  -- The loop, from an attempt on, ends after `n` further attempts with `r`.
  pub record EndsAfter (attempt n : ℕ) (s : S) (r : Option GoError × S) : Type 0 where
    pub in_time : attempt + n ≤ max_retries
    pub before : (k : ℕ) → k < n → GoesOn (attempt + k) (calls fn k s)
    pub answer : Answer (attempt + n) (calls fn n s) r.0
    pub state : r.1 ≡ calls fn (suc n) s

  abbrev run : ℕ → ℕ → Option GoError → S → Option GoError × S
  run = retry_rounds max_retries should_retry cancelled fn

  abbrev follow : ℕ → GoError → S → Option GoError × S → Option GoError × S
  follow = after_failure max_retries should_retry cancelled fn

  at_once :
      (attempt : ℕ) (s : S) (r : Option GoError × S)
      → attempt ≤ max_retries
      → Answer attempt s r.0
      → r.1 ≡ (fn s).1
      → EndsAfter attempt 0 s r
  at_once attempt s r l a e = record {
    in_time = omega arith;
    before = λ k h. absurd (omega arith);
    answer = subst (λ m. Answer m s r.0) (omega arith) a;
    state = e;
  }

  later_before :
      (attempt n : ℕ) (s : S)
      → GoesOn attempt s
      → ((k : ℕ) → k < n → GoesOn (attempt + 1 + k) (calls fn k (fn s).1))
      → (k : ℕ) → k < suc n
      → GoesOn (attempt + k) (calls fn k s)
  later_before attempt n s g h zero l = subst (λ m. GoesOn m s) (omega arith) g
  later_before attempt n s g h (suc k) l =
      subst (λ m. GoesOn m (calls fn k (fn s).1)) (omega arith) (h k (omega (arith, l)))

  later :
      (attempt n : ℕ) (s : S) (r : Option GoError × S)
      → GoesOn attempt s
      → EndsAfter (attempt + 1) n (fn s).1 r
      → EndsAfter attempt (suc n) s r
  later attempt n s r g h = record {
    in_time = omega (arith, h.in_time);
    before = later_before attempt n s g h.before;
    answer = subst (λ m. Answer m (calls fn n (fn s).1) r.0) (omega arith) h.answer;
    state = h.state;
  }

  -- One round, by what the attempt and the wait after it bring.
  round_success :
      (rounds attempt : ℕ) (last : Option GoError) (s : S)
      → (fn s).0 ≡ none
      → run (suc rounds) attempt last s ≡ (none, (fn s).1)
  unfolding retry_rounds
  round_success rounds attempt last s e = ground arith

  round_failure :
      (rounds attempt : ℕ) (last : Option GoError) (s : S) (e : GoError)
      → (fn s).0 ≡ some e
      → run (suc rounds) attempt last s
        ≡ follow attempt e (fn s).1 (run rounds (attempt + 1) (some e) (fn s).1)
  unfolding retry_rounds
  round_failure rounds attempt last s e h = rw (h, retry_rounds) refl

  -- What a failed attempt comes to.
  gives_up :
      (attempt : ℕ) (e : GoError) (s : S) (next : Option GoError × S)
      → (attempt ≡ max_retries) ⊎ (should_retry e ≡ false)
      → follow attempt e s next ≡ (some e, s)
  gives_up attempt e s next h = ground arith

  is_cancelled :
      (attempt : ℕ) (e c : GoError) (s : S) (next : Option GoError × S)
      → attempt < max_retries
      → should_retry e ≡ true
      → cancelled attempt ≡ some c
      → follow attempt e s next ≡ (some c, s)
  is_cancelled attempt e c s next l h w = ground arith

  goes_on :
      (attempt : ℕ) (e : GoError) (s : S) (next : Option GoError × S)
      → attempt < max_retries
      → should_retry e ≡ true
      → cancelled attempt ≡ none
      → follow attempt e s next ≡ next
  goes_on attempt e s next l h w = ground arith

  ends_failing :
      (attempt : ℕ) (s : S) (e : GoError) (r : Option GoError × S)
      → attempt ≤ max_retries
      → (fn s).0 ≡ some e
      → (attempt ≡ max_retries) ⊎ (should_retry e ≡ false)
      → r ≡ (some e, (fn s).1)
      → EndsAfter attempt 0 s r
  ends_failing attempt s e r l f h q =
      rw q (at_once attempt s (some e, (fn s).1) l (given_up e f h) refl)

  after_last :
      (attempt : ℕ) (s : S) (e : GoError) (next : Option GoError × S)
      → (fn s).0 ≡ some e
      → attempt ≡ max_retries
      → (n : ℕ) × EndsAfter attempt n s (follow attempt e (fn s).1 next)
  after_last attempt s e next f l = (
    0,
    ends_failing attempt s e _ (omega arith) f (inl l) (gives_up attempt e (fn s).1 next (inl l)),
  )

  after_failed :
      (attempt : ℕ) (s : S) (e : GoError) (next : Option GoError × S)
      → (fn s).0 ≡ some e
      → attempt < max_retries
      → (n : ℕ) × EndsAfter (attempt + 1) n (fn s).1 next
      → (n : ℕ) × EndsAfter attempt n s (follow attempt e (fn s).1 next)
  after_failed attempt s e next f l (n, h) = elim (Bool-cases (should_retry e)) [
    | inr never ↦ (
      0,
      ends_failing attempt s e _ (omega arith) f (inr never)
          (gives_up attempt e (fn s).1 next (inr never)),
    )
    | inl again ↦ elim (Option-cases (cancelled attempt)) [
      | inr (c, ended) ↦ (
        0,
        rw (is_cancelled attempt e c (fn s).1 next l again ended)
            (at_once attempt s (some c, (fn s).1) (omega arith) (context_ended e c f ended) refl),
      )
      | inl waited ↦ (
        suc n,
        rw (goes_on attempt e (fn s).1 next l again waited) (
            later attempt n s next
              (record { failure = e; failed = f; retried = again; waited = waited; left = l }) h),
      )
    ]
  ]

  -- A round that succeeds ends the loop; it is left to say what a failure comes to.
  by_attempt :
      (rounds attempt : ℕ) (last : Option GoError) (s : S)
      → attempt ≤ max_retries
      → ((e : GoError)
          → (fn s).0 ≡ some e
          → (n : ℕ) × EndsAfter attempt n s
              (follow attempt e (fn s).1 (run rounds (attempt + 1) (some e) (fn s).1)))
      → (n : ℕ) × EndsAfter attempt n s (run (suc rounds) attempt last s)
  by_attempt rounds attempt last s l failing = elim (Option-cases (fn s).0) [
    | inl none_there ↦ (
      0,
      rw (round_success rounds attempt last s none_there)
          (at_once attempt s (none, (fn s).1) l (success none_there) refl),
    )
    | inr (e, f) ↦ rw (round_failure rounds attempt last s e f) (failing e f)
  ]

  -- The rounds that are left are enough for the attempts that are left.
  rounds-EndsAfter :
      (rounds attempt : ℕ) (last : Option GoError) (s : S)
      → attempt + rounds ≡ max_retries
      → (n : ℕ) × EndsAfter attempt n s (run (suc rounds) attempt last s)
  rounds-EndsAfter zero attempt last s l =
      by_attempt zero attempt last s (omega (arith, l))
        (λ e f. after_last attempt s e _ f (omega (arith, l)))
  rounds-EndsAfter (suc rounds) attempt last s l =
      by_attempt (suc rounds) attempt last s (omega (arith, l)) (λ e f.
        after_failed attempt s e _ f (omega (arith, l))
          (rounds-EndsAfter rounds (attempt + 1) (some e) (fn s).1 (omega (arith, l))))

  -- The loop makes at most `max_retries + 1` attempts. It goes on after an attempt exactly when
  -- attempts are left and the attempt failed with an error that is to be retried, and the context
  -- did not end in the wait after it. What it returns is no error if the last attempt succeeded,
  -- and else the error of this attempt or, if the context ended after it, the one of the context.
  pub retry-EndsAfter :
      (s : S)
      → (n : ℕ) × EndsAfter 0 n s
          (retry_with_exponential_backoff max_retries should_retry cancelled fn s)
  unfolding retry_with_exponential_backoff
  retry-EndsAfter s = rounds-EndsAfter max_retries 0 none s (omega arith)
