-- ===== src/EfsNs/Retry/Delay.antt =====
-- The delays between the attempts of pkg/driver/efs-ns/retry.go.
use aws_efs_csi_driver.Prelude.{
  ℕ, suc, ◌-◌, ◌+◌, ◌*◌, ◌^◌, ◌≤◌, ◌<◌, ◌≡◌, if◌then◌else◌, ltb, refl, ◌∙◌, add_int64, ℤ, pos,
  negsuc, lt_int, add_int64_pos, add_int64_negsuc, arith,
}
use aws_efs_csi_driver.EfsNs.Retry.{calculate_delay}

-- The delay before jitter: it doubles with each attempt, up to the maximum.
abbrev pub backoff : ℕ → ℕ → ℕ → ℕ
backoff attempt base_delay max_delay =
    if ltb max_delay (base_delay * 2 ^ attempt) then max_delay else base_delay * 2 ^ attempt

-- The jitter that a factor of at most 1 can draw.
abbrev pub IsJitter : ℕ → ℤ → Type 0
IsJitter delay (pos j) = j ≤ delay
IsJitter delay (negsuc j) = suc j ≤ delay

capped : (grown max_delay : ℕ) → (if ltb max_delay grown then max_delay else grown) ≤ max_delay
capped grown max_delay = ground arith

backoff_capped :
    (attempt base_delay max_delay : ℕ) → backoff attempt base_delay max_delay ≤ max_delay
backoff_capped attempt base_delay max_delay = capped (base_delay * 2 ^ attempt) max_delay

not_negative :
    (delay : ℤ) (base_delay d : ℕ)
    → delay ≡ pos d
    → (if lt_int delay (pos 0) then pos base_delay else delay) ≡ pos d
not_negative delay base_delay d h = ground arith

within : (b j m : ℕ) → m < 2 ^ 62 → j ≤ b → b ≤ m → b + j < 2 ^ 63
within b j m h l c = omega (arith, h, l, c)

below : (b m : ℕ) → m < 2 ^ 62 → b ≤ m → b < 2 ^ 63
below b m h c = omega (arith, h, c)

add_right : (b j : ℕ) → j ≤ b → b + j ≤ b + b
add_right b j l = omega (arith, l)

both : (b j m : ℕ) → j ≤ b → b ≤ m → b + j ≤ m + m
both b j m l c = omega (arith, l, c)

less : (b j : ℕ) → b - suc j ≤ b + b
less b j = omega arith

less_max : (b j m : ℕ) → b ≤ m → b - suc j ≤ m + m
less_max b j m c = omega (arith, c)

-- The conversion of a float64 to a `time.Duration` is exact where the result fits.
abbrev pub Converts : (ℕ → ℤ) → Type 0
Converts to_duration = (x : ℕ) → x < 2 ^ 63 → to_duration x ≡ pos x

capped_int :
    (m g : ℕ) → (if lt_int (pos m) (pos g) then pos m else pos g) ≡ pos (if ltb m g then m else g)
capped_int m g = ground arith

calculate_delay-backoff :
    (to_duration : ℕ → ℤ) (attempt base_delay max_delay : ℕ) (jitter : ℤ)
    → Converts to_duration
    → base_delay * 2 ^ attempt < 2 ^ 63
    → calculate_delay to_duration attempt base_delay max_delay jitter ≡ (
        if lt_int (add_int64 (pos (backoff attempt base_delay max_delay)) jitter) (pos 0)
        then pos base_delay
        else add_int64 (pos (backoff attempt base_delay max_delay)) jitter)
unfolding calculate_delay
calculate_delay-backoff to_duration attempt base_delay max_delay jitter c g =
    rw (c (base_delay * 2 ^ attempt) g) (rw (capped_int max_delay (base_delay * 2 ^ attempt)) refl)

-- If the doubled base delay of this attempt fits an int64, which converts it exactly, twice the
-- longest delay fits one too, and the jitter is at most the delay before jitter: the delay is not
-- negative and at most twice the delay before jitter, hence at most twice the maximum.
pub calculate_delay_bound :
    (to_duration : ℕ → ℤ) (attempt base_delay max_delay : ℕ) (jitter : ℤ)
    → Converts to_duration
    → base_delay * 2 ^ attempt < 2 ^ 63
    → max_delay < 2 ^ 62
    → IsJitter (backoff attempt base_delay max_delay) jitter
    → (d : ℕ) × (calculate_delay to_duration attempt base_delay max_delay jitter ≡ pos d)
      × (d ≤ backoff attempt base_delay max_delay + backoff attempt base_delay max_delay)
      × (d ≤ max_delay + max_delay)
calculate_delay_bound to_duration attempt base_delay max_delay (pos j) c g h l =
    let b = backoff attempt base_delay max_delay in
    let k = backoff_capped attempt base_delay max_delay in
    (
      b + j,
      calculate_delay-backoff to_duration attempt base_delay max_delay (pos j) c g
          ∙ not_negative _ base_delay (b + j) (add_int64_pos b j (within b j max_delay h l k)),
      add_right b j l,
      both b j max_delay l k,
    )
calculate_delay_bound to_duration attempt base_delay max_delay (negsuc j) c g h l =
    let b = backoff attempt base_delay max_delay in
    let k = backoff_capped attempt base_delay max_delay in
    (
      b - suc j,
      calculate_delay-backoff to_duration attempt base_delay max_delay (negsuc j) c g
          ∙ not_negative _ base_delay (b - suc j) (add_int64_negsuc b j l (below b max_delay h k)),
      less b j,
      less_max b j max_delay k,
    )
