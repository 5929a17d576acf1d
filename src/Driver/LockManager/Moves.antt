-- ===== src/Driver/LockManager/Moves.antt =====
-- How many moves the calls can make.
use aws_efs_csi_driver.Prelude.{
  ℕ, zero, suc, ◌+◌, ◌*◌, ◌-◌, ◌≤◌, ◌<◌, ◌≡◌, inl, inr, Bool, true, false, List, [], ◌∷◌, ◌++◌,
  Option, none, some, is_some, arith, Bool-cases, subst, ap,
}
use aws_efs_csi_driver.Driver.LockManager.{
  Shared, ref_down, at_most_one, Phase, wants_mutex, has_mutex, signalled, Activity, attempt,
  loaded, counted, stale, acquire, dropping, deleting, unlock_call, releasing, swapping, unlocking,
  finishing, Outcome, moved, blocked, fatal, Branch, signal, timer, load_or_store, check_entry,
  lock_entry, delete_if_zero, swap_entry, unlock_entry, load_for_unlock, move, System, start,
}

-- How many moves an activity and what it starts can still make.
abbrev phase_cost : Phase → Bool → ℕ
phase_cost wants_mutex false = 3
phase_cost has_mutex false = 2
phase_cost signalled false = 1
phase_cost wants_mutex true = 6
phase_cost has_mutex true = 5
phase_cost signalled true = 4

abbrev pub cost : Activity → ℕ
cost (attempt t) = 1 + 10 * (3 - t)
cost (loaded t e) = 10 + 10 * (2 - t)
cost (counted t e n) = 9 + 10 * (2 - t)
cost (stale t e) = 2 + 10 * (2 - t)
cost (acquire e phase waits) = phase_cost phase waits
cost (dropping e) = 2
cost deleting = 1
cost unlock_call = 6
cost (releasing e) = 5
cost (swapping e n) = 4
cost (unlocking e n) = 3
cost (finishing n) = 2

abbrev pub costs : List Activity → ℕ
costs [] = 0
costs (a ∷ s) = cost a + costs s

costs-append : (xs ys : List Activity) → costs (xs ++ ys) ≡ costs xs + costs ys
costs-append [] ys = omega arith
costs-append (x ∷ xs) ys = omega (arith, costs-append xs ys)

abbrev Cheaper : ℕ → Outcome → Type 0
Cheaper k (moved next m) = costs next < k
Cheaper k blocked = Unit {0}
Cheaper k fatal = Unit {0}

module _ (m : Shared) where
  load_or_store-Cheaper :
      (t k : ℕ) (o : Option ℕ) → cost (loaded t 0) < k → Cheaper k (load_or_store t o m)
  load_or_store-Cheaper t k none h = omega (arith, h)
  load_or_store-Cheaper t k (some e) h = omega (arith, h)

  check_entry-Cheaper : (t e n : ℕ) → Cheaper (9 + 10 * (2 - t)) (check_entry t e n m)
  check_entry-Cheaper t e n = elim (Bool-cases (at_most_one n)) [
    | inr b ↦ rw b (omega arith)
    | inl b ↦ elim (Bool-cases (is_some m.current)) [
      | inl c ↦ rw b (rw c (omega arith))
      | inr c ↦ rw b (rw c (omega arith))
    ]
  ]

  lock_entry-Cheaper :
      (k e : ℕ) (waits : Bool)
      → phase_cost has_mutex waits < k
      → Cheaper k (lock_entry e waits (m.entries e) m)
  lock_entry-Cheaper k e waits h = elim (Bool-cases (m.entries e).mutex) [
    | inl b ↦ rw b tt
    | inr b ↦ rw b (omega (arith, h))
  ]

  delete_if_zero_cost : (n : ℕ) → costs (delete_if_zero n) ≤ 1
  delete_if_zero_cost zero = omega arith
  delete_if_zero_cost (suc n) = omega arith

  swap_entry-Cheaper : (e n : ℕ) → Cheaper 4 (swap_entry e n (m.entries e) m)
  swap_entry-Cheaper e n = elim (Bool-cases (m.entries e).is_locked) [
    | inl b ↦ rw b (omega arith)
    | inr b ↦ rw b (omega arith)
  ]

  unlock_entry-Cheaper : (e n : ℕ) → Cheaper 3 (unlock_entry e n (m.entries e) m)
  unlock_entry-Cheaper e n = elim (Bool-cases (m.entries e).mutex) [
    | inl b ↦ rw b (omega arith)
    | inr b ↦ rw b tt
  ]

  load_for_unlock-Cheaper : (o : Option ℕ) → Cheaper 6 (load_for_unlock o m)
  load_for_unlock-Cheaper none = omega arith
  load_for_unlock-Cheaper (some e) = omega arith

  move-Cheaper : (branch : Branch) (a : Activity) → Cheaper (cost a) (move branch a m)
  unfolding move
  move-Cheaper branch (attempt zero) = load_or_store-Cheaper 0 31 m.current (omega arith)
  move-Cheaper branch (attempt (suc zero)) = load_or_store-Cheaper 1 21 m.current (omega arith)
  move-Cheaper branch (attempt (suc (suc zero))) =
      load_or_store-Cheaper 2 11 m.current (omega arith)
  move-Cheaper branch (attempt (suc (suc (suc n)))) = omega arith
  move-Cheaper branch (loaded t e) = omega arith
  move-Cheaper branch (counted t e n) = check_entry-Cheaper t e n
  move-Cheaper branch (stale t e) = omega arith
  move-Cheaper timer (acquire e wants_mutex true) = omega arith
  move-Cheaper timer (acquire e has_mutex true) = omega arith
  move-Cheaper timer (acquire e signalled true) = omega arith
  move-Cheaper timer (acquire e wants_mutex false) = lock_entry-Cheaper 3 e false (omega arith)
  move-Cheaper signal (acquire e wants_mutex true) = lock_entry-Cheaper 6 e true (omega arith)
  move-Cheaper signal (acquire e wants_mutex false) = lock_entry-Cheaper 3 e false (omega arith)
  move-Cheaper timer (acquire e has_mutex false) = omega arith
  move-Cheaper signal (acquire e has_mutex true) = omega arith
  move-Cheaper signal (acquire e has_mutex false) = omega arith
  move-Cheaper timer (acquire e signalled false) = omega arith
  move-Cheaper signal (acquire e signalled true) = omega arith
  move-Cheaper signal (acquire e signalled false) = omega arith
  move-Cheaper branch (dropping e) =
      omega (arith, delete_if_zero_cost (ref_down (m.entries e).ref_count))
  move-Cheaper branch deleting = omega arith
  move-Cheaper branch unlock_call = load_for_unlock-Cheaper m.current
  move-Cheaper branch (releasing e) = omega arith
  move-Cheaper branch (swapping e n) = swap_entry-Cheaper e n
  move-Cheaper branch (unlocking e n) = unlock_entry-Cheaper e n
  move-Cheaper branch (finishing n) = omega (arith, delete_if_zero_cost n)

-- A run from the start, with the number of its moves and of its calls of `lockMutex` and
-- `unlockMutex`.
pub data Run : ℕ → ℕ → ℕ → System → Type 0 where
  nothing : {moves locks unlocks : ℕ} → moves ≡ 0 → Run moves locks unlocks start
  lock :
      {moves locks unlocks : ℕ} {s : System}
      → Run moves locks unlocks s
      → Run moves (suc locks) unlocks (record s { running = attempt 0 ∷ s.running })
  unlock :
      {moves locks unlocks : ℕ} {s : System}
      → Run moves locks unlocks s
      → Run moves locks (suc unlocks) (record s { running = unlock_call ∷ s.running })
  one_more :
      {moves locks unlocks : ℕ} {s : System} (before : List Activity) (a : Activity)
      (after next : List Activity) (branch : Branch) (m : Shared)
      → Run moves locks unlocks s
      → s.running ≡ before ++ (a ∷ after)
      → move branch a s.shared ≡ moved next m
      → Run (suc moves) locks unlocks (record { shared = m; running = before ++ (next ++ after) })

-- In every interleaving the calls make a bounded number of moves: at most 31 for each call of
-- `lockMutex` with its goroutine, and at most 6 for each call of `unlockMutex`. So no call retries
-- for ever.
pub Run-bounded :
    (moves locks unlocks : ℕ) (s : System)
    → Run moves locks unlocks s
    → moves + costs s.running ≤ 31 * locks + 6 * unlocks
Run-bounded moves locks unlocks s (nothing e) = omega (arith, e)
Run-bounded moves (suc locks) unlocks s (lock {s = r} run) =
    omega (arith, Run-bounded moves locks unlocks r run)
Run-bounded moves locks (suc unlocks) s (unlock {s = r} run) =
    omega (arith, Run-bounded moves locks unlocks r run)
Run-bounded (suc moves) locks unlocks s (one_more {s = r} before a after next branch m run q g) =
    let cheaper = subst (Cheaper (cost a)) g (move-Cheaper r.shared branch a) in
    omega (
      arith,
      Run-bounded moves locks unlocks r run,
      ap costs q,
      costs-append before (a ∷ after),
      costs-append before (next ++ after),
      costs-append next after,
      cheaper,
    )
