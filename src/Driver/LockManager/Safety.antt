-- ===== src/Driver/LockManager/Safety.antt =====
-- What holds of the locks in every interleaving.
use aws_efs_csi_driver.Prelude.{
  ℕ, zero, suc, ◌+◌, ◌≤◌, ◌≡◌, ◌≢◌, refl, inl, inr, Bool, true, false, List, [], ◌∷◌, ◌++◌, Option,
  none, some, is_some, arith, ◌==◌, Bool-cases, subst, ap,
}
use aws_efs_csi_driver.Driver.LockManager.{
  Entry, Shared, ref_down, at_most_one, wants_mutex, has_mutex, signalled, Activity, attempt,
  loaded, counted, stale, acquire, dropping, deleting, unlock_call, releasing, swapping, unlocking,
  finishing, Outcome, moved, blocked, fatal, Branch, signal, timer, load_or_store, check_entry,
  lock_entry, delete_if_zero, drop_entry, release_entry, swap_entry, unlock_entry, load_for_unlock,
  move, System, Step, call_lock, call_unlock, go, Reach, here, later,
}

abbrev pub bit : Bool → ℕ
bit true = 1
bit false = 0

-- Whether an activity has the mutex of the entry: between `Lock` and the store of `isLocked`, or
-- between the swap of `isLocked` and `Unlock`.
abbrev pub owns : ℕ → Activity → ℕ
owns e (acquire f has_mutex waits) = bit (f == e)
owns e (unlocking f n) = bit (f == e)
owns e _ = 0

abbrev pub owners : ℕ → List Activity → ℕ
owners e [] = 0
owners e (a ∷ s) = owns e a + owners e s

owners-append : (e : ℕ) (xs ys : List Activity) → owners e (xs ++ ys) ≡ owners e xs + owners e ys
owners-append e [] ys = omega arith
owners-append e (x ∷ xs) ys = omega (arith, owners-append e xs ys)

-- The mutex of the entry is locked exactly where one activity has it, or `isLocked` is set; `k`
-- counts the other activities that have it.
abbrev Balanced : ℕ → ℕ → Entry → Type 0
Balanced e k x = k + bit x.is_locked ≡ bit x.mutex

abbrev Keeps : ℕ → ℕ → Outcome → Type 0
Keeps e k (moved next m) = Balanced e (k + owners e next) (m.entries e)
Keeps e k blocked = Unit {0}
Keeps e k fatal = Unit {0}

module _ (e k : ℕ) (m : Shared) where
  load_or_store-Keeps :
      (tries : ℕ) (o : Option ℕ) → Balanced e k (m.entries e) → Keeps e k (load_or_store tries o m)
  load_or_store-Keeps tries none h = ground (arith, h)
  load_or_store-Keeps tries (some f) h = ground (arith, h)

  check_entry-Keeps :
      (tries f n : ℕ) → Balanced e k (m.entries e) → Keeps e k (check_entry tries f n m)
  check_entry-Keeps tries f n h = elim (Bool-cases (at_most_one n)) [
    | inr b ↦ rw b (ground (arith, h))
    | inl b ↦ elim (Bool-cases (is_some m.current)) [
      | inl c ↦ rw b (rw c (ground (arith, h)))
      | inr c ↦ rw b (rw c (ground (arith, h)))
    ]
  ]

  delete_if_zero-owners : (n : ℕ) → owners e (delete_if_zero n) ≡ 0
  delete_if_zero-owners zero = refl
  delete_if_zero-owners (suc n) = refl

  lock_entry-Keeps :
      (f : ℕ) (waits : Bool)
      → Balanced e k (m.entries e)
      → Keeps e k (lock_entry f waits (m.entries f) m)
  lock_entry-Keeps f waits h = elim (Bool-cases (m.entries f).mutex) [
    | inl b ↦ rw b tt
    | inr b ↦ rw b (ground (arith, h, b))
  ]

  drop_entry-Keeps : (f : ℕ) → Balanced e k (m.entries e) → Keeps e k (drop_entry f (m.entries f) m)
  drop_entry-Keeps f h = ground (arith, h, delete_if_zero-owners (ref_down (m.entries f).ref_count))

  release_entry-Keeps :
      (f : ℕ) → Balanced e k (m.entries e) → Keeps e k (release_entry f (m.entries f) m)
  release_entry-Keeps f h = ground (arith, h)

  swap_entry-Keeps :
      (f n : ℕ) → Balanced e k (m.entries e) → Keeps e k (swap_entry f n (m.entries f) m)
  swap_entry-Keeps f n h = elim (Bool-cases (m.entries f).is_locked) [
    | inl b ↦ rw b (ground (arith, h, b))
    | inr b ↦ rw b (ground (arith, h, b))
  ]

  unlock_entry-Keeps :
      (f n : ℕ)
      → Balanced e (k + bit (f == e)) (m.entries e)
      → Keeps e k (unlock_entry f n (m.entries f) m)
  unlock_entry-Keeps f n h = elim (Bool-cases (m.entries f).mutex) [
    | inl b ↦ rw b (ground (arith, h, b))
    | inr b ↦ rw b tt
  ]

  load_for_unlock-Keeps :
      (o : Option ℕ) → Balanced e k (m.entries e) → Keeps e k (load_for_unlock o m)
  load_for_unlock-Keeps none h = ground (arith, h)
  load_for_unlock-Keeps (some f) h = ground (arith, h)

  move-Keeps :
      (branch : Branch) (a : Activity)
      → Balanced e (k + owns e a) (m.entries e)
      → Keeps e k (move branch a m)
  unfolding move
  move-Keeps branch (attempt zero) h = load_or_store-Keeps 0 m.current (omega (arith, h))
  move-Keeps branch (attempt (suc zero)) h = load_or_store-Keeps 1 m.current (omega (arith, h))
  move-Keeps branch (attempt (suc (suc zero))) h =
      load_or_store-Keeps 2 m.current (omega (arith, h))
  move-Keeps branch (attempt (suc (suc (suc n)))) h = omega (arith, h)
  move-Keeps branch (loaded tries f) h = ground (arith, h)
  move-Keeps branch (counted tries f n) h = check_entry-Keeps tries f n (omega (arith, h))
  move-Keeps branch (stale tries f) h = ground (arith, h)
  move-Keeps timer (acquire f wants_mutex true) h = omega (arith, h)
  move-Keeps timer (acquire f has_mutex true) h = omega (arith, h)
  move-Keeps timer (acquire f signalled true) h = omega (arith, h)
  move-Keeps timer (acquire f wants_mutex false) h = lock_entry-Keeps f false (omega (arith, h))
  move-Keeps signal (acquire f wants_mutex waits) h = lock_entry-Keeps f waits (omega (arith, h))
  move-Keeps timer (acquire f has_mutex false) h = ground (arith, h)
  move-Keeps signal (acquire f has_mutex waits) h = ground (arith, h)
  move-Keeps timer (acquire f signalled false) h = omega (arith, h)
  move-Keeps signal (acquire f signalled waits) h = omega (arith, h)
  move-Keeps branch (dropping f) h = drop_entry-Keeps f (omega (arith, h))
  move-Keeps branch deleting h = omega (arith, h)
  move-Keeps branch unlock_call h = load_for_unlock-Keeps m.current (omega (arith, h))
  move-Keeps branch (releasing f) h = release_entry-Keeps f (omega (arith, h))
  move-Keeps branch (swapping f n) h = swap_entry-Keeps f n (omega (arith, h))
  move-Keeps branch (unlocking f n) h = unlock_entry-Keeps f n h
  move-Keeps branch (finishing n) h = omega (arith, h, delete_if_zero-owners n)

abbrev pub OneOwner : System → ℕ → Type 0
OneOwner s e =
    owners e s.running + bit (s.shared.entries e).is_locked ≡ bit (s.shared.entries e).mutex

keeps_go :
    (e : ℕ) (before : List Activity) (a : Activity) (after : List Activity) (branch : Branch)
    (m : Shared) (next : List Activity) (n : Shared)
    → owners e (before ++ (a ∷ after)) + bit (m.entries e).is_locked ≡ bit (m.entries e).mutex
    → move branch a m ≡ moved next n
    → owners e (before ++ (next ++ after)) + bit (n.entries e).is_locked ≡ bit (n.entries e).mutex
keeps_go e before a after branch m next n h g =
    let kept = subst (Keeps e (owners e before + owners e after)) g (
      move-Keeps e (owners e before + owners e after) m branch a
        (omega (arith, h, owners-append e before (a ∷ after)))) in
    omega (arith, kept, owners-append e before (next ++ after), owners-append e next after)

Step-OneOwner : (s t : System) → Step s t → (e : ℕ) → OneOwner s e → OneOwner t e
Step-OneOwner s t call_lock e h = omega (arith, h)
Step-OneOwner s t call_unlock e h = omega (arith, h)
Step-OneOwner s t (go before a after next branch m r g) e h =
    keeps_go e before a after branch s.shared next m
      (subst (λ l. owners e l + bit (s.shared.entries e).is_locked ≡ bit (s.shared.entries e).mutex)
        r h)
      g

Reach-OneOwner : (s : System) → Reach s → (e : ℕ) → OneOwner s e
Reach-OneOwner s here e = refl
Reach-OneOwner s (later {s = r} before p) e = Step-OneOwner r s p e (Reach-OneOwner r before e)

-- A move that ends the process is an `Unlock` of a mutex that is not locked.
unlock_entry-fatal :
    (f n : ℕ) (m : Shared) → unlock_entry f n (m.entries f) m ≡ fatal → (m.entries f).mutex ≡ false
unlock_entry-fatal f n m e = ground (arith, e)

lock_entry-fatal : (f : ℕ) (w : Bool) (m : Shared) → lock_entry f w (m.entries f) m ≢ fatal
lock_entry-fatal f w m e = ground (arith, e)

swap_entry-fatal : (f n : ℕ) (m : Shared) → swap_entry f n (m.entries f) m ≢ fatal
swap_entry-fatal f n m e = ground (arith, e)

check_entry-fatal : (t f n : ℕ) (m : Shared) → check_entry t f n m ≢ fatal
check_entry-fatal t f n m e = ground (arith, e)

load_or_store-fatal : (t : ℕ) (o : Option ℕ) (m : Shared) → load_or_store t o m ≢ fatal
load_or_store-fatal t none m e = cc
load_or_store-fatal t (some f) m e = cc

load_for_unlock-fatal : (o : Option ℕ) (m : Shared) → load_for_unlock o m ≢ fatal
load_for_unlock-fatal none m e = cc
load_for_unlock-fatal (some f) m e = cc

-- Where the mutex of the entry that the activity is about to unlock is locked, no move is fatal.
move-fatal :
    (branch : Branch) (a : Activity) (m : Shared)
    → ((e : ℕ) → owns e a ≤ bit (m.entries e).mutex)
    → move branch a m ≢ fatal
unfolding move
move-fatal branch (attempt zero) m h = load_or_store-fatal 0 m.current m
move-fatal branch (attempt (suc zero)) m h = load_or_store-fatal 1 m.current m
move-fatal branch (attempt (suc (suc zero))) m h = load_or_store-fatal 2 m.current m
move-fatal branch (attempt (suc (suc (suc n)))) m h = λ e. cc
move-fatal branch (loaded tries f) m h = λ e. cc
move-fatal branch (counted tries f n) m h = check_entry-fatal tries f n m
move-fatal branch (stale tries f) m h = λ e. cc
move-fatal timer (acquire f wants_mutex true) m h = λ e. cc
move-fatal timer (acquire f has_mutex true) m h = λ e. cc
move-fatal timer (acquire f signalled true) m h = λ e. cc
move-fatal timer (acquire f wants_mutex false) m h = lock_entry-fatal f false m
move-fatal signal (acquire f wants_mutex waits) m h = lock_entry-fatal f waits m
move-fatal timer (acquire f has_mutex false) m h = λ e. cc
move-fatal signal (acquire f has_mutex waits) m h = λ e. cc
move-fatal timer (acquire f signalled false) m h = λ e. cc
move-fatal signal (acquire f signalled waits) m h = λ e. cc
move-fatal branch (dropping f) m h = λ e. cc
move-fatal branch deleting m h = λ e. cc
move-fatal branch unlock_call m h = load_for_unlock-fatal m.current m
move-fatal branch (releasing f) m h = λ e. cc
move-fatal branch (swapping f n) m h = swap_entry-fatal f n m
move-fatal branch (unlocking f n) m h =
    λ e. absurd (ground (arith, h f, unlock_entry-fatal f n m e))
move-fatal branch (finishing n) m h = λ e. cc

-- However the calls of `lockMutex` and `unlockMutex` for a key interleave, with any timeouts: the
-- mutex of an entry is locked exactly where one activity is between `Lock` and the store of
-- `isLocked` or between the swap of `isLocked` and `Unlock`, or else `isLocked` is set, and never
-- two of these at once. So no move unlocks a mutex that is not locked, which would end the process.
pub Reach-IsSafe :
    (s : System) (e : ℕ) (before : List Activity) (a : Activity) (after : List Activity)
    (branch : Branch)
    → Reach s
    → s.running ≡ before ++ (a ∷ after)
    → (owners e s.running + bit (s.shared.entries e).is_locked ≡ bit (s.shared.entries e).mutex)
      × (move branch a s.shared ≢ fatal)
Reach-IsSafe s e before a after branch r q =
    (Reach-OneOwner s r e, move-fatal branch a s.shared λ f. locked f)
  where
    locked : (f : ℕ) → owns f a ≤ bit (s.shared.entries f).mutex
    locked f =
        omega (arith, Reach-OneOwner s r f, ap (owners f) q, owners-append f before (a ∷ after))
