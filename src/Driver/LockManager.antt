-- ===== src/Driver/LockManager.antt =====
-- pkg/driver/lock_manager.go: the locks by key, for one key. Every atomic operation of the code is
-- one move; the moves of the calls that run, and of the goroutines that they start, interleave in
-- any order.
pub mod Safety
pub mod Moves
mod Tests
use aws_efs_csi_driver.Prelude.{
  ℕ, zero, suc, ◌+◌, ◌-◌, ◌%◌, ◌^◌, ◌≡◌, Bool, true, false, ◌||◌, List, [], ◌∷◌, ◌++◌, Option, none,
  some, is_some, if◌then◌else◌, leb, ◌==◌,
}

-- `LockManager`; `ref_count` is the bit pattern of the int32.
pub record Entry : Type 0 where
  pub mutex : Bool
  pub ref_count : ℕ
  pub is_locked : Bool

abbrev pub zero_entry : Entry
zero_entry = record { mutex = false; ref_count = 0; is_locked = false }

-- What the map holds at the key, and the entries that were ever made. Those from `next_entry` on are
-- not made yet and are zero values.
pub record Shared : Type 0 where
  pub current : Option ℕ
  pub next_entry : ℕ
  pub entries : ℕ → Entry

abbrev pub update : {A : Type 0} → ℕ → A → (ℕ → A) → ℕ → A
update i a f j = if j == i then a else f j

abbrev pub set_entry : ℕ → Entry → Shared → Shared
set_entry e x m = record m { entries = update e x m.entries }

-- `refCount.Add(1)` and `refCount.Add(-1)`
abbrev pub ref_up : ℕ → ℕ
ref_up n = (n + 1) % 2 ^ 32

abbrev pub ref_down : ℕ → ℕ
ref_down n = (n + (2 ^ 32 - 1)) % 2 ^ 32

-- `currentRef <= 1`, on the signed value
abbrev pub at_most_one : ℕ → Bool
at_most_one n = leb n 1 || leb (2 ^ 31) n

-- How far the goroutine that takes the mutex has come.
pub data Phase : Type 0 where
  wants_mutex has_mutex signalled : Phase

-- Where a call or a goroutine stands: the next atomic operation of it. `attempt` counts the
-- retries; `acquire` is the goroutine, and whether its caller still waits in the `select`.
pub data Activity : Type 0 where
  attempt : ℕ → Activity
  loaded : ℕ → ℕ → Activity
  counted : ℕ → ℕ → ℕ → Activity
  stale : ℕ → ℕ → Activity
  acquire : ℕ → Phase → Bool → Activity
  dropping : ℕ → Activity
  deleting : Activity
  unlock_call : Activity
  releasing : ℕ → Activity
  swapping : ℕ → ℕ → Activity
  unlocking : ℕ → ℕ → Activity
  finishing : ℕ → Activity

-- What a move does: it goes on, it has to wait, it ends the process, as `Unlock` does on a mutex
-- that is not locked.
pub data Outcome : Type 0 where
  moved : List Activity → Shared → Outcome
  blocked fatal : Outcome

-- What `select` takes where both of its branches can be taken.
pub data Branch : Type 0 where
  signal timer : Branch

-- `LoadOrStore`
abbrev pub load_or_store : ℕ → Option ℕ → Shared → Outcome
load_or_store tries (some e) m = moved (loaded tries e ∷ []) m
load_or_store tries none m =
    moved (loaded tries m.next_entry ∷ [])
      (record m { current = some m.next_entry; next_entry = suc m.next_entry })

-- The check that the entry still is in the map, for the first reference.
abbrev pub check_entry : ℕ → ℕ → ℕ → Shared → Outcome
check_entry tries e current_ref m =
    if at_most_one current_ref
    then if is_some m.current
      then moved (acquire e wants_mutex true ∷ []) m
      else moved (stale tries e ∷ []) m
    else moved (acquire e wants_mutex true ∷ []) m

-- `mutex.Lock()`
abbrev pub lock_entry : ℕ → Bool → Entry → Shared → Outcome
lock_entry e waits x m =
    if x.mutex
    then blocked
    else moved (acquire e has_mutex waits ∷ []) (set_entry e (record x { mutex = true }) m)

abbrev pub delete_if_zero : ℕ → List Activity
delete_if_zero zero = deleting ∷ []
delete_if_zero (suc n) = []

-- `refCount.Add(-1)` of a call that has timed out, and of `unlockMutex`.
abbrev pub drop_entry : ℕ → Entry → Shared → Outcome
drop_entry e x m =
    let n = ref_down x.ref_count in
    moved (delete_if_zero n) (set_entry e (record x { ref_count = n }) m)

abbrev pub release_entry : ℕ → Entry → Shared → Outcome
release_entry e x m =
    let n = ref_down x.ref_count in
    moved (swapping e n ∷ []) (set_entry e (record x { ref_count = n }) m)

-- `isLocked.Swap(false)`
abbrev pub swap_entry : ℕ → ℕ → Entry → Shared → Outcome
swap_entry e n x m =
    if x.is_locked
    then moved (unlocking e n ∷ []) (set_entry e (record x { is_locked = false }) m)
    else moved (finishing n ∷ []) m

-- `mutex.Unlock()`
abbrev pub unlock_entry : ℕ → ℕ → Entry → Shared → Outcome
unlock_entry e n x m =
    if x.mutex then moved (finishing n ∷ []) (set_entry e (record x { mutex = false }) m) else fatal

abbrev pub load_for_unlock : Option ℕ → Shared → Outcome
load_for_unlock none m = moved [] m
load_for_unlock (some e) m = moved (releasing e ∷ []) m

-- The next move of `lockMutex` with a timeout, of its goroutine, or of `unlockMutex`. A call that
-- returns leaves no activity.
unfoldable pub move : Branch → Activity → Shared → Outcome
move branch (attempt (suc (suc (suc _)))) m = moved [] m
move branch (attempt tries) m = load_or_store tries m.current m
move branch (loaded tries e) m =
    let x = m.entries e in
    let n = ref_up x.ref_count in
    moved (counted tries e n ∷ []) (set_entry e (record x { ref_count = n }) m)
move branch (counted tries e n) m = check_entry tries e n m
move branch (stale tries e) m =
    let x = m.entries e in
    moved (attempt (suc tries) ∷ []) (set_entry e (record x { ref_count = ref_down x.ref_count }) m)
move timer (acquire e phase true) m = moved (acquire e phase false ∷ dropping e ∷ []) m
move branch (acquire e wants_mutex waits) m = lock_entry e waits (m.entries e) m
move branch (acquire e has_mutex waits) m =
    moved (acquire e signalled waits ∷ [])
      (set_entry e (record (m.entries e) { is_locked = true }) m)
move branch (acquire e signalled waits) m = moved [] m
move branch (dropping e) m = drop_entry e (m.entries e) m
move branch deleting m = moved [] (record m { current = none })
move branch unlock_call m = load_for_unlock m.current m
move branch (releasing e) m = release_entry e (m.entries e) m
move branch (swapping e n) m = swap_entry e n (m.entries e) m
move branch (unlocking e n) m = unlock_entry e n (m.entries e) m
move branch (finishing n) m = moved (delete_if_zero n) m

pub record System : Type 0 where
  pub shared : Shared
  pub running : List Activity

abbrev pub start : System
start = record {
  shared = record { current = none; next_entry = 0; entries = λ _. zero_entry };
  running = [];
}

-- A call of `lockMutex` or of `unlockMutex`, by anyone and at any time, or a move of anything that
-- runs.
pub data Step (s : System) : System → Type 0 where
  call_lock : Step s (record s { running = attempt 0 ∷ s.running })
  call_unlock : Step s (record s { running = unlock_call ∷ s.running })
  go :
      (before : List Activity) (a : Activity) (after next : List Activity) (branch : Branch)
      (m : Shared)
      → s.running ≡ before ++ (a ∷ after)
      → move branch a s.shared ≡ moved next m
      → Step s (record { shared = m; running = before ++ (next ++ after) })

pub data Reach : System → Type 0 where
  here : Reach start
  later : {s t : System} → Reach s → Step s t → Reach t

-- `GetLockCount`, for the key
abbrev pub get_lock_count : Shared → Option ℕ
get_lock_count m = elim m.current [ none ↦ none | some e ↦ some (m.entries e).ref_count ]
