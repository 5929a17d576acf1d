-- ===== src/Driver/LockManager/Tests.antt =====
-- Runs of the locks of pkg/driver/lock_manager.go.
use aws_efs_csi_driver.Prelude.{
  ℕ, zero, suc, ◌+◌, ◌*◌, ◌≤◌, ◌≡◌, ◌≢◌, refl, true, List, [], ◌∷◌, ◌++◌, some,
}
use aws_efs_csi_driver.Driver.LockManager.{
  Shared, Activity, attempt, loaded, unlock_call, Outcome, moved, blocked, fatal, Branch, signal,
  move, System, start, call_lock, go, Reach, here, later,
}
use aws_efs_csi_driver.Driver.LockManager.Safety.{bit, owners, Reach-IsSafe}
use aws_efs_csi_driver.Driver.LockManager.Moves.{Run, nothing, lock, one_more, costs, Run-bounded}

-- What happens next: a call, or a move of the activity at a place of the list.
data Event : Type 0 where
  lock_event unlock_event : Event
  move_event : ℕ → Branch → Event

-- The state after a move of the activity at a place.
after_move : List Activity → List Activity → Outcome → System → System
after_move before after (moved next m) s = record {
  shared = m;
  running = before ++ (next ++ after);
}
after_move before after blocked s = s
after_move before after fatal s = s

move_at : ℕ → Branch → List Activity → List Activity → System → System
move_at n branch before [] s = s
move_at zero branch before (a ∷ after) s = after_move before after (move branch a s.shared) s
move_at (suc n) branch before (a ∷ after) s = move_at n branch (before ++ a ∷ []) after s

play : List Event → System → System
play [] s = s
play (lock_event ∷ events) s = play events (record s { running = attempt 0 ∷ s.running })
play (unlock_event ∷ events) s = play events (record s { running = unlock_call ∷ s.running })
play (move_event n branch ∷ events) s = play events (move_at n branch [] s.running s)

moves : ℕ → List Event → List Event
moves zero events = events
moves (suc n) events = move_event 0 signal ∷ moves n events

-- A call takes the lock and gives it back, up to the removal of the entry; a second one takes the
-- entry; the first removes it; a third makes a new entry. The second and the third both hold the
-- lock.
two_holders_run : List Event
unfolding moves
two_holders_run =
    lock_event
    ∷ moves 6 (
        unlock_event
        ∷ moves 4 (
            lock_event
            ∷ moves 6 (move_event 0 signal ∷ move_event 0 signal ∷ lock_event ∷ moves 6 [])))

two_holders :
    let s = (play two_holders_run start).shared in
    ((s.entries 0).is_locked ≡ true) × ((s.entries 1).is_locked ≡ true) × (s.current ≡ some 1)
unfolding play two_holders_run move_at after_move moves move
two_holders = (refl, refl, refl)

abbrev one_call : System
one_call = record start { running = attempt 0 ∷ [] }

abbrev with_entry : Shared
with_entry = record start.shared { current = some 0; next_entry = 1 }

first_move : move signal (attempt 0) start.shared ≡ moved (loaded 0 0 ∷ []) with_entry
unfolding move
first_move = refl

abbrev one_loaded : System
one_loaded = record { shared = with_entry; running = loaded 0 0 ∷ [] }

one_loaded-Reach : Reach one_loaded
one_loaded-Reach =
    later (later here call_lock)
      (go [] (attempt 0) [] (loaded 0 0 ∷ []) signal with_entry refl first_move)

Reach-IsSafe_example :
    (owners 0 one_loaded.running + bit (one_loaded.shared.entries 0).is_locked
      ≡ bit (one_loaded.shared.entries 0).mutex)
    × (move signal (loaded 0 0) one_loaded.shared ≢ fatal)
Reach-IsSafe_example = Reach-IsSafe one_loaded 0 [] (loaded 0 0) [] signal one_loaded-Reach refl

one_loaded-Run : Run 1 1 0 one_loaded
one_loaded-Run =
    one_more [] (attempt 0) [] (loaded 0 0 ∷ []) signal with_entry
      (lock (nothing {unlocks = 0} refl)) refl first_move

Run-bounded_example : 1 + costs one_loaded.running ≤ 31 * 1 + 6 * 0
Run-bounded_example = Run-bounded 1 1 0 one_loaded one_loaded-Run
