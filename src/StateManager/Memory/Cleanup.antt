-- ===== src/StateManager/Memory/Cleanup.antt =====
-- The cleanup timer of MemoryStates (startCleanupRoutine, stopCleanupRoutine) and its two-level
-- version in LookupStateManager, with the event loop's intervals as explicit state.
use oid4vc.Prelude.{
  ℕ, ◌+◌, ◌≡◌, refl, Bool, true, false, Option, none, some, List, [], ◌∷◌, arith, map_get, map_has,
  map_set, map_delete, HasUniqueKeys, map_get-map_set, map_has-map_set, map_has-map_delete,
  map_set-HasUniqueKeys, map_delete-HasUniqueKeys, string_eq, nat_eq, ==_refl, get_or,
}

-- The intervals that run, each with its period, and the next id that `setInterval` gives. The ids
-- are what a browser gives; Node's are objects, and both are true.
pub record Intervals : Type 0 where
  pub next_id : ℕ
  pub running : List (ℕ × ℕ)

pub set_interval : ℕ → Intervals → ℕ × Intervals
set_interval period w =
    (w.next_id, record w { next_id = w.next_id + 1; running = map_set w.running w.next_id period })

pub clear_interval : ℕ → Intervals → Intervals
clear_interval id w = record w { running = map_delete w.running id }

-- A manager's `cleanupIntervalId`, `undefined` at first.
abbrev pub Cleanup : Type 0
Cleanup = Option ℕ

unfoldable pub start_cleanup_routine : Option ℕ → Cleanup × Intervals → Cleanup × Intervals
unfolding set_interval
start_cleanup_routine timeout (none, w) =
    (some (set_interval (get_or timeout 30000) w).0, (set_interval (get_or timeout 30000) w).1)
start_cleanup_routine timeout (some id, w) = (some id, w)

unfoldable pub stop_cleanup_routine : Cleanup × Intervals → Cleanup × Intervals
unfolding clear_interval
stop_cleanup_routine (none, w) = (none, w)
stop_cleanup_routine (some id, w) = (some id, clear_interval id w)

-- A LookupStateManager starts and stops the routines of both its managers.
unfoldable pub start_both :
    Option ℕ → (Cleanup × Cleanup) × Intervals → (Cleanup × Cleanup) × Intervals
start_both timeout ((keys, values), w) =
    let (keys', w') = start_cleanup_routine timeout (keys, w) in
    let (values', w'') = start_cleanup_routine timeout (values, w') in ((keys', values'), w'')

unfoldable pub stop_both : (Cleanup × Cleanup) × Intervals → (Cleanup × Cleanup) × Intervals
stop_both ((keys, values), w) =
    let (keys', w') = stop_cleanup_routine (keys, w) in
    let (values', w'') = stop_cleanup_routine (values, w') in ((keys', values'), w'')

-- Whether the manager's interval runs.
pub is_cleaning : Cleanup × Intervals → Bool
is_cleaning (none, w) = false
is_cleaning (some id, w) = map_has w.running id

-- A manager that starts its routine once has one interval running, with the given period; a second
-- start changes nothing; a stop ends it.
pub start_stop :
    (timeout later : Option ℕ) (w : Intervals)
    → HasUniqueKeys w.running
    → map_get w.running w.next_id ≡ none
    → (is_cleaning (start_cleanup_routine timeout (none, w)) ≡ true)
      × (map_get (start_cleanup_routine timeout (none, w)).1.running w.next_id
          ≡ some (get_or timeout 30000))
      × (start_cleanup_routine later (start_cleanup_routine timeout (none, w))
          ≡ start_cleanup_routine timeout (none, w))
      × (is_cleaning (stop_cleanup_routine (start_cleanup_routine timeout (none, w))) ≡ false)
unfolding start_cleanup_routine stop_cleanup_routine is_cleaning
start_stop timeout later w unique fresh = (
  rw map_has-map_set (rw ==_refl),
  rw map_get-map_set (rw ==_refl),
  refl,
  rw (map_has-map_delete _ w.next_id w.next_id (map_set-HasUniqueKeys w.running w.next_id _ unique))
      (rw ==_refl),
)

pub data Call : Type 0 where
  start : Option ℕ → Call
  stop : Call

unfoldable pub call : Call → Cleanup × Intervals → Cleanup × Intervals
call (start timeout) c = start_cleanup_routine timeout c
call stop c = stop_cleanup_routine c

unfoldable pub calls : List Call → Cleanup × Intervals → Cleanup × Intervals
unfolding call
calls [] c = c
calls (x ∷ xs) c = calls xs (call x c)

calls_idle :
    (xs : List Call) (id : ℕ) (w : Intervals)
    → HasUniqueKeys w.running
    → map_has w.running id ≡ false
    → is_cleaning (calls xs (some id, w)) ≡ false
unfolding calls start_cleanup_routine stop_cleanup_routine is_cleaning
calls_idle [] id w unique idle = idle
calls_idle (start timeout ∷ xs) id w unique idle = calls_idle xs id w unique idle
calls_idle (stop ∷ xs) id w unique idle =
    calls_idle xs id (clear_interval id w) (map_delete-HasUniqueKeys w.running id unique)
      (ground (arith, map_has-map_delete w.running id id unique))

-- Once a manager has stopped its routine it never runs again: starts and further stops, however
-- many, leave the manager without a running interval.
pub stopped_for_good :
    (xs : List Call) (id : ℕ) (w : Intervals)
    → HasUniqueKeys w.running
    → is_cleaning (calls (stop ∷ xs) (some id, w)) ≡ false
unfolding calls stop_cleanup_routine
stopped_for_good xs id w unique =
    calls_idle xs id (clear_interval id w) (map_delete-HasUniqueKeys w.running id unique)
      (ground (arith, map_has-map_delete w.running id id unique, ==_refl id))
