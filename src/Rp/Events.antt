-- ===== src/Rp/Events.antt =====
-- The event handlers of InMemoryRPSessionManager
-- (packages/siop-oid4vp/lib/rp/InMemoryRPSessionManager.ts). A handler that throws leaves the state
-- as it is at that point; nothing awaits the handlers.
use oid4vc.Prelude.{ℕ, String, List, [], ◌∷◌, Result, ok, err}
use oid4vc.Rp.Manager.{
  Manager, AuthorizationEvent, request_created, request_retrieved, response_received,
  response_verified, errored, ManagerError,
}
use oid4vc.Rp.Update.{
  update_request_state, update_response_state, cleanup, delete_state_for_correlation_id,
}

-- The events that the manager listens to.
pub data Event : Type 0 where
  request_created_success request_created_failed : AuthorizationEvent → Event
  request_sent_success request_sent_failed : AuthorizationEvent → Event
  response_received_success response_received_failed : AuthorizationEvent → Event
  response_verified_success response_verified_failed : AuthorizationEvent → Event

-- The first handler cleans up after the update, unless that throws; those of verified responses do
-- not clean up; the others do so first.
clean_if_done : ℕ → Result ManagerError (Unit {0}) → Manager → Manager
clean_if_done now (ok _) m = cleanup now m
clean_if_done now (err x) m = m

unfoldable pub handle : Event → (now : ℕ) → Manager → Manager
unfolding clean_if_done
handle (request_created_success e) now m =
    clean_if_done now (update_request_state e request_created m).0
      (update_request_state e request_created m).1
handle (request_created_failed e) now m = (update_request_state e errored (cleanup now m)).1
handle (request_sent_success e) now m = (update_request_state e request_retrieved (cleanup now m)).1
handle (request_sent_failed e) now m = (update_request_state e errored (cleanup now m)).1
handle (response_received_success e) now m =
    (update_response_state e response_received (cleanup now m)).1
handle (response_received_failed e) now m = (update_response_state e errored (cleanup now m)).1
handle (response_verified_success e) now m = (update_response_state e response_verified m).1
handle (response_verified_failed e) now m = (update_response_state e errored m).1

-- A history of events, each with the time of its handler, and of deletions that a caller asks for.
pub data Step : Type 0 where
  event : Event → (now : ℕ) → Step
  deletion : (correlation_id : String) → Step

unfoldable pub step : Step → Manager → Manager
step (event e now) m = handle e now m
step (deletion correlation_id) m = delete_state_for_correlation_id correlation_id m

unfoldable pub run : List Step → Manager → Manager
unfolding step
run [] m = m
run (x ∷ xs) m = run xs (step x m)
