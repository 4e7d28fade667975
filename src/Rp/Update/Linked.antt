-- ===== src/Rp/Update/Linked.antt =====
-- The nonces and states that InMemoryRPSessionManager keeps lead to requests that it keeps.
use mathlib.Core.Path.{subst}
use oid4vc.Rp.Hash.{hash_code}
use oid4vc.Prelude.{
  ℕ, String, ◌≡◌, sym, inl, inr, Bool, true, false, Option, some, List, [], ◌∷◌, arith,
  Option-cases, Result-cases, ok, map_get, HasUniqueKeys, string_eq, nat_eq, text_truthy, is_some,
}
use oid4vc.Rp.Manager.{
  SessionState, Manager, Kind, nonce, state, mapping_of, new_manager, get_correlation_id,
  get_from_mapping, request_created, errored, request_retrieved, response_received,
  response_verified,
}
use oid4vc.Rp.Update.{update_request_state, cleanup, delete_state_for_correlation_id}
use oid4vc.Rp.Events.{Event, Step, step, run, handle}
use oid4vc.Rp.Deletion.{HasUniqueMaps, cleanup_lem, delete_state_for_correlation_id_lem}
use oid4vc.Rp.Update.Invariant.{IsLinked, IsLinked-without}
use oid4vc.Rp.Update.Preserved.{update_request_state-IsLinked, update_response_state-IsLinked}

cleanup-IsLinked : (now : ℕ) (m : Manager) → IsLinked m → IsLinked (cleanup now m)
cleanup-IsLinked now m l =
    let (u, p) = cleanup_lem now m l.unique in IsLinked-without _ m (cleanup now m) u p l

handle-IsLinked : (e : Event) (now : ℕ) (m : Manager) → IsLinked m → IsLinked (handle e now m)
unfolding handle
handle-IsLinked (Event.request_created_success e) now m l =
    let updated = update_request_state-IsLinked e request_created m l in
    elim (Result-cases (update_request_state e request_created m).0) [
      | inl (done, returned) ↦
          let q : handle (Event.request_created_success e) now m
              ≡ cleanup now (update_request_state e request_created m).1 =
            ground arith in
          subst IsLinked (sym q) (cleanup-IsLinked now _ updated)
      | inr (x, threw) ↦
          let q : handle (Event.request_created_success e) now m
              ≡ (update_request_state e request_created m).1 =
            ground arith in
          subst IsLinked (sym q) updated
    ]
handle-IsLinked (Event.request_created_failed e) now m l =
    update_request_state-IsLinked e errored _ (cleanup-IsLinked now m l)
handle-IsLinked (Event.request_sent_success e) now m l =
    update_request_state-IsLinked e request_retrieved _ (cleanup-IsLinked now m l)
handle-IsLinked (Event.request_sent_failed e) now m l =
    update_request_state-IsLinked e errored _ (cleanup-IsLinked now m l)
handle-IsLinked (Event.response_received_success e) now m l =
    update_response_state-IsLinked e response_received _ (cleanup-IsLinked now m l)
handle-IsLinked (Event.response_received_failed e) now m l =
    update_response_state-IsLinked e errored _ (cleanup-IsLinked now m l)
handle-IsLinked (Event.response_verified_success e) now m l =
    update_response_state-IsLinked e response_verified m l
handle-IsLinked (Event.response_verified_failed e) now m l =
    update_response_state-IsLinked e errored m l

run-IsLinked_from : (xs : List Step) (m : Manager) → IsLinked m → IsLinked (run xs m)
unfolding run step
run-IsLinked_from [] m l = l
run-IsLinked_from (Step.event e now ∷ xs) m l =
    run-IsLinked_from xs (handle e now m) (handle-IsLinked e now m l)
run-IsLinked_from (Step.deletion id ∷ xs) m l =
    let (u, p) = delete_state_for_correlation_id_lem id m l.unique in
    run-IsLinked_from xs (delete_state_for_correlation_id id m) (IsLinked-without _ m _ u p l)

new_manager-IsLinked : (max_age : Option ℕ) → IsLinked (new_manager max_age)
unfolding new_manager map_get
new_manager-IsLinked max_age = record {
  unique = record {
    requests = tt;
    responses = tt;
    mapping = λ kind. elim kind as (λ k. HasUniqueKeys (mapping_of k (new_manager max_age))) [
      | nonce ↦ tt
      | state ↦ tt
    ];
  };
  linked = λ kind.
      elim kind
        as (λ k.
          (h : ℕ) (id : String)
          → map_get (mapping_of k (new_manager max_age)) h ≡ some id
          → is_some (map_get (new_manager max_age).authorization_requests id) ≡ true) [
            | nonce ↦ λ h id e. cc
            | state ↦ λ h id e. cc
          ];
}

-- After any events and deletions, the maps of a manager that began empty have each key once, and a
-- nonce or a state that leads to a correlation id that is not empty leads to a request: asking for
-- the request by it gives the request that stands under that id, whether or not the caller wants an
-- error where none is found.
pub run-linked :
    (xs : List Step) (max_age : Option ℕ) (kind : Kind) (value id : String) (e : Bool)
    → text_truthy id ≡ true
    → (get_correlation_id kind value false (run xs (new_manager max_age))).0 ≡ ok (some id)
    → HasUniqueMaps (run xs (new_manager max_age))
      × ((s : SessionState) × (map_get (run xs (new_manager max_age)).authorization_requests id
            ≡ some s)
          × (get_from_mapping kind value
                (λ m. m.authorization_requests)
                e
                (run xs (new_manager max_age))
              ≡ (ok (some s), run xs (new_manager max_age))))
unfolding get_correlation_id get_from_mapping
run-linked xs max_age kind value id e truthy found =
    let t : Manager = run xs (new_manager max_age) in
    let l = run-IsLinked_from xs (new_manager max_age) (new_manager-IsLinked max_age) in
    let given : text_truthy value ≡ true = ground arith in
    let leads : map_get (mapping_of kind t) (hash_code value) ≡ some id = ground arith in
    elim (Option-cases (map_get t.authorization_requests id)) [
      | inl nothing ↦ absurd (ground (arith, l.linked kind (hash_code value) id leads))
      | inr (s, there) ↦ (l.unique, (s, there, ground arith))
    ]
