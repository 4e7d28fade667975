-- ===== src/Rp/Update/Created.antt =====
-- What updateState of InMemoryRPSessionManager does with a request, and that the request is found
-- afterwards by its nonce and by its state.
use oid4vc.Prelude.{
  ℕ, String, ◌≡◌, refl, ◌≢◌, ◌⊎◌, inl, inr, Bool, true, false, Option, none, some, arith, ok,
  map_get, map_set, HasUniqueKeys, map_get-map_set, map_set-HasUniqueKeys, string_eq, nat_eq,
  ==_refl, text_truthy, text?_eq_iff,
}
use oid4vc.Rp.Hash.{hash_code}
use oid4vc.Rp.Manager.{
  Status, request_created, AuthorizationEvent, SessionState, Manager, Kind, nonce, state,
  mapping_of, kind_text, hashcode_for_value, mapping_conflict, update_mapping, entered,
  get_from_mapping, get_request_state_by_nonce, get_request_state_by_state,
}
use oid4vc.Rp.Update.{store_request, update_request, update_request_state, cleanup}
use oid4vc.Rp.Events.{handle, request_created_success}
use oid4vc.Rp.Deletion.{HasUniqueMaps, cleanup_lem, expired, is_dead}
use oid4vc.Rp.Update.Alike.{next_state, tail, tail-AreAlike}

module _ (event : AuthorizationEvent) (status : Status) where
  abbrev pub id : String
  id = event.correlation_id

  -- The manager once the request is stored and both its values are entered.
  abbrev pub with_request : (hn hs : ℕ) → Manager → Manager
  with_request hn hs m = record m {
    authorization_requests = map_set m.authorization_requests id (next_state event status m);
    nonce_mapping = map_set m.nonce_mapping hn id;
    state_mapping = map_set m.state_mapping hs id;
  }

  -- A value of the event that no other session has.
  pub record IsOwn (kind : Kind) (m : Manager) (value : String) : Type 0 where
    pub given : hashcode_for_value event (kind_text kind) ≡ ok (hash_code value)
    pub free :
        (map_get (mapping_of kind m) (hash_code value) ≡ none)
        ⊎ (map_get (mapping_of kind m) (hash_code value) ≡ some id)

  no_conflict :
      (o : Option String) (key : String)
      → (o ≡ none) ⊎ (o ≡ some id)
      → mapping_conflict o key (some id) true ≡ none
  unfolding mapping_conflict
  no_conflict o key (inl nothing) = ground arith
  no_conflict o key (inr same) = ground (arith, text?_eq_iff o (some id))

  update_request-tail :
      (n st : String) (m : Manager)
      → text_truthy id ≡ true
      → IsOwn nonce m n
      → IsOwn state m st
      → update_request event status m
        ≡ tail event status
            (next_state event status m)
            (with_request (hash_code n) (hash_code st) m)
  unfolding update_request tail store_request update_mapping entered
  update_request-tail n st m truthy own_nonce own_state = ground (
    arith,
    own_nonce.given,
    own_state.given,
    no_conflict (map_get m.nonce_mapping (hash_code n)) "nonce" own_nonce.free,
    no_conflict (map_get m.state_mapping (hash_code st)) "state" own_state.free,
  )

  -- The request stands under its id, and its nonce and its state lead to the id.
  pub record IsFoundIn (n st : String) (s : SessionState) (t : Manager) : Type 0 where
    pub request : map_get t.authorization_requests id ≡ some s
    pub nonce_entered : map_get t.nonce_mapping (hash_code n) ≡ some id
    pub state_entered : map_get t.state_mapping (hash_code st) ≡ some id

  update_request_found :
      (n st : String) (m : Manager)
      → text_truthy id ≡ true
      → HasUniqueMaps m
      → IsOwn nonce m n
      → IsOwn state m st
      → (t : Manager) × (update_request_state event status m ≡ (ok tt, t))
        × HasUniqueMaps t
        × IsFoundIn n st (next_state event status m) t
        × (t.authorization_responses ≡ m.authorization_responses)
        × (t.max_age_in_seconds ≡ m.max_age_in_seconds)
  unfolding update_request_state
  update_request_found n st m truthy u own_nonce own_state =
      let w : Manager = with_request (hash_code n) (hash_code st) m in
      let t : Manager = (tail event status (next_state event status m) w).1 in
      let alike = tail-AreAlike event status (next_state event status m) w in
      (
        t,
        ground (arith, update_request-tail n st m truthy own_nonce own_state),
        record {
          requests = rw alike.requests (
              map_set-HasUniqueKeys m.authorization_requests id (next_state event status m)
                u.requests);
          responses = rw alike.responses u.responses;
          mapping = λ kind. elim kind as (λ k. HasUniqueKeys (mapping_of k t)) [
            | nonce ↦
                rw alike.nonces
                  (map_set-HasUniqueKeys m.nonce_mapping (hash_code n) id (u.mapping nonce))
            | state ↦
                rw alike.states
                  (map_set-HasUniqueKeys m.state_mapping (hash_code st) id (u.mapping state))
          ];
        },
        record {
          request = rw (alike.requests, map_get-map_set, ==_refl) refl;
          nonce_entered = rw (alike.nonces, map_get-map_set, ==_refl) refl;
          state_entered = rw (alike.states, map_get-map_set, ==_refl) refl;
        },
        alike.responses,
        alike.max_age,
      )

  get_found :
      (n st : String) (s : SessionState) (t : Manager) (error_on_not_found : Bool)
      → text_truthy id ≡ true
      → text_truthy n ≡ true
      → text_truthy st ≡ true
      → IsFoundIn n st s t
      → (get_request_state_by_nonce n error_on_not_found t ≡ (ok (some s), t))
        × (get_request_state_by_state st error_on_not_found t ≡ (ok (some s), t))
  unfolding get_from_mapping
  get_found n st s t e ti tn ts found = (
    ground (arith, found.request, found.nonce_entered),
    ground (arith, found.request, found.state_entered),
  )

module _ (event : AuthorizationEvent) (now : ℕ) (n st : String) (m : Manager) where
  abbrev pub created_state : SessionState
  created_state = next_state event request_created m

  -- An event of a created request, whose nonce and state no other session has: after its handler
  -- the request is found both by its nonce and by its state, in the state that the event describes,
  -- provided that neither it nor a response of its id is too old when the handler cleans up.
  pub request_created_found :
      (error_on_not_found : Bool)
      → text_truthy event.correlation_id ≡ true
      → text_truthy n ≡ true
      → text_truthy st ≡ true
      → HasUniqueMaps m
      → IsOwn event request_created nonce m n
      → IsOwn event request_created state m st
      → expired m.max_age_in_seconds now (some created_state) ≡ false
      → expired m.max_age_in_seconds now (map_get m.authorization_responses event.correlation_id)
        ≡ false
      → (get_request_state_by_nonce n error_on_not_found
            (handle (request_created_success event) now m)
          ≡ (ok (some created_state), handle (request_created_success event) now m))
        × (get_request_state_by_state st error_on_not_found
              (handle (request_created_success event) now m)
            ≡ (ok (some created_state), handle (request_created_success event) now m))
  unfolding handle
  request_created_found e ti tn ts u own_nonce own_state fresh fresh_response =
      let (t, done, ut, found, responses, max_age) =
        update_request_found event request_created n st m ti u own_nonce own_state in
      let (_, kept) = cleanup_lem now t ut in
      let alive : is_dead now t event.correlation_id ≡ false =
        ground (arith, found.request, responses, max_age) in
      let same : handle (request_created_success event) now m ≡ cleanup now t = ground arith in
      rw same (
        get_found event request_created n st created_state (cleanup now t) e ti tn ts (record {
          request = rw (kept.requests event.correlation_id, alive) found.request;
          nonce_entered = ground (arith, kept.mapping nonce (hash_code n), found.nonce_entered);
          state_entered = ground (arith, kept.mapping state (hash_code st), found.state_entered);
        }))

-- If the nonce of a request is already entered for another session, by the same text or by one
-- with the same hash, the update stops there without an error: the request is stored under its id,
-- but neither its nonce nor its state leads to it, and its nonce still leads to the other session.
pub nonce_taken :
    (event : AuthorizationEvent) (status : Status) (n other : String) (m : Manager)
    → text_truthy event.correlation_id ≡ true
    → text_truthy other ≡ true
    → hashcode_for_value event "nonce" ≡ ok (hash_code n)
    → map_get m.nonce_mapping (hash_code n) ≡ some other
    → other ≢ event.correlation_id
    → update_request_state event status m ≡ (
      ok tt,
      record m {
        authorization_requests =
            map_set m.authorization_requests event.correlation_id (next_state event status m);
      },
    )
unfolding update_request_state store_request update_mapping mapping_conflict
nonce_taken event status n other m ti to given taken different =
    ground (arith, text?_eq_iff (some other) (some event.correlation_id))
