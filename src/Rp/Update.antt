-- ===== src/Rp/Update.antt =====
-- updateState, deleteStateForCorrelationId and cleanup of InMemoryRPSessionManager
-- (packages/siop-oid4vp/lib/rp/InMemoryRPSessionManager.ts).
pub mod Alike
pub mod Created
pub mod Invariant
pub mod Linked
pub mod Preserved
use oid4vc.Prelude.{
  ℕ, ◌+◌, ◌*◌, String, Bool, true, ◌&&◌, Option, none, some, List, [], ◌∷◌, ◌++◌, ltb,
  if◌then◌else◌, pure, gets, ◌>>=◌, ◌>>◌, modify, ok, err, any, map_get, map_set, map_delete, ◌==◌,
  string_eq, nat_eq, text_truthy, text?_truthy, nat?_truthy, get_or, or_else, and_then,
}
use oid4vc.Rp.Manager.{
  Status, same_status, AuthorizationEvent, SessionState, StatusBody, Manager, CallbackOpts,
  OnManager, nonce, state, update_mapping, no_correlation_id,
}

-- `eventState`, spread over what was there before: a query id, a subject and times always come from
-- the event, `undefined` included; the redirect URI and the error only if the event has them.
unfoldable pub request_state :
    AuthorizationEvent → Status → (query_id : Option String) → Option SessionState → SessionState
request_state event status query_id previous = record {
  correlation_id = event.correlation_id;
  query_id = query_id;
  subject = event.subject;
  response_redirect_uri =
      if text?_truthy event.response_redirect_uri
      then event.response_redirect_uri
      else and_then previous (λ p. p.response_redirect_uri);
  error = or_else event.error (and_then previous (λ p. p.error));
  status = status;
  timestamp = event.timestamp;
  last_updated = event.timestamp;
}

unfoldable pub response_state :
    AuthorizationEvent → Status → (query_id : Option String) → SessionState
response_state event status query_id = record {
  correlation_id = event.correlation_id;
  query_id = query_id;
  subject = event.subject;
  response_redirect_uri = none;
  error = event.error;
  status = status;
  timestamp = event.timestamp;
  last_updated = event.timestamp;
}

abbrev pub event_query_id : AuthorizationEvent → Manager → Option String
event_query_id event m = or_else event.query_id (map_get m.query_id_mapping event.correlation_id)

unfoldable pub store_request : AuthorizationEvent → SessionState → OnManager (Unit {0})
store_request event s = modify (λ m. record m {
  authorization_requests = map_set m.authorization_requests event.correlation_id s;
})

unfoldable pub store_response : AuthorizationEvent → SessionState → OnManager (Unit {0})
store_response event s = modify (λ m. record m {
  authorization_responses = map_set m.authorization_responses event.correlation_id s;
})

pub store_query_id : AuthorizationEvent → OnManager (Unit {0})
store_query_id event = modify (λ m.
    if text?_truthy event.query_id
    then record m {
      query_id_mapping = map_set m.query_id_mapping event.correlation_id (get_or event.query_id "");
    }
    else m)

pub store_callback : AuthorizationEvent → OnManager (Unit {0})
store_callback event = elim event.callback [
  | none ↦ pure tt
  | some callback ↦ modify (λ m. record m {
    callback_mapping = map_set m.callback_mapping event.correlation_id callback;
  })
]

abbrev pub wants : Option (List Status) → Status → Bool
wants none status = true
wants (some l) status = any (same_status status) l

-- `executeCallback`
execute_callback : String → SessionState → OnManager (Unit {0})
execute_callback url s = modify (λ m. record m {
  posted =
      m.posted
      ++ record {
        url = url;
        status = s.status;
        correlation_id = s.correlation_id;
        query_id = s.query_id;
        last_updated = s.last_updated;
        message = s.error;
      }
        ∷ [];
})

pub trigger : AuthorizationEvent → Status → SessionState → OnManager (Unit {0})
unfolding execute_callback
trigger event status s = do
  callback ← gets (λ m. map_get m.callback_mapping event.correlation_id)
  elim callback [
    | none ↦ pure tt
    | some c ↦ if wants c.status status then execute_callback c.url s else pure tt
  ]

-- The body of the `try` for a request.
unfoldable pub update_request : AuthorizationEvent → Status → OnManager (Unit {0})
unfolding request_state store_request store_query_id store_callback trigger update_mapping
update_request event status = do
  query_id ← gets (event_query_id event)
  previous ← gets (λ m. map_get m.authorization_requests event.correlation_id)
  store_request event (request_state event status query_id previous)
  update_mapping nonce event (some event.correlation_id) true
  update_mapping state event (some event.correlation_id) true
  store_query_id event
  store_callback event
  trigger event status (request_state event status query_id previous)

-- The body of the `try` for a response.
unfoldable pub update_response : AuthorizationEvent → Status → OnManager (Unit {0})
unfolding response_state store_response trigger
update_response event status = do
  query_id ← gets (event_query_id event)
  store_response event (response_state event status query_id)
  trigger event status (response_state event status query_id)

-- `try { … } catch (error) { console.log(…) }`
abbrev pub logged : OnManager (Unit {0}) → OnManager (Unit {0})
logged body m = (ok tt, (body m).1)

abbrev pub for_id : AuthorizationEvent → OnManager (Unit {0}) → OnManager (Unit {0})
for_id event body m =
    if text_truthy event.correlation_id then body m else (err no_correlation_id, m)

-- `updateState('request', …)` and `updateState('response', …)`
unfoldable pub update_request_state : AuthorizationEvent → Status → OnManager (Unit {0})
unfolding update_request
update_request_state event status = for_id event (logged (update_request event status))

unfoldable pub update_response_state : AuthorizationEvent → Status → OnManager (Unit {0})
unfolding update_response
update_response_state event status = for_id event (logged (update_response event status))

-- `getKeysForCorrelationId`
unfoldable pub keys_for : List (ℕ × String) → String → List ℕ
keys_for [] correlation_id = []
keys_for ((k, v) ∷ mapping) correlation_id =
    if v == correlation_id
    then k ∷ keys_for mapping correlation_id
    else keys_for mapping correlation_id

unfoldable pub delete_keys : List ℕ → List (ℕ × String) → List (ℕ × String)
delete_keys [] mapping = mapping
delete_keys (k ∷ ks) mapping = delete_keys ks (map_delete mapping k)

-- `cleanMappingForCorrelationId`
unfoldable pub clean_mapping : List (ℕ × String) → String → List (ℕ × String)
unfolding keys_for delete_keys
clean_mapping mapping correlation_id = delete_keys (keys_for mapping correlation_id) mapping

unfoldable pub delete_state_for_correlation_id : String → Manager → Manager
unfolding clean_mapping
delete_state_for_correlation_id correlation_id m = record m {
  nonce_mapping = clean_mapping m.nonce_mapping correlation_id;
  state_mapping = clean_mapping m.state_mapping correlation_id;
  authorization_requests = map_delete m.authorization_requests correlation_id;
  authorization_responses = map_delete m.authorization_responses correlation_id;
}

-- `lastUpdated || timestamp`
abbrev pub last_time : SessionState → ℕ
last_time s = if nat?_truthy (some s.last_updated) then s.last_updated else s.timestamp

abbrev pub is_too_old : (max_age_in_seconds now : ℕ) → SessionState → Bool
is_too_old max_age_in_seconds now s =
    nat?_truthy (some (max_age_in_seconds * 1000))
    && ltb (last_time s + max_age_in_seconds * 1000) now

-- One of the loops of `cleanup`, over a copy of the entries.
unfoldable pub clean_entries : ℕ → List (String × SessionState) → Manager → Manager
unfolding delete_state_for_correlation_id
clean_entries now [] m = m
clean_entries now ((correlation_id, s) ∷ rest) m = clean_entries now rest (
    if is_too_old m.max_age_in_seconds now s
    then delete_state_for_correlation_id correlation_id m
    else m)

unfoldable pub cleanup : ℕ → Manager → Manager
unfolding clean_entries
cleanup now m =
    let requests_cleaned = clean_entries now m.authorization_requests m in
    clean_entries now requests_cleaned.authorization_responses requests_cleaned
