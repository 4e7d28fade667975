-- ===== src/Rp/Manager.antt =====
-- InMemoryRPSessionManager (packages/siop-oid4vp/lib/rp/InMemoryRPSessionManager.ts), with the states
-- of types/SessionManager.ts and the events of types/Events.ts. Objects with text or number keys are
-- maps; what `console.log` gets is left out, and what `post` sends is kept in a list.
use oid4vc.Types.{Opaque}
use oid4vc.Prelude.{
  ℕ, String, Bool, true, false, not, ◌&&◌, Option, none, some, List, [], if◌then◌else◌, Exec, gets,
  ◌>>=◌, Result, ok, err, map_get, map_set, map_delete, string_eq, nat_eq, text_truthy,
  text?_truthy, get_or, text?_eq,
}
use oid4vc.Rp.Hash.{hash_code}

pub data Status : Type 0 where
  request_created request_retrieved response_received response_verified errored : Status

abbrev pub same_status : Status → Status → Bool
same_status request_created request_created = true
same_status request_retrieved request_retrieved = true
same_status response_received response_received = true
same_status response_verified response_verified = true
same_status errored errored = true
same_status _ _ = false

-- A request or a response: the texts among its merged properties, none where merging them throws.
pub record Subject : Type 0 where
  pub merged : Option (List (String × String))
  pub content : Opaque

pub record CallbackOpts : Type 0 where
  pub url : String
  pub status : Option (List Status)

pub record AuthorizationEvent : Type 0 where
  pub correlation_id : String
  pub query_id : Option String
  pub subject : Option Subject
  pub callback : Option CallbackOpts
  pub response_redirect_uri : Option String
  pub error : Option String
  pub timestamp : ℕ

-- AuthorizationRequestState, and AuthorizationResponseState, which has no redirect URI.
pub record SessionState : Type 0 where
  pub correlation_id : String
  pub query_id : Option String
  pub subject : Option Subject
  pub response_redirect_uri : Option String
  pub error : Option String
  pub status : Status
  pub timestamp : ℕ
  pub last_updated : ℕ

-- The body that `executeCallback` posts.
pub record StatusBody : Type 0 where
  pub url : String
  pub status : Status
  pub correlation_id : String
  pub query_id : Option String
  pub last_updated : ℕ
  pub message : Option String

pub record Manager : Type 0 where
  pub authorization_requests : List (String × SessionState)
  pub authorization_responses : List (String × SessionState)
  pub nonce_mapping : List (ℕ × String)
  pub state_mapping : List (ℕ × String)
  pub callback_mapping : List (String × CallbackOpts)
  pub query_id_mapping : List (String × String)
  pub max_age_in_seconds : ℕ
  pub posted : List StatusBody

pub data ManagerError : Type 0 where
  no_correlation_id no_type_or_value : ManagerError
  -- a property read of an `undefined` subject, or a subject that cannot be merged
  no_subject invalid_subject : ManagerError
  no_value_for_key : String → ManagerError
  mapping_exists : (key : String) → ManagerError
  value_changed : (key existing value : String) → ManagerError
  not_found : (kind value : String) → ManagerError

abbrev pub OnManager : Type 0 → Type 0
OnManager A = Exec Manager ManagerError A

-- The constructor; the argument is `opts?.maxAgeInSeconds`.
unfoldable pub new_manager : Option ℕ → Manager
new_manager max_age_in_seconds = record {
  authorization_requests = [];
  authorization_responses = [];
  nonce_mapping = [];
  state_mapping = [];
  callback_mapping = [];
  query_id_mapping = [];
  max_age_in_seconds = get_or max_age_in_seconds 300;
  posted = [];
}

-- Which of the two mappings a key stands for.
pub data Kind : Type 0 where
  nonce state : Kind

abbrev pub kind_text : Kind → String
kind_text nonce = "nonce"
kind_text state = "state"

abbrev pub mapping_of : Kind → Manager → List (ℕ × String)
mapping_of nonce m = m.nonce_mapping
mapping_of state m = m.state_mapping

abbrev pub with_mapping : Kind → Manager → List (ℕ × String) → Manager
with_mapping nonce m l = record m { nonce_mapping = l }
with_mapping state m l = record m { state_mapping = l }

-- `getCorrelationIdImpl` for a nonce or a state.
unfoldable pub get_correlation_id :
    Kind → String → (error_on_not_found : Bool) → OnManager (Option String)
get_correlation_id kind value error_on_not_found m =
    if not (text_truthy value)
    then (err no_type_or_value, m)
    else if not (text?_truthy (map_get (mapping_of kind m) (hash_code value))) && error_on_not_found
    then (err (not_found (kind_text kind) value), m)
    else (ok (map_get (mapping_of kind m) (hash_code value)), m)

unfoldable pub found_state :
    (kind : String)
    → Option SessionState
    → (error_on_not_found : Bool) → (correlation_id : String)
    → Result ManagerError (Option SessionState)
found_state kind none true correlation_id = err (not_found kind correlation_id)
found_state kind none false correlation_id = ok none
found_state kind (some result) error_on_not_found correlation_id = ok (some result)

-- `getFromMapping` over one of the two objects of states. An `undefined` correlation id is read as
-- the key "undefined".
unfoldable pub get_from_mapping :
    Kind
    → String
    → (Manager → List (String × SessionState))
    → (error_on_not_found : Bool) → OnManager (Option SessionState)
unfolding get_correlation_id found_state
get_from_mapping kind value states error_on_not_found = do
  correlation_id ← get_correlation_id kind value error_on_not_found
  found ← gets (λ m. map_get (states m) (get_or correlation_id "undefined"))
  λ m.
      (found_state (kind_text kind) found error_on_not_found (get_or correlation_id "undefined"), m)

-- `getFromMapping` where the value is a correlation id.
unfoldable pub get_by_correlation_id :
    String
    → (Manager → List (String × SessionState))
    → (error_on_not_found : Bool) → OnManager (Option SessionState)
unfolding found_state
get_by_correlation_id value states error_on_not_found m =
    if text_truthy value
    then (found_state "correlationId" (map_get (states m) value) error_on_not_found value, m)
    else (err no_type_or_value, m)

abbrev pub get_request_state_by_nonce : String → Bool → OnManager (Option SessionState)
get_request_state_by_nonce value = get_from_mapping nonce value (λ m. m.authorization_requests)

abbrev pub get_request_state_by_state : String → Bool → OnManager (Option SessionState)
get_request_state_by_state value = get_from_mapping state value (λ m. m.authorization_requests)

-- `event.subject.getMergedProperty(key)`
unfoldable pub merged_property : Option Subject → String → Result ManagerError (Option String)
merged_property none key = err no_subject
merged_property (some subject) key = elim subject.merged [
  | none ↦ err invalid_subject
  | some properties ↦ ok (map_get properties key)
]

-- `hashcodeForValue`
unfoldable pub hashcode_for_value : AuthorizationEvent → String → Result ManagerError ℕ
unfolding merged_property
hashcode_for_value event key = elim (merged_property event.subject key) [
  | err x ↦ err x
  | ok value ↦
      if text?_truthy value then ok (hash_code (get_or value "")) else err (no_value_for_key key)
]

-- What `updateMapping` finds wrong with an entry that is there.
unfoldable pub mapping_conflict :
    Option String → (key : String) → Option String → (allow_existing : Bool) → Option ManagerError
mapping_conflict existing key value allow_existing =
    if text?_truthy existing
    then (if not allow_existing
        then some (mapping_exists key)
        else if text?_truthy value && not (text?_eq existing value)
        then some (value_changed key (get_or existing "") (get_or value ""))
        else none)
    else none

unfoldable pub entered : List (ℕ × String) → ℕ → Option String → List (ℕ × String)
entered mapping hash value =
    if text?_truthy value then map_set mapping hash (get_or value "") else map_delete mapping hash

unfoldable pub update_mapping :
    Kind → AuthorizationEvent → Option String → (allow_existing : Bool) → OnManager (Unit {0})
unfolding hashcode_for_value mapping_conflict entered
update_mapping kind event value allow_existing m =
    elim (hashcode_for_value event (kind_text kind)) [
      | err x ↦ (err x, m)
      | ok hash ↦
          elim (mapping_conflict (map_get (mapping_of kind m) hash) (kind_text kind) value
            allow_existing) [
              | some x ↦ (err x, m)
              | none ↦ (ok tt, with_mapping kind m (entered (mapping_of kind m) hash value))
            ]
    ]
