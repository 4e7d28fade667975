-- ===== src/Issuer/Sessions.antt =====
-- The session methods of VcIssuer (packages/issuer/lib/VcIssuer.ts): getCredentialOfferSessionById,
-- deleteCredentialOfferSessionById, processNotification and updateSession.
pub mod Found
pub mod Notified
pub mod Deleted
use oid4vc.Prelude.{
  ℕ, String, ◌⊎◌, inl, inr, false, Option, none, some, List, [], ◌∷◌, if◌then◌else◌, Exec, pure,
  throw, ◌>>=◌, ◌>>◌, ok, err, ◌==◌, string_eq, nat_eq, text?_truthy, get_or, or_else,
}
use oid4vc.StateManager.{StateType}
use oid4vc.StateManager.Memory
use oid4vc.StateManager.Memory.{MemoryStates, memory_states}
use oid4vc.StateManager.Lookup.{LookupError, multi_get_asserted}
use oid4vc.Types.{
  CredentialOfferSession, UriState, uri_state, IssueStatus, error_occurred,
  notification_credential_accepted, notification_credential_deleted,
  notification_credential_failure, NotificationRequest, IssuerError, error, of_lookup, Message,
  no_session_found, invalid_notification_request, invalid_notification_id,
}
use oid4vc.Store.{IssuerStore, Issuer, on_sessions, get_session, set_session, write, read}

-- `k[lookup]` of a URI state's texts.
abbrev pub uri_property : String → UriState → Option String
uri_property lookup k =
    if lookup == "preAuthorizedCode"
    then k.pre_authorized_code
    else if lookup == "issuerState"
    then k.issuer_state
    else if lookup == "correlationId"
    then k.correlation_id
    else if lookup == "uri"
    then some k.uri
    else none

-- A reference has the times of the session that it leads to.
abbrev pub session_ref : (ℕ → CredentialOfferSession) → StateType ℕ
session_ref heap = record {
  created_at = λ r. (heap r).created_at;
  expires_at = λ r. (heap r).expires_at;
}

-- A call of the two-level manager over the URI states and the sessions.
abbrev pub on_lookup :
    {A : Type 0} → Exec (MemoryStates UriState × MemoryStates ℕ) LookupError A → Issuer A
on_lookup m s = elim (m (s.uris, s.credential_offer_sessions)).0 [
  | ok a ↦ (
    ok a,
    record s {
      uris = (m (s.uris, s.credential_offer_sessions)).1.0;
      credential_offer_sessions = (m (s.uris, s.credential_offer_sessions)).1.1;
    },
  )
  | err x ↦ (
    err (of_lookup x),
    record s {
      uris = (m (s.uris, s.credential_offer_sessions)).1.0;
      credential_offer_sessions = (m (s.uris, s.credential_offer_sessions)).1.1;
    },
  )
]

abbrev pub all_lookups : List String
all_lookups = "preAuthorizedCode" ∷ "issuerState" ∷ "correlationId" ∷ []

-- A caller's list of lookups is only tested for being empty. `uris` is always set here.
unfoldable pub get_credential_offer_session_by_id : String → List String → Issuer ℕ
get_credential_offer_session_by_id id [] s =
    (do
      session ← get_session id
      elim session [ none ↦ throw (error no_session_found) | some r ↦ pure r ])
      s
get_credential_offer_session_by_id id (lookup ∷ lookups) s =
    on_lookup
      (multi_get_asserted uri_property (memory_states uri_state)
        (memory_states (session_ref s.heap)) all_lookups id)
      s

-- `if (id && await sessions.has(id)) await sessions.delete(id)`
delete_if_there : Option String → Issuer (Unit {0})
delete_if_there id = do
  there ← (if text?_truthy id then on_sessions (Memory.has (get_or id "")) else pure false)
  if there then (on_sessions (Memory.delete (get_or id "")) >> pure tt) else pure tt

unfoldable pub delete_credential_offer_session_by_id : String → List String → Issuer ℕ
unfolding get_credential_offer_session_by_id delete_if_there
delete_credential_offer_session_by_id id lookups = do
  r ← get_credential_offer_session_by_id id lookups
  session ← read r
  delete_if_there session.pre_authorized_code
  delete_if_there session.issuer_state
  pure r

-- The status that an error or a notification leads to.
unfoldable pub issue_state : Option IssuerError → Option NotificationRequest → Option IssueStatus
issue_state (some x) notification = some error_occurred
issue_state none none = none
issue_state none (some n) =
    if n.event == "credential_accepted"
    then some notification_credential_accepted
    else if n.event == "credential_deleted"
    then some notification_credential_deleted
    else if n.event == "credential_failure"
    then some notification_credential_failure
    else none

-- What `updateSession` writes into a session at the time `now`.
unfoldable pub updated :
    Option IssuerError
    → Option NotificationRequest
    → ℕ
    → CredentialOfferSession
    → CredentialOfferSession
unfolding issue_state
updated x notification now c = record c {
  last_updated_at = now;
  status = get_or (issue_state x notification) c.status;
  error = or_else x c.error;
  notification = or_else notification c.notification;
}

update_one : Option String → Option IssuerError → Option NotificationRequest → ℕ → Issuer (Unit {0})
update_one id x notification now =
    if text?_truthy id
    then (do
      session ← get_session (get_or id "")
      elim session [
        | none ↦ pure tt
        | some r ↦ write r (updated x notification now) >> set_session (get_or id "") r
      ])
    else pure tt

-- `clock 0` and `clock 1` are the times of the two updates.
unfoldable pub update_session :
    (pre_authorized_code issuer_state : Option String)
    → Option IssuerError
    → Option NotificationRequest
    → (ℕ → ℕ)
    → Issuer (Unit {0})
unfolding update_one updated
update_session pre_authorized_code issuer_state x notification clock = do
  update_one pre_authorized_code x notification (clock 0)
  update_one issuer_state x notification (clock 1)

-- The method returns an `Error` where others throw, so that its result is a sum. It throws where
-- the lookup of the session does.
unfoldable pub process_notification :
    (pre_authorized_code issuer_state : Option String)
    → NotificationRequest
    → (ℕ → ℕ)
    → Issuer (Message ⊎ ℕ)
unfolding get_credential_offer_session_by_id update_session
process_notification pre_authorized_code issuer_state notification clock =
    if text?_truthy (or_else pre_authorized_code issuer_state)
    then (do
      r ←
          get_credential_offer_session_by_id (get_or (or_else pre_authorized_code issuer_state) "")
            all_lookups
      session ← read r
      if notification.notification_id == session.notification_id
          then (do
            update_session pre_authorized_code issuer_state none (some notification) clock
            pure (inr r))
          else pure (inl invalid_notification_id))
    else pure (inl invalid_notification_request)
