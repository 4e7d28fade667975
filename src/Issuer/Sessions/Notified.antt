-- ===== src/Issuer/Sessions/Notified.antt =====
-- What updateSession and processNotification of VcIssuer leave in the store.
use oid4vc.Prelude.{
  ℕ, String, ◌≡◌, refl, ap, ◌∙◌, inl, inr, true, false, Option, none, some, List, [], ◌∷◌, arith,
  if◌then◌else◌, Bool-cases, Option-cases, ok, find, ◌==◌, string_eq, nat_eq, text_truthy,
  text?_truthy, get_or, and_then,
}
use oid4vc.StateManager.Memory
use oid4vc.Types.{
  NotificationRequest, IssuerError, CredentialOfferSession, invalid_notification_id, IssueStatus,
  notification_credential_accepted, error_occurred, notification_credential_deleted,
  notification_credential_failure,
}
use oid4vc.Store.{IssuerStore, ref_at, update_cell}
use oid4vc.Store.Laws.{set_session_same}
use oid4vc.Issuer.Sessions.{
  update_one, update_session, updated, process_notification, IssueStatus, issue_state,
  notification_credential_accepted, error_occurred, notification_credential_deleted,
  notification_credential_failure,
}
use oid4vc.Issuer.Sessions.Found.{found_ref, get_by_id_lem}

-- The statuses that the events of a notification stand for.
abbrev pub event_statuses : List (String × IssueStatus)
event_statuses =
    ("credential_accepted", notification_credential_accepted)
    ∷ ("credential_deleted", notification_credential_deleted)
    ∷ ("credential_failure", notification_credential_failure)
    ∷ []

abbrev pub status_after :
    Option IssuerError → Option NotificationRequest → IssueStatus → IssueStatus
status_after (some x) notification before = error_occurred
status_after none none before = before
status_after none (some n) before =
    get_or (and_then (find (λ e. n.event == e.0) event_statuses) (λ e. some e.1)) before

-- A session as it is to be after an error or a notification at the time `now`, field for field.
abbrev pub noted :
    Option IssuerError
    → Option NotificationRequest
    → (now : ℕ) → CredentialOfferSession
    → CredentialOfferSession
noted x notification now c = record {
  created_at = c.created_at;
  expires_at = c.expires_at;
  client_id = c.client_id;
  credential_offer = c.credential_offer;
  credential_data_supplier_input = c.credential_data_supplier_input;
  tx_code = c.tx_code;
  status = status_after x notification c.status;
  error = elim x [ some e ↦ some e | none ↦ c.error ];
  last_updated_at = now;
  notification_id = c.notification_id;
  notification = elim notification [ some n ↦ some n | none ↦ c.notification ];
  issuer_state = c.issuer_state;
  pre_authorized_code = c.pre_authorized_code;
  authorization_code = c.authorization_code;
  redirect_uri = c.redirect_uri;
  status_lists = c.status_lists;
  authorization_details = c.authorization_details;
}

updated-noted :
    (x : Option IssuerError) (notification : Option NotificationRequest) (now : ℕ)
    (c : CredentialOfferSession)
    → updated x notification now c ≡ noted x notification now c
unfolding updated issue_state
updated-noted (some x) (some n) now c = refl
updated-noted (some x) none now c = refl
updated-noted none none now c = refl
updated-noted none (some n) now c = elim (Bool-cases (n.event == "credential_accepted")) [
  | inl e ↦ rw e refl
  | inr e ↦ elim (Bool-cases (n.event == "credential_deleted")) [
    | inl f ↦ rw (e, f) refl
    | inr f ↦ elim (Bool-cases (n.event == "credential_failure")) [
      | inl g ↦ rw (e, f, g) refl
      | inr g ↦ rw (e, f, g) refl
    ]
  ]
]

updated_is_noted :
    (x : Option IssuerError) (notification : Option NotificationRequest) (now : ℕ)
    → updated x notification now ≡ noted x notification now
updated_is_noted x notification now = λ i c. updated-noted x notification now c i

-- The store after an update of the session at an id that may be `undefined`, empty or unknown.
abbrev pub updated_at :
    Option ℕ → (CredentialOfferSession → CredentialOfferSession) → IssuerStore → IssuerStore
updated_at none f s = s
updated_at (some r) f s = record s { heap = update_cell s.heap r f }

abbrev pub ref_if : IssuerStore → Option String → Option ℕ
ref_if s id = if text?_truthy id then ref_at s (get_or id "") else none

module _ (x : Option IssuerError) (notification : Option NotificationRequest) where
  update_one-updated :
      (id : Option String) (now : ℕ) (s : IssuerStore)
      → update_one id x notification now s
        ≡ (ok tt, updated_at (ref_if s id) (updated x notification now) s)
  unfolding update_one Memory.get
  update_one-updated none now s = ground arith
  update_one-updated (some id) now s = elim (Bool-cases (text_truthy id)) [
    | inl truthy ↦ elim (Option-cases (ref_at s id)) [
      | inl missing ↦ ground arith
      | inr (r, found) ↦ ground (
        arith,
        set_session_same id r (updated_at (some r) (updated x notification now) s) truthy found,
      )
    ]
    | inr empty ↦ ground arith
  ]

  update_one_lem :
      (id : Option String) (now : ℕ) (s : IssuerStore)
      → update_one id x notification now s
        ≡ (ok tt, updated_at (ref_if s id) (noted x notification now) s)
  update_one_lem id now s =
      update_one-updated id now s
      ∙ ap
          (λ (f : CredentialOfferSession → CredentialOfferSession).
            (ok tt, updated_at (ref_if s id) f s))
          (updated_is_noted x notification now)

  -- `updateSession` never fails. It writes into the session that stands at the pre-authorized code,
  -- and then into the one at the issuer state; where an id is missing, empty or unknown, it writes
  -- nothing. What it writes are the time, the error or the notification where one is given, and the
  -- status: the one of an error, or else the one that the notification's event stands for, if any.
  -- Everything else in the sessions and in the store stays as it is.
  pub update_session_lem :
      (code state : Option String) (clock : ℕ → ℕ) (s : IssuerStore)
      → update_session code state x notification clock s ≡ (
        ok tt,
        updated_at
            (ref_if s state)
            (noted x notification (clock 1))
            (updated_at (ref_if s code) (noted x notification (clock 0)) s),
      )
  unfolding update_session
  update_session_lem code state clock s = ground (
    arith,
    update_one_lem code (clock 0) s,
    update_one_lem state (clock 1) (updated_at (ref_if s code) (noted x notification (clock 0)) s),
  )

module _ (code : String) (state : Option String) (notification : NotificationRequest)
    (clock : ℕ → ℕ) (s : IssuerStore) (truthy : text_truthy code ≡ true) where
  -- A notification with the id of the found session: `processNotification` returns the session and
  -- writes the notification, and the status that its event stands for, into the sessions that stand
  -- directly at the pre-authorized code and at the issuer state: accepted, deleted or failure by the
  -- name of the event, and for any other event the status that was there.
  pub process_notification_lem :
      (r : ℕ)
      → found_ref s code ≡ some r
      → (notification.notification_id == (s.heap r).notification_id) ≡ true
      → process_notification (some code) state notification clock s ≡ (
        ok (inr r),
        updated_at
            (ref_if s state)
            (noted none (some notification) (clock 1))
            (updated_at (ref_if s (some code)) (noted none (some notification) (clock 0)) s),
      )
  unfolding process_notification
  process_notification_lem r found same = ground (
    arith,
    get_by_id_lem code "preAuthorizedCode" ("issuerState" ∷ "correlationId" ∷ []) s,
    update_session_lem none (some notification) (some code) state clock s,
  )

  -- A notification with another id is answered by an error and changes nothing.
  pub process_notification_wrong_id :
      (r : ℕ)
      → found_ref s code ≡ some r
      → (notification.notification_id == (s.heap r).notification_id) ≡ false
      → process_notification (some code) state notification clock s
        ≡ (ok (inl invalid_notification_id), s)
  unfolding process_notification
  process_notification_wrong_id r found other =
      ground
        (arith, get_by_id_lem code "preAuthorizedCode" ("issuerState" ∷ "correlationId" ∷ []) s)
