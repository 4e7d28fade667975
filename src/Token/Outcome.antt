-- ===== src/Token/Outcome.antt =====
-- What assertValidAccessTokenRequest returns in the pre-authorized code flow, and what it leaves in
-- the store, on every branch.
use oid4vc.Prelude.{
  ℕ, String, ◌≡◌, refl, sym, ap, ◌∙◌, ◌≢◌, ◌↔◌, inl, inr, true, false, Option, none, some, List,
  arith, Bool-cases, Option-cases, Result, ok, err, text_truthy, text?_truthy,
}
use oid4vc.StateManager.{state_missing}
use oid4vc.Types.{
  pre_authorized_code, AccessTokenRequest, StoredAuthorizationRequest, CredentialOfferSession,
  access_token_requested, IssuerError, of_state,
}
use oid4vc.Store.{IssuerStore, ref_at, update_cell}
use oid4vc.Store.Laws.{get_asserted_found, get_asserted_missing, set_session_same}
use oid4vc.Token.Checks.{pre_auth_error}
use oid4vc.Token.Accepted.{IsEntitled, pre_auth_error_iff}
use oid4vc.Token.Request.{pre_authorized_flow, assert_valid_access_token_request}

-- A session that a token request has reached.
abbrev pub requested : ℕ → CredentialOfferSession → CredentialOfferSession
requested now c = record c { status = access_token_requested; last_updated_at = now }

abbrev pub requested_at : ℕ → ℕ → IssuerStore → IssuerStore
requested_at r now s = record s { heap = update_cell s.heap r (requested now) }

abbrev pub ok_or_error : ℕ → Option IssuerError → Result IssuerError ℕ
ok_or_error r none = ok r
ok_or_error r (some x) = err x

pre_auth_error-requested :
    (request : AccessTokenRequest) (c : CredentialOfferSession) (duration now later : ℕ)
    → pre_auth_error request (requested now c) duration later
      ≡ pre_auth_error request c duration later
unfolding pre_auth_error
pre_auth_error-requested request c duration now later = refl

module _ (request : AccessTokenRequest) (duration : ℕ)
    (stored : Option (List (String × StoredAuthorizationRequest))) (uuid : String) (clock : ℕ → ℕ)
    (s : IssuerStore) (pre : request.grant_type ≡ pre_authorized_code) where
  abbrev pub outcome : Result IssuerError ℕ × IssuerStore
  outcome = assert_valid_access_token_request request duration stored uuid clock s

  flow_found :
      (code : String) (r : ℕ)
      → request.pre_authorized_code ≡ some code
      → text_truthy code ≡ true
      → ref_at s code ≡ some r
      → pre_authorized_flow request duration clock s ≡ (
        ok_or_error r (pre_auth_error request (s.heap r) duration (clock 1)),
        requested_at r (clock 0) s,
      )
  unfolding pre_authorized_flow
  flow_found code r given truthy found = ground (
    arith,
    get_asserted_found code r s truthy found,
    set_session_same code r (requested_at r (clock 0) s) truthy found,
    pre_auth_error-requested request (s.heap r) duration (clock 0) (clock 1),
  )

  flow_missing :
      (code : String)
      → request.pre_authorized_code ≡ some code
      → text_truthy code ≡ true
      → ref_at s code ≡ none
      → pre_authorized_flow request duration clock s ≡ (err (of_state (state_missing code)), s)
  unfolding pre_authorized_flow
  flow_missing code given truthy missing =
      ground (arith, get_asserted_missing code s truthy missing)

  outcome-flow : outcome ≡ pre_authorized_flow request duration clock s
  unfolding assert_valid_access_token_request
  outcome-flow = ground arith

  -- A request of the pre-authorized grant for a session that is there: the call returns the session
  -- or the first error of its tests, and in both cases only that session's status and time of
  -- update have changed, to those of a requested access token.
  pub outcome_found :
      (code : String) (r : ℕ)
      → request.pre_authorized_code ≡ some code
      → text_truthy code ≡ true
      → ref_at s code ≡ some r
      → outcome ≡ (
        ok_or_error r (pre_auth_error request (s.heap r) duration (clock 1)),
        requested_at r (clock 0) s,
      )
  outcome_found code r given truthy found = outcome-flow ∙ flow_found code r given truthy found

  -- Without a session at the code the call fails and changes nothing.
  pub outcome_missing :
      (code : String)
      → request.pre_authorized_code ≡ some code
      → text_truthy code ≡ true
      → ref_at s code ≡ none
      → outcome ≡ (err (of_state (state_missing code)), s)
  outcome_missing code given truthy missing = outcome-flow ∙ flow_missing code given truthy missing

  outcome_no_code : text?_truthy request.pre_authorized_code ≡ false → (r : ℕ) → outcome.0 ≢ ok r
  unfolding assert_valid_access_token_request
  outcome_no_code h r = ground arith

  accepted_found :
      (code : String) (r q : ℕ)
      → request.pre_authorized_code ≡ some code
      → text_truthy code ≡ true
      → ref_at s code ≡ some q
      → outcome.0 ≡ ok r
      → (r ≡ q) × (pre_auth_error request (s.heap r) duration (clock 1) ≡ none)
  accepted_found code r q given truthy found h =
      let e : ok_or_error q (pre_auth_error request (s.heap q) duration (clock 1)) ≡ ok r =
        ap (λ o. o.0) (sym (outcome_found code q given truthy found)) ∙ h in
      ground arith

  -- A request of the pre-authorized grant is accepted for a session exactly when the session stands
  -- under the request's code, the code is not empty, and the session entitles the request: it was
  -- granted and has not expired, its code is the request's, and the PIN is the one asked for.
  pub accepted_iff :
      (r : ℕ)
      → (outcome.0 ≡ ok r) ↔ (
          (code : String) × (request.pre_authorized_code ≡ some code)
          × (text_truthy code ≡ true)
          × (ref_at s code ≡ some r)
          × IsEntitled request (s.heap r) duration (clock 1))
  accepted_iff r = (
    λ h. elim (Option-cases request.pre_authorized_code) [
      | inl nothing ↦ absurd (outcome_no_code (ground arith) r h)
      | inr (code, given) ↦ elim (Bool-cases (text_truthy code)) [
        | inl truthy ↦ elim (Option-cases (ref_at s code)) [
          | inl missing ↦ absurd (cc (h, outcome_missing code given truthy missing))
          | inr (q, found) ↦
              let (same, passes) = accepted_found code r q given truthy found h in
              (
                code,
                given,
                truthy,
                ground arith,
                (pre_auth_error_iff request _ duration _ pre).0 passes,
              )
        ]
        | inr empty ↦ absurd (outcome_no_code (ground arith) r h)
      ]
    ],
    λ (code, given, truthy, found, entitled).
        ap (λ o. o.0) (outcome_found code r given truthy found)
        ∙ ap (ok_or_error r) ((pre_auth_error_iff request _ duration _ pre).1 entitled),
  )
