-- ===== src/Rest/Endpoints.antt =====
-- getCredentialEndpoint, notificationEndpoint, getIssueStatusEndpoint,
-- getCredentialOfferReferenceEndpoint, getCredentialOfferEndpoint and deleteCredentialOfferEndpoint
-- (packages/issuer-rest/lib/oid4vci-api-functions.ts). The bearer token is what extractBearerToken
-- finds in the request's header. Events and logs are left out.
pub mod OwnTokens
use oid4vc.Issuer.Binding.{all_identifiers}
use oid4vc.Types.{
  AuthorizationDetails, IssuerCorrelation, CredentialRequest, Credential, Message,
  NotificationRequest, IssueStatus, CredentialOfferPayload, error, IssuerError, Opaque,
}
use oid4vc.Prelude.{
  ℕ, String, ◌⊎◌, inl, inr, Bool, true, false, not, ◌&&◌, Option, none, some, List, if◌then◌else◌,
  ◌>>=◌, ◌>>◌, ok, err, includes, map_get, string_eq, nat_eq, text_truthy, text?_truthy, get_or,
}
use oid4vc.Rest.Reply.{
  Reply, sent, refused, Description, nothing, text_of, error_of, Handler, try_catch, Claims,
  TokenVerifier, validate_jwt,
}
use oid4vc.Token.Response.{Claim, text_claim, details_claim}
use oid4vc.Store.{read}
use oid4vc.Issuer.Config.{IssuerConfig}
use oid4vc.Issuer.Issue.{IssueOpts, CredentialResponse, issue_credential}
use oid4vc.Issuer.Sessions.{
  all_lookups, get_credential_offer_session_by_id, delete_credential_offer_session_by_id,
  process_notification, issue_state,
}

-- `typeof claims[name] === 'string'`
abbrev pub text_claim_of : Option Claim → Option String
text_claim_of (some (text_claim t)) = some t
text_claim_of _ = none

abbrev pub details_claim_of : Option Claim → Option (List AuthorizationDetails)
details_claim_of (some (details_claim ds)) = some ds
details_claim_of _ = none

-- The correlation that the credential endpoint derives from the claims of an access token.
unfoldable pub correlation_of : Claims → IssuerCorrelation
correlation_of claims = record {
  issuer_state = text_claim_of (map_get claims "issuer_state");
  pre_authorized_code = text_claim_of (map_get claims "preAuthorizedCode");
  authorization_details = details_claim_of (map_get claims "authorization_details");
}

-- A credential identifier that the token's authorization details do not have.
unfoldable pub unknown_identifier : Claims → CredentialRequest → Bool
unknown_identifier claims request =
    elim (details_claim_of (map_get claims "authorization_details")) [
      | none ↦ false
      | some details ↦
          text?_truthy request.credential_identifier
          && not (includes (all_identifiers details) (get_or request.credential_identifier ""))
    ]

module _ (config : IssuerConfig) (is_sd_jwt : Credential → Bool) (decode : TokenVerifier) where
  abbrev pub endpoint_opts : CredentialRequest → IssuerCorrelation → Option ℕ → IssueOpts
  endpoint_opts request correlation token_expires_in = record {
    credential_request = request;
    issuer_correlation = correlation;
    credential = none;
    credential_data_supplier = none;
    credential_data_supplier_input = none;
    token_expires_in = token_expires_in;
    jwt_verify_callback = none;
    credential_signer_callback = none;
  }

  -- `verify` is the callback for access tokens, which falls back on the issuer's.
  unfoldable pub credential_endpoint :
      (verify : Option TokenVerifier) (token_expires_in : Option ℕ)
      → (bearer : Option String) → CredentialRequest
      → (clock : ℕ → ℕ) → Handler CredentialResponse
  unfolding correlation_of unknown_identifier validate_jwt
  credential_endpoint verify token_expires_in bearer request clock s =
      elim (validate_jwt decode verify bearer) [
        | err m ↦ (refused 400 "invalid_token" nothing, s)
        | ok claims ↦
            if unknown_identifier claims request
            then (
              refused 400 "invalid_credential_request"
                  (text_of "credential_identifier not found in authorization_details"),
              s,
            )
            else try_catch
                (issue_credential config is_sd_jwt
                  (endpoint_opts request (correlation_of claims) token_expires_in) clock)
                (λ response t. (sent 200 response, t))
                (λ x. refused 500 "invalid_request" (error_of x)) s
      ]

-- The reply to what processNotification gives; its errors are sent as texts.
unfoldable pub notified : Message ⊎ ℕ → Reply (Unit {0})
notified (inl m) = refused 400 "" (error_of (error m))
notified (inr r) = sent 204 tt

unfoldable pub notification_endpoint :
    (decode : TokenVerifier) (verify : Option TokenVerifier)
    → (bearer : Option String) → NotificationRequest
    → (clock : ℕ → ℕ) → Handler (Unit {0})
unfolding validate_jwt notified
notification_endpoint decode verify bearer notification clock s =
    elim (validate_jwt decode verify bearer) [
      | err m ↦ (refused 400 "invalid_token" nothing, s)
      | ok claims ↦
          try_catch
            (process_notification (text_claim_of (map_get claims "pre-authorized_code")) none
              notification clock)
            (λ result t. (notified result, t)) (λ x. refused 400 "invalid_token" nothing) s
    ]

-- IssueStatusResponse
pub record IssueStatusResponse : Type 0 where
  pub created_at : ℕ
  pub last_updated_at : ℕ
  pub expires_at : Option ℕ
  pub status : IssueStatus
  pub error : Option IssuerError
  pub client_id : Option String
  pub status_lists : Option Opaque

unfoldable pub issue_status_endpoint : (id : String) → Handler IssueStatusResponse
issue_status_endpoint id =
    try_catch (do r ← get_credential_offer_session_by_id id all_lookups; read r)
      (λ c s. (
        sent 200 (record {
          created_at = c.created_at;
          last_updated_at = c.last_updated_at;
          expires_at = c.expires_at;
          status = c.status;
          error = c.error;
          client_id = if text?_truthy c.client_id then c.client_id else none;
          status_lists = c.status_lists;
        }),
        s,
      ))
      (λ x. refused 500 "invalid_request" (error_of x))

abbrev pub is_offered : IssueStatus → Bool
is_offered IssueStatus.offer_created = true
is_offered _ = false

-- The offer that a URI refers to, once it exists and only until it is used.
unfoldable pub credential_offer_reference_endpoint : (id : String) → Handler CredentialOfferPayload
credential_offer_reference_endpoint id =
    if text_truthy id
    then try_catch (do r ← get_credential_offer_session_by_id id all_lookups; read r)
        (λ c s. (
          if is_offered c.status
              then sent 200 c.credential_offer.credential_offer
              else refused 404 "invalid_request" (text_of "Credential offer not found"),
          s,
        ))
        (λ x. refused 404 "invalid_request" (text_of "Credential offer not found"))
    else (λ s. (refused 404 "invalid_request" (text_of "query parameter 'id' is missing"), s))

unfoldable pub credential_offer_endpoint : (id : String) → Handler CredentialOfferPayload
credential_offer_endpoint id =
    try_catch (do r ← get_credential_offer_session_by_id id all_lookups; read r)
      (λ c s. (sent 200 c.credential_offer.credential_offer, s))
      (λ x. refused 500 "invalid_request" (error_of x))

unfoldable pub delete_credential_offer_endpoint : (id : String) → Handler (Unit {0})
delete_credential_offer_endpoint id =
    if text_truthy id
    then try_catch (delete_credential_offer_session_by_id id all_lookups) (λ _ s. (sent 204 tt, s))
        (λ x. refused 500 "invalid_request" (error_of x))
    else (λ s. (refused 400 "invalid_request" (text_of "id must be present"), s))
