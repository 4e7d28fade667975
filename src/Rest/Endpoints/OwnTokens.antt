-- ===== src/Rest/Endpoints/OwnTokens.antt =====
-- What the issuer's own access tokens are good for at its credential and notification endpoints.
use oid4vc.Store.{IssuerStore}
use oid4vc.Issuer.Sessions.{process_notification}
use oid4vc.Types.{IssuerError, Opaque, NotificationRequest, invalid_notification_request}
use oid4vc.Prelude.{
  ℕ, String, ◌≡◌, inl, inr, true, Option, none, some, [], arith, Bool-cases, Option-cases, Result,
  ok, map_get, string_eq, nat_eq, text_truthy,
}
use oid4vc.Token.Response.{token_payload, TokenJwt}
use oid4vc.Rest.Reply.{Claims, TokenVerifier, refused, error_of}
use oid4vc.Rest.Endpoints.{
  correlation_of, notification_endpoint, process_notification, NotificationRequest,
}

module _ (signer : TokenJwt → Result IssuerError String) (thumbprint : Opaque → String)
    (expires_in : ℕ) (issuer code : String) (key : Option Opaque) (now : ℕ) where
  -- The claims of the token that the token endpoint creates for a code.
  abbrev pub own_claims : Claims
  own_claims = token_payload signer thumbprint expires_in issuer (some code) key [] now

  -- The claims of the issuer's own token lead the credential endpoint to the code that the token
  -- was created for, and to no issuer state and no authorization details.
  pub own_token_correlation :
      text_truthy code ≡ true
      → correlation_of own_claims ≡ record {
        issuer_state = none;
        pre_authorized_code = some code;
        authorization_details = none;
      }
  unfolding correlation_of token_payload map_get
  own_token_correlation truthy = elim (Option-cases key) [
    | inl bearer ↦ ground arith
    | inr (jwk, dpop) ↦ ground arith
  ]

  own_token_no_code : map_get own_claims "pre-authorized_code" ≡ none
  unfolding token_payload map_get
  own_token_no_code = elim (Bool-cases (text_truthy code)) [
    | inl truthy ↦ elim (Option-cases key) [
      | inl bearer ↦ ground arith
      | inr (jwk, dpop) ↦ ground arith
    ]
    | inr empty ↦ elim (Option-cases key) [
      | inl bearer ↦ ground arith
      | inr (jwk, dpop) ↦ ground arith
    ]
  ]

  -- A notification with the issuer's own token is always refused and changes nothing, whatever it
  -- says: the endpoint reads another claim than the one that the token has.
  pub own_token_notification_refused :
      (decode verify : TokenVerifier) (token : String) (notification : NotificationRequest)
      (clock : ℕ → ℕ) (s : IssuerStore)
      → text_truthy token ≡ true
      → verify token ≡ ok own_claims
      → notification_endpoint decode (some verify) (some token) notification clock s
        ≡ (refused 400 "" (error_of (IssuerError.error invalid_notification_request)), s)
  unfolding notification_endpoint process_notification
  own_token_notification_refused decode verify token notification clock s truthy verified =
      ground (arith, own_token_no_code)
