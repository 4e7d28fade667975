-- ===== src/Rest/TokenEndpoint.antt =====
-- verifyTokenRequest and handleTokenRequest (packages/issuer-rest/lib/IssuerTokenEndpoint.ts), one
-- after the other as accessTokenEndpoint mounts them.
pub mod Served
use oid4vc.Types.{invalid_request, invalid_grant, invalid_client, invalid_scope, invalid_dpop_proof}
use oid4vc.Token.Checks.{is_pre_authorized}
use oid4vc.Types.{
  AccessTokenRequest, Opaque, StoredAuthorizationRequest, TokenErrorResponse, IssuerError,
  AccessTokenResponse, token_error, error, of_state, pre_authorized_code_required_error, of_lookup,
}
use oid4vc.Prelude.{
  ℕ, ◌+◌, String, Bool, not, ◌&&◌, Option, none, some, List, if◌then◌else◌, Result, ok, err,
  text?_truthy, bool?_truthy, get_or, and_then, codes,
}
use oid4vc.Rest.Reply.{
  Reply, sent, refused, Description, nothing, text_of, error_of, Handler, try_catch,
}
use oid4vc.Token.Request.{assert_valid_access_token_request}
use oid4vc.Token.Response.{create_access_token_response, TokenJwt}
use oid4vc.Token.Pins.{starts_with}

-- The headers that the handler reads, and the request's body. Express has the names of headers in
-- lower case, so that `headers.DPoP` is never there.
pub record TokenHttpRequest : Type 0 where
  pub body : AccessTokenRequest
  pub authorization : Option String
  pub dpop : Option String

-- The options for DPoP; `verify` is verifyDPoP of the request's proof, and gives its key.
pub record DpopOpts : Type 0 where
  pub require_dpop : Bool
  pub verify : String → Result String Opaque

pub record TokenOpts : Type 0 where
  pub pre_authorized_code_expiration_duration : ℕ
  pub auth_requests_data : Option (List (String × StoredAuthorizationRequest))
  pub token_expires_in : ℕ
  pub access_token_issuer : String
  pub interval : ℕ
  pub dpop : Option DpopOpts

-- The reply to an error of the request's verification. The `TokenError` that the handler tests for is
-- the class of another package, @sphereon/oid4vci-common, while the verification throws that of
-- @vess-id/oid4vci-common: the branch for it is never taken.
unfoldable pub verification_failed : {A : Type 0} → IssuerError → Reply A
verification_failed x = refused 400 "invalid_request" (error_of x)

-- The key of the request's DPoP proof, if it has one, or the reply to a wrong one.
unfoldable pub dpop_key :
    Option DpopOpts → Option String → Result (Reply AccessTokenResponse) (Option Opaque)
dpop_key opts header =
    if bool?_truthy (and_then opts (λ o. some o.require_dpop)) && not (text?_truthy header)
    then err
        (refused 400 "invalid_request" (text_of "DPoP is required for requesting access tokens."))
    else if text?_truthy header
    then elim opts [
      | none ↦ err (refused 400 "invalid_request" (text_of "Received unsupported DPoP header."))
      | some o ↦ elim (o.verify (get_or header "")) [
        | ok key ↦ ok (some key)
        | err m ↦ err (refused 400 "invalid_dpop_proof" (text_of m))
      ]
    ]
    else ok none

abbrev pub asks_with_dpop : Option String → Bool
asks_with_dpop authorization =
    text?_truthy authorization && starts_with (codes "DPoP ") (codes (get_or authorization ""))

module _ (access_token_signer_callback : TokenJwt → Result IssuerError String)
    (calculate_jwk_thumbprint : Opaque → String) where
  abbrev pub created :
      TokenOpts
      → AccessTokenRequest
      → Option Opaque
      → (uuids : ℕ → String) (clock : ℕ → ℕ) → Handler AccessTokenResponse
  created opts body key uuids clock =
      try_catch
        (create_access_token_response access_token_signer_callback calculate_jwk_thumbprint body
          opts.token_expires_in opts.access_token_issuer none (some opts.interval) key uuids clock)
        (λ a s. (sent 200 a, s)) (λ x. refused 400 "invalid_request" nothing)

  unfoldable pub handle_token_request :
      TokenOpts
      → TokenHttpRequest
      → (uuids : ℕ → String) (clock : ℕ → ℕ) → Handler AccessTokenResponse
  unfolding dpop_key
  handle_token_request opts request uuids clock s =
      if not (is_pre_authorized request.body.grant_type)
      then (refused 400 "invalid_request" (error_of (error pre_authorized_code_required_error)), s)
      else if asks_with_dpop request.authorization
      then (refused 400 "invalid_request" (text_of "DPoP header is required"), s)
      else elim (dpop_key opts.dpop request.dpop) [
        | err reply ↦ (reply, s)
        | ok key ↦ created opts request.body key uuids clock s
      ]

  -- `clock 0` and `clock 1` are readings of the verification, later ones of the response.
  unfoldable pub access_token_endpoint :
      TokenOpts
      → TokenHttpRequest
      → (uuid : String) (uuids : ℕ → String) (clock : ℕ → ℕ) → Handler AccessTokenResponse
  unfolding verification_failed
  access_token_endpoint opts request uuid uuids clock =
      try_catch
        (assert_valid_access_token_request request.body opts.pre_authorized_code_expiration_duration
          opts.auth_requests_data uuid clock)
        (λ _. handle_token_request opts request uuids (λ n. clock (n + 2))) verification_failed
