-- ===== src/Client/TokenRequest.antt =====
-- createAccessTokenRequest, validate and getPinMetadata of packages/client/lib/AccessTokenClient.ts, with
-- createJwtBearerClientAssertion of functions/AccessTokenUtil.ts and the parts of
-- packages/oid4vci-common/lib/functions/CredentialOfferUtil.ts that they call. The network and the
-- signer are parameters: `resolve` fetches the payload behind an offer's URI, `build_pop` makes the
-- signed proof. `now` is the one reading of the clock, in milliseconds.
use oid4vc.Prelude.{
  ℕ, ◌+◌, ◌-◌, String, Bool, not, ◌&&◌, Option, none, some, [], if◌then◌else◌, Result, ok, err,
  text_of, contains, second_part, begins, text_truthy, text?_truthy, is_some, get_or, or_else,
  and_then, codes,
}
use oid4vc.Types.{
  AccessTokenRequest, CredentialOfferPayload, AssertedUniformCredentialOffer, authorization_code,
  pre_authorized_code,
}
use oid4vc.Token.Checks.{is_pre_authorized, is_authorization_code}
use oid4vc.Offer.Flows.{
  UniformCredentialOfferRequest, determine_flow_type, to_uniform_credential_offer_request, supports,
  authorization_code_flow, pre_authorized_code_flow,
}
use oid4vc.Client.{
  ClientError, TxCodeAndPinRequired, pin_error, no_offer, no_client_id, neither_flow,
  pre_authorized_code_required, no_kid, code_required, no_sign_callback, code_verifier_required,
  no_credential_issuer, unsupported_flow,
}

pub record ClientOpts : Type 0 where
  pub client_id : Option String
  pub kid : Option String
  pub alg : Option String
  pub is_jwt_bearer : Bool
  pub has_sign_callback : Bool

pub record AccessTokenRequestOpts : Type 0 where
  pub credential_offer : Option AssertedUniformCredentialOffer
  pub client_opts : Option ClientOpts
  pub credential_issuer : Option String
  -- `metadata?.issuer`
  pub metadata_issuer : Option String
  -- the fields that the request starts from; its grant type is always set
  pub additional_params : AccessTokenRequest
  pub code : Option String
  pub code_verifier : Option String
  pub redirect_uri : Option String
  pub pin : Option String
  pub pin_metadata : Option TxCodeAndPinRequired

-- A token request with its client assertion, whose type is always that of a JWT bearer.
pub record ClientTokenRequest : Type 0 where
  pub request : AccessTokenRequest
  pub client_assertion : Option String

-- The JWT of a client assertion. Times are in thousandths of a second.
pub record AssertionJwt : Type 0 where
  pub kid : String
  pub alg : String
  pub iss : String
  pub sub : String
  pub aud : String
  pub jti : String
  pub exp : ℕ
  pub iat : ℕ

-- `kid.split('#')[1]` for a client that is a URL.
unfoldable pub assertion_kid : (client_id kid : String) → String
assertion_kid client_id kid =
    if begins (codes "http") (codes client_id) && contains (codes "#") (codes kid)
    then text_of (get_or (second_part (codes "#") (codes kid)) [])
    else kid

module _ (resolve : String → Result ClientError (Option CredentialOfferPayload))
    (build_pop : AssertionJwt → Result ClientError String) (uuid : String) (now : ℕ) where
  with_payload :
      Option String
      → Option CredentialOfferPayload
      → Result ClientError UniformCredentialOfferRequest
  unfolding determine_flow_type
  with_payload uri none = err no_offer
  with_payload uri (some payload) = ok (record {
    credential_offer = payload;
    credential_offer_uri = if text?_truthy uri then uri else none;
    supported_flows = determine_flow_type payload;
  })

  -- `toUniformCredentialOfferRequest(offer)`, which fetches the payload where there is a URI; an
  -- empty URI leads to none.
  unfoldable pub to_uniform_resolved :
      AssertedUniformCredentialOffer → Result ClientError UniformCredentialOfferRequest
  unfolding with_payload to_uniform_credential_offer_request
  to_uniform_resolved offer = elim offer.credential_offer_uri [
    | none ↦ ok (to_uniform_credential_offer_request offer)
    | some uri ↦
        if text_truthy uri
        then elim (resolve uri) [ ok payload ↦ with_payload (some uri) payload | err x ↦ err x ]
        else with_payload (some uri) none
  ]

  assertion_error : ClientOpts → (client_id credential_issuer : Option String) → Option ClientError
  assertion_error o client_id credential_issuer =
      if not (text?_truthy client_id)
      then some no_client_id
      else if not (text?_truthy o.kid)
      then some no_kid
      else if not o.has_sign_callback
      then some no_sign_callback
      else if not (text?_truthy credential_issuer)
      then some no_credential_issuer
      else none

  assertion_jwt : ClientOpts → (client_id credential_issuer : Option String) → AssertionJwt
  unfolding assertion_kid
  assertion_jwt o client_id credential_issuer = record {
    kid = assertion_kid (get_or client_id "") (get_or o.kid "");
    alg = get_or o.alg "ES256";
    iss = get_or client_id "";
    sub = get_or client_id "";
    aud = get_or credential_issuer "";
    jti = uuid;
    exp = now + 60000;
    iat = now - 60000;
  }

  -- `createJwtBearerClientAssertion`
  unfoldable pub client_assertion :
      Option ClientOpts
      → (request_client_id credential_issuer : Option String) → Result ClientError (Option String)
  unfolding assertion_error assertion_jwt
  client_assertion none request_client_id credential_issuer = ok none
  client_assertion (some o) request_client_id credential_issuer =
      let client_id = or_else o.client_id request_client_id in
      if o.is_jwt_bearer
      then elim (assertion_error o client_id credential_issuer) [
        | some x ↦ err x
        | none ↦ elim (build_pop (assertion_jwt o client_id credential_issuer)) [
          | ok jwt ↦ ok (some jwt)
          | err x ↦ err x
        ]
      ]
      else ok none

  unfoldable pub started : AccessTokenRequestOpts → AccessTokenRequest
  started opts =
      let client_id = and_then opts.client_opts (λ o. o.client_id) in
      record (opts.additional_params) {
        client_id = if text?_truthy client_id then client_id else opts.additional_params.client_id;
      }

  abbrev pre_auth_code : CredentialOfferPayload → Option String
  pre_auth_code payload =
      and_then (and_then payload.grants (λ g. g.pre_authorized)) (λ p. p.pre_authorized_code)

  authorization_request : AccessTokenRequestOpts → AccessTokenRequest → AccessTokenRequest
  authorization_request opts request = record request {
    grant_type = authorization_code;
    code = opts.code;
    redirect_uri = opts.redirect_uri;
    code_verifier =
        if text?_truthy opts.code_verifier then opts.code_verifier else request.code_verifier;
  }

  unfoldable pub pre_authorized_request :
      AccessTokenRequestOpts → CredentialOfferPayload → AccessTokenRequest → AccessTokenRequest
  pre_authorized_request opts payload request = record request {
    user_pin = opts.pin;
    tx_code = opts.pin;
    grant_type = pre_authorized_code;
    pre_authorized_code = pre_auth_code payload;
  }

  -- The request of a flow that the offer supports, of the authorization code flow first.
  unfoldable pub by_flow :
      AccessTokenRequestOpts
      → Option UniformCredentialOfferRequest
      → AccessTokenRequest
      → Result ClientError AccessTokenRequest
  unfolding authorization_request pre_authorized_request pin_error
  by_flow opts none request = ok (authorization_request opts request)
  by_flow opts (some offer) request =
      if supports offer.supported_flows authorization_code_flow
      then ok (authorization_request opts request)
      else if supports offer.supported_flows pre_authorized_code_flow
      then elim (pin_error opts.pin_metadata opts.pin) [
        | some x ↦ err x
        | none ↦ ok (pre_authorized_request opts offer.credential_offer request)
      ]
      else err neither_flow

  uniform_offer :
      Option AssertedUniformCredentialOffer
      → Result ClientError (Option UniformCredentialOfferRequest)
  unfolding to_uniform_resolved
  uniform_offer none = ok none
  uniform_offer (some offer) = elim (to_uniform_resolved offer) [
    | ok u ↦ ok (some u)
    | err x ↦ err x
  ]

  issuer_of : AccessTokenRequestOpts → Option UniformCredentialOfferRequest → Option String
  issuer_of opts offer = or_else opts.credential_issuer (
      or_else (and_then offer (λ u. some u.credential_offer.credential_issuer))
        opts.metadata_issuer)

  with_assertion :
      Result ClientError AccessTokenRequest → Option String → Result ClientError ClientTokenRequest
  with_assertion (ok request) assertion =
      ok (record { request = request; client_assertion = assertion })
  with_assertion (err x) assertion = err x

  unfoldable pub create_access_token_request :
      AccessTokenRequestOpts → Result ClientError ClientTokenRequest
  unfolding uniform_offer started issuer_of client_assertion by_flow with_assertion
  create_access_token_request opts = elim (uniform_offer opts.credential_offer) [
    | err x ↦ err x
    | ok offer ↦
        elim (client_assertion opts.client_opts (started opts).client_id (issuer_of opts offer)) [
          | err x ↦ err x
          | ok assertion ↦ with_assertion (by_flow opts offer (started opts)) assertion
        ]
  ]

-- `getPinMetadata`
unfoldable pub get_pin_metadata : CredentialOfferPayload → TxCodeAndPinRequired
get_pin_metadata payload =
    let t = and_then (and_then payload.grants (λ g. g.pre_authorized)) (λ p. p.tx_code) in
    record { tx_code = t; is_pin_required = is_some t }

-- `validate`: the first error, if any.
unfoldable pub validate_error :
    AccessTokenRequest → Option TxCodeAndPinRequired → Option ClientError
unfolding pin_error
validate_error request meta =
    if is_pre_authorized request.grant_type
    then (if text?_truthy request.pre_authorized_code
        then pin_error meta (or_else request.tx_code request.user_pin)
        else some pre_authorized_code_required)
    else if is_authorization_code request.grant_type
    then (if text?_truthy request.code_verifier
        then (if text?_truthy request.code then none else some code_required)
        else some code_verifier_required)
    else some unsupported_flow
