-- ===== src/Rest/TokenEndpoint/Served.antt =====
-- What the token endpoint replies, from the request's verification to the response
-- (packages/issuer-rest/lib/IssuerTokenEndpoint.ts).
use oid4vc.Token.Checks.{pre_auth_error}
use oid4vc.Store.{IssuerStore, ref_at}
use oid4vc.Types.{
  IssuerError, Opaque, pre_authorized_code, authorization_code, AccessTokenResponse,
  pre_authorized_code_required_error,
}
use oid4vc.Prelude.{
  ℕ, ◌+◌, String, ◌≡◌, inl, inr, true, false, Option, none, some, arith, Result-cases, Result, ok,
  text_truthy,
}
use oid4vc.Rest.Reply.{Reply, sent, refused, Description}
use oid4vc.Rest.TokenEndpoint.{
  TokenHttpRequest, TokenOpts, dpop_key, asks_with_dpop, handle_token_request,
  access_token_endpoint, verification_failed, IssuerError, Opaque, AccessTokenResponse,
  pre_authorized_code_required_error,
}
use oid4vc.Token.Request.{assert_valid_access_token_request}
use oid4vc.Token.Outcome.{outcome_found, requested, requested_at, ok_or_error}
use oid4vc.Token.Response.Created.{signed_token, token_response, created_at_ref, create_found}
use oid4vc.Token.Response.{TokenJwt, session_key}

module _ (signer : TokenJwt → Result IssuerError String) (thumbprint : Opaque → String)
    (opts : TokenOpts) (request : TokenHttpRequest) (uuid : String) (uuids : ℕ → String)
    (clock : ℕ → ℕ) (s : IssuerStore) where
  abbrev pub reply : Reply AccessTokenResponse × IssuerStore
  reply = access_token_endpoint signer thumbprint opts request uuid uuids clock s

  abbrev pub later : ℕ → ℕ
  later n = clock (n + 2)

  -- The token for the request with the given DPoP key.
  abbrev pub token_for : Option Opaque → Result IssuerError String
  token_for key =
      signed_token signer thumbprint request.body opts.token_expires_in opts.access_token_issuer
        (some opts.interval) key uuids later

  module _ (pre : request.body.grant_type ≡ pre_authorized_code) (code : String) (r : ℕ)
      (given : request.body.pre_authorized_code ≡ some code) (truthy : text_truthy code ≡ true)
      (found : ref_at s code ≡ some r) where
    abbrev verified : Result IssuerError ℕ × IssuerStore
    verified =
        assert_valid_access_token_request request.body opts.pre_authorized_code_expiration_duration
          opts.auth_requests_data uuid clock s

    verified_lem : verified ≡ (
      ok_or_error r (
          pre_auth_error request.body
            (s.heap r)
            opts.pre_authorized_code_expiration_duration
            (clock 1)),
      requested_at r (clock 0) s,
    )
    verified_lem =
        outcome_found request.body opts.pre_authorized_code_expiration_duration
          opts.auth_requests_data uuid clock s pre code r given truthy found

    session_key-code : session_key signer thumbprint request.body ≡ code
    session_key-code = ground arith

    handled :
        (key : Option Opaque) (token : String) (t : IssuerStore)
        → ref_at t code ≡ some r
        → asks_with_dpop request.authorization ≡ false
        → dpop_key opts.dpop request.dpop ≡ ok key
        → token_for key ≡ ok token
        → handle_token_request signer thumbprint opts request uuids later t ≡ (
          sent 200 (
              token_response signer thumbprint request.body opts.token_expires_in
                opts.access_token_issuer
                (some opts.interval)
                key
                uuids
                later
                token
                (t.heap r)),
          created_at_ref signer thumbprint request.body opts.token_expires_in
              opts.access_token_issuer
              (some opts.interval)
              key
              uuids
              later
              r
              t,
        )
    unfolding handle_token_request
    handled key token t there plain dpop signed =
        let same = session_key-code in
        ground (
          arith,
          create_found signer thumbprint request.body opts.token_expires_in opts.access_token_issuer
              (some opts.interval) key uuids later r token t (rw same truthy) (rw same there)
              signed,
        )

    -- A request of the pre-authorized grant that passes the tests of its session, with a DPoP proof
    -- only where one is expected and right, is answered by the token that the signer makes for the
    -- code, with the type that the proof asks for, and without a nonce; the session then has the
    -- status of a created access token, and nothing else in the store has changed.
    pub token_served :
        (key : Option Opaque) (token : String)
        → pre_auth_error request.body
            (s.heap r)
            opts.pre_authorized_code_expiration_duration
            (clock 1)
          ≡ none
        → asks_with_dpop request.authorization ≡ false
        → dpop_key opts.dpop request.dpop ≡ ok key
        → token_for key ≡ ok token
        → reply ≡ (
          sent 200 (
              token_response signer thumbprint request.body opts.token_expires_in
                opts.access_token_issuer
                (some opts.interval)
                key
                uuids
                later
                token
                (requested (clock 0) (s.heap r))),
          created_at_ref signer thumbprint request.body opts.token_expires_in
              opts.access_token_issuer
              (some opts.interval)
              key
              uuids
              later
              r
              (requested_at r (clock 0) s),
        )
    unfolding access_token_endpoint
    token_served key token passes plain dpop signed = ground (
      arith,
      verified_lem,
      handled key token (requested_at r (clock 0) s) found plain dpop signed,
    )

    -- A request of the pre-authorized grant that fails a test of its session is refused with the status
    -- 400, the error invalid_request, whatever the code that the verification threw, and its text.
    -- Only the session's status and time of update have changed.
    pub token_refused :
        (x : IssuerError)
        → pre_auth_error request.body
            (s.heap r)
            opts.pre_authorized_code_expiration_duration
            (clock 1)
          ≡ some x
        → reply
          ≡ (refused 400 "invalid_request" (Description.error_of x), requested_at r (clock 0) s)
    unfolding access_token_endpoint verification_failed
    token_refused x fails = ground (arith, verified_lem)

  -- A request of the authorization code grant is always refused, also with a code that an
  -- authorization request of the server has.
  pub authorization_code_refused :
      request.body.grant_type ≡ authorization_code
      → (status : ℕ) × (e : String) × (d : Description) × (reply.0 ≡ refused status e d)
  unfolding access_token_endpoint handle_token_request verification_failed
  authorization_code_refused grant =
      elim (Result-cases
        (assert_valid_access_token_request request.body opts.pre_authorized_code_expiration_duration
          opts.auth_requests_data uuid clock s).0) [
            | inl (r, accepted) ↦ (
              400,
              "invalid_request",
              Description.error_of (IssuerError.error pre_authorized_code_required_error),
              ground arith,
            )
            | inr (x, failed) ↦ (400, "invalid_request", Description.error_of x, ground arith)
          ]
