-- ===== src/Token/Response/Created.antt =====
-- What createAccessTokenResponse (packages/issuer/lib/tokens/index.ts) replies and stores.
use oid4vc.Store.{IssuerStore, update_cell, ref_at}
use oid4vc.Types.{
  CredentialOfferSession, IssuerError, access_token_created, Opaque, AccessTokenRequest,
  AccessTokenResponse,
}
use oid4vc.Prelude.{
  ℕ, ◌+◌, String, ◌≡◌, true, Option, none, some, [], arith, if◌then◌else◌, Result, ok, text_truthy,
  is_some, and_then,
}
use oid4vc.Store.Laws.{get_asserted_found, set_session_same}
use oid4vc.Token.Response.{
  TokenJwt, generate_access_token, identify, session_key, create_access_token_response,
  CredentialOfferSession, IssuerError, access_token_created, Opaque, AccessTokenRequest,
  AccessTokenResponse,
}

-- A session whose token has been created.
abbrev pub token_created : ℕ → CredentialOfferSession → CredentialOfferSession
token_created now c = record c { status = access_token_created; last_updated_at = now }

module _ (signer : TokenJwt → Result IssuerError String) (thumbprint : Opaque → String)
    (request : AccessTokenRequest) (expires_in : ℕ) (issuer : String) (interval : Option ℕ)
    (key : Option Opaque) (uuids : ℕ → String) (clock : ℕ → ℕ) where
  -- The token of the request's session key.
  abbrev pub signed_token : Result IssuerError String
  signed_token =
      generate_access_token signer thumbprint expires_in issuer none
        (some (session_key signer thumbprint request)) none key [] (clock 0)

  abbrev pub token_response : String → CredentialOfferSession → AccessTokenResponse
  token_response token c = record {
    access_token = token;
    token_type = if is_some key then "DPoP" else "bearer";
    expires_in = expires_in;
    interval = interval;
    authorization_details = and_then c.authorization_details (λ ds.
        some
          (identify signer thumbprint ds (token_created (clock 1) c) uuids (λ i. clock (i + 2)) 0));
  }

  abbrev pub created_at_ref : ℕ → IssuerStore → IssuerStore
  created_at_ref r s = record s { heap = update_cell s.heap r (token_created (clock 1)) }

  pub create_found :
      (r : ℕ) (token : String) (s : IssuerStore)
      → text_truthy (session_key signer thumbprint request) ≡ true
      → ref_at s (session_key signer thumbprint request) ≡ some r
      → signed_token ≡ ok token
      → create_access_token_response signer thumbprint request expires_in issuer none interval key
          uuids clock s
        ≡ (ok (token_response token (s.heap r)), created_at_ref r s)
  unfolding create_access_token_response
  create_found r token s truthy found signed = ground (
    arith,
    get_asserted_found (session_key signer thumbprint request) r s truthy found,
    set_session_same (session_key signer thumbprint request) r (created_at_ref r s) truthy found,
  )
