-- ===== src/Issuer/ProofChecks.antt =====
-- The second part of validateCredentialRequestProof (packages/issuer/lib/VcIssuer.ts), and the
-- method as a whole.
pub mod Meant
pub mod Format
pub mod Sound
use oid4vc.Prelude.{
  ℕ, ◌+◌, ◌/◌, String, Bool, false, not, ◌&&◌, ◌||◌, Option, none, some, ltb, if◌then◌else◌, pure,
  gets, ◌>>=◌, ◌>>◌, ok, ◌==◌, string_eq, nat_eq, text_truthy, text?_truthy, nat?_truthy, is_some,
  get_or, or_else, and_then, text?_eq,
}
use oid4vc.Types.{
  IssuerCorrelation, CredentialRequest, JwtVerifyResult, Audience, one_audience, audiences,
  CredentialOfferSession, credential_request_received, IssuerError, Message, typ_error, alg_error,
  kid_jwk_x5c_error, kid_did_no_did_error, did_no_diddoc_error, aud_error, iat_error,
  no_iss_in_authorization_code_context, no_session_for_proof, invalid_pre_auth_code,
  invalid_issuer_state,
}
use oid4vc.Store.{IssuerStore, Issuer, get_session, set_session, write, read, at_ref}
use oid4vc.Issuer.Config.{IssuerConfig, JwtVerifyCallback}
use oid4vc.Issuer.Sessions.{update_session}
use oid4vc.Issuer.Proof.{Validated, Seen, read_proof, fail_if, on_error}

abbrev pub proof_typ : String
proof_typ = "openid4vci-proof+jwt"

-- The key material of the proof: what the callback reports, or else what the header says.
abbrev pub proof_alg : JwtVerifyResult → Option String
proof_alg r = or_else r.alg r.header.alg

abbrev pub proof_kid : JwtVerifyResult → Option String
proof_kid r = or_else r.kid r.header.kid

abbrev pub has_jwk : JwtVerifyResult → Bool
has_jwk r = is_some (or_else r.jwk r.header.jwk)

abbrev pub has_x5c : JwtVerifyResult → Bool
has_x5c r = is_some (or_else r.x5c r.header.x5c)

unfoldable pub header_error : JwtVerifyResult → Option Message
header_error r =
    if not (text?_eq r.header.typ (some proof_typ))
    then some typ_error
    else if not (text?_truthy (proof_alg r))
    then some alg_error
    else if has_x5c r && (text?_truthy (proof_kid r) || has_jwk r)
    then some kid_jwk_x5c_error
    else if text?_truthy (proof_kid r) && not (text?_truthy r.did)
    then (if not (has_jwk r) && not (has_x5c r) then some kid_did_no_did_error else none)
    else if text?_truthy r.did && not (is_some r.did_document)
    then some did_no_diddoc_error
    else none

abbrev pub is_audience : Option Audience → String → Bool
is_audience none issuer = false
is_audience (some (audiences l)) issuer = false
is_audience (some (one_audience a)) issuer = text_truthy a && a == issuer

-- `Math.round(createdAt / 1000)`
abbrev pub in_seconds : ℕ → ℕ
in_seconds ms = (ms + 500) / 1000

abbrev pub has_authorization_code_grant : Option CredentialOfferSession → Bool
has_authorization_code_grant none = false
has_authorization_code_grant (some session) =
    is_some (and_then session.credential_offer.credential_offer.grants (λ g. g.authorization_code))

-- The claims that are tested after the sessions have been marked.
unfoldable pub claims_error :
    (credential_issuer : String) (token_expires_in : ℕ)
    → Seen
    → Option CredentialOfferSession
    → Option Message
claims_error credential_issuer token_expires_in seen auth_session =
    if not (text?_truthy seen.result.payload.iss) && has_authorization_code_grant auth_session
    then some no_iss_in_authorization_code_context
    else if not (is_audience seen.result.payload.aud credential_issuer)
    then some aud_error
    else if not (nat?_truthy seen.result.payload.iat)
    then some iat_error
    else if ltb (in_seconds seen.created_at + token_expires_in) (get_or seen.result.payload.iat 0)
    then some iat_error
    else none

received : ℕ → CredentialOfferSession → CredentialOfferSession
received now c = record c { last_updated_at = now; status = credential_request_received }

-- `if (id) … await sessions.get(id)`
session_if : Option String → Issuer (Option ℕ)
session_if id = if text?_truthy id then get_session (get_or id "") else pure none

mark_pre_auth : Option ℕ → Option String → ℕ → Issuer (Unit {0})
unfolding received
mark_pre_auth none code now s = (ok tt, s)
mark_pre_auth (some r) code now s =
    (do
      session ← read r
      fail_if (
          if text?_truthy session.pre_authorized_code && text?_eq session.pre_authorized_code code
          then none
          else some invalid_pre_auth_code)
      write r (received now)
      set_session (get_or code "") r)
      s

-- The session at the issuer state is changed in place, and not set again.
mark_auth : Option ℕ → Option String → ℕ → Issuer (Unit {0})
unfolding received
mark_auth none issuer_state now s = (ok tt, s)
mark_auth (some r) issuer_state now s =
    (do
      session ← read r
      fail_if (
          if text?_truthy session.issuer_state && text?_eq session.issuer_state issuer_state
          then none
          else some invalid_issuer_state)
      write r (received now))
      s

-- From the assignment of `issuerState` on.
unfoldable pub check_proof :
    IssuerConfig
    → IssuerCorrelation
    → (token_expires_in : ℕ) → (clock : ℕ → ℕ) → Seen
    → Issuer Validated
unfolding header_error claims_error session_if mark_pre_auth mark_auth
check_proof config correlation token_expires_in clock seen = do
  fail_if (header_error seen.result)
  pre_auth_session ← session_if correlation.pre_authorized_code
  auth_session ← session_if seen.issuer_state
  fail_if
      (if is_some pre_auth_session || is_some auth_session then none else some no_session_for_proof)
  mark_pre_auth pre_auth_session correlation.pre_authorized_code (clock 1)
  mark_auth auth_session seen.issuer_state (clock 2)
  heap ← gets (λ s. s.heap)
  fail_if (
      claims_error config.issuer_metadata.credential_issuer token_expires_in seen
        (at_ref heap auth_session))
  pure (record {
    jwt_verify_result = seen.result;
    pre_authorized_code = correlation.pre_authorized_code;
    pre_auth_session = pre_auth_session;
    issuer_state = seen.issuer_state;
    auth_session = auth_session;
    c_nonce_state = seen.c_nonce_state;
  })

-- The `catch` of the method.
abbrev pub failed_proof :
    (code state : Option String) → (clock : ℕ → ℕ) → IssuerError → Issuer (Unit {0})
failed_proof code state clock x = update_session code state (some x) none (λ n. clock (n + 3))

unfoldable pub validate_credential_request_proof :
    IssuerConfig
    → Option JwtVerifyCallback
    → CredentialRequest
    → IssuerCorrelation
    → (format : Option String) → (token_expires_in : ℕ) → (clock : ℕ → ℕ) → Issuer Validated
validate_credential_request_proof config callback request correlation format token_expires_in
      clock =
    do
      seen ←
          on_error
            (read_proof (or_else callback config.jwt_verify_callback) request correlation format
              clock)
            (failed_proof correlation.pre_authorized_code none clock)
      on_error (check_proof config correlation token_expires_in clock seen)
          (failed_proof correlation.pre_authorized_code seen.issuer_state clock)
