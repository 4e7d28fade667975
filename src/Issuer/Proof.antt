-- ===== src/Issuer/Proof.antt =====
-- validateCredentialRequestProof (packages/issuer/lib/VcIssuer.ts), in the two parts between which
-- it assigns `issuerState`, as its `catch` updates the sessions by that variable. `clock n` are the
-- readings of the clock within one credential request.
pub mod Sound
use oid4vc.Prelude.{
  ℕ, String, not, ◌&&◌, ◌||◌, Option, none, some, List, [], ◌∷◌, if◌then◌else◌, pure, ◌>>=◌, ◌>>◌,
  Result, ok, err, includes, map_get, ◌==◌, string_eq, nat_eq, text?_truthy, is_some, get_or, codes,
}
use oid4vc.StateManager.Memory
use oid4vc.Types.{
  Opaque, IssuerCorrelation, CredentialRequest, JwtVerifyResult, JwtHeader, Audience, one_audience,
  audiences, CredentialOfferSession, CNonceState, credential_request_received, IssuerError, error,
  Message, typ_error, alg_error, kid_jwk_x5c_error, kid_did_no_did_error, did_no_diddoc_error,
  aud_error, iat_error, jwt_verify_config_error, no_iss_in_authorization_code_context,
  format_not_supported, proof_required, unsupported_proof_types, no_nonce_or_issuer_state,
  no_session_for_proof, invalid_pre_auth_code, invalid_issuer_state, thrown,
}
use oid4vc.Store.{
  IssuerStore, Issuer, on_c_nonces, get_session, get_asserted_session, set_session, write, read,
}
use oid4vc.Issuer.Config.{IssuerConfig, JwtVerifyCallback}
use oid4vc.Issuer.Sessions.{update_session}
use oid4vc.Issuer.ProofTypeNames.{format_proof_type_names_for_error}

pub record Validated : Type 0 where
  pub jwt_verify_result : JwtVerifyResult
  pub pre_authorized_code : Option String
  pub pre_auth_session : Option ℕ
  pub issuer_state : Option String
  pub auth_session : Option ℕ
  pub c_nonce_state : Option CNonceState

-- A failure that a pure part found, if any.
abbrev pub fail_if : Option Message → Issuer (Unit {0})
fail_if none s = (ok tt, s)
fail_if (some m) s = (err (error m), s)

-- What an integrator's callback gives or throws.
abbrev pub call : {A : Type 0} → Result String A → Issuer A
call (ok a) s = (ok a, s)
call (err m) s = (err (error (thrown m)), s)

-- `try { m } catch (error) { await handler(error); throw error }`
abbrev pub on_error : {A : Type 0} → Issuer A → (IssuerError → Issuer (Unit {0})) → Issuer A
on_error m handler s = elim (m s).0 [
  | ok a ↦ (ok a, (m s).1)
  | err x ↦ (err x, (handler x (m s).1).1)
]

abbrev pub supported_issuance_formats : List String
supported_issuance_formats =
    "jwt_vc_json" ∷ "jwt_vc_json-ld" ∷ "dc+sd-jwt" ∷ "ldp_vc" ∷ "mso_mdoc" ∷ []

unfoldable pub format_error : Option String → Option Message
format_error format =
    if text?_truthy format && not (includes supported_issuance_formats (get_or format ""))
    then some format_not_supported
    else none

-- The other proof types that the request carries proofs of.
unfoldable pub other_proof_types : List (String × List String) → List (List ℕ)
other_proof_types [] = []
other_proof_types ((proof_type, []) ∷ rest) = other_proof_types rest
other_proof_types ((proof_type, v ∷ vs) ∷ rest) =
    if proof_type == "jwt"
    then other_proof_types rest
    else codes proof_type ∷ other_proof_types rest

no_jwt_proof : List (List ℕ) → Message
no_jwt_proof [] = proof_required
no_jwt_proof (t ∷ ts) = unsupported_proof_types (format_proof_type_names_for_error (t ∷ ts))

unfoldable first_jwt : List (String × List String) → Option (List String) → Result Message String
unfolding no_jwt_proof
first_jwt proofs none = err (no_jwt_proof (other_proof_types proofs))
first_jwt proofs (some []) = err (no_jwt_proof (other_proof_types proofs))
first_jwt proofs (some (jwt ∷ jwts)) = ok jwt

-- The JWT of the proof of possession.
unfoldable pub proof_jwt :
    Option (List (String × List String)) → Option String → Result Message String
unfolding first_jwt
proof_jwt (some proofs) proof = first_jwt proofs (map_get proofs "jwt")
proof_jwt none (some jwt) = ok jwt
proof_jwt none none = err proof_required

jwt_or_fail : Result Message String → Issuer String
jwt_or_fail (ok jwt) s = (ok jwt, s)
jwt_or_fail (err m) s = (err (error m), s)

-- `jwtVerifyCallback ? … : this._jwtVerifyCallback`
verify : Option JwtVerifyCallback → String → Issuer JwtVerifyResult
verify none jwt s = (err (error jwt_verify_config_error), s)
verify (some callback) jwt s = call (callback jwt) s

-- What the first part of the method has established.
pub record Seen : Type 0 where
  pub result : JwtVerifyResult
  pub c_nonce_state : Option CNonceState
  pub created_at : ℕ
  pub issuer_state : Option String

nonce_state : Option String → Issuer (Option CNonceState)
nonce_state nonce =
    if text?_truthy nonce
    then (do c ← on_c_nonces (Memory.get_asserted (get_or nonce "")); pure (some c))
    else pure none

-- The creation time of the session at the issuer state, which must be there.
state_created_at : Option String → ℕ → Issuer ℕ
state_created_at issuer_state created_at =
    if text?_truthy issuer_state
    then (do
      r ← get_asserted_session (get_or issuer_state "")
      session ← read r
      pure session.created_at)
    else pure created_at

abbrev pub nonce_created_at : Option CNonceState → ℕ → ℕ
nonce_created_at none now = now
nonce_created_at (some c) now = c.created_at

abbrev pub requested_state : CredentialRequest → IssuerCorrelation → Option String
requested_state request correlation =
    if text?_truthy request.issuer_state then request.issuer_state else correlation.issuer_state

-- Up to the assignment of `issuerState`.
unfoldable pub read_proof :
    Option JwtVerifyCallback
    → CredentialRequest
    → IssuerCorrelation
    → (format : Option String) → (clock : ℕ → ℕ) → Issuer Seen
unfolding proof_jwt jwt_or_fail verify nonce_state state_created_at format_error
read_proof callback request correlation format clock = do
  fail_if (format_error format)
  fail_if (if is_some callback then none else some jwt_verify_config_error)
  jwt ← jwt_or_fail (proof_jwt request.proofs request.proof)
  result ← verify callback jwt
  fail_if (
      if text?_truthy result.payload.nonce || text?_truthy (requested_state request correlation)
      then none
      else some no_nonce_or_issuer_state)
  c ← nonce_state result.payload.nonce
  created_at ← state_created_at (requested_state request correlation) (nonce_created_at c (clock 0))
  pure (record {
    result = result;
    c_nonce_state = c;
    created_at = created_at;
    issuer_state =
        if text?_truthy (requested_state request correlation)
        then requested_state request correlation
        else none;
  })
