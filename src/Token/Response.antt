-- ===== src/Token/Response.antt =====
-- generateAccessToken and createAccessTokenResponse (packages/issuer/lib/tokens/index.ts), with
-- generateCredentialIdentifiers of packages/issuer/lib/functions/CredentialOfferUtils.ts. The signer
-- callback and the thumbprint of a key are the integrator's, and are parameters.
pub mod Created
use oid4vc.Prelude.{
  ℕ, ◌+◌, ◌*◌, String, Bool, true, false, ◌&&◌, Option, none, some, List, [], ◌∷◌, ◌++◌,
  if◌then◌else◌, pure, ◌>>=◌, ◌>>◌, Result, err, decimal_text, concat, includes, map_set, string_eq,
  nat_eq, text?_truthy, is_some, get_or, and_then,
}
use oid4vc.Types.{
  Opaque, AuthorizationDetails, detail_text, detail_object, AccessTokenRequest, AccessTokenResponse,
  CredentialOfferSession, access_token_created, IssuerError, token_error, invalid_request,
  external_access_token_provider,
}
use oid4vc.Store.{Issuer, get_asserted_session, set_session, write, read}
use oid4vc.Token.Checks.{is_authorization_code}

-- A claim of a token's payload. Times are in thousandths of a second, as the code divides
-- milliseconds by 1000 without rounding.
pub data Claim : Type 0 where
  text_claim : String → Claim
  time_claim : ℕ → Claim
  key_claim : (jkt : String) → Claim
  details_claim : List AuthorizationDetails → Claim
  other_claim : Opaque → Claim

pub record TokenJwt : Type 0 where
  pub typ : String
  pub alg : String
  pub payload : List (String × Claim)

pub data AccessTokenProvider : Type 0 where
  internal oidc oauth2 : AccessTokenProvider

abbrev is_internal : AccessTokenProvider → Bool
is_internal internal = true
is_internal _ = false

-- `{ ...payload, ...claims }`
unfoldable pub spread : List (String × Claim) → List (String × Claim) → List (String × Claim)
spread payload [] = payload
spread payload ((k, v) ∷ claims) = spread (map_set payload k v) claims

module _ (access_token_signer_callback : TokenJwt → Result IssuerError String)
    (calculate_jwk_thumbprint : Opaque → String) where
  cnf_claim : Option Opaque → List (String × Claim)
  cnf_claim none = []
  cnf_claim (some jwk) = ("cnf", key_claim (calculate_jwk_thumbprint jwk)) ∷ []

  code_claim : Option String → List (String × Claim)
  code_claim code =
      if text?_truthy code then ("preAuthorizedCode", text_claim (get_or code "")) ∷ [] else []

  -- The payload of an access token at the time `now`.
  unfoldable pub token_payload :
      (token_expires_in : ℕ) (access_token_issuer : String) (pre_authorized_code : Option String)
      (dpop_jwk : Option Opaque) (additional_claims : List (String × Claim)) (now : ℕ)
      → List (String × Claim)
  unfolding spread cnf_claim code_claim
  token_payload token_expires_in access_token_issuer pre_authorized_code dpop_jwk additional_claims
        now =
      spread
        (("iat", time_claim now)
            ∷ ("exp", time_claim (now + token_expires_in * 1000))
            ∷ ("iss", text_claim access_token_issuer)
            ∷ cnf_claim dpop_jwk
          ++ code_claim pre_authorized_code
          ++ ("token_type", text_claim (if is_some dpop_jwk then "DPoP" else "Bearer")) ∷ [])
        additional_claims

  unfoldable pub generate_access_token :
      (token_expires_in : ℕ) (access_token_issuer : String) (provider : Option AccessTokenProvider)
      (pre_authorized_code alg : Option String) (dpop_jwk : Option Opaque)
      (additional_claims : List (String × Claim)) (now : ℕ)
      → Result IssuerError String
  generate_access_token token_expires_in access_token_issuer provider pre_authorized_code alg
        dpop_jwk additional_claims now =
      if is_internal (get_or provider internal)
      then access_token_signer_callback (record {
        typ = "JWT";
        alg = get_or alg "ES256";
        payload =
            token_payload token_expires_in access_token_issuer pre_authorized_code dpop_jwk
              additional_claims now;
      })
      else err (token_error 400 invalid_request external_access_token_provider)

  -- The identifiers of one entry; the uuid and the time are what this call gets.
  unfoldable pub generate_credential_identifiers :
      AuthorizationDetails → CredentialOfferSession → (uuid : String) (now : ℕ) → List String
  generate_credential_identifiers (detail_text t) session uuid now = uuid ∷ []
  generate_credential_identifiers (detail_object d) session uuid now =
      if text?_truthy d.credential_configuration_id
        && includes session.credential_offer.credential_offer.credential_configuration_ids
            (get_or d.credential_configuration_id "")
      then concat
          (get_or d.credential_configuration_id "" ∷ "_" ∷ decimal_text now ∷ "_" ∷ uuid ∷ [])
        ∷ []
      else if text?_truthy d.format
      then concat (get_or d.format "" ∷ "_" ∷ decimal_text now ∷ "_" ∷ uuid ∷ []) ∷ []
      else uuid ∷ []

  with_identifiers :
      AuthorizationDetails
      → CredentialOfferSession
      → (uuid : String) (now : ℕ) → AuthorizationDetails
  unfolding generate_credential_identifiers
  with_identifiers (detail_text t) session uuid now = detail_text t
  with_identifiers (detail_object d) session uuid now = detail_object (record d {
    credential_identifiers =
        some (generate_credential_identifiers (detail_object d) session uuid now);
  })

  -- The `map` over the session's authorization details; `uuids i` and `clock i` are what the i-th
  -- entry gets.
  unfoldable pub identify :
      List AuthorizationDetails
      → CredentialOfferSession
      → (uuids : ℕ → String) (clock : ℕ → ℕ) (i : ℕ) → List AuthorizationDetails
  unfolding with_identifiers
  identify [] session uuids clock i = []
  identify (d ∷ ds) session uuids clock i =
      with_identifiers d session (uuids i) (clock i) ∷ identify ds session uuids clock (i + 1)

  abbrev pub session_key : AccessTokenRequest → String
  session_key request =
      if is_authorization_code request.grant_type
      then get_or request.code ""
      else get_or request.pre_authorized_code ""

  abbrev lift : {A : Type 0} → Result IssuerError A → Issuer A
  lift r s = (r, s)

  -- `clock 0` is the time of the token, `clock 1` that of the update; later readings and the uuids
  -- go to the identifiers.
  unfoldable pub create_access_token_response :
      AccessTokenRequest
      → (token_expires_in : ℕ) (access_token_issuer : String)
      → (provider : Option AccessTokenProvider) (interval : Option ℕ) (dpop_jwk : Option Opaque)
      → (uuids : ℕ → String) (clock : ℕ → ℕ) → Issuer AccessTokenResponse
  unfolding generate_access_token identify
  create_access_token_response request token_expires_in access_token_issuer provider interval
        dpop_jwk uuids clock =
      do
        session ← get_asserted_session (session_key request)
        access_token ← lift (
            generate_access_token token_expires_in access_token_issuer provider
              (some (session_key request)) none dpop_jwk [] (clock 0))
        write session (λ c. record c { status = access_token_created; last_updated_at = clock 1 })
        stored ← read session
        set_session (session_key request) session
        pure (record {
          access_token = access_token;
          token_type = if is_some dpop_jwk then "DPoP" else "bearer";
          expires_in = token_expires_in;
          interval = interval;
          authorization_details =
              and_then stored.authorization_details
                (λ ds. some (identify ds stored uuids (λ i. clock (i + 2)) 0));
        })
