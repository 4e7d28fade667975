-- ===== src/Issuer/ProofChecks/Meant.antt =====
-- What the header and the claims of a proof of possession are to be (validateCredentialRequestProof
-- of packages/issuer/lib/VcIssuer.ts).
use oid4vc.Issuer.Binding.{identifiers_error, all_identifiers}
use oid4vc.Issuer.Config.{IssuerMetadata}
use oid4vc.Prelude.{
  ℕ, zero, suc, ◌+◌, ◌/◌, ◌≤◌, ◌<◌, String, ◌≡◌, refl, ap, ◌∙◌, Bool, true, false, not, ◌&&◌, ◌||◌,
  Option, none, some, List, [], ◌∷◌, ◌++◌, arith, ltb, includes, map_get, string_eq, nat_eq,
  text_truthy, text?_truthy, nat?_truthy, is_some, get_or, or_else, and_then, text?_eq_iff,
}
use text.Mathlib.TextEquality.{eq_iff}
use oid4vc.Types.{
  JwtVerifyResult, JwtPayload, Audience, one_audience, audiences, CredentialOfferSession,
  AuthorizationDetails, detail_text, CredentialRequest, detail_object,
}
use oid4vc.Issuer.Proof.{Seen}
use oid4vc.Issuer.ProofChecks.{
  header_error, claims_error, is_audience, has_authorization_code_grant, CredentialRequest,
}

-- The type is that of a proof, and an algorithm is named. A certificate chain stands alone, without
-- key id and key. A key id that gives no DID comes with a key or a chain, and a DID with its document.
pub record HasValidHeader (r : JwtVerifyResult) : Type 0 where
  pub typ : r.header.typ ≡ some "openid4vci-proof+jwt"
  pub alg : text?_truthy (or_else r.alg r.header.alg) ≡ true
  pub one_key :
      (is_some (or_else r.x5c r.header.x5c)
        && (text?_truthy (or_else r.kid r.header.kid) || is_some (or_else r.jwk r.header.jwk)))
      ≡ false
  pub key_id :
      (text?_truthy (or_else r.kid r.header.kid)
        && not (text?_truthy r.did)
        && not (is_some (or_else r.jwk r.header.jwk))
        && not (is_some (or_else r.x5c r.header.x5c)))
      ≡ false
  pub document : (text?_truthy r.did && not (is_some r.did_document)) ≡ false

pub header_error-HasValidHeader : (r : JwtVerifyResult) → header_error r ≡ none → HasValidHeader r
unfolding header_error
header_error-HasValidHeader r h = record {
  typ = ground (arith, text?_eq_iff r.header.typ (some "openid4vci-proof+jwt"));
  alg = ground arith;
  one_key = ground arith;
  key_id = ground arith;
  document = ground arith;
}

-- The audience is the issuer alone. The time of issuance, in seconds, is not 0 and at most the
-- rounded time of creation and the lifetime of tokens. Where the session has a grant of the
-- authorization code flow, there is an issuer of the proof.
pub record HasValidClaims (credential_issuer : String) (token_expires_in created_at : ℕ)
    (session : Option CredentialOfferSession) (p : JwtPayload) : Type 0 where
  pub iss :
      (not (text?_truthy p.iss)
        && is_some (
            and_then session (λ c.
              and_then c.credential_offer.credential_offer.grants (λ g. g.authorization_code))))
      ≡ false
  pub aud : p.aud ≡ some (one_audience credential_issuer)
  pub iat :
      (t : ℕ) × (p.iat ≡ some t) × (0 < t) × (t ≤ (created_at + 500) / 1000 + token_expires_in)

is_audience-one :
    (a : Option Audience) (issuer : String)
    → is_audience a issuer ≡ true
    → a ≡ some (one_audience issuer)
is_audience-one none issuer h = ground arith
is_audience-one (some (audiences l)) issuer h = ground arith
is_audience-one (some (one_audience b)) issuer h =
    ap (λ (x : String). some (one_audience x)) (ground (arith, eq_iff b issuer))

iat_between :
    (iat : Option ℕ) (limit : ℕ)
    → nat?_truthy iat ≡ true
    → ltb limit (get_or iat 0) ≡ false
    → (t : ℕ) × (iat ≡ some t) × (0 < t) × (t ≤ limit)
iat_between none limit h l = ground arith
iat_between (some zero) limit h l = ground arith
iat_between (some (suc t)) limit h l = (suc t, refl, omega arith, ground arith)

grant_in :
    (session : Option CredentialOfferSession)
    → has_authorization_code_grant session
      ≡ is_some (
          and_then session
            (λ c. and_then c.credential_offer.credential_offer.grants (λ g. g.authorization_code)))
grant_in none = refl
grant_in (some c) = refl

pub claims_error-HasValidClaims :
    (credential_issuer : String) (token_expires_in : ℕ) (seen : Seen)
    (tested session : Option CredentialOfferSession)
    → has_authorization_code_grant tested ≡ has_authorization_code_grant session
    → claims_error credential_issuer token_expires_in seen tested ≡ none
    → HasValidClaims credential_issuer token_expires_in seen.created_at session seen.result.payload
unfolding claims_error
claims_error-HasValidClaims credential_issuer token_expires_in seen tested session same h = record {
  iss = ground (arith, grant_in session);
  aud = is_audience-one seen.result.payload.aud credential_issuer (ground arith);
  iat =
      iat_between seen.result.payload.iat ((seen.created_at + 500) / 1000 + token_expires_in)
        (ground arith) (ground arith);
}

-- The identifier is one that the details of an authorization name.
abbrev pub is_named : AuthorizationDetails → String → Bool
is_named (detail_text t) id = false
is_named (detail_object d) id = includes (get_or d.credential_identifiers []) id

abbrev pub is_granted : List AuthorizationDetails → String → Bool
is_granted [] id = false
is_granted (d ∷ ds) id = is_named d id || is_granted ds id

includes-append :
    (xs ys : List String) (id : String)
    → includes (xs ++ ys) id ≡ (includes xs id || includes ys id)
includes-append [] ys id = refl
includes-append (x ∷ xs) ys id = ground (arith, includes-append xs ys id)

all_identifiers-is_granted :
    (details : List AuthorizationDetails) (id : String)
    → includes (all_identifiers details) id ≡ is_granted details id
all_identifiers-is_granted [] id = refl
all_identifiers-is_granted (detail_text t ∷ ds) id = all_identifiers-is_granted ds id
all_identifiers-is_granted (detail_object d ∷ ds) id =
    includes-append (get_or d.credential_identifiers []) (all_identifiers ds) id
    ∙ ap (λ b. includes (get_or d.credential_identifiers []) id || b)
        (all_identifiers-is_granted ds id)

-- A request names a credential or a configuration. A configuration is one of the issuer, and a
-- credential is named in the details of the authorization, if there are details.
pub record IsIdentified (metadata : IssuerMetadata) (request : CredentialRequest)
    (details : Option (List AuthorizationDetails)) : Type 0 where
  pub named :
      (is_some request.credential_identifier || is_some request.credential_configuration_id) ≡ true
  pub configured :
      (id : String)
      → request.credential_configuration_id ≡ some id
      → text_truthy id ≡ true
      → is_some (and_then metadata.credential_configurations_supported (λ m. map_get m id)) ≡ true
  pub granted :
      (id : String) (l : List AuthorizationDetails)
      → request.credential_identifier ≡ some id
      → text_truthy id ≡ true
      → details ≡ some l
      → is_granted l id ≡ true

pub identifiers_error-IsIdentified :
    (metadata : IssuerMetadata) (request : CredentialRequest)
    (details : Option (List AuthorizationDetails))
    → identifiers_error metadata request details ≡ none
    → IsIdentified metadata request details
unfolding identifiers_error
identifiers_error-IsIdentified metadata request details h = record {
  named = ground arith;
  configured = λ id e truthy. ground arith;
  granted = λ id l e truthy d. ground (arith, all_identifiers-is_granted l id);
}
