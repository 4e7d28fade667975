-- ===== src/Types/Request.antt =====
-- A credential request and what the issuer is told of its proof: CredentialIssuance.types.ts and
-- v1_0_15.types.ts of packages/oid4vci-common/lib/types, IssuerCorrelation and the data supplier's
-- types of packages/issuer/lib/types/index.ts.
use oid4vc.Prelude.{ℕ, String, Option, List}
use oid4vc.Types.Offer.{Opaque, AuthorizationDetails}

-- `proofs` gives a list of proofs for each proof type; `proof` is the older form, by its JWT.
pub record CredentialRequest : Type 0 where
  pub credential_identifier : Option String
  pub credential_configuration_id : Option String
  pub format : Option String
  pub proofs : Option (List (String × List String))
  pub proof : Option String
  pub issuer_state : Option String
  -- `credential_subject_issuance?.subject_proof_mode`
  pub subject_proof_mode : Option String

pub record IssuerCorrelation : Type 0 where
  pub issuer_state : Option String
  pub pre_authorized_code : Option String
  pub authorization_details : Option (List AuthorizationDetails)

pub record JwtHeader : Type 0 where
  pub typ : Option String
  pub alg : Option String
  pub kid : Option String
  pub jwk : Option Opaque
  pub x5c : Option (List String)

pub data Audience : Type 0 where
  one_audience : String → Audience
  audiences : List String → Audience

pub record JwtPayload : Type 0 where
  pub iss : Option String
  pub aud : Option Audience
  pub iat : Option ℕ
  pub nonce : Option String

pub record JwtVerifyResult : Type 0 where
  pub header : JwtHeader
  pub payload : JwtPayload
  pub kid : Option String
  pub alg : Option String
  pub did : Option String
  pub did_document : Option Opaque
  pub x5c : Option (List String)
  pub jwk : Option Opaque

-- A credential before it is signed, of what the issuer reads or writes of it.
pub record CredentialSubject : Type 0 where
  pub id : Option String
  pub claims : Opaque

pub data CredentialSubjects : Type 0 where
  one_subject : CredentialSubject → CredentialSubjects
  subjects : List CredentialSubject → CredentialSubjects

pub data Confirmation : Type 0 where
  kid_confirmation : String → Confirmation
  jwk_confirmation : Opaque → Confirmation
  other_confirmation : Opaque → Confirmation

pub data IssuerField : Type 0 where
  issuer_text : String → IssuerField
  issuer_object : (id : Option String) → IssuerField

pub record Credential : Type 0 where
  pub cnf : Option Confirmation
  pub credential_subject : Option CredentialSubjects
  pub iss : Option String
  pub issuer : Option IssuerField
  pub content : Opaque
