-- ===== src/Issuer/Config.antt =====
-- What a VcIssuer is constructed with (the constructor and fields of packages/issuer/lib/VcIssuer.ts):
-- the issuer's metadata and the callbacks of the integrator, which are functions here. A callback
-- gives a result or throws a message.
use oid4vc.Prelude.{String, Option, List, Result}
use oid4vc.Types.{
  Opaque, Credential, CredentialRequest, JwtVerifyResult, AssertedUniformCredentialOffer,
}

pub record CredentialConfiguration : Type 0 where
  pub id : Option String
  pub vct : Option String
  pub format : String

pub record IssuerMetadata : Type 0 where
  pub credential_issuer : String
  pub credential_configurations_supported : Option (List (String × CredentialConfiguration))

-- What a signer is given; a signer may give nothing.
pub record SignerArgs : Type 0 where
  pub credential_request : CredentialRequest
  pub format : Option String
  pub credential : Credential
  pub jwt_verify_result : JwtVerifyResult
  pub issuer : Option String
  pub status_lists : Option Opaque

abbrev pub CredentialSigner : Type 0
CredentialSigner = SignerArgs → Result String (Option Opaque)

pub record SupplierArgs : Type 0 where
  pub c_nonce : Option String
  pub credential_request : CredentialRequest
  pub format : Option String
  pub credential_offer : AssertedUniformCredentialOffer
  pub credential_data_supplier_input : Option Opaque

pub record SupplierResult : Type 0 where
  pub credential : Option Credential
  pub format : Option String
  pub sign_callback : Option CredentialSigner

abbrev pub CredentialDataSupplier : Type 0
CredentialDataSupplier = SupplierArgs → Result String SupplierResult

abbrev pub JwtVerifyCallback : Type 0
JwtVerifyCallback = String → Result String JwtVerifyResult

pub record IssuerConfig : Type 0 where
  pub issuer_metadata : IssuerMetadata
  pub jwt_verify_callback : Option JwtVerifyCallback
  pub credential_signer_callback : Option CredentialSigner
  pub credential_data_supplier : Option CredentialDataSupplier
