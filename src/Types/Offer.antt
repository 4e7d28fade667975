-- ===== src/Types/Offer.antt =====
-- Grants and credential offers: Generic.types.ts, Authorization.types.ts, CredentialIssuance.types.ts
-- and v1_0_15.types.ts of packages/oid4vci-common/lib/types.
use oid4vc.Prelude.{ℕ, String, Bool, Option, List}

-- A value that the code stores or passes on and does not look into.
abbrev pub Opaque : Type 0
Opaque = String

pub data GrantTypes : Type 0 where
  authorization_code pre_authorized_code password : GrantTypes
  -- a `grant_type` of a request that is none of the three
  unknown_grant : String → GrantTypes

pub data InputCharSet : Type 0 where
  numeric text : InputCharSet

pub record TxCode : Type 0 where
  pub input_mode : Option InputCharSet
  pub length : Option ℕ
  pub description : Option String

pub record GrantUrnIetf : Type 0 where
  pub pre_authorized_code : Option String
  pub tx_code : Option TxCode
  pub interval : Option ℕ
  pub authorization_server : Option String
  pub user_pin_required : Option Bool

pub record GrantAuthorizationCode : Type 0 where
  pub issuer_state : Option String
  pub authorization_server : Option String

pub record Grant : Type 0 where
  pub authorization_code : Option GrantAuthorizationCode
  pub pre_authorized : Option GrantUrnIetf

pub record CredentialOfferPayload : Type 0 where
  pub credential_issuer : String
  pub credential_configuration_ids : List String
  pub grants : Option Grant
  pub client_id : Option String

pub record AssertedUniformCredentialOffer : Type 0 where
  pub credential_offer : CredentialOfferPayload
  pub credential_offer_uri : Option String

-- One entry of `authorization_details`: a bare text, or an object. Of an object's fields, those
-- that the issuer reads.
pub record AuthorizationDetailsObject : Type 0 where
  pub credential_configuration_id : Option String
  pub credential_identifiers : Option (List String)
  pub format : Option String

pub data AuthorizationDetails : Type 0 where
  detail_text : String → AuthorizationDetails
  detail_object : AuthorizationDetailsObject → AuthorizationDetails

pub record AccessTokenRequest : Type 0 where
  pub client_id : Option String
  pub code : Option String
  pub code_verifier : Option String
  pub grant_type : GrantTypes
  pub pre_authorized_code : Option String
  pub redirect_uri : Option String
  pub scope : Option String
  pub user_pin : Option String
  pub tx_code : Option String

-- Of an authorization request that the server stored, what the token endpoint reads.
pub record StoredAuthorizationRequest : Type 0 where
  pub authorization_code : Option String
  pub authorization_details : Option (List AuthorizationDetails)

pub record AccessTokenResponse : Type 0 where
  pub access_token : String
  pub token_type : String
  pub expires_in : ℕ
  pub interval : Option ℕ
  pub authorization_details : Option (List AuthorizationDetails)

pub record NotificationRequest : Type 0 where
  pub notification_id : String
  pub event : String
  pub event_description : Option String
  pub credential : Option Opaque
