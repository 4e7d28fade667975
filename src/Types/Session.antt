-- ===== src/Types/Session.antt =====
-- The stored states of StateManager.types.ts.
use oid4vc.Prelude.{ℕ, String, Option, List}
use oid4vc.StateManager.{StateType}
use oid4vc.Types.Errors.{IssuerError}
use oid4vc.Types.Offer.{
  Opaque, AssertedUniformCredentialOffer, AuthorizationDetails, NotificationRequest,
}

pub data IssueStatus : Type 0 where
  offer_created access_token_requested access_token_created credential_request_received :
      IssueStatus
  credential_issued notification_credential_accepted notification_credential_deleted : IssueStatus
  notification_credential_failure error_occurred : IssueStatus

pub record CredentialOfferSession : Type 0 where
  pub created_at : ℕ
  pub expires_at : Option ℕ
  pub client_id : Option String
  pub credential_offer : AssertedUniformCredentialOffer
  pub credential_data_supplier_input : Option Opaque
  pub tx_code : Option String
  pub status : IssueStatus
  -- the text of the error, as the error that it comes from
  pub error : Option IssuerError
  pub last_updated_at : ℕ
  pub notification_id : String
  pub notification : Option NotificationRequest
  pub issuer_state : Option String
  pub pre_authorized_code : Option String
  pub authorization_code : Option String
  pub redirect_uri : Option String
  pub status_lists : Option Opaque
  pub authorization_details : Option (List AuthorizationDetails)

pub record CNonceState : Type 0 where
  pub created_at : ℕ
  pub expires_at : Option ℕ
  pub c_nonce : String

pub record UriState : Type 0 where
  pub created_at : ℕ
  pub expires_at : Option ℕ
  pub issuer_state : Option String
  pub pre_authorized_code : Option String
  pub uri : String
  pub correlation_id : Option String

abbrev pub c_nonce_state : StateType CNonceState
c_nonce_state = record { created_at = λ s. s.created_at; expires_at = λ s. s.expires_at }

abbrev pub uri_state : StateType UriState
uri_state = record { created_at = λ s. s.created_at; expires_at = λ s. s.expires_at }
