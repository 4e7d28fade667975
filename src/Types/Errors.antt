-- ===== src/Types/Errors.antt =====
-- TokenError and TokenErrorResponse (Token.types.ts) and the messages of OpenID4VCIErrors.ts and of
-- the issuer's own `throw`s, one constructor for each text.
use oid4vc.Prelude.{ℕ, String, Option, List}
use oid4vc.StateManager.{StateError}
use oid4vc.StateManager.Lookup.{LookupError}

pub data TokenErrorResponse : Type 0 where
  invalid_request invalid_grant invalid_client invalid_scope invalid_dpop_proof : TokenErrorResponse

pub data Message : Type 0 where
  typ_error alg_error kid_jwk_x5c_error kid_did_no_did_error did_no_diddoc_error aud_error : Message
  iat_error jwt_verify_config_error issuer_config_error : Message
  no_iss_in_authorization_code_context credential_missing_error : Message
  unsupported_grant_type_error pre_authorized_code_required_error user_pin_required_error : Message
  user_pin_tx_code_spec_error user_pin_not_required_error pin_not_match_error : Message
  invalid_pre_authorized_code expired_pre_authorized_code : Message
  -- with the length that the text ends in, `undefined` included
  pin_validation_error : Option ℕ → Message
  pin_validation_error_1_8 : Message
  authorization_code_required invalid_authorization_code external_access_token_provider : Message
  -- the texts of VcIssuer.ts
  no_request_identifier invalid_request_text identifier_not_in_details format_not_supported :
      Message
  proof_required : Message
  -- with the code points of the list of names in the text
  unsupported_proof_types : List ℕ → Message
  no_nonce_or_issuer_state no_session_for_proof invalid_pre_auth_code invalid_issuer_state : Message
  no_credential_or_supplier data_supplier_mandatory session_required offer_missing : Message
  credential_needed only_proof_replace : Message
  invalid_notification_request invalid_notification_id no_session_found : Message
  offer_uri_required metadata_or_offer_required configurations_mandatory : Message
  scheme_differs base_uri_required unsupported_offer_mode : Message
  -- what a callback of the integrator throws
  thrown : String → Message

pub data IssuerError : Type 0 where
  token_error : (status_code : ℕ) → TokenErrorResponse → Message → IssuerError
  error : Message → IssuerError
  of_state : StateError → IssuerError
  of_lookup : LookupError → IssuerError
