-- ===== src/Tests/Data.antt =====
-- An issuer with one offer, at a pre-authorized code, and one nonce.
use oid4vc.Store.{IssuerStore}
use oid4vc.Types.{
  TxCode, GrantUrnIetf, CNonceState, CredentialOfferSession, AccessTokenRequest, JwtVerifyResult,
  Credential, NotificationRequest, numeric, AssertedUniformCredentialOffer, offer_created,
  GrantTypes, one_audience,
}
use oid4vc.Prelude.{ℕ, ◌+◌, ◌*◌, String, Bool, Option, none, some, [], ◌∷◌, ok}
use oid4vc.Issuer.Config.{IssuerConfig}
use oid4vc.Issuer.Issue.{IssueOpts}

abbrev pub asked_code : TxCode
asked_code = record { input_mode = some numeric; length = some 4; description = none }

abbrev pub offer_of : GrantUrnIetf → AssertedUniformCredentialOffer
offer_of grant = record {
  credential_offer = record {
    credential_issuer = "https://issuer";
    credential_configuration_ids = "Degree" ∷ [];
    grants = some (record { authorization_code = none; pre_authorized = some grant });
    client_id = none;
  };
  credential_offer_uri = none;
}

abbrev pub grant_with : Option TxCode → Option Bool → GrantUrnIetf
grant_with tx_code user_pin_required = record {
  pre_authorized_code = some "code";
  tx_code = tx_code;
  interval = none;
  authorization_server = none;
  user_pin_required = user_pin_required;
}

abbrev pub session_with : GrantUrnIetf → Option String → CredentialOfferSession
session_with grant pin = record {
  created_at = 1000;
  expires_at = none;
  client_id = none;
  credential_offer = offer_of grant;
  credential_data_supplier_input = none;
  tx_code = pin;
  status = offer_created;
  error = none;
  last_updated_at = 1000;
  notification_id = "note";
  notification = none;
  issuer_state = none;
  pre_authorized_code = some "code";
  authorization_code = none;
  redirect_uri = none;
  status_lists = none;
  authorization_details = none;
}

abbrev pub one_nonce : CNonceState
one_nonce = record { created_at = 1000; expires_at = none; c_nonce = "nonce" }

-- A store with the session in its first cell.
abbrev pub store_of : CredentialOfferSession → IssuerStore
store_of session = record {
  heap = λ _. session;
  next_cell = 1;
  credential_offer_sessions = record { expires_in_ms = 180000; states = ("code", 0) ∷ [] };
  uris = record { expires_in_ms = 180000; states = [] };
  c_nonces = record { expires_in_ms = 180000; states = ("nonce", one_nonce) ∷ [] };
}

-- One reading a second, from the third on.
abbrev pub seconds : ℕ → ℕ
seconds n = 3000 + n * 1000

abbrev pub token_request : Option String → Option String → AccessTokenRequest
token_request tx_code user_pin = record {
  client_id = none;
  code = none;
  code_verifier = none;
  grant_type = GrantTypes.pre_authorized_code;
  pre_authorized_code = some "code";
  redirect_uri = none;
  scope = none;
  user_pin = user_pin;
  tx_code = tx_code;
}

abbrev pub proof_result : JwtVerifyResult
proof_result = record {
  header = record {
    typ = some "openid4vci-proof+jwt";
    alg = some "ES256";
    kid = none;
    jwk = some "key";
    x5c = none;
  };
  payload = record {
    iss = none;
    aud = some (one_audience "https://issuer");
    iat = some 2;
    nonce = some "nonce";
  };
  kid = none;
  alg = some "ES256";
  did = none;
  did_document = none;
  x5c = none;
  jwk = some "key";
}

abbrev pub credential : Credential
credential = record {
  cnf = none;
  credential_subject = none;
  iss = some "https://issuer";
  issuer = none;
  content = "degree";
}

abbrev pub config : IssuerConfig
config = record {
  issuer_metadata = record {
    credential_issuer = "https://issuer";
    credential_configurations_supported =
        some (("Degree", record { id = none; vct = none; format = "dc+sd-jwt" }) ∷ []);
  };
  jwt_verify_callback = some (λ jwt. ok proof_result);
  credential_signer_callback = some (λ args. ok (some "signed"));
  credential_data_supplier = none;
}

abbrev pub issue_opts : IssueOpts
issue_opts = record {
  credential_request = record {
    credential_identifier = none;
    credential_configuration_id = some "Degree";
    format = none;
    proofs = some (("jwt", "proof" ∷ []) ∷ []);
    proof = none;
    issuer_state = none;
    subject_proof_mode = none;
  };
  issuer_correlation = record {
    issuer_state = none;
    pre_authorized_code = some "code";
    authorization_details = none;
  };
  credential = some credential;
  credential_data_supplier = none;
  credential_data_supplier_input = none;
  token_expires_in = some 600;
  jwt_verify_callback = none;
  credential_signer_callback = none;
}

abbrev pub note : NotificationRequest
note = record {
  notification_id = "note";
  event = "credential_accepted";
  event_description = none;
  credential = none;
}
