-- ===== src/Token/Request.antt =====
-- assertValidAccessTokenRequest (packages/issuer/lib/tokens/index.ts). `clock n` is the n-th reading
-- of the clock within the call, in milliseconds.
use oid4vc.Prelude.{
  ℕ, String, Option, none, some, List, [], ◌∷◌, if◌then◌else◌, pure, throw, ◌>>=◌, ◌>>◌, ok, err,
  text?_truthy, get_or, text?_eq,
}
use oid4vc.Types.{
  AccessTokenRequest, StoredAuthorizationRequest, CredentialOfferSession, access_token_requested,
  IssuerError, authorization_code_required, invalid_authorization_code,
  unsupported_grant_type_error, pre_authorized_code_required_error,
}
use oid4vc.Store.{Issuer, get_session, get_asserted_session, set_session, allocate, write, read}
use oid4vc.Token.Checks.{
  is_pre_authorized, is_authorization_code, bad_request, bad_grant, pre_auth_error,
}

abbrev pub throw_if : Option IssuerError → Issuer (Unit {0})
throw_if none s = (ok tt, s)
throw_if (some x) s = (err x, s)

-- The pre-authorized code flow; the result is the session's object.
unfoldable pub pre_authorized_flow : AccessTokenRequest → ℕ → (ℕ → ℕ) → Issuer ℕ
pre_authorized_flow request expiration_duration clock =
    if text?_truthy request.pre_authorized_code
    then (do
      let code = get_or request.pre_authorized_code ""
      session ← get_asserted_session code
      write session (λ c. record c { status = access_token_requested; last_updated_at = clock 0 })
      set_session code session
      stored ← read session
      throw_if (pre_auth_error request stored expiration_duration (clock 1))
      pure session)
    else throw (bad_request pre_authorized_code_required_error)

-- `Array.from(authRequestsData.values()).find(…)`
unfoldable pub find_request :
    String → List (String × StoredAuthorizationRequest) → Option StoredAuthorizationRequest
find_request code [] = none
find_request code ((k, stored) ∷ rest) =
    if text?_eq stored.authorization_code (some code) then some stored else find_request code rest

-- The session that the authorization code flow creates.
abbrev pub new_session :
    String → StoredAuthorizationRequest → String → (ℕ → ℕ) → CredentialOfferSession
new_session code stored uuid clock = record {
  created_at = clock 0;
  expires_at = none;
  client_id = none;
  credential_offer = record {
    credential_offer = record {
      credential_issuer = "";
      credential_configuration_ids = [];
      grants = some (record { authorization_code = none; pre_authorized = none });
      client_id = none;
    };
    credential_offer_uri = none;
  };
  credential_data_supplier_input = none;
  tx_code = none;
  status = access_token_requested;
  error = none;
  last_updated_at = clock 1;
  notification_id = uuid;
  notification = none;
  issuer_state = none;
  pre_authorized_code = none;
  authorization_code = some code;
  redirect_uri = none;
  status_lists = none;
  authorization_details = stored.authorization_details;
}

create_or_update : String → StoredAuthorizationRequest → String → (ℕ → ℕ) → Option ℕ → Issuer ℕ
create_or_update code stored uuid clock none = do
  session ← allocate (new_session code stored uuid clock)
  set_session code session
  pure session
create_or_update code stored uuid clock (some session) = do
  write session (λ c. record c {
    authorization_details = stored.authorization_details;
    authorization_code = some code;
    status = access_token_requested;
    last_updated_at = clock 0;
  })
  set_session code session
  pure session

with_request : String → String → (ℕ → ℕ) → Option StoredAuthorizationRequest → Issuer ℕ
unfolding create_or_update
with_request code uuid clock none = throw (bad_grant invalid_authorization_code)
with_request code uuid clock (some stored) = do
  existing ← get_session code
  create_or_update code stored uuid clock existing

-- The authorization code flow. `uuid` is the identifier that `uuidv4` gives.
unfoldable pub authorization_code_flow :
    AccessTokenRequest
    → Option (List (String × StoredAuthorizationRequest))
    → String
    → (ℕ → ℕ)
    → Issuer ℕ
unfolding with_request find_request
authorization_code_flow request none uuid clock = throw (bad_request authorization_code_required)
authorization_code_flow request (some stored) uuid clock =
    if text?_truthy request.code
    then with_request (get_or request.code "") uuid clock
        (find_request (get_or request.code "") stored)
    else throw (bad_request authorization_code_required)

unfoldable pub assert_valid_access_token_request :
    AccessTokenRequest
    → ℕ
    → Option (List (String × StoredAuthorizationRequest))
    → String
    → (ℕ → ℕ)
    → Issuer ℕ
unfolding authorization_code_flow pre_authorized_flow
assert_valid_access_token_request request expiration_duration auth_requests_data uuid clock =
    if is_authorization_code request.grant_type
    then authorization_code_flow request auth_requests_data uuid clock
    else if is_pre_authorized request.grant_type
    then pre_authorized_flow request expiration_duration clock
    else throw (bad_grant unsupported_grant_type_error)
