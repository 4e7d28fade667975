-- ===== src/Tests/Rest.antt =====
-- Tests of the server's endpoints, and of the deletion of sessions.
use oid4vc.Token.Checks.{pre_auth_error, bad_request}
use oid4vc.Types.{
  IssuerError, Opaque, AccessTokenRequest, GrantTypes, invalid_notification_request,
  user_pin_not_required_error,
}
use oid4vc.Store.{IssuerStore}
use oid4vc.Prelude.{
  ℕ, String, ◌≡◌, refl, ◌||◌, none, some, [], ◌∷◌, arith, eq_iff, if◌then◌else◌, Result, ok,
  map_get, map_has, ◌==◌, string_eq, nat_eq,
}
use oid4vc.Rest.Reply.{sent, refused, Description, error_of, TokenVerifier}
use oid4vc.Rest.TokenEndpoint.{TokenHttpRequest, TokenOpts, access_token_endpoint, dpop_key}
use oid4vc.Rest.TokenEndpoint.Served.{
  token_served, token_refused, authorization_code_refused, later,
}
use oid4vc.Rest.Nonce.{nonce_endpoint, nonce_endpoint_lem, fresh_nonce}
use oid4vc.Rest.Endpoints.{correlation_of, notification_endpoint}
use oid4vc.Rest.Endpoints.OwnTokens.{
  own_claims, own_token_correlation, own_token_notification_refused,
}
use oid4vc.Token.Response.{TokenJwt, generate_access_token}
use oid4vc.Token.Response.Created.{created_at_ref}
use oid4vc.Token.Outcome.{requested_at}
use oid4vc.Issuer.Issue.Nonces.{AreNoncesKeyed}
use oid4vc.Issuer.Sessions.{delete_credential_offer_session_by_id}
use oid4vc.Issuer.Sessions.Deleted.{IsWithoutSessions, delete_session_lem, names_it}
use oid4vc.Tests.Data.{session_with, grant_with, store_of, seconds, token_request, note}

abbrev offered : IssuerStore
offered = store_of (session_with (grant_with none none) none)

abbrev signer : TokenJwt → Result IssuerError String
signer jwt = ok "token"

abbrev thumbprint : Opaque → String
thumbprint key = "print"

abbrev opts : TokenOpts
opts = record {
  pre_authorized_code_expiration_duration = 300;
  auth_requests_data = none;
  token_expires_in = 600;
  access_token_issuer = "https://issuer";
  interval = 5;
  dpop = none;
}

abbrev plain : AccessTokenRequest → TokenHttpRequest
plain body = record { body = body; authorization = none; dpop = none }

abbrev uuids : ℕ → String
uuids n = "uuid"

token_served_example :
    access_token_endpoint signer thumbprint opts
      (plain (token_request none none))
      "uuid"
      uuids
      seconds
      offered
    ≡ (
      sent 200 (record {
        access_token = "token";
        token_type = "bearer";
        expires_in = 600;
        interval = some 5;
        authorization_details = none;
      }),
      created_at_ref signer thumbprint
          (token_request none none)
          600
          "https://issuer"
          (some 5)
          none
          uuids
          (later signer thumbprint opts
            (plain (token_request none none))
            "uuid"
            uuids
            seconds
            offered)
          0
          (requested_at 0 3000 offered),
    )
unfolding pre_auth_error map_get dpop_key generate_access_token
token_served_example =
    token_served signer thumbprint opts (plain (token_request none none)) "uuid" uuids seconds
      offered refl "code" 0 refl refl refl none "token" refl refl refl refl

token_refused_example :
    access_token_endpoint signer thumbprint opts
      (plain (token_request (some "1") none))
      "uuid"
      uuids
      seconds
      offered
    ≡ (
      refused 400 "invalid_request" (error_of (bad_request user_pin_not_required_error)),
      requested_at 0 3000 offered,
    )
unfolding pre_auth_error map_get
token_refused_example =
    token_refused signer thumbprint opts (plain (token_request (some "1") none)) "uuid" uuids
      seconds offered refl "code" 0 refl refl refl (bad_request user_pin_not_required_error) refl

abbrev code_request : AccessTokenRequest
code_request = record (token_request none none) {
  grant_type = GrantTypes.authorization_code;
  code = some "auth";
}

authorization_code_refused_example :
    (status : ℕ) × (e : String) × (d : Description) × ((access_token_endpoint signer thumbprint opts
        (plain code_request)
        "uuid"
        uuids
        seconds
        offered).0
      ≡ refused status e d)
authorization_code_refused_example =
    authorization_code_refused signer thumbprint opts (plain code_request) "uuid" uuids seconds
      offered refl

offered-AreNoncesKeyed : AreNoncesKeyed offered
unfolding map_get map_has
offered-AreNoncesKeyed = record {
  unique = (refl, tt);
  keyed = λ n c h. ground (arith, eq_iff "nonce" n);
}

nonce_endpoint_lem_example :
    (t : IssuerStore) × (nonce_endpoint 0 "uuid" 2000 offered
      ≡ (sent 200 (record { c_nonce = "uuid"; c_nonce_expires_in = 300 }), t))
    × AreNoncesKeyed t
    × ((n : String)
        → map_get t.c_nonces.states n ≡ (
            if "uuid" == n
            then some (fresh_nonce 0 "uuid" 2000)
            else map_get offered.c_nonces.states n))
    × (t.heap ≡ offered.heap)
    × (t.credential_offer_sessions ≡ offered.credential_offer_sessions)
    × (t.uris ≡ offered.uris)
nonce_endpoint_lem_example = nonce_endpoint_lem 0 "uuid" 2000 offered refl offered-AreNoncesKeyed

own_token_correlation_example :
    correlation_of (own_claims signer thumbprint 600 "https://issuer" "code" none 2000) ≡ record {
      issuer_state = none;
      pre_authorized_code = some "code";
      authorization_details = none;
    }
own_token_correlation_example =
    own_token_correlation signer thumbprint 600 "https://issuer" "code" none 2000 refl

abbrev verify_own : TokenVerifier
verify_own token = ok (own_claims signer thumbprint 600 "https://issuer" "code" none 2000)

own_token_notification_refused_example :
    notification_endpoint verify_own (some verify_own) (some "token") note seconds offered
    ≡ (refused 400 "" (error_of (IssuerError.error invalid_notification_request)), offered)
own_token_notification_refused_example =
    own_token_notification_refused signer thumbprint 600 "https://issuer" "code" none 2000
      verify_own verify_own "token" note seconds offered refl refl

delete_session_lem_example :
    (t : IssuerStore) × (delete_credential_offer_session_by_id "code"
        ("preAuthorizedCode" ∷ [])
        offered
      ≡ (ok 0, t))
    × IsWithoutSessions (λ k. names_it (some "code") k || names_it none k) offered t
unfolding map_get map_has
delete_session_lem_example =
    delete_session_lem "code" "preAuthorizedCode" [] 0 offered (refl, tt) refl
