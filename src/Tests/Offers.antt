-- ===== src/Tests/Offers.antt =====
-- Tests of the creation of offers, and of an offer that a wallet and the token endpoint meet.
use oid4vc.Token.Checks.{is_text}
use mathlib.Core.Path.{subst}
use oid4vc.Offer.{pre_authorized_input, with_length}
use oid4vc.Token.Request.{assert_valid_access_token_request}
use oid4vc.StateManager.Memory
use oid4vc.StateManager.Lookup.{set_mapped}
use oid4vc.Prelude.{
  ℕ, ◌^◌, ◌<◌, String, ◌≡◌, refl, true, false, Option, none, some, [], ◌∷◌, arith, Result, ok, err,
  decimal_text, strip, length, All, map_get, string_eq, nat_eq, get_or, codes,
}
use oid4vc.Prelude.Decimal.Digits.{IsDigit, value}
use oid4vc.Types.{IssuerError, AssertedUniformCredentialOffer, CredentialOfferPayload, TxCode}
use oid4vc.Store.{IssuerStore, IsValid}
use oid4vc.Issuer.Config.{IssuerMetadata}
use oid4vc.Offer.Create.{
  CreateOfferOpts, CreateOfferResult, create_credential_offer_uri, user_pin,
  assert_valid_pin_number, pre_authorized_of_opts,
}
use oid4vc.Offer.Pin.{user_pin_lem}
use oid4vc.Client.{ClientError}
use oid4vc.Client.TokenRequest.{
  AccessTokenRequestOpts, AssertionJwt, get_pin_metadata, ClientTokenRequest,
  create_access_token_request, validate_error,
}
use oid4vc.Client.EndToEnd.{offer_accepted}
use oid4vc.Prelude.{List, string, cut}
use oid4vc.Offer.Uri.{
  create_credential_offer_uri_from_object, reference_mode,
  parse_credential_offer_scheme_and_base_uri,
}
use oid4vc.Encoding.Plain.{all-IsFree}
use oid4vc.Client.OfferFetch.{offer_uri_fetched, uri_of, before_query}
use oid4vc.Client.OfferUri.{
  FetchResponse, handle_credential_offer_uri, check_response, is_uri_encoded, decode_again,
}
use oid4vc.Client.IssuedOffer.{issued}
use oid4vc.Tests.Data.{asked_code, grant_with, session_with, token_request, seconds}

abbrev no_sessions : IssuerStore
no_sessions = record {
  heap = λ _. session_with (grant_with none none) none;
  next_cell = 0;
  credential_offer_sessions = record { expires_in_ms = 180000; states = [] };
  uris = record { expires_in_ms = 180000; states = [] };
  c_nonces = record { expires_in_ms = 180000; states = [] };
}

abbrev metadata : IssuerMetadata
metadata = record {
  credential_issuer = "https://issuer";
  credential_configurations_supported =
      some (("Degree", record { id = none; vct = none; format = "vc+sd-jwt" }) ∷ []);
}

abbrev offer_opts : CreateOfferOpts
offer_opts = record {
  offer_mode = none;
  grants = some (record {
    pre_authorized = some (grant_with (some asked_code) none);
    authorization_code = none;
  });
  client_id = none;
  redirect_uri = none;
  credential_configuration_ids = some ("Degree" ∷ []);
  credential_offer_uri = none;
  credential_data_supplier_input = none;
  base_uri = none;
  scheme = none;
  pin_length = none;
  correlation_id = some "offer";
  status_list_opts = none;
  session_life_time_in_sec = none;
}

abbrev identifier : ℕ → String
identifier n = "uuid"

created : Result IssuerError CreateOfferResult × IssuerStore
unfolding create_credential_offer_uri
created =
    create_credential_offer_uri metadata none identifier "short" 42 1000 offer_opts no_sessions

abbrev result_of : Result IssuerError CreateOfferResult → CreateOfferResult
result_of (ok r) = r
result_of (err x) = record {
  session = 0;
  uri = [];
  correlation_id = "";
  tx_code = none;
  user_pin = none;
}

abbrev created_result : CreateOfferResult
created_result = result_of created.0

created_lem :
    create_credential_offer_uri metadata none identifier "short" 42 1000 offer_opts no_sessions
    ≡ (ok created_result, created.1)
unfolding created create_credential_offer_uri user_pin decimal_text strip set_mapped Memory.set
created_lem = refl

pin_drawn : created_result.user_pin ≡ some "0042"
unfolding created create_credential_offer_uri user_pin decimal_text strip set_mapped Memory.set
pin_drawn = refl

no_sessions-IsValid : IsValid no_sessions
unfolding map_get
no_sessions-IsValid = record {
  in_use = λ id r h. cc;
  sessions_unique = tt;
  uris_unique = tt;
  nonces_unique = tt;
}

user_pin_lem_example :
    (pin : String) × (user_pin (some asked_code) 42 ≡ some pin)
    × All IsDigit (codes pin)
    × (length (codes pin) ≡ 4)
    × (value 0 (codes pin) ≡ 42)
    × (assert_valid_pin_number (some pin) (some 4) ≡ true)
user_pin_lem_example = user_pin_lem asked_code 3 42 refl (omega arith)

abbrev resolve_none : String → Result ClientError (Option CredentialOfferPayload)
resolve_none uri = ok none

abbrev no_pop : AssertionJwt → Result ClientError String
no_pop jwt = ok "proof"

abbrev wallet_opts : AccessTokenRequestOpts
wallet_opts = record {
  credential_offer = some (record {
    credential_offer = (created.1.heap 0).credential_offer.credential_offer;
    credential_offer_uri = none;
  });
  client_opts = none;
  credential_issuer = none;
  metadata_issuer = none;
  additional_params = token_request none none;
  code = none;
  code_verifier = none;
  redirect_uri = none;
  pin = created_result.user_pin;
  pin_metadata = some (get_pin_metadata (created.1.heap 0).credential_offer.credential_offer);
}

tx_code_is :
    (t : TxCode)
    → (issued offer_opts "uuid" (grant_with (some asked_code) none)).tx_code ≡ some t
    → asked_code ≡ t
unfolding pre_authorized_input pre_authorized_of_opts with_length
tx_code_is t e = cc

offer_accepted_example :
    (r : ClientTokenRequest) × (create_access_token_request resolve_none no_pop "client" 5
        wallet_opts
      ≡ ok r)
    × (validate_error r.request wallet_opts.pin_metadata ≡ none)
    × ((assert_valid_access_token_request r.request 300 none "token" seconds created.1).0
        ≡ ok created_result.session)
unfolding created create_credential_offer_uri user_pin decimal_text strip set_mapped Memory.set
    pre_authorized_input pre_authorized_of_opts with_length
offer_accepted_example =
    offer_accepted metadata none identifier "short" 42 1000 offer_opts
      (grant_with (some asked_code) none) resolve_none no_pop "client" "token" 5 wallet_opts 300
      none seconds no_sessions created_result created.1
      (record {
        granted = refl;
        code = refl;
        no_user_pin = refl;
        small = λ t e.
            subst (λ (x : TxCode). 42 < 10 ^ get_or x.length 0) (tx_code_is t e) (omega arith);
        not_text =
            λ t e. subst (λ (x : TxCode). is_text x.input_mode ≡ false) (tx_code_is t e) refl;
      })
      no_sessions-IsValid refl created_lem
      (record { offer = refl; pin = refl; metadata = refl; no_client = refl }) (omega arith)

abbrev placed_offer : AssertedUniformCredentialOffer
placed_offer = record {
  credential_offer = record {
    credential_issuer = "https://issuer";
    credential_configuration_ids = "Degree" ∷ [];
    grants = none;
    client_id = none;
  };
  credential_offer_uri = some "https://issuer/offers?id=1&name=é";
}

abbrev no_length : Option (List ℕ) → Option ℕ
no_length v = none

abbrev fetched : List ℕ → Option FetchResponse
fetched uri = some (record {
  status = 200;
  status_text = "OK";
  content_type = some "application/json";
  body = some (string uri);
})

offer_uri_fetched_example :
    (create_credential_offer_uri_from_object placed_offer reference_mode none none
      ≡ ok (uri_of (codes "openid-credential-offer") [] "https://issuer/offers?id=1&name=é"))
    × (handle_credential_offer_uri no_length fetched
          (uri_of (codes "openid-credential-offer") [] "https://issuer/offers?id=1&name=é")
        ≡ check_response (fetched (codes "https://issuer/offers?id=1&name=é")))
unfolding parse_credential_offer_scheme_and_base_uri is_uri_encoded strip cut
offer_uri_fetched_example =
    offer_uri_fetched no_length fetched placed_offer none none (codes "openid-credential-offer") []
      "https://issuer/offers?id=1&name=é" refl
      (all-IsFree b'?' (before_query (codes "openid-credential-offer") []) refl) refl refl refl refl

escaped_twice : decode_again (codes "a%2Fb") ≡ ok (codes "a/b")
unfolding decode_again
escaped_twice = refl
