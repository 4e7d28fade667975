-- ===== src/Tests/Token.antt =====
-- Tests of the token endpoint.
use oid4vc.Token.Pins.{matches_digits}
use oid4vc.Types.{AccessTokenRequest, TxCode, text, expired_pre_authorized_code}
use oid4vc.Store.{IssuerStore, ref_at}
use oid4vc.Prelude.{
  String, ◌≡◌, refl, ◌≢◌, ◌↔◌, inl, true, none, some, arith, ok, err, map_get, map_has, map_set,
  string_eq, nat_eq, text_truthy,
}
use oid4vc.Token.Request.{assert_valid_access_token_request}
use oid4vc.Token.Checks.{pre_auth_error, bad_grant}
use oid4vc.Token.Accepted.{IsEntitled}
use oid4vc.Token.Outcome.{accepted_iff, outcome_found, requested_at}
use oid4vc.Token.PinSafety.{
  GivesSessionPin, accepted_gives_pin, text_code_refused, digit_pin_refused,
}
use oid4vc.StateManager.Memory
use oid4vc.Tests.Data.{session_with, grant_with, asked_code, store_of, seconds, token_request}

abbrev pin_store : IssuerStore
pin_store = store_of (session_with (grant_with (some asked_code) none) (some "1234"))

abbrev pin_request : AccessTokenRequest
pin_request = token_request (some "1234") none

accepted :
    (assert_valid_access_token_request pin_request 300 none "uuid" seconds pin_store).0 ≡ ok 0
unfolding assert_valid_access_token_request Memory.get_asserted map_has map_get Memory.set map_set
    pre_auth_error matches_digits
accepted = refl

late :
    (assert_valid_access_token_request pin_request 1 none "uuid" seconds pin_store).0
    ≡ err (bad_grant expired_pre_authorized_code)
unfolding assert_valid_access_token_request Memory.get_asserted map_has map_get Memory.set map_set
    pre_auth_error matches_digits
late = refl

accepted_iff_example :
    ((assert_valid_access_token_request pin_request 300 none "uuid" seconds pin_store).0 ≡ ok 0) ↔ (
      (code : String) × (some "code" ≡ some code)
      × (text_truthy code ≡ true)
      × (ref_at pin_store code ≡ some 0)
      × IsEntitled pin_request (pin_store.heap 0) 300 4000)
accepted_iff_example = accepted_iff pin_request 300 none "uuid" seconds pin_store refl 0

outcome_found_example :
    assert_valid_access_token_request pin_request 300 none "uuid" seconds pin_store
    ≡ (ok 0, requested_at 0 3000 pin_store)
unfolding pre_auth_error matches_digits map_get
outcome_found_example =
    outcome_found pin_request 300 none "uuid" seconds pin_store refl "code" 0 refl refl refl

accepted_gives_pin_example : GivesSessionPin pin_request (pin_store.heap 0)
accepted_gives_pin_example =
    accepted_gives_pin pin_request 300 none "uuid" seconds pin_store refl 0 accepted (inl (λ h. cc))

abbrev text_code : TxCode
text_code = record { input_mode = some text; length = some 4; description = none }

abbrev text_store : IssuerStore
text_store = store_of (session_with (grant_with (some text_code) none) (some "abcd"))

text_code_refused_example :
    (assert_valid_access_token_request
      (token_request (some "abcd") none)
      300
      none
      "uuid"
      seconds
      text_store).0
    ≢ ok 0
text_code_refused_example =
    text_code_refused (token_request (some "abcd") none) 300 none "uuid" seconds text_store refl 0
      text_code refl refl
      ((λ h. omega arith), ((λ h. omega arith), ((λ h. omega arith), ((λ h. omega arith), tt))))

abbrev user_pin_store : IssuerStore
user_pin_store = store_of (session_with (grant_with none (some true)) (some "1234"))

digit_pin_refused_example :
    (assert_valid_access_token_request
      (token_request none (some "1234"))
      300
      none
      "uuid"
      seconds
      user_pin_store).0
    ≢ ok 0
digit_pin_refused_example =
    digit_pin_refused (token_request none (some "1234")) 300 none "uuid" seconds user_pin_store refl
      0 refl refl (refl, (refl, (refl, (refl, tt))))
