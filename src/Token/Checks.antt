-- ===== src/Token/Checks.antt =====
-- The tests that assertValidAccessTokenRequest makes of a session (packages/issuer/lib/tokens/index.ts),
-- with isValidGrant there and isPreAuthorizedCodeExpired of
-- packages/issuer/lib/functions/CredentialOfferUtils.ts. Each gives the first error, if any.
use oid4vc.Prelude.{
  ℕ, ◌+◌, ◌*◌, String, Bool, true, false, not, ◌&&◌, Option, none, some, leb, if◌then◌else◌,
  text?_truthy, bool?_truthy, is_some, get_or, or_else, and_then, codes, text?_eq,
}
use oid4vc.Types.{
  GrantTypes, authorization_code, pre_authorized_code, InputCharSet, text, TxCode, GrantUrnIetf,
  AccessTokenRequest, CredentialOfferSession, IssuerError, token_error, invalid_request,
  invalid_grant, Message, unsupported_grant_type_error, user_pin_required_error,
  user_pin_tx_code_spec_error, user_pin_not_required_error, pin_not_match_error,
  invalid_pre_authorized_code, expired_pre_authorized_code, pin_validation_error,
  pin_validation_error_1_8,
}
use oid4vc.Token.Pins.{matches_digits, matches_text, matches_user_pin}

-- `…grants?.[GrantTypes.PRE_AUTHORIZED_CODE]` of a session's offer.
abbrev pub pre_auth_grant : CredentialOfferSession → Option GrantUrnIetf
pre_auth_grant session =
    and_then session.credential_offer.credential_offer.grants (λ g. g.pre_authorized)

abbrev pub offered_tx_code : CredentialOfferSession → Option TxCode
offered_tx_code session = and_then (pre_auth_grant session) (λ g. g.tx_code)

-- `user_pin_required` and the code of that grant.
abbrev pub pin_required : CredentialOfferSession → Bool
pin_required session = bool?_truthy (and_then (pre_auth_grant session) (λ g. g.user_pin_required))

abbrev pub offered_code : CredentialOfferSession → Option String
offered_code session = and_then (pre_auth_grant session) (λ g. g.pre_authorized_code)

abbrev pub is_pre_authorized : GrantTypes → Bool
is_pre_authorized pre_authorized_code = true
is_pre_authorized _ = false

abbrev pub is_authorization_code : GrantTypes → Bool
is_authorization_code authorization_code = true
is_authorization_code _ = false

unfoldable pub is_valid_grant : CredentialOfferSession → GrantTypes → Bool
is_valid_grant asserted_state grant_type =
    is_some (pre_auth_grant asserted_state) && is_pre_authorized grant_type

unfoldable pub is_pre_authorized_code_expired : CredentialOfferSession → ℕ → ℕ → Bool
is_pre_authorized_code_expired state expiration_duration_in_seconds now =
    leb (state.created_at + expiration_duration_in_seconds * 1000) now

abbrev pub bad_request : Message → IssuerError
bad_request m = token_error 400 invalid_request m

abbrev pub bad_grant : Message → IssuerError
bad_grant m = token_error 400 invalid_grant m

-- A PIN that is not expected, or one that is expected and not there: the first error, if any.
unfoldable pub pin_presence_error : AccessTokenRequest → CredentialOfferSession → Option IssuerError
pin_presence_error request session =
    if not (is_some (offered_tx_code session))
      && text?_truthy request.tx_code
      && not (text?_truthy request.user_pin)
    then some (bad_request user_pin_not_required_error)
    else if not (pin_required session)
        && text?_truthy request.user_pin
        && not (text?_truthy request.tx_code)
    then some (bad_request user_pin_not_required_error)
    else if is_some (offered_tx_code session) && not (text?_truthy request.tx_code)
    then (if text?_truthy request.user_pin
        then some (bad_request user_pin_tx_code_spec_error)
        else some (bad_request user_pin_required_error))
    else if pin_required session
        && not (is_some (offered_tx_code session))
        && not (text?_truthy request.user_pin)
    then (if text?_truthy request.tx_code
        then some (bad_request user_pin_tx_code_spec_error)
        else some (bad_request user_pin_required_error))
    else none

-- An expired code, or one that is not the offer's.
unfoldable pub code_error : AccessTokenRequest → CredentialOfferSession → ℕ → ℕ → Option IssuerError
unfolding is_pre_authorized_code_expired
code_error request session expiration_duration now =
    if is_pre_authorized_code_expired session expiration_duration now
    then some (bad_grant expired_pre_authorized_code)
    else if text?_eq request.pre_authorized_code (offered_code session)
    then none
    else some (bad_grant invalid_pre_authorized_code)

abbrev pub is_text : Option InputCharSet → Bool
is_text (some text) = true
is_text _ = false

-- The form of a transaction code, by the offer's description of it.
unfoldable pub tx_code_form_error : TxCode → String → Option IssuerError
tx_code_form_error offer pin =
    if is_text offer.input_mode
    then (if matches_text offer.length (codes pin)
        then none
        else some (bad_grant (pin_validation_error offer.length)))
    else if matches_digits offer.length (codes pin)
    then none
    else some (bad_grant (pin_validation_error offer.length))

-- A wrong PIN.
unfoldable pub pin_value_error : AccessTokenRequest → CredentialOfferSession → Option IssuerError
unfolding tx_code_form_error
pin_value_error request session =
    if text?_truthy request.tx_code
    then elim (offered_tx_code session) [
      | none ↦ some (bad_request user_pin_not_required_error)
      | some offer ↦ or_else (tx_code_form_error offer (get_or request.tx_code "")) (
          if text?_eq request.tx_code session.tx_code
          then none
          else some (bad_grant pin_not_match_error))
    ]
    else if text?_truthy request.user_pin
    then (if matches_user_pin (codes (get_or request.user_pin ""))
        then (if text?_eq request.user_pin session.tx_code
            then none
            else some (bad_grant pin_not_match_error))
        else some (bad_grant pin_validation_error_1_8))
    else none

-- The tests of the pre-authorized code flow, in their order: the first error, if any.
unfoldable pub pre_auth_error :
    AccessTokenRequest → CredentialOfferSession → ℕ → ℕ → Option IssuerError
unfolding is_valid_grant pin_presence_error code_error pin_value_error
pre_auth_error request session expiration_duration now =
    if is_valid_grant session request.grant_type
    then or_else (pin_presence_error request session) (
        or_else (code_error request session expiration_duration now)
          (pin_value_error request session))
    else some (bad_grant unsupported_grant_type_error)
