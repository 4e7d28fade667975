-- ===== src/Client.antt =====
-- The wallet's side of the token endpoint (packages/client/lib): the errors that it throws, and the
-- tests that AccessTokenClient.ts makes of a PIN by regular expressions.
pub mod Acquire
pub mod Retry
pub mod AcquireToken
pub mod RetrySteps
pub mod Retried
pub mod TokenRequest
pub mod TokenUrl
pub mod DpopProof
pub mod DrawnPin
pub mod EndToEnd
pub mod IssuedOffer
pub mod OfferFetch
pub mod OfferUri
use oid4vc.Prelude.{
  ℕ, String, Bool, false, ◌&&◌, ◌||◌, Option, none, some, List, [], ◌∷◌, leb, nat_beq,
  if◌then◌else◌, length, all, is_letter_or_digit, text?_truthy, nat?_truthy, get_or, and_then,
  codes,
}
use oid4vc.Types.{InputCharSet, numeric, text, TxCode}
use oid4vc.Token.Pins.{is_digit}

pub data ClientError : Type 0 where
  issuer_required : ClientError
  invalid_pin pin_not_expected : ClientError
  no_client_id no_kid no_sign_callback no_credential_issuer : ClientError
  neither_flow unsupported_flow : ClientError
  code_required code_verifier_required pre_authorized_code_required : ClientError
  no_token_url token_url_needed unprotected_endpoint : ClientError
  offer_not_resolved no_offer : ClientError
  missing_dpop_nonce wrong_token_type token_with_scheme : ClientError
  -- what a callback of the integrator or the network throws
  thrown_by_caller : String → ClientError

pub record TxCodeAndPinRequired : Type 0 where
  pub tx_code : Option TxCode
  pub is_pin_required : Bool

-- `^[…]+$` and, with a length, `^[…]{1,n}$`
unfoldable pub matches_all : (ℕ → Bool) → List ℕ → Bool
matches_all fits [] = false
matches_all fits (c ∷ cs) = all fits (c ∷ cs)

unfoldable pub matches_up_to : (ℕ → Bool) → ℕ → List ℕ → Bool
unfolding matches_all
matches_up_to fits n cs = matches_all fits cs && leb (length cs) n

abbrev pub is_token_char : ℕ → Bool
is_token_char c = is_letter_or_digit c || nat_beq c b'-' || nat_beq c b'_'

abbrev cons_part : ℕ → List (List ℕ) → List (List ℕ)
cons_part c [] = (c ∷ []) ∷ []
cons_part c (p ∷ ps) = (c ∷ p) ∷ ps

-- The parts between the dots.
unfoldable pub dotted : List ℕ → List (List ℕ)
dotted [] = [] ∷ []
dotted (c ∷ cs) = if nat_beq c b'.' then [] ∷ dotted cs else cons_part c (dotted cs)

-- `^[A-Za-z0-9-_]+\.[A-Za-z0-9-_]+\.[A-Za-z0-9-_]+$`
unfoldable pub matches_compact : List ℕ → Bool
unfolding matches_all dotted
matches_compact cs = nat_beq (length (dotted cs)) 3 && all (matches_all is_token_char) (dotted cs)

unfoldable pub matches_default : List ℕ → Bool
unfolding matches_all matches_compact
matches_default cs = matches_all is_letter_or_digit cs || matches_compact cs

matches_class : (ℕ → Bool) → Option ℕ → List ℕ → Bool
unfolding matches_up_to matches_all
matches_class fits length cs =
    if nat?_truthy length then matches_up_to fits (get_or length 0) cs else matches_all fits cs

by_mode : Option InputCharSet → Option ℕ → List ℕ → Bool
unfolding matches_class matches_default
by_mode (some numeric) length cs = matches_class is_digit length cs
by_mode (some text) length cs = matches_class is_letter_or_digit length cs
by_mode none length cs = matches_default cs

unfoldable pub pin_matches : Option TxCode → List ℕ → Bool
unfolding by_mode matches_default
pin_matches none cs = matches_default cs
pin_matches (some t) cs = by_mode t.input_mode t.length cs

abbrev pub requires_pin : Option TxCodeAndPinRequired → Bool
requires_pin none = false
requires_pin (some m) = m.is_pin_required

-- `assertAlphanumericPin`: the error, if any.
unfoldable pub pin_error : Option TxCodeAndPinRequired → Option String → Option ClientError
unfolding pin_matches
pin_error meta pin =
    if requires_pin meta
    then (if text?_truthy pin
          && pin_matches (and_then meta (λ m. m.tx_code)) (codes (get_or pin ""))
        then none
        else some invalid_pin)
    else if text?_truthy pin
    then some pin_not_expected
    else none
