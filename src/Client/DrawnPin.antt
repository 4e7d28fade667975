-- ===== src/Client/DrawnPin.antt =====
-- The PIN that the issuer draws passes the tests of the wallet and of the token endpoint.
use oid4vc.Token.Pins.{matches_digits}
use oid4vc.Prelude.Decimal.Digits.{IsDigit}
use oid4vc.Prelude.{
  ℕ, suc, ◌^◌, ◌<◌, String, ◌≡◌, refl, ◌⊎◌, inl, inr, Bool, true, false, Option, none, some, List,
  [], ◌∷◌, arith, Option-cases, length, all, All, is_letter_or_digit, text_truthy, bool?_truthy,
  is_some, get_or, codes,
}
use oid4vc.Types.{GrantUrnIetf, TxCode, AccessTokenRequest, CredentialOfferSession}
use oid4vc.Token.Checks.{is_text, tx_code_form_error, pre_auth_grant}
use oid4vc.Token.Accepted.{HasNoPin, HasTxCode, HasUserPin}
use oid4vc.Offer.Create.{user_pin}
use oid4vc.Offer.Pin.{user_pin_lem, matches_digits-All}
use oid4vc.Client.{pin_error, pin_matches, TxCode, is_digit, TxCodeAndPinRequired}

all-holds :
    (fits : ℕ → Bool) (P : ℕ → Type 0) (cs : List ℕ)
    → ((c : ℕ) → P c → fits c ≡ true)
    → All P cs
    → all fits cs ≡ true
all-holds fits P [] holds h = refl
all-holds fits P (c ∷ cs) holds h = ground (arith, holds c h.0, all-holds fits P cs holds h.1)

-- A text of digits fits each form that a wallet expects but that of a length it exceeds.
pin_matches_digits :
    (t : TxCode) (k : ℕ) (cs : List ℕ)
    → All IsDigit cs
    → length cs ≡ suc k
    → t.length ≡ some (suc k)
    → pin_matches (some t) cs ≡ true
unfolding pin_matches
pin_matches_digits t k [] digits size given = absurd (omega arith)
pin_matches_digits t k (c ∷ cs) digits size given = ground (
  arith,
  all-holds is_digit IsDigit (c ∷ cs) (λ (d : ℕ) (h : IsDigit d). ground arith),
  all-holds is_letter_or_digit IsDigit (c ∷ cs) (λ (d : ℕ) (h : IsDigit d). ground arith),
)

-- A grant whose code is not described as a text, with a drawn number of at most as many digits.
pub record IsDrawnFor (i : GrantUrnIetf) (drawn : ℕ) : Type 0 where
  pub no_user_pin : bool?_truthy i.user_pin_required ≡ false
  pub sized : (t : TxCode) → i.tx_code ≡ some t → (k : ℕ) × (t.length ≡ some (suc k))
  pub small : (t : TxCode) → i.tx_code ≡ some t → drawn < 10 ^ get_or t.length 0
  pub not_text : (t : TxCode) → i.tx_code ≡ some t → is_text t.input_mode ≡ false

digits-truthy : (pin : String) (k : ℕ) → length (codes pin) ≡ suc k → text_truthy pin ≡ true
digits-truthy String.[] k h = absurd (omega arith)
digits-truthy (String.◌∷◌ c s) k h = refl

module _ (i : GrantUrnIetf) (drawn : ℕ) (d : IsDrawnFor i drawn) where
  abbrev pub pin_metadata : Option TxCodeAndPinRequired
  pin_metadata = some (record { tx_code = i.tx_code; is_pin_required = is_some i.tx_code })

  -- The wallet accepts the PIN that the issuer drew.
  pub client_pin : pin_error pin_metadata (user_pin i.tx_code drawn) ≡ none
  unfolding pin_error user_pin
  client_pin = elim (Option-cases i.tx_code) [
    | inl nothing ↦ let e : user_pin i.tx_code drawn ≡ none = rw nothing refl in ground arith
    | inr (t, there) ↦
        let (k, given) = d.sized t there in
        let (pin, drawn_as, digits, size, _, _) =
          user_pin_lem t k drawn given (rw given at (d.small t there)) in
        let e : user_pin i.tx_code drawn ≡ some pin = rw there drawn_as in
        let fits : pin_matches (some t) (codes pin) ≡ true =
          pin_matches_digits t k (codes pin) digits size given in
        let truthy : text_truthy pin ≡ true = digits-truthy pin k size in ground arith
  ]

  -- So does the issuer.
  pub server_pin :
      (request : AccessTokenRequest) (session : CredentialOfferSession)
      → pre_auth_grant session ≡ some i
      → request.tx_code ≡ user_pin i.tx_code drawn
      → request.user_pin ≡ user_pin i.tx_code drawn
      → session.tx_code ≡ user_pin i.tx_code drawn
      → HasNoPin request session ⊎ HasTxCode request session ⊎ HasUserPin request session
  unfolding tx_code_form_error user_pin
  server_pin request session granted tx up kept = elim (Option-cases i.tx_code) [
    | inl nothing ↦
        let e : user_pin i.tx_code drawn ≡ none = rw nothing refl in
        inl (record {
          no_tx_code = ground arith;
          no_user_pin = ground arith;
          no_code_asked = ground arith;
          no_pin_asked = ground (arith, d.no_user_pin);
        })
    | inr (t, there) ↦
        let (k, given) = d.sized t there in
        let (pin, drawn_as, digits, size, _, _) =
          user_pin_lem t k drawn given (rw given at (d.small t there)) in
        let e : user_pin i.tx_code drawn ≡ some pin = rw there drawn_as in
        let fits : matches_digits (some (suc k)) (codes pin) ≡ true =
          matches_digits-All (codes pin) (suc k) digits size in
        let truthy : text_truthy pin ≡ true = digits-truthy pin k size in
        inr (
          inl (record {
            asked = t;
            given = ground arith;
            code_asked = ground arith;
            well_formed = ground (arith, d.not_text t there);
            same_code = ground arith;
          }))
  ]
