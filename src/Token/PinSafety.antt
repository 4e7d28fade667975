-- ===== src/Token/PinSafety.antt =====
-- What the PIN tests of the token endpoint guarantee, and which PINs they never let through.
use oid4vc.Prelude.{
  ℕ, String, ◌≡◌, refl, sym, ◌∙◌, ◌≢◌, ◌⊎◌, inl, inr, Bool, true, false, Option, none, some, List,
  [], ◌∷◌, arith, ok, length, All, text_truthy, text?_truthy, get_or, codes,
}
use oid4vc.Types.{
  pre_authorized_code, TxCode, AccessTokenRequest, StoredAuthorizationRequest,
  CredentialOfferSession, text,
}
use oid4vc.Store.{IssuerStore}
use oid4vc.Token.Pins.{is_digit, has_before, matches_text, matches_user_pin, shown_length}
use oid4vc.Token.Checks.{offered_tx_code, pin_required, tx_code_form_error}
use oid4vc.Token.Accepted.{IsEntitled, HasNoPin, HasTxCode, HasUserPin}
use oid4vc.Token.Outcome.{outcome, accepted_iff}

-- The text that a session keeps as its PIN, given in the request.
abbrev pub GivesSessionPin : AccessTokenRequest → CredentialOfferSession → Type 0
GivesSessionPin request session =
    (pin : String) × (text_truthy pin ≡ true)
    × (session.tx_code ≡ some pin)
    × ((request.tx_code ≡ some pin) ⊎ (request.user_pin ≡ some pin))

truthy_text :
    (o : Option String)
    → text?_truthy o ≡ true
    → (t : String) × (o ≡ some t) × (text_truthy t ≡ true)
truthy_text none h = cc
truthy_text (some t) h = (t, refl, h)

module _ {request : AccessTokenRequest} {session : CredentialOfferSession} where
  pin_of_entitled :
      (duration now : ℕ)
      → IsEntitled request session duration now
      → (offered_tx_code session ≢ none) ⊎ (pin_required session ≡ true)
      → GivesSessionPin request session
  pin_of_entitled duration now e asked = go e.pin asked
    where
      go :
          HasNoPin request session ⊎ HasTxCode request session ⊎ HasUserPin request session
          → (offered_tx_code session ≢ none) ⊎ (pin_required session ≡ true)
          → GivesSessionPin request session
      go (inl p) (inl a) = absurd (a p.no_code_asked)
      go (inl p) (inr a) = cc (a, p.no_pin_asked)
      go (inr (inl p)) a =
          let (t, given, truthy) = truthy_text request.tx_code p.given in
          (t, truthy, sym p.same_code ∙ given, inl given)
      go (inr (inr p)) a =
          let (t, given, truthy) = truthy_text request.user_pin p.given in
          (t, truthy, sym p.same_pin ∙ given, inr given)

-- A pattern that asks for a character before a brace fits no text without one.
has_before-no_brace :
    (fits : ℕ → Bool) (after cs : List ℕ)
    → All (λ c. c ≢ b'{') cs
    → has_before fits (b'{' ∷ after) cs ≡ false
unfolding has_before
has_before-no_brace fits after [] h = refl
has_before-no_brace fits after (c ∷ []) h = ground arith
has_before-no_brace fits after (c ∷ d ∷ cs) (h, (h', hs)) =
    ground (arith, has_before-no_brace fits after (d ∷ cs) (h', hs))

matches_user_pin-digits :
    (cs : List ℕ) → All (λ c. is_digit c ≡ true) cs → matches_user_pin cs ≡ false
unfolding matches_user_pin
matches_user_pin-digits [] h = refl
matches_user_pin-digits (c ∷ cs) (h, hs) = ground (arith, matches_user_pin-digits cs hs)

matches_text-no_brace :
    (length : Option ℕ) (cs : List ℕ) → All (λ c. c ≢ b'{') cs → matches_text length cs ≡ false
unfolding matches_text
matches_text-no_brace length cs h = has_before-no_brace _ (shown_length length) cs h

module _ {request : AccessTokenRequest} {session : CredentialOfferSession} where
  not_entitled_by_text :
      (asked : TxCode)
      → offered_tx_code session ≡ some asked
      → asked.input_mode ≡ some text
      → All (λ c. c ≢ b'{') (codes (get_or request.tx_code ""))
      → ¬ (HasNoPin request session ⊎ HasTxCode request session ⊎ HasUserPin request session)
  unfolding tx_code_form_error
  not_entitled_by_text asked offered mode plain (inl p) = cc (p.no_code_asked, offered)
  not_entitled_by_text asked offered mode plain (inr (inl p)) = ground (
    arith,
    p.well_formed,
    p.code_asked,
    matches_text-no_brace p.asked.length (codes (get_or request.tx_code "")) plain,
  )
  not_entitled_by_text asked offered mode plain (inr (inr p)) = cc (p.no_code_asked, offered)

  not_entitled_by_digits :
      offered_tx_code session ≡ none
      → pin_required session ≡ true
      → All (λ c. is_digit c ≡ true) (codes (get_or request.user_pin ""))
      → ¬ (HasNoPin request session ⊎ HasTxCode request session ⊎ HasUserPin request session)
  not_entitled_by_digits offered required digits (inl p) = cc (p.no_pin_asked, required)
  not_entitled_by_digits offered required digits (inr (inl p)) = cc (p.code_asked, offered)
  not_entitled_by_digits offered required digits (inr (inr p)) =
      cc (p.well_formed, matches_user_pin-digits (codes (get_or request.user_pin "")) digits)

module _ (request : AccessTokenRequest) (duration : ℕ)
    (stored : Option (List (String × StoredAuthorizationRequest))) (uuid : String) (clock : ℕ → ℕ)
    (s : IssuerStore) (pre : request.grant_type ≡ pre_authorized_code) where
  -- When an accepted request's offer asks for a transaction code, or for a user PIN, the request
  -- carries the text that the session keeps as its PIN, and that text is not empty.
  pub accepted_gives_pin :
      (r : ℕ)
      → (outcome request duration stored uuid clock s pre).0 ≡ ok r
      → (offered_tx_code (s.heap r) ≢ none) ⊎ (pin_required (s.heap r) ≡ true)
      → GivesSessionPin request (s.heap r)
  accepted_gives_pin r accepted asked =
      let (code, given, truthy, found, entitled) =
        (accepted_iff request duration stored uuid clock s pre r).0 accepted in
      pin_of_entitled duration (clock 1) entitled asked

  -- Where the offer describes the transaction code as a text, no code without an opening brace is
  -- ever accepted, the right one included.
  pub text_code_refused :
      (r : ℕ) (asked : TxCode)
      → offered_tx_code (s.heap r) ≡ some asked
      → asked.input_mode ≡ some text
      → All (λ c. c ≢ b'{') (codes (get_or request.tx_code ""))
      → (outcome request duration stored uuid clock s pre).0 ≢ ok r
  text_code_refused r asked offered mode plain accepted =
      let (code, given, truthy, found, entitled) =
        (accepted_iff request duration stored uuid clock s pre r).0 accepted in
      not_entitled_by_text asked offered mode plain entitled.pin

  -- Where the offer asks for a user PIN and for no transaction code, no PIN of digits is ever
  -- accepted, the right one included.
  pub digit_pin_refused :
      (r : ℕ)
      → offered_tx_code (s.heap r) ≡ none
      → pin_required (s.heap r) ≡ true
      → All (λ c. is_digit c ≡ true) (codes (get_or request.user_pin ""))
      → (outcome request duration stored uuid clock s pre).0 ≢ ok r
  digit_pin_refused r offered required digits accepted =
      let (code, given, truthy, found, entitled) =
        (accepted_iff request duration stored uuid clock s pre r).0 accepted in
      not_entitled_by_digits offered required digits entitled.pin
