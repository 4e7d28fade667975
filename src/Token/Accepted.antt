-- ===== src/Token/Accepted.antt =====
-- When the pre-authorized code flow of assertValidAccessTokenRequest accepts, and what it leaves in
-- the store whether it accepts or not.
use oid4vc.Prelude.{
  ℕ, ◌+◌, ◌*◌, ◌<◌, ◌≡◌, refl, ◌≢◌, ◌↔◌, ◌⊎◌, inl, inr, true, false, Option, none, some, arith,
  Bool-cases, Option-cases, text?_truthy, get_or, or_else, codes, text?_eq_iff,
}
use oid4vc.Types.{pre_authorized_code, TxCode, AccessTokenRequest, CredentialOfferSession}
use oid4vc.Token.Pins.{matches_user_pin}
use oid4vc.Token.Checks.{
  pre_auth_grant, offered_tx_code, pin_required, offered_code, tx_code_form_error,
  pin_presence_error, pin_value_error, code_error, pre_auth_error,
}

module _ (request : AccessTokenRequest) (session : CredentialOfferSession) where
  -- No PIN, and none asked for.
  pub record HasNoPin : Type 0 where
    pub no_tx_code : text?_truthy request.tx_code ≡ false
    pub no_user_pin : text?_truthy request.user_pin ≡ false
    pub no_code_asked : offered_tx_code session ≡ none
    pub no_pin_asked : pin_required session ≡ false

  -- The transaction code that the offer asks for.
  pub record HasTxCode : Type 0 where
    pub asked : TxCode
    pub given : text?_truthy request.tx_code ≡ true
    pub code_asked : offered_tx_code session ≡ some asked
    pub well_formed : tx_code_form_error asked (get_or request.tx_code "") ≡ none
    pub same_code : request.tx_code ≡ session.tx_code

  -- The user PIN that the offer asks for, as older versions of the protocol have it.
  pub record HasUserPin : Type 0 where
    pub no_tx_code : text?_truthy request.tx_code ≡ false
    pub given : text?_truthy request.user_pin ≡ true
    pub no_code_asked : offered_tx_code session ≡ none
    pub pin_asked : pin_required session ≡ true
    pub well_formed : matches_user_pin (codes (get_or request.user_pin "")) ≡ true
    pub same_pin : request.user_pin ≡ session.tx_code

  -- A request that a session entitles to a token at a time.
  pub record IsEntitled (expiration_duration now : ℕ) : Type 0 where
    pub granted : pre_auth_grant session ≢ none
    pub fresh : now < session.created_at + expiration_duration * 1000
    pub same_code : request.pre_authorized_code ≡ offered_code session
    pub pin : HasNoPin ⊎ HasTxCode ⊎ HasUserPin

or_else-eq-none {ℓ} : {A : Type ℓ} (a b : Option A) → or_else a b ≡ none → (a ≡ none) × (b ≡ none)
or_else-eq-none none b h = (refl, h)
or_else-eq-none (some x) b h = cc

module _ (request : AccessTokenRequest) (session : CredentialOfferSession) where
  pin_of_checks :
      pin_presence_error request session ≡ none
      → pin_value_error request session ≡ none
      → HasNoPin request session ⊎ HasTxCode request session ⊎ HasUserPin request session
  unfolding pin_presence_error pin_value_error
  pin_of_checks presence value = elim (Bool-cases (text?_truthy request.tx_code)) [
    | inl tx ↦ elim (Option-cases (offered_tx_code session)) [
      | inl nothing ↦ absurd (ground arith)
      | inr (offer, asked) ↦ inr (
          inl (record {
            asked = offer;
            given = tx;
            code_asked = asked;
            well_formed = ground arith;
            same_code = ground (arith, text?_eq_iff request.tx_code session.tx_code);
          }))
    ]
    | inr no_tx ↦ elim (Bool-cases (text?_truthy request.user_pin)) [
      | inl pin ↦ inr (
          inr (record {
            no_tx_code = no_tx;
            given = pin;
            no_code_asked = ground arith;
            pin_asked = ground arith;
            well_formed = ground arith;
            same_pin = ground (arith, text?_eq_iff request.user_pin session.tx_code);
          }))
      | inr no_pin ↦ inl (record {
        no_tx_code = no_tx;
        no_user_pin = no_pin;
        no_code_asked = ground arith;
        no_pin_asked = ground arith;
      })
    ]
  ]

  checks_of_pin :
      HasNoPin request session ⊎ HasTxCode request session ⊎ HasUserPin request session
      → (pin_presence_error request session ≡ none) × (pin_value_error request session ≡ none)
  unfolding pin_presence_error pin_value_error
  checks_of_pin (inl p) = (ground arith, ground arith)
  checks_of_pin (inr (inl p)) =
      (ground arith, ground (arith, text?_eq_iff request.tx_code session.tx_code))
  checks_of_pin (inr (inr p)) =
      (ground arith, ground (arith, text?_eq_iff request.user_pin session.tx_code))

  module _ (expiration_duration now : ℕ) where
    code_error_iff : (code_error request session expiration_duration now ≡ none) ↔ (
        (now < session.created_at + expiration_duration * 1000)
        × (request.pre_authorized_code ≡ offered_code session))
    unfolding code_error
    code_error_iff = (
      λ h. (
        ground arith,
        ground (arith, text?_eq_iff request.pre_authorized_code (offered_code session)),
      ),
      λ h. ground (arith, text?_eq_iff request.pre_authorized_code (offered_code session)),
    )

    -- For a request of the pre-authorized grant the tests find no error exactly when the session
    -- entitles the request to a token.
    pub pre_auth_error_iff :
        request.grant_type ≡ pre_authorized_code
        → (pre_auth_error request session expiration_duration now ≡ none)
          ↔ IsEntitled request session expiration_duration now
    unfolding pre_auth_error
    pre_auth_error_iff pre = (
      λ h. elim (Option-cases (pre_auth_grant session)) [
        | inl nothing ↦ absurd (ground arith)
        | inr (grant, granted) ↦
            let (presence, later) = or_else-eq-none _ _ (ground arith) in
            let (code, value) = or_else-eq-none _ _ later in
            record {
              granted = ground arith;
              fresh = (code_error_iff.0 code).0;
              same_code = (code_error_iff.0 code).1;
              pin = pin_of_checks presence value;
            }
      ],
      λ e. ground (arith, checks_of_pin e.pin, code_error_iff.1 (e.fresh, e.same_code), e.granted),
    )
