-- ===== src/Client/IssuedOffer.antt =====
-- The offer that the issuer creates by the pre-authorized code flow, as its session keeps it.
use oid4vc.Client.DrawnPin.{IsDrawnFor}
use mathlib.Core.Path.{subst}
use oid4vc.Prelude.{
  ℕ, zero, suc, ◌^◌, ◌<◌, String, ◌≡◌, refl, ap, ◌∙◌, inl, inr, true, false, Option, none, some,
  arith, Bool-cases, Option-cases, ok, string_eq, nat_eq, ==_refl, text_truthy, nat?_truthy,
  bool?_truthy, get_or, and_then,
}
use oid4vc.Types.{GrantUrnIetf, AssertedUniformCredentialOffer, TxCode}
use oid4vc.Store.{IssuerStore, IsValid, ref_at}
use oid4vc.Issuer.Config.{IssuerMetadata}
use oid4vc.Token.Checks.{is_text}
use oid4vc.Offer.{
  pre_authorized_input, with_length, create_credential_offer_object, create_credential_offer_grants,
  base_payload, completed,
}
use oid4vc.Offer.Create.{
  CreateOfferOpts, CreateOfferResult, create_credential_offer_uri, offer_object, grants_of_opts,
  pre_authorized_of_opts, user_pin, with_pin_length, new_session, offer_tx_code,
}
use oid4vc.Offer.Stored.{create_credential_offer_uri-IsOffered}
use oid4vc.Client.{TxCode}

-- The grant that the offer has, of the one that the options give.
abbrev pub issued : CreateOfferOpts → String → GrantUrnIetf → GrantUrnIetf
issued opts uuid g = pre_authorized_input uuid (pre_authorized_of_opts opts.pin_length g)

-- An offer by the pre-authorized code flow alone carries the issued grant.
offer_object-grants :
    (metadata : IssuerMetadata) (opts : CreateOfferOpts) (uuid : ℕ → String) (g : GrantUrnIetf)
    {plain : AssertedUniformCredentialOffer}
    → opts.grants ≡ some (record { pre_authorized = some g; authorization_code = none })
    → offer_object metadata opts uuid ≡ ok plain
    → plain.credential_offer.grants
      ≡ some (record { pre_authorized = some (issued opts (uuid 0) g); authorization_code = none })
unfolding offer_object create_credential_offer_object create_credential_offer_grants base_payload
    completed grants_of_opts
offer_object-grants metadata opts uuid g given made = ground arith

truthy-length : (o : Option ℕ) → nat?_truthy o ≡ true → (k : ℕ) × (o ≡ some (suc k))
truthy-length none h = cc
truthy-length (some zero) h = cc
truthy-length (some (suc k)) h = (k, refl)

with_length-length : (t : TxCode) → (k : ℕ) × ((with_length t).length ≡ some (suc k))
unfolding with_length
with_length-length t = elim (Bool-cases (nat?_truthy t.length)) [
  | inl given ↦ let (k, e) = truthy-length t.length given in (k, ground arith)
  | inr missing ↦ (3, ground arith)
]

-- The code that the offer describes has a length.
issued-length :
    (opts : CreateOfferOpts) (uuid : String) (g : GrantUrnIetf) (t : TxCode)
    → (issued opts uuid g).tx_code ≡ some t
    → (k : ℕ) × (t.length ≡ some (suc k))
unfolding pre_authorized_input
issued-length opts uuid g t e =
    elim (Option-cases (pre_authorized_of_opts opts.pin_length g).tx_code) [
      | inl nothing ↦ absurd (ground arith)
      | inr (u, there) ↦
          let same : with_length u ≡ t = ground arith in
          subst (λ (x : TxCode). (k : ℕ) × (x.length ≡ some (suc k))) same (with_length-length u)
    ]

issued-code :
    (opts : CreateOfferOpts) (uuid : String) (g : GrantUrnIetf)
    → (issued opts uuid g).pre_authorized_code ≡ some (get_or g.pre_authorized_code uuid)
unfolding pre_authorized_input pre_authorized_of_opts with_pin_length
issued-code opts uuid g = ground arith

module _ (metadata : IssuerMetadata) (default_base_uri : Option String) (uuid : ℕ → String)
    (generated_id : String) (drawn now : ℕ) (opts : CreateOfferOpts) (g : GrantUrnIetf) where
  abbrev pub grant : GrantUrnIetf
  grant = issued opts (uuid 0) g

  -- Options for an offer by the pre-authorized code flow alone, with a code that is not empty, no
  -- user PIN in the older form, a transaction code that is not described as a text, and a drawn
  -- number of at most as many digits as it has.
  pub record IsPreAuthorizedOffer : Type 0 where
    pub granted : opts.grants ≡ some (record { pre_authorized = some g; authorization_code = none })
    pub code : text_truthy (get_or g.pre_authorized_code (uuid 0)) ≡ true
    pub no_user_pin : bool?_truthy grant.user_pin_required ≡ false
    pub small : (t : TxCode) → grant.tx_code ≡ some t → drawn < 10 ^ get_or t.length 0
    pub not_text : (t : TxCode) → grant.tx_code ≡ some t → is_text t.input_mode ≡ false

  -- The session of the created offer, of the issued grant.
  pub record IsFor (i : GrantUrnIetf) (code : String) (result : CreateOfferResult) (t : IssuerStore)
      : Type 0 where
    pub granted :
        (t.heap result.session).credential_offer.credential_offer.grants
        ≡ some (record { pre_authorized = some i; authorization_code = none })
    pub coded : i.pre_authorized_code ≡ some code
    pub found : ref_at t code ≡ some result.session
    pub created_at : (t.heap result.session).created_at ≡ now
    pub pin : result.user_pin ≡ user_pin i.tx_code drawn
    pub kept : (t.heap result.session).tx_code ≡ user_pin i.tx_code drawn

  pub issued-IsDrawnFor : IsPreAuthorizedOffer → IsDrawnFor grant drawn
  issued-IsDrawnFor p = record {
    no_user_pin = p.no_user_pin;
    sized = λ u e. issued-length opts (uuid 0) g u e;
    small = p.small;
    not_text = p.not_text;
  }

  pub created-IsFor :
      (s : IssuerStore) (result : CreateOfferResult) (t : IssuerStore)
      → IsPreAuthorizedOffer
      → IsValid s
      → text_truthy (get_or opts.correlation_id generated_id) ≡ true
      → create_credential_offer_uri metadata default_base_uri uuid generated_id drawn now opts s
        ≡ (ok result, t)
      → IsFor grant (get_or g.pre_authorized_code (uuid 0)) result t
  unfolding new_session
  created-IsFor s result t p v ct created =
      let code : String = get_or g.pre_authorized_code (uuid 0) in
      let (plain, offer, made, same, st, _, _) =
        create_credential_offer_uri-IsOffered metadata default_base_uri uuid generated_id drawn now
          opts s result t v ct created in
      let of_offer : offer.credential_offer.grants
          ≡ some (record { pre_authorized = some grant; authorization_code = none }) =
        ap (λ x. x.grants) same ∙ offer_object-grants metadata opts uuid g p.granted made in
      let coded : grant.pre_authorized_code ≡ some code = issued-code opts (uuid 0) g in
      let tx : offer_tx_code offer ≡ grant.tx_code =
        ap (λ x. and_then (and_then x (λ y. y.pre_authorized)) (λ y. y.tx_code)) of_offer in
      record {
        granted = ap (λ x. x.credential_offer.credential_offer.grants) st.content ∙ of_offer;
        coded = coded;
        found = ground (
          arith,
          st.refs code,
          ap (λ x. and_then (and_then x (λ y. y.pre_authorized)) (λ y. y.pre_authorized_code))
              of_offer,
          ==_refl code,
          p.code,
        );
        created_at = ap (λ x. x.created_at) st.content;
        pin = st.pin ∙ ap (λ x. user_pin x drawn) tx;
        kept = ap (λ x. x.tx_code) st.content ∙ ap (λ x. user_pin x drawn) tx;
      }
