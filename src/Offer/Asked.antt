-- ===== src/Offer/Asked.antt =====
-- The offer that the options of createCredentialOfferURI ask for (packages/issuer/lib/VcIssuer.ts).
use mathlib.Core.Path.{fun_ext}
use oid4vc.Prelude.{
  ℕ, zero, suc, String, ◌≡◌, refl, ap, ◌∙◌, Option, none, some, arith, if◌then◌else◌, ok, length,
  text?_truthy, get_or, or_else,
}
use oid4vc.Types.{AssertedUniformCredentialOffer, TxCode, GrantUrnIetf, Grant}
use oid4vc.Issuer.Config.{IssuerMetadata}
use oid4vc.Offer.Create.{CreateOfferOpts, offer_code, offer_issuer_state, offer_object, offer_grant}
use oid4vc.Offer.{
  create_credential_offer_object, create_credential_offer_grants, base_payload, completed,
  pre_authorized_input, TxCode, with_length, GrantUrnIetf, Grant,
}
use oid4vc.Offer.Create.{grants_of_opts, pre_authorized_of_opts, with_pin_length}
use oid4vc.Prelude.{and_then, map}

-- The number of digits that a transaction code has by its description: 4, where that says 0.
abbrev pub digits : ℕ → ℕ
digits zero = 4
digits (suc n) = suc n

-- The transaction code that an offer asks for. It is described where the grant does so, or else by the
-- length of PINs in the options, if that is given.
abbrev pub asked_code : Option ℕ → Option TxCode → Option TxCode
asked_code none none = none
asked_code none (some t) = some (record t { length = some (digits (get_or t.length 0)) })
asked_code (some n) none =
    some (record { length = some (digits n); input_mode = none; description = none })
asked_code (some n) (some t) = some (record t { length = some (digits (get_or t.length n)) })

with_length_given :
    (t : TxCode) (length : Option ℕ)
    → with_length (with_length (record t { length = length }))
      ≡ record t { length = some (digits (get_or length 0)) }
unfolding with_length
with_length_given t none = refl
with_length_given t (some zero) = refl
with_length_given t (some (suc n)) = refl

with_length_by :
    (t : TxCode) (length : Option ℕ) (n : ℕ)
    → with_length (with_length (record t { length = some (get_or length n) }))
      ≡ record t { length = some (digits (get_or length n)) }
with_length_by t length n = with_length_given t (some (get_or length n))

-- The grant with this code and description.
abbrev given : String → GrantUrnIetf → TxCode → GrantUrnIetf
given uuid g t = record g {
  pre_authorized_code = some (get_or g.pre_authorized_code uuid);
  tx_code = some t;
}

asked_code_lem :
    (uuid : String) (pin_length : Option ℕ) (code : Option TxCode) (g : GrantUrnIetf)
    → pre_authorized_input uuid (pre_authorized_of_opts pin_length (record g { tx_code = code }))
      ≡ record g {
        pre_authorized_code = some (get_or g.pre_authorized_code uuid);
        tx_code = asked_code pin_length code;
      }
unfolding pre_authorized_input pre_authorized_of_opts with_pin_length
asked_code_lem uuid none none g = refl
asked_code_lem uuid none (some t) g = ap (given uuid g) (with_length_given t t.length)
asked_code_lem uuid (some n) none g =
    ap (given uuid g)
      (with_length_by (record { length = none; input_mode = none; description = none }) none n)
asked_code_lem uuid (some n) (some t) g = ap (given uuid g) (with_length_by t t.length n)

module _ (metadata : IssuerMetadata) (uuid : ℕ → String) (opts : CreateOfferOpts) where
  -- An offer by the options: the issuer's, for the asked or else all configurations, with the code
  -- and the issuer state that a grant gives, or else a new one.
  pub record IsOfferOf (plain : AssertedUniformCredentialOffer) : Type 0 where
    pub issuer : plain.credential_offer.credential_issuer ≡ metadata.credential_issuer
    pub configurations :
        some plain.credential_offer.credential_configuration_ids
        ≡ or_else opts.credential_configuration_ids
            (and_then metadata.credential_configurations_supported (λ m. some (map (λ e. e.0) m)))
    pub client :
        plain.credential_offer.client_id
        ≡ (if text?_truthy opts.client_id then opts.client_id else none)
    pub place : plain.credential_offer_uri ≡ opts.credential_offer_uri
    pub grant :
        offer_grant plain
        ≡ and_then (and_then opts.grants (λ g. g.pre_authorized)) (λ g. some (record g {
          pre_authorized_code = some (get_or g.pre_authorized_code (uuid 0));
          tx_code = asked_code opts.pin_length g.tx_code;
        }))
    pub code :
        offer_code plain
        ≡ and_then
            (and_then opts.grants (λ g. g.pre_authorized))
            (λ g. some (get_or g.pre_authorized_code (uuid 0)))
    pub state :
        offer_issuer_state plain
        ≡ and_then
            (and_then opts.grants (λ g. g.authorization_code))
            (λ g. some (get_or g.issuer_state (uuid 1)))

  offer_grant_asked :
      (plain : AssertedUniformCredentialOffer) (grants : Option Grant)
      → opts.grants ≡ grants
      → offer_object metadata opts uuid ≡ ok plain
      → offer_grant plain
        ≡ and_then
            (and_then grants (λ g. g.pre_authorized))
            (λ g. some (pre_authorized_input (uuid 0) (pre_authorized_of_opts opts.pin_length g)))
  unfolding offer_object create_credential_offer_object create_credential_offer_grants base_payload
      completed grants_of_opts
  offer_grant_asked plain grants given made = ground arith

  pub offer_object-IsOfferOf :
      (plain : AssertedUniformCredentialOffer)
      → offer_object metadata opts uuid ≡ ok plain
      → IsOfferOf plain
  unfolding offer_object create_credential_offer_object create_credential_offer_grants base_payload
      completed grants_of_opts pre_authorized_of_opts with_pin_length pre_authorized_input
  offer_object-IsOfferOf plain made = record {
    issuer = ground arith;
    configurations = ground arith;
    client = ground arith;
    place = ground arith;
    grant =
        offer_grant_asked plain opts.grants refl made
        ∙ ap
            (λ (f : GrantUrnIetf → GrantUrnIetf).
              and_then (and_then opts.grants (λ g. g.pre_authorized)) (λ g. some (f g)))
            (fun_ext (λ g. asked_code_lem (uuid 0) opts.pin_length g.tx_code g));
    code = ground arith;
    state = ground arith;
  }
