-- ===== src/Offer/Stored.antt =====
-- What createCredentialOfferURI (packages/issuer/lib/VcIssuer.ts) leaves in the issuer's store.
use oid4vc.Offer.Uri.{value_mode}
use mathlib.Core.Path.{subst}
use oid4vc.StateManager.Interface.{memory_set}
use oid4vc.Prelude.{
  ℕ, String, ◌≡◌, refl, sym, ap, ◌∙◌, inl, inr, true, not, ◌&&◌, Option, none, some, arith,
  if◌then◌else◌, Bool-cases, >>=-eq-ok, >>=-reads, pure-eq-ok, Result, ok, err, text_of, map_set,
  map_set-HasUniqueKeys, string_eq, nat_eq, text_truthy, text?_truthy, get_or,
}
use oid4vc.Types.{
  UriState, AssertedUniformCredentialOffer, Message, error, offer_uri_required, pin_not_match_error,
}
use oid4vc.Store.{IssuerStore, Issuer, IsValid}
use oid4vc.Issuer.Config.{IssuerMetadata}
use oid4vc.Offer.Create.{
  CreateOfferOpts, CreateOfferResult, create_credential_offer_uri, uri_state_of, or_throw, refer,
  set_uri, offer_uri, offer_object, is_reference, throw_unless, uniform, pin_is_valid,
}
use oid4vc.Prelude.{List, ◌==◌, map_get, map_get-map_set, replace_first, codes}
use oid4vc.Offer.Mapped.{
  IsUriPut, IsMapped, unchanged-IsMapped, or_throw_same, or_throw-eq-ok, throw_unless_same,
  unless-eq-ok,
}
use oid4vc.Offer.Published.{IsOffered, stored_uri, is_found, publish-IsOffered}
use oid4vc.Offer.Asked.{IsOfferOf, offer_object-IsOfferOf}

module _ (metadata : IssuerMetadata) (default_base_uri : Option String) (uuid : ℕ → String)
    (generated_id : String) (drawn now : ℕ) (opts : CreateOfferOpts) where
  -- The place of the offer, with the correlation id put in.
  abbrev pub offer_place : List ℕ
  offer_place =
      replace_first (codes ":id") (codes (get_or opts.correlation_id generated_id))
        (codes (get_or opts.credential_offer_uri ""))

  refer_keeps :
      (offer : AssertedUniformCredentialOffer) (s : IssuerStore)
      {referred : AssertedUniformCredentialOffer} {u : IssuerStore}
      → IsValid s
      → text_truthy (get_or opts.correlation_id generated_id) ≡ true
      → refer metadata default_base_uri uuid generated_id drawn now opts offer s ≡ (ok referred, u)
      → (referred.credential_offer ≡ offer.credential_offer)
        × IsMapped none 0 s u
        × IsUriPut
            (is_reference (get_or opts.offer_mode value_mode))
            (get_or opts.correlation_id generated_id)
            (stored_uri metadata default_base_uri uuid generated_id drawn now opts offer
              (text_of offer_place))
            s
            u
  unfolding refer set_uri uri_state_of
  refer_keeps offer s v ct h =
      let c : String = get_or opts.correlation_id generated_id in
      let act : Issuer AssertedUniformCredentialOffer =
        refer metadata default_base_uri uuid generated_id drawn now opts offer in
      let uri : String =
        text_of (offer_uri metadata default_base_uri uuid generated_id drawn now opts) in
      let state : UriState =
        uri_state_of metadata default_base_uri uuid generated_id drawn now opts offer uri in
      elim (Bool-cases (is_reference (get_or opts.offer_mode value_mode))) [
        | inr by_value ↦
            let e : act s ≡ (ok offer, s) = ground arith in
            let (a, b) = pure-eq-ok (sym e ∙ h) in
            (
              ap (λ x. x.credential_offer) (sym a),
              subst (IsMapped none 0 s) b (unchanged-IsMapped none 0 s (λ id. refl) v),
              subst
                  (IsUriPut (is_reference (get_or opts.offer_mode value_mode)) c
                    (stored_uri metadata default_base_uri uuid generated_id drawn now opts offer
                      (text_of offer_place))
                    s)
                  b (λ id. rw by_value refl),
            )
        | inl reference ↦ elim (Bool-cases (text_truthy uri)) [
          | inr empty ↦
              let e : act s ≡ (err (error offer_uri_required), s) = ground arith in
              absurd (cc (e, h))
          | inl there ↦
              let e : act s ≡ (
                ok (record offer { credential_offer_uri = some uri }),
                record s { uris = record (s.uris) { states = map_set s.uris.states c state } },
              ) =
                ground (arith, memory_set c state s.uris ct) in
              let (a, b) = pure-eq-ok (sym e ∙ h) in
              (
                ap (λ x. x.credential_offer) (sym a),
                subst (IsMapped none 0 s) b (record {
                  valid = record {
                    in_use = v.in_use;
                    sessions_unique = v.sessions_unique;
                    uris_unique = map_set-HasUniqueKeys s.uris.states c state v.uris_unique;
                    nonces_unique = v.nonces_unique;
                  };
                  refs = λ id. refl;
                  same_heap = refl;
                  same_next = refl;
                  same_nonces = refl;
                }),
                subst
                    (IsUriPut (is_reference (get_or opts.offer_mode value_mode)) c
                      (stored_uri metadata default_base_uri uuid generated_id drawn now opts offer
                        (text_of offer_place))
                      s)
                    b (λ id. rw reference (map_get-map_set s.uris.states c id state)),
              )
        ]
      ]

  IsOffered-from :
      (offer : AssertedUniformCredentialOffer) (result : CreateOfferResult) (s u t : IssuerStore)
      → IsMapped none 0 s u
      → IsOffered metadata default_base_uri uuid generated_id drawn now opts offer result u t
      → IsOffered metadata default_base_uri uuid generated_id drawn now opts offer result s t
  IsOffered-from offer result s u t m o = record {
    new = o.new ∙ m.same_next;
    content = o.content;
    others = λ r old. rw (o.others r (rw m.same_next old), m.same_heap) refl;
    refs = λ id. ground (arith, o.refs id, m.refs id);
    pin = o.pin;
    correlation = o.correlation;
    uri = o.uri;
    nonces = o.nonces ∙ m.same_nonces;
    valid = o.valid;
  }

  pub create_credential_offer_uri-IsOffered :
      (s : IssuerStore) (result : CreateOfferResult) (t : IssuerStore)
      → IsValid s
      → text_truthy (get_or opts.correlation_id generated_id) ≡ true
      → create_credential_offer_uri metadata default_base_uri uuid generated_id drawn now opts s
        ≡ (ok result, t)
      → (plain : AssertedUniformCredentialOffer) × (offer : AssertedUniformCredentialOffer)
        × (offer_object metadata opts uuid ≡ ok plain)
        × (offer.credential_offer ≡ plain.credential_offer)
        × IsOffered metadata default_base_uri uuid generated_id drawn now opts offer result s t
        × IsOfferOf metadata uuid opts plain
        × ((id : String)
            → map_get t.uris.states id ≡ (
                if is_found metadata default_base_uri uuid generated_id drawn now opts offer
                  && get_or opts.correlation_id generated_id == id
                then some (
                    stored_uri metadata default_base_uri uuid generated_id drawn now opts offer
                      (text_of result.uri))
                else if is_reference (get_or opts.offer_mode value_mode)
                    && get_or opts.correlation_id generated_id == id
                then some (
                    stored_uri metadata default_base_uri uuid generated_id drawn now opts plain
                      (text_of offer_place))
                else map_get s.uris.states id))
  unfolding create_credential_offer_uri uniform
  create_credential_offer_uri-IsOffered s result t v ct h =
      let make : Result Message AssertedUniformCredentialOffer = offer_object metadata opts uuid in
      let act : AssertedUniformCredentialOffer → Issuer AssertedUniformCredentialOffer =
        refer metadata default_base_uri uuid generated_id drawn now opts in
      let (_, h0) =
        unless-eq-ok
          (is_reference (get_or opts.offer_mode value_mode)
            && not (text?_truthy opts.credential_offer_uri))
          (error offer_uri_required) _ s h in
      let (plain, made, h1) =
        >>=-reads (or_throw make) _ (λ (x : AssertedUniformCredentialOffer). make ≡ ok x) s
          (λ x e. (or_throw-eq-ok make s x e, or_throw_same make s)) h0 in
      let (_, _, h2) =
        >>=-reads
          (throw_unless
            (pin_is_valid metadata default_base_uri uuid generated_id drawn now opts plain)
            pin_not_match_error)
          _ (λ _. Unit {0}) s (λ _ _. (tt, throw_unless_same _ _ s)) h1 in
      let (referred, e, h3) = >>=-eq-ok (act plain) _ s h2 in
      let u : IssuerStore = (act plain s).1 in
      let (same, kept, place) = refer_keeps plain s v ct (ap (λ x. (x, u)) e) in
      let offer : AssertedUniformCredentialOffer =
        uniform metadata default_base_uri uuid generated_id drawn now opts referred in
      let (stored, put) =
        publish-IsOffered metadata default_base_uri uuid generated_id drawn now opts offer u result
          kept.valid ct h3 in
      (
        plain,
        offer,
        made,
        same,
        IsOffered-from offer result s u t kept stored,
        offer_object-IsOfferOf metadata uuid opts plain made,
        λ id.
            put id
            ∙ ap
                (λ (x : Option UriState).
                  if is_found metadata default_base_uri uuid generated_id drawn now opts offer
                    && get_or opts.correlation_id generated_id == id
                  then some (
                      stored_uri metadata default_base_uri uuid generated_id drawn now opts offer
                        (text_of result.uri))
                  else x)
                (place id),
      )
