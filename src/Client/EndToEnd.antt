-- ===== src/Client/EndToEnd.antt =====
-- An offer of the issuer, the wallet's request for it and the issuer's token endpoint together.
use oid4vc.Client.IssuedOffer.{
  IsPreAuthorizedOffer, issued, IsFor, created-IsFor, issued-IsDrawnFor,
}
use oid4vc.Client.DrawnPin.{IsDrawnFor, client_pin, server_pin}
use oid4vc.Offer.Flows.{to_uniform_credential_offer_request, determine_flow_type}
use oid4vc.Prelude.{
  ℕ, ◌+◌, ◌*◌, ◌<◌, String, ◌≡◌, refl, ap, ◌∙◌, true, Option, none, some, List, arith, Result, ok,
  text_truthy, is_some, get_or,
}
use oid4vc.Types.{
  GrantUrnIetf, CredentialOfferPayload, AccessTokenRequest, StoredAuthorizationRequest,
}
use oid4vc.Store.{IssuerStore, IsValid}
use oid4vc.Issuer.Config.{IssuerMetadata}
use oid4vc.Token.Request.{assert_valid_access_token_request}
use oid4vc.Token.Accepted.{IsEntitled}
use oid4vc.Token.Outcome.{accepted_iff}
use oid4vc.Offer.Create.{CreateOfferOpts, CreateOfferResult, create_credential_offer_uri, user_pin}
use oid4vc.Client.{pin_error, ClientError}
use oid4vc.Client.TokenRequest.{
  ClientTokenRequest, AccessTokenRequestOpts, create_access_token_request, get_pin_metadata,
  AssertionJwt, to_uniform_resolved, pre_authorized_request, started, client_assertion, by_flow,
  validate_error,
}

module _ (resolve : String → Result ClientError (Option CredentialOfferPayload))
    (build_pop : AssertionJwt → Result ClientError String) (uuid : String) (now : ℕ)
    (o : AccessTokenRequestOpts) (payload : CredentialOfferPayload) (i : GrantUrnIetf)
    (code : String) where
  -- What the wallet asks for an offer by the pre-authorized code flow alone.
  abbrev asked : AccessTokenRequest
  asked =
      pre_authorized_request resolve build_pop uuid now o payload
        (started resolve build_pop uuid now o)

  asked_lem :
      payload.grants ≡ some (record { pre_authorized = some i; authorization_code = none })
      → i.pre_authorized_code ≡ some code
      → text_truthy code ≡ true
      → o.client_opts ≡ none
      → o.credential_offer
        ≡ some (record { credential_offer = payload; credential_offer_uri = none })
      → pin_error o.pin_metadata o.pin ≡ none
      → create_access_token_request resolve build_pop uuid now o
        ≡ ok (record { request = asked; client_assertion = none })
  unfolding create_access_token_request to_uniform_resolved to_uniform_credential_offer_request
      determine_flow_type client_assertion by_flow
  asked_lem granted given truthy no_client offered no_error = ground arith

get_pin_metadata-granted :
    (payload : CredentialOfferPayload) (i : GrantUrnIetf)
    → payload.grants ≡ some (record { pre_authorized = some i; authorization_code = none })
    → get_pin_metadata payload ≡ record { tx_code = i.tx_code; is_pin_required = is_some i.tx_code }
unfolding get_pin_metadata
get_pin_metadata-granted payload i granted = ground arith

-- What the wallet is given: the session's offer by value, and the PIN.
pub record IsGivenTo (o : AccessTokenRequestOpts) (result : CreateOfferResult) (t : IssuerStore)
    : Type 0 where
  pub offer :
      o.credential_offer
      ≡ some (record {
        credential_offer = (t.heap result.session).credential_offer.credential_offer;
        credential_offer_uri = none;
      })
  pub pin : o.pin ≡ result.user_pin
  pub metadata :
      o.pin_metadata
      ≡ some (get_pin_metadata (t.heap result.session).credential_offer.credential_offer)
  pub no_client : o.client_opts ≡ none

module _ (metadata : IssuerMetadata) (default_base_uri : Option String) (uuid : ℕ → String)
    (generated_id : String) (drawn now : ℕ) (opts : CreateOfferOpts) (g : GrantUrnIetf)
    (resolve : String → Result ClientError (Option CredentialOfferPayload))
    (build_pop : AssertionJwt → Result ClientError String) (client_uuid token_uuid : String)
    (client_now : ℕ) (o : AccessTokenRequestOpts) (duration : ℕ)
    (auth_requests : Option (List (String × StoredAuthorizationRequest))) (clock : ℕ → ℕ) where
  -- The issuer, in a valid store and with a correlation id, creates an offer by the pre-authorized
  -- code flow alone: the code is not empty, no user PIN in the older form is asked for, and a
  -- transaction code, if there is one, is not described as a text, and has as many digits as the
  -- drawn number at least. A wallet without client credentials is given the offer by value, and the
  -- PIN. Then it makes a token request, which passes its own tests, and the token endpoint accepts
  -- that request for the session of the offer as long as the code has not expired.
  pub offer_accepted :
      (s : IssuerStore) (result : CreateOfferResult) (t : IssuerStore)
      → IsPreAuthorizedOffer metadata default_base_uri uuid generated_id drawn now opts g
      → IsValid s
      → text_truthy (get_or opts.correlation_id generated_id) ≡ true
      → create_credential_offer_uri metadata default_base_uri uuid generated_id drawn now opts s
        ≡ (ok result, t)
      → IsGivenTo o result t
      → clock 1 < now + duration * 1000
      → (r : ClientTokenRequest) × (create_access_token_request resolve build_pop client_uuid
            client_now o
          ≡ ok r)
        × (validate_error r.request o.pin_metadata ≡ none)
        × ((assert_valid_access_token_request r.request duration auth_requests token_uuid clock t).0
            ≡ ok result.session)
  unfolding pre_authorized_request validate_error get_pin_metadata
  offer_accepted s result t p v ct created given fresh =
      let i : GrantUrnIetf = issued opts (uuid 0) g in
      let code : String = get_or g.pre_authorized_code (uuid 0) in
      let payload : CredentialOfferPayload =
        (t.heap result.session).credential_offer.credential_offer in
      let f : IsFor metadata default_base_uri uuid generated_id drawn now opts g i code result t =
        created-IsFor metadata default_base_uri uuid generated_id drawn now opts g s result t p v ct
          created in
      let d : IsDrawnFor i drawn =
        issued-IsDrawnFor metadata default_base_uri uuid generated_id drawn now opts g p in
      let pin : o.pin ≡ user_pin i.tx_code drawn = given.pin ∙ f.pin in
      let fits : pin_error o.pin_metadata o.pin ≡ none =
        rw (given.metadata ∙ ap (λ x. some x) (get_pin_metadata-granted payload i f.granted), pin)
          (client_pin i drawn d) in
      let request : AccessTokenRequest =
        asked resolve build_pop client_uuid client_now o payload i code in
      let entitled : IsEntitled request (t.heap result.session) duration (clock 1) = record {
        granted = λ e. ground (arith, f.granted);
        fresh = rw f.created_at fresh;
        same_code = ground (arith, f.granted);
        pin =
            server_pin i drawn d request (t.heap result.session) (ground (arith, f.granted)) pin pin
              f.kept;
      } in
      (
        record { request = request; client_assertion = none },
        asked_lem resolve build_pop client_uuid client_now o payload i code f.granted f.coded p.code
            given.no_client given.offer fits,
        ground (arith, p.code, f.granted, f.coded),
        (accepted_iff request duration auth_requests token_uuid clock t refl result.session).1
            (code, ground (arith, f.granted, f.coded), p.code, f.found, entitled),
      )
