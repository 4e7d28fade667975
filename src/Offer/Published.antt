-- ===== src/Offer/Published.antt =====
-- The session and the URI state that the last part of createCredentialOfferURI stores
-- (packages/issuer/lib/VcIssuer.ts).
use oid4vc.Offer.Uri.{create_credential_offer_uri_from_object, value_mode}
use mathlib.Core.Path.{subst}
use oid4vc.Prelude.{
  ℕ, ◌<◌, String, ◌≡◌, refl, ◌∙◌, true, ◌||◌, Option, none, some, arith, if◌then◌else◌, >>=-eq-ok,
  >>=-reads, pure-eq-ok, Result, ok, text_of, text_truthy, text?_truthy, get_or, or_else,
}
use oid4vc.Types.{
  UriState, AssertedUniformCredentialOffer, CredentialOfferSession, Message, offer_created,
}
use oid4vc.Store.{IssuerStore, Issuer, IsValid, ref_at, allocate}
use oid4vc.Issuer.Config.{IssuerMetadata}
use oid4vc.Offer.Create.{
  CreateOfferOpts, CreateOfferResult, set_session_mapped, new_session, offer_code,
  offer_issuer_state, user_pin, offer_tx_code, publish, uri_state_of, or_throw,
}
use oid4vc.Prelude.{Bool, List, ◌+◌, ◌*◌}
use oid4vc.Offer.Mapped.{
  IsUriPut, set_session_mapped-IsUriPut, is_key, IsMapped, set_session_mapped-IsMapped,
  or_throw_same, or_throw-eq-ok,
}

module _ (metadata : IssuerMetadata) (default_base_uri : Option String) (uuid : ℕ → String)
    (generated_id : String) (drawn now : ℕ) (opts : CreateOfferOpts) where
  -- An offer's session in the store: a new object, under the code and under the issuer state.
  pub record IsOffered (offer : AssertedUniformCredentialOffer) (result : CreateOfferResult)
      (s t : IssuerStore) : Type 0 where
    pub new : result.session ≡ s.next_cell
    pub content : t.heap result.session ≡ record {
      created_at = now;
      expires_at = some (now + get_or opts.session_life_time_in_sec 600 * 1000);
      client_id = if text?_truthy opts.client_id then opts.client_id else none;
      credential_offer = offer;
      credential_data_supplier_input = opts.credential_data_supplier_input;
      tx_code = user_pin (offer_tx_code offer) drawn;
      status = offer_created;
      error = none;
      last_updated_at = now;
      notification_id = uuid 2;
      notification = none;
      issuer_state = offer_issuer_state offer;
      pre_authorized_code = offer_code offer;
      authorization_code = none;
      redirect_uri = opts.redirect_uri;
      status_lists = opts.status_list_opts;
      authorization_details = none;
    }
    pub correlation : result.correlation_id ≡ get_or opts.correlation_id generated_id
    pub uri :
        create_credential_offer_uri_from_object offer
          (get_or opts.offer_mode value_mode)
          opts.scheme
          (or_else opts.base_uri default_base_uri)
        ≡ ok result.uri
    pub others : (r : ℕ) → r < s.next_cell → t.heap r ≡ s.heap r
    pub refs :
        (id : String)
        → ref_at t id ≡ (
            if is_key (offer_code offer) id || is_key (offer_issuer_state offer) id
            then some result.session
            else ref_at s id)
    pub pin : result.user_pin ≡ user_pin (offer_tx_code offer) drawn
    pub nonces : t.c_nonces ≡ s.c_nonces
    pub valid : IsValid t

  -- The URI state of an offer with this URI.
  abbrev pub stored_uri : AssertedUniformCredentialOffer → String → UriState
  stored_uri offer uri = record {
    created_at = now;
    expires_at = some (now + get_or opts.session_life_time_in_sec 600 * 1000);
    issuer_state = offer_issuer_state offer;
    pre_authorized_code = offer_code offer;
    uri = uri;
    correlation_id = some (get_or opts.correlation_id generated_id);
  }

  -- Where the offer has a code or an issuer state, the URI that was made is stored.
  abbrev pub is_found : AssertedUniformCredentialOffer → Bool
  is_found offer = text?_truthy (offer_code offer) || text?_truthy (offer_issuer_state offer)

  pub publish-IsOffered :
      (offer : AssertedUniformCredentialOffer) (s : IssuerStore) (result : CreateOfferResult)
      {t : IssuerStore}
      → IsValid s
      → text_truthy (get_or opts.correlation_id generated_id) ≡ true
      → publish metadata default_base_uri uuid generated_id drawn now opts offer s ≡ (ok result, t)
      → IsOffered offer result s t
        × IsUriPut
            (is_found offer)
            (get_or opts.correlation_id generated_id)
            (stored_uri offer (text_of result.uri))
            s
            t
  unfolding publish uri_state_of new_session
  publish-IsOffered offer s result v ct h =
      let c : String = get_or opts.correlation_id generated_id in
      let session : CredentialOfferSession =
        new_session metadata default_base_uri uuid generated_id drawn now opts offer in
      let s1 : IssuerStore = (allocate session s).1 in
      let v1 : IsValid s1 = record {
        in_use = λ id r found. omega (arith, v.in_use id r found);
        sessions_unique = v.sessions_unique;
        uris_unique = v.uris_unique;
        nonces_unique = v.nonces_unique;
      } in
      let make : Result Message (List ℕ) =
        create_credential_offer_uri_from_object offer (get_or opts.offer_mode value_mode)
          opts.scheme (or_else opts.base_uri default_base_uri) in
      let (uri, made, h1) =
        >>=-reads (or_throw make) _ (λ (x : List ℕ). make ≡ ok x) s1
          (λ x e. (or_throw-eq-ok make s1 x e, or_throw_same make s1)) h in
      let state : UriState =
        uri_state_of metadata default_base_uri uuid generated_id drawn now opts offer
          (text_of uri) in
      let first : Issuer (Unit {0}) = set_session_mapped (offer_code offer) state s.next_cell in
      let second : Issuer (Unit {0}) =
        set_session_mapped (offer_issuer_state offer) state s.next_cell in
      let (_, _, h2) = >>=-eq-ok first _ s1 h1 in
      let (_, _, h3) = >>=-eq-ok second _ (first s1).1 h2 in
      let m1 : IsMapped (offer_code offer) s.next_cell s1 (first s1).1 =
        set_session_mapped-IsMapped (offer_code offer) c state s.next_cell s1 v1 (omega arith) refl
          ct in
      let m2 : IsMapped (offer_issuer_state offer) s.next_cell (first s1).1
          (second (first s1).1).1 =
        set_session_mapped-IsMapped (offer_issuer_state offer) c state s.next_cell (first s1).1
          m1.valid (rw m1.same_next (omega arith)) refl ct in
      let p1 : IsUriPut (text?_truthy (offer_code offer)) c state s1 (first s1).1 =
        set_session_mapped-IsUriPut (offer_code offer) c state s.next_cell s1 refl ct in
      let p2 : IsUriPut (text?_truthy (offer_issuer_state offer)) c state (first s1).1
          (second (first s1).1).1 =
        set_session_mapped-IsUriPut (offer_issuer_state offer) c state s.next_cell (first s1).1 refl
          ct in
      let (returned, last) = pure-eq-ok h3 in
      let found : CreateOfferResult = record {
        session = s.next_cell;
        uri = uri;
        correlation_id = c;
        tx_code = offer_tx_code offer;
        user_pin = user_pin (offer_tx_code offer) drawn;
      } in
      let there : IsOffered offer found s (second (first s1).1).1 = record {
        new = refl;
        content = rw (m2.same_heap, m1.same_heap) (ground arith);
        others = λ r old. rw (m2.same_heap, m1.same_heap) (ground arith);
        refs = λ id. ground (arith, m2.refs id, m1.refs id);
        pin = refl;
        correlation = refl;
        uri = made;
        nonces = m2.same_nonces ∙ m1.same_nonces;
        valid = m2.valid;
      } in
      let put : IsUriPut (is_found offer) c (stored_uri offer (text_of uri)) s
          (second (first s1).1).1 =
        λ id. ground (arith, p2 id, p1 id) in
      subst
        (λ (x : IssuerStore).
          IsOffered offer result s x
          × IsUriPut (is_found offer) c (stored_uri offer (text_of result.uri)) s x)
        last
        (subst
          (λ (x : CreateOfferResult).
            IsOffered offer x s (second (first s1).1).1
            × IsUriPut (is_found offer) c (stored_uri offer (text_of x.uri)) s
                (second (first s1).1).1)
          returned (there, put))
