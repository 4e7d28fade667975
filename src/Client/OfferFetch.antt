-- ===== src/Client/OfferFetch.antt =====
-- A wallet fetches the offer from where the issuer put it: the URI of packages/issuer/lib/functions/
-- CredentialOfferUtils.ts is read by functions/CredentialOfferCommons.ts of packages/client/lib.
use oid4vc.Prelude.{
  ℕ, String, ◌≡◌, refl, sym, ap, ◌∙◌, true, false, Option, some, List, [], ◌∷◌, ◌++◌, nat_beq, ok,
  contains, is_unescaped, encode_uri_component, text_truthy, codes,
}
use mathlib.Core.List.{append_assoc}
use oid4vc.Prelude.Percent.RoundTrip.{codes-scalar, decode-encode_uri_component}
use oid4vc.Types.{AssertedUniformCredentialOffer}
use oid4vc.Offer.Uri.{
  parse_credential_offer_scheme_and_base_uri, create_credential_offer_uri_from_object,
  reference_mode, separator, uri_in_mode, reference_uri,
}
use oid4vc.Encoding.Components.{
  get_uri_components_as_array, split_at, put_entries, put_component, Components, absent, single,
}
use oid4vc.Encoding.Plain.{IsFree, IsFree-append, all-IsFree, split_at_free}
use oid4vc.Encoding.Entries.{query_of-append, put_entry-equation}
use oid4vc.Encoding.Escapes.{encode_uri_component-IsFree}
use oid4vc.Client.OfferUri.{
  is_uri_encoded, offer_location, FetchResponse, check_response, handle_credential_offer_uri,
  decode_again, location_in, component_text, decode_once,
}

abbrev param : List ℕ
param = codes "credential_offer_uri"

abbrev pair : String → List ℕ
pair t = param ++ (b'=' ∷ encode_uri_component (codes t))

-- What stands before the question mark.
abbrev pub before_query : List ℕ → List ℕ → List ℕ
before_query scheme base = scheme ++ (separator ++ base)

abbrev pub uri_of : List ℕ → List ℕ → String → List ℕ
uri_of scheme base t = scheme ++ (separator ++ (base ++ (b'?' ∷ pair t)))

uri_of-before :
    (scheme base : List ℕ) (t : String)
    → uri_of scheme base t ≡ before_query scheme base ++ (b'?' ∷ pair t)
uri_of-before scheme base t =
    ap (λ (x : List ℕ). scheme ++ x) (sym (append_assoc separator base (b'?' ∷ pair t)))
    ∙ sym (append_assoc scheme (separator ++ base) (b'?' ∷ pair t))

module _ (t : String) where
  pair-IsFree :
      (k : ℕ)
      → IsFree k param
      → IsFree k (b'=' ∷ [])
      → is_unescaped k ≡ false
      → nat_beq k b'%' ≡ false
      → IsFree k (pair t)
  pair-IsFree k f g h p = IsFree-append k param (b'=' ∷ encode_uri_component (codes t)) f (
      IsFree-append k (b'=' ∷ []) (encode_uri_component (codes t)) g
        (encode_uri_component-IsFree k h p (codes t) (codes-scalar t)))

  abbrev components : Components
  components = put_component param (single (encode_uri_component (codes t))) (λ key. absent)

  module _ (array_length : Option (List ℕ) → Option ℕ) where
    components_of_uri :
        (before : List ℕ)
        → IsFree b'?' before
        → get_uri_components_as_array array_length (before ++ (b'?' ∷ pair t)) [] ≡ some components
    unfolding get_uri_components_as_array put_entries
    components_of_uri before f =
        ap (λ (q : List ℕ). put_entries array_length [] (split_at b'&' q) (λ key. absent))
          (query_of-append before (pair t) f
            (pair-IsFree b'?' (all-IsFree b'?' param refl) (refl, tt) refl refl))
        ∙ ap (λ (es : List (List ℕ)). put_entries array_length [] es (λ key. absent))
            (split_at_free b'&' (pair t)
              (pair-IsFree b'&' (all-IsFree b'&' param refl) (refl, tt) refl refl))
        ∙ rw
            (put_entry-equation array_length param (encode_uri_component (codes t))
              (all-IsFree b'=' param refl)
              (encode_uri_component-IsFree b'=' refl refl (codes t) (codes-scalar t))
              (λ key. absent) refl refl)
            refl

    offer_location_of_uri :
        (scheme base : List ℕ)
        → IsFree b'?' (before_query scheme base)
        → is_uri_encoded (codes t) ≡ false
        → offer_location array_length (uri_of scheme base t) ≡ ok (codes t)
    unfolding offer_location location_in decode_again component_text
    offer_location_of_uri scheme base f h =
        ap (offer_location array_length) (uri_of-before scheme base t)
        ∙ ap location_in (components_of_uri (before_query scheme base) f)
        ∙ ap decode_once (decode-encode_uri_component (codes t) (codes-scalar t))
        ∙ rw h refl

reference_uri_of :
    (scheme base : List ℕ) (o : Option String) (t : String)
    → o ≡ some t
    → text_truthy t ≡ true
    → contains (codes "credential_offer_uri=") (codes t) ≡ false
    → reference_uri scheme base o ≡ ok (uri_of scheme base t)
unfolding reference_uri
reference_uri_of scheme base o t e h c = ap (reference_uri scheme base) e ∙ rw (h, c) refl

-- Where an offer names its place by a URI that does not itself hold `credential_offer_uri=` and has
-- no percent escape, and the scheme and the base have no question mark, an issuer that offers it by
-- reference makes the URI of it, and a wallet that reads this URI fetches that place, whatever
-- characters it has, and goes on with the answer that it gets from there.
pub offer_uri_fetched :
    (array_length : Option (List ℕ) → Option ℕ) (fetch : List ℕ → Option FetchResponse)
    → (offer : AssertedUniformCredentialOffer) (scheme base_uri : Option String)
    → (s base : List ℕ) (t : String)
    → parse_credential_offer_scheme_and_base_uri scheme base_uri
        (some offer.credential_offer.credential_issuer)
      ≡ ok (s, base)
    → IsFree b'?' (before_query s base)
    → offer.credential_offer_uri ≡ some t
    → text_truthy t ≡ true
    → contains (codes "credential_offer_uri=") (codes t) ≡ false
    → is_uri_encoded (codes t) ≡ false
    → (create_credential_offer_uri_from_object offer reference_mode scheme base_uri
        ≡ ok (uri_of s base t))
      × (handle_credential_offer_uri array_length fetch (uri_of s base t)
          ≡ check_response (fetch (codes t)))
unfolding create_credential_offer_uri_from_object uri_in_mode handle_credential_offer_uri
offer_uri_fetched array_length fetch offer scheme base_uri s base t p f e h c d = (
  rw (p, create_credential_offer_uri_from_object)
      (reference_uri_of s base offer.credential_offer_uri t e h c),
  rw (offer_location_of_uri t array_length s base f d, handle_credential_offer_uri) refl,
)
