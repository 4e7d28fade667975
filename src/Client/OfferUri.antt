-- ===== src/Client/OfferUri.antt =====
-- The fetching of an offer that its URI names, functions/CredentialOfferCommons.ts of
-- packages/client/lib, up to the decoding of the answer's properties.
use oid4vc.Prelude.{
  ℕ, String, Bool, false, not, ◌&&◌, ◌||◌, Option, none, some, List, [], ◌∷◌, map, ltb, leb,
  nat_beq, if◌then◌else◌, Result, ok, err, begins, decode_uri_component, is_some, get_or, codes,
  Json,
}
use oid4vc.Prelude.Percent.{hex_value}
use oid4vc.Encoding.{join}
use oid4vc.Encoding.Components.{
  Component, absent, single, several, Components, get_uri_components_as_array,
}

-- `/%[0-9A-F]{2}/i` somewhere in the text.
unfoldable pub is_uri_encoded : List ℕ → Bool
is_uri_encoded [] = false
is_uri_encoded (c ∷ []) = false
is_uri_encoded (c ∷ h ∷ []) = false
is_uri_encoded (c ∷ h ∷ l ∷ cs) =
    (nat_beq c b'%' && is_some (hex_value h) && is_some (hex_value l))
    || is_uri_encoded (h ∷ l ∷ cs)

pub data OfferFetchError : Type 0 where
  invalid_array_length uri_malformed : OfferFetchError
  call_failed : (status : ℕ) (status_text : String) → OfferFetchError
  fetch_rejected not_json body_unreadable : OfferFetchError

-- What `fetch` gives, which is no response where it rejects; the body is `none` where `json()` rejects.
pub record FetchResponse : Type 0 where
  pub status : ℕ
  pub status_text : String
  pub content_type : Option String
  pub body : Option Json

-- A property where `decodeURIComponent` wants a text.
unfoldable pub component_text : Component → List ℕ
unfolding join
component_text absent = codes "undefined"
component_text (single v) = v
component_text (several vs) = join (b',' ∷ []) (map (λ v. get_or v []) vs)

abbrev or_malformed : Option (List ℕ) → Result OfferFetchError (List ℕ)
or_malformed none = err uri_malformed
or_malformed (some cs) = ok cs

unfoldable pub decode_again : List ℕ → Result OfferFetchError (List ℕ)
unfolding is_uri_encoded decode_uri_component
decode_again cs = if is_uri_encoded cs then or_malformed (decode_uri_component cs) else ok cs

unfoldable pub check_response : Option FetchResponse → Result OfferFetchError Json
check_response none = err fetch_rejected
check_response (some r) =
    if not (leb 200 r.status && ltb r.status 400)
    then err (call_failed r.status r.status_text)
    else if is_some r.content_type
        && not (begins (codes "application/json") (codes (get_or r.content_type "")))
    then err not_json
    else elim r.body [ none ↦ err body_unreadable | some j ↦ ok j ]

abbrev pub decode_once : Option (List ℕ) → Result OfferFetchError (List ℕ)
decode_once none = err uri_malformed
decode_once (some cs) = decode_again cs

unfoldable pub location_in : Option Components → Result OfferFetchError (List ℕ)
unfolding component_text decode_again decode_uri_component
location_in none = err invalid_array_length
location_in (some json) =
    decode_once (decode_uri_component (component_text (json (codes "credential_offer_uri"))))

module _ (array_length : Option (List ℕ) → Option ℕ) where
  -- The URI that is fetched.
  unfoldable pub offer_location : List ℕ → Result OfferFetchError (List ℕ)
  unfolding get_uri_components_as_array location_in
  offer_location uri = location_in (get_uri_components_as_array array_length uri [])

  unfoldable pub handle_credential_offer_uri :
      (fetch : List ℕ → Option FetchResponse) → List ℕ → Result OfferFetchError Json
  unfolding offer_location check_response
  handle_credential_offer_uri fetch uri = elim (offer_location uri) [
    | err e ↦ err e
    | ok location ↦ check_response (fetch location)
  ]
