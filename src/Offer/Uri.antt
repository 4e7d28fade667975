-- ===== src/Offer/Uri.antt =====
-- The URI of an offer: parseCredentialOfferSchemeAndBaseUri and createCredentialOfferURIFromObject
-- of packages/issuer/lib/functions/CredentialOfferUtils.ts. URIs are sequences of code points.
use oid4vc.Prelude.{
  ℕ, String, Option, none, some, List, [], ◌++◌, map, if◌then◌else◌, Result, ok, err, contains,
  replace_first, first_part, begins, encode_uri_component, text?_truthy, get_or, codes, stringify,
  strings, Json, Members, boolean, number, string, array, object, no_members, member,
}
use oid4vc.Types.{
  InputCharSet, numeric, TxCode, GrantUrnIetf, GrantAuthorizationCode, Grant,
  CredentialOfferPayload, AssertedUniformCredentialOffer, Message, scheme_differs,
  base_uri_required, offer_uri_required, unsupported_offer_mode,
}

abbrev pub separator : List ℕ
separator = codes "://"

-- `scheme?.replace('://', '') ?? (baseUri?.includes('://') ? baseUri.split('://')[0] : …)`
unfoldable pub new_scheme : (scheme base_uri : Option String) → List ℕ
new_scheme (some scheme) base_uri = replace_first separator [] (codes scheme)
new_scheme none none = codes "openid-credential-offer"
new_scheme none (some base_uri) =
    if contains separator (codes base_uri)
    then first_part separator (codes base_uri)
    else codes "openid-credential-offer"

-- The base before the scheme is taken off it.
unfoldable pub new_base_uri :
    (scheme : List ℕ) (base_uri credential_issuer : Option String) → Result Message (List ℕ)
new_base_uri scheme base_uri credential_issuer =
    if text?_truthy base_uri
    then ok (codes (get_or base_uri ""))
    else if begins (codes "http") scheme
    then (if text?_truthy credential_issuer
        then (if begins (scheme ++ separator) (codes (get_or credential_issuer ""))
            then ok (codes (get_or credential_issuer ""))
            else err scheme_differs)
        else err base_uri_required)
    else ok []

unfoldable pub parse_credential_offer_scheme_and_base_uri :
    (scheme base_uri credential_issuer : Option String) → Result Message (List ℕ × List ℕ)
unfolding new_scheme new_base_uri
parse_credential_offer_scheme_and_base_uri scheme base_uri credential_issuer =
    let s = new_scheme scheme base_uri in
    elim (new_base_uri s base_uri credential_issuer) [
      | err x ↦ err x
      | ok base ↦ ok (s, replace_first (s ++ separator) [] base)
    ]

-- A member whose value may be `undefined`, which `JSON.stringify` leaves out.
abbrev optional : {A : Type 0} → String → (A → Json) → Option A → Members → Members
optional key f none rest = rest
optional key f (some a) rest = member (codes key) (f a) rest

abbrev text_json : String → Json
text_json t = string (codes t)

abbrev input_mode_json : InputCharSet → Json
input_mode_json numeric = text_json "numeric"
input_mode_json _ = text_json "text"

tx_code_json : TxCode → Json
tx_code_json t = object (
    optional "input_mode" input_mode_json t.input_mode (
      optional "length" number t.length
        (optional "description" text_json t.description no_members)))

pre_authorized_json : GrantUrnIetf → Json
unfolding tx_code_json
pre_authorized_json g = object (
    optional "pre-authorized_code" text_json g.pre_authorized_code (
      optional "tx_code" tx_code_json g.tx_code (
        optional "interval" number g.interval (
          optional "authorization_server" text_json g.authorization_server
            (optional "user_pin_required" boolean g.user_pin_required no_members)))))

authorization_json : GrantAuthorizationCode → Json
authorization_json g = object (
    optional "issuer_state" text_json g.issuer_state
      (optional "authorization_server" text_json g.authorization_server no_members))

grant_json : Grant → Json
unfolding pre_authorized_json authorization_json
grant_json g = object (
    optional "urn:ietf:params:oauth:grant-type:pre-authorized_code" pre_authorized_json
      g.pre_authorized
      (optional "authorization_code" authorization_json g.authorization_code no_members))

-- The payload as an object, whose members stand in the order in which the code makes them, and in
-- those that come from the caller in the order of their types.
unfoldable pub payload_json : CredentialOfferPayload → Json
unfolding grant_json
payload_json offer = object (
    member (codes "credential_issuer") (text_json offer.credential_issuer) (
      member (codes "credential_configuration_ids")
        (array (strings (map codes offer.credential_configuration_ids)))
        (optional "grants" grant_json offer.grants
          (optional "client_id" text_json offer.client_id no_members))))

pub data CredentialOfferMode : Type 0 where
  value_mode reference_mode other_mode : CredentialOfferMode

unfoldable pub reference_uri : (scheme base : List ℕ) → Option String → Result Message (List ℕ)
reference_uri scheme base uri =
    if text?_truthy uri
    then (if contains (codes "credential_offer_uri=") (codes (get_or uri ""))
        then ok (codes (get_or uri ""))
        else ok (
            scheme
            ++ (separator
                ++ (base
                    ++ (codes "?credential_offer_uri="
                        ++ encode_uri_component (codes (get_or uri "")))))))
    else err offer_uri_required

unfoldable pub uri_in_mode :
    (scheme base : List ℕ)
    → AssertedUniformCredentialOffer
    → CredentialOfferMode
    → Result Message (List ℕ)
unfolding reference_uri payload_json
uri_in_mode scheme base offer reference_mode = reference_uri scheme base offer.credential_offer_uri
uri_in_mode scheme base offer value_mode = ok (
    scheme
    ++ (separator
        ++ (base
            ++ (codes "?credential_offer="
                ++ encode_uri_component (stringify (payload_json offer.credential_offer))))))
uri_in_mode scheme base offer other_mode = err unsupported_offer_mode

unfoldable pub create_credential_offer_uri_from_object :
    AssertedUniformCredentialOffer
    → CredentialOfferMode
    → (scheme base_uri : Option String) → Result Message (List ℕ)
unfolding parse_credential_offer_scheme_and_base_uri uri_in_mode
create_credential_offer_uri_from_object offer mode scheme base_uri =
    elim (parse_credential_offer_scheme_and_base_uri scheme base_uri
      (some offer.credential_offer.credential_issuer)) [
        | err x ↦ err x
        | ok (s, base) ↦ uri_in_mode s base offer mode
      ]
