-- ===== src/Offer.antt =====
-- The creation of credential offers: createCredentialOfferGrants and createCredentialOfferObject of
-- packages/issuer/lib/functions/CredentialOfferUtils.ts. `uuid n` is the n-th identifier that `uuidv4`
-- gives within the creation of an offer.
pub mod Flows
pub mod Uri
pub mod Create
pub mod Mapped
pub mod Pin
pub mod Asked
pub mod Published
pub mod Stored
use oid4vc.Prelude.{
  ℕ, String, not, ◌&&◌, ◌||◌, Option, none, some, List, map, if◌then◌else◌, Result, ok, err, length,
  string_eq, nat_eq, text?_truthy, nat?_truthy, is_some, get_or, and_then,
}
use oid4vc.Types.{
  TxCode, GrantUrnIetf, GrantAuthorizationCode, Grant, CredentialOfferPayload,
  AssertedUniformCredentialOffer, Message, metadata_or_offer_required, configurations_mandatory,
}
use oid4vc.Issuer.Config.{IssuerMetadata, CredentialConfiguration}

-- `if (tx_code && !tx_code.length) tx_code.length = 4`
unfoldable pub with_length : TxCode → TxCode
with_length t = if nat?_truthy t.length then t else record t { length = some 4 }

abbrev pub with_code_length : GrantUrnIetf → GrantUrnIetf
with_code_length g = record g { tx_code = and_then g.tx_code (λ t. some (with_length t)) }

abbrev pub map_option : {A B : Type 0} → (A → B) → Option A → Option B
map_option f none = none
map_option f (some a) = some (f a)

unfoldable pub pre_authorized_input : String → GrantUrnIetf → GrantUrnIetf
pre_authorized_input uuid g =
    with_code_length (record g { pre_authorized_code = some (get_or g.pre_authorized_code uuid) })

authorization_input : String → GrantAuthorizationCode → GrantAuthorizationCode
authorization_input uuid g = record g { issuer_state = some (get_or g.issuer_state uuid) }

-- Grants without either entry have no keys.
unfoldable pub create_credential_offer_grants : Option Grant → (uuid : ℕ → String) → Option Grant
unfolding with_length pre_authorized_input authorization_input
create_credential_offer_grants none uuid = none
create_credential_offer_grants (some input) uuid =
    if is_some input.pre_authorized || is_some input.authorization_code
    then some (record {
      pre_authorized = map_option (pre_authorized_input (uuid 0)) input.pre_authorized;
      authorization_code = map_option (authorization_input (uuid 1)) input.authorization_code;
    })
    else none

pub record OfferObjectOpts : Type 0 where
  pub credential_offer : Option CredentialOfferPayload
  pub credential_offer_uri : Option String
  pub grants : Option Grant
  pub client_id : Option String

keys : List (String × CredentialConfiguration) → List String
keys entries = map (λ e. e.0) entries

-- The payload before grants and client are put in.
unfoldable pub base_payload :
    Option IssuerMetadata → OfferObjectOpts → Result Message CredentialOfferPayload
unfolding keys
base_payload metadata opts = elim opts.credential_offer [
  | some offer ↦ ok offer
  | none ↦ elim metadata [
    | none ↦ err configurations_mandatory
    | some m ↦ elim m.credential_configurations_supported [
      | none ↦ err configurations_mandatory
      | some supported ↦ ok (record {
        credential_issuer = m.credential_issuer;
        credential_configuration_ids = keys supported;
        grants = none;
        client_id = none;
      })
    ]
  ]
]

-- `if (grants) …; if (client_id) …`
unfoldable pub completed :
    Option Grant → Option String → CredentialOfferPayload → CredentialOfferPayload
completed grants client_id offer = record offer {
  grants = if is_some grants then grants else offer.grants;
  client_id = if text?_truthy client_id then client_id else offer.client_id;
}

unfoldable pub create_credential_offer_object :
    Option IssuerMetadata
    → OfferObjectOpts
    → (uuid : ℕ → String) → Result Message AssertedUniformCredentialOffer
unfolding base_payload completed create_credential_offer_grants
create_credential_offer_object metadata opts uuid =
    if not (is_some metadata)
      && not (is_some opts.credential_offer)
      && not (text?_truthy opts.credential_offer_uri)
    then err metadata_or_offer_required
    else elim (base_payload metadata opts) [
      | err x ↦ err x
      | ok offer ↦ ok (record {
        credential_offer =
            completed (create_credential_offer_grants opts.grants uuid) opts.client_id offer;
        credential_offer_uri = opts.credential_offer_uri;
      })
    ]
