-- ===== src/Offer/Create.antt =====
-- createCredentialOfferURI (packages/issuer/lib/VcIssuer.ts), with assertValidPinNumber of
-- packages/issuer/lib/functions/CredentialOfferUtils.ts. Parameters stand for what the code draws or
-- reads: `uuid n` as in Offer, `generated_id` for the short identifier, `drawn` for the rounded random
-- number of the PIN, `now` for the one reading of the clock. The life time is given without its sign,
-- which the code drops. The state managers are set; the QR code and the event are left out.
use Prim.Native.String
use oid4vc.Prelude.{
  ℕ, zero, suc, ◌+◌, ◌-◌, ◌*◌, String, Bool, true, false, not, ◌&&◌, Option, none, some, List,
  if◌then◌else◌, pure, throw, ◌>>=◌, ◌>>◌, Result, ok, err, decimal_text, text_of, replace_first,
  length, string_eq, nat_eq, text?_truthy, get_or, or_else, and_then, codes,
}
use oid4vc.StateManager.Memory
use oid4vc.StateManager.Memory.{memory_states}
use oid4vc.StateManager.Lookup.{set_mapped}
use oid4vc.Types.{
  Opaque, TxCode, GrantUrnIetf, Grant, CredentialOfferPayload, AssertedUniformCredentialOffer,
  CredentialOfferSession, UriState, uri_state, offer_created, error, Message, pin_not_match_error,
  offer_uri_required,
}
use oid4vc.Store.{Issuer, on_uris, allocate}
use oid4vc.Issuer.Config.{IssuerMetadata}
use oid4vc.Issuer.Sessions.{uri_property, session_ref, on_lookup}
use oid4vc.Token.Pins.{has_run}
use oid4vc.Offer.{create_credential_offer_object, with_length, map_option}
use oid4vc.Offer.Flows.{to_uniform_credential_offer_request}
use oid4vc.Offer.Uri.{
  CredentialOfferMode, value_mode, reference_mode, create_credential_offer_uri_from_object,
}

pub record CreateOfferOpts : Type 0 where
  pub offer_mode : Option CredentialOfferMode
  pub grants : Option Grant
  pub client_id : Option String
  pub redirect_uri : Option String
  pub credential_configuration_ids : Option (List String)
  pub credential_offer_uri : Option String
  pub credential_data_supplier_input : Option Opaque
  pub base_uri : Option String
  pub scheme : Option String
  pub pin_length : Option ℕ
  pub correlation_id : Option String
  pub status_list_opts : Option Opaque
  pub session_life_time_in_sec : Option ℕ

pub record CreateOfferResult : Type 0 where
  -- the session's object
  pub session : ℕ
  pub uri : List ℕ
  pub correlation_id : String
  pub tx_code : Option TxCode
  pub user_pin : Option String

abbrev pub is_reference : CredentialOfferMode → Bool
is_reference reference_mode = true
is_reference _ = false

abbrev no_tx_code : TxCode
no_tx_code = record { input_mode = none; length = none; description = none }

-- `opts.pinLength` as the length of the code, where the grant gives none.
unfoldable pub with_pin_length : Option ℕ → GrantUrnIetf → GrantUrnIetf
with_pin_length none g = g
with_pin_length (some n) g =
    let t = get_or g.tx_code no_tx_code in
    record g { tx_code = some (record t { length = some (get_or t.length n) }) }

unfoldable pub pre_authorized_of_opts : Option ℕ → GrantUrnIetf → GrantUrnIetf
unfolding with_pin_length with_length
pre_authorized_of_opts pin_length g =
    let h = with_pin_length pin_length g in record h { tx_code = map_option with_length h.tx_code }

no_grants : Grant
no_grants = record { pre_authorized = none; authorization_code = none }

unfoldable pub grants_of_opts : CreateOfferOpts → Grant
unfolding pre_authorized_of_opts no_grants
grants_of_opts opts =
    let g = get_or opts.grants no_grants in
    record g {
      pre_authorized = map_option (pre_authorized_of_opts opts.pin_length) g.pre_authorized;
    }

configured_offer : IssuerMetadata → List String → CredentialOfferPayload
configured_offer metadata ids = record {
  credential_issuer = metadata.credential_issuer;
  credential_configuration_ids = ids;
  grants = none;
  client_id = none;
}

unfoldable pub offer_object :
    IssuerMetadata
    → CreateOfferOpts
    → (uuid : ℕ → String) → Result Message AssertedUniformCredentialOffer
unfolding create_credential_offer_object grants_of_opts configured_offer
offer_object metadata opts uuid =
    create_credential_offer_object (some metadata)
      (record {
        credential_offer = map_option (configured_offer metadata) opts.credential_configuration_ids;
        credential_offer_uri = opts.credential_offer_uri;
        grants = some (grants_of_opts opts);
        client_id = opts.client_id;
      })
      uuid

abbrev pub offer_grant : AssertedUniformCredentialOffer → Option GrantUrnIetf
offer_grant offer = and_then offer.credential_offer.grants (λ g. g.pre_authorized)

abbrev pub offer_code : AssertedUniformCredentialOffer → Option String
offer_code offer = and_then (offer_grant offer) (λ g. g.pre_authorized_code)

abbrev pub offer_tx_code : AssertedUniformCredentialOffer → Option TxCode
offer_tx_code offer = and_then (offer_grant offer) (λ g. g.tx_code)

abbrev pub offer_issuer_state : AssertedUniformCredentialOffer → Option String
offer_issuer_state offer =
    and_then (and_then offer.credential_offer.grants (λ g. g.authorization_code))
      (λ a. a.issuer_state)

unfoldable pub zeros : ℕ → String
zeros zero = String.[]
zeros (suc n) = String.◌++◌ "0" (zeros n)

-- `('' + n).padStart(length, '0')`, below the numbers that are printed with an exponent.
unfoldable pub padded : ℕ → ℕ → String
unfolding zeros
padded width n = String.◌++◌ (zeros (width - length (codes (decimal_text n)))) (decimal_text n)

-- `[\d\D]{n}` anywhere: at least `n` characters. An empty PIN is not tested.
unfoldable pub assert_valid_pin_number : Option String → Option ℕ → Bool
unfolding has_run
assert_valid_pin_number pin pin_length =
    if text?_truthy pin
    then has_run (λ c. true) (get_or pin_length 6) (codes (get_or pin ""))
    else true

abbrev pub pin_length_of : TxCode → ℕ
pin_length_of t = get_or t.length 4

unfoldable pub user_pin : Option TxCode → (drawn : ℕ) → Option String
unfolding padded
user_pin tx_code drawn = map_option (λ t. padded (pin_length_of t) drawn) tx_code

unfoldable pub throw_unless : Bool → Message → Issuer (Unit {0})
throw_unless true m = pure tt
throw_unless false m = throw (error m)

unfoldable pub or_throw : {A : Type 0} → Result Message A → Issuer A
or_throw (ok a) = pure a
or_throw (err x) = throw (error x)

unfoldable pub set_uri : String → UriState → Issuer (Unit {0})
set_uri id state = on_uris (Memory.set id state)

-- A session object under a code or an issuer state, and its URI state under the correlation id.
unfoldable pub set_session_mapped : Option String → UriState → ℕ → Issuer (Unit {0})
set_session_mapped key state session s =
    (if text?_truthy key
        then on_lookup (
            set_mapped uri_property (memory_states uri_state) (memory_states (session_ref s.heap))
              "correlationId" (get_or key "") state session)
        else pure tt)
      s

module _ (metadata : IssuerMetadata) (default_base_uri : Option String) (uuid : ℕ → String)
    (generated_id : String) (drawn now : ℕ) (opts : CreateOfferOpts) where
  abbrev pub mode : CredentialOfferMode
  mode = get_or opts.offer_mode value_mode

  abbrev pub correlation_id : String
  correlation_id = get_or opts.correlation_id generated_id

  abbrev pub expiry : ℕ
  expiry = now + get_or opts.session_life_time_in_sec 600 * 1000

  unfoldable pub uri_state_of : AssertedUniformCredentialOffer → (uri : String) → UriState
  uri_state_of offer uri = record {
    created_at = now;
    expires_at = some expiry;
    issuer_state = offer_issuer_state offer;
    pre_authorized_code = offer_code offer;
    uri = uri;
    correlation_id = some correlation_id;
  }

  -- The offer's own URI, with the correlation id put in. The id has no dollar sign.
  abbrev pub offer_uri : List ℕ
  offer_uri =
      replace_first (codes ":id") (codes correlation_id)
        (codes (get_or opts.credential_offer_uri ""))

  -- `if (offerMode === 'REFERENCE')`
  unfoldable pub refer : AssertedUniformCredentialOffer → Issuer AssertedUniformCredentialOffer
  unfolding set_uri uri_state_of
  refer offer =
      if is_reference mode
      then (if text?_truthy (some (text_of offer_uri))
          then (do
            set_uri correlation_id (uri_state_of offer (text_of offer_uri))
            pure (record offer { credential_offer_uri = some (text_of offer_uri) }))
          else throw (error offer_uri_required))
      else pure offer

  unfoldable pub uniform : AssertedUniformCredentialOffer → AssertedUniformCredentialOffer
  unfolding to_uniform_credential_offer_request
  uniform offer =
      let u = to_uniform_credential_offer_request offer in
      record {
        credential_offer = u.credential_offer;
        credential_offer_uri = u.credential_offer_uri;
      }

  unfoldable pub new_session : AssertedUniformCredentialOffer → CredentialOfferSession
  new_session offer = record {
    created_at = now;
    expires_at = some expiry;
    client_id = if text?_truthy opts.client_id then opts.client_id else none;
    credential_offer = offer;
    credential_data_supplier_input = opts.credential_data_supplier_input;
    tx_code = user_pin (offer_tx_code offer) drawn;
    status = offer_created;
    error = none;
    last_updated_at = now;
    notification_id = uuid 2;
    notification = none;
    issuer_state = offer_issuer_state offer;
    pre_authorized_code = offer_code offer;
    authorization_code = none;
    redirect_uri = opts.redirect_uri;
    status_lists = opts.status_list_opts;
    authorization_details = none;
  }

  abbrev pub base_uri_used : Option String
  base_uri_used = or_else opts.base_uri default_base_uri

  -- The URI and the stores, once the offer is there.
  unfoldable pub publish : AssertedUniformCredentialOffer → Issuer CreateOfferResult
  unfolding new_session uri_state_of set_session_mapped create_credential_offer_uri_from_object
  publish offer = do
    session ← allocate (new_session offer)
    uri ← or_throw (create_credential_offer_uri_from_object offer mode opts.scheme base_uri_used)
    set_session_mapped (offer_code offer) (uri_state_of offer (text_of uri)) session
    set_session_mapped (offer_issuer_state offer) (uri_state_of offer (text_of uri)) session
    pure (record {
      session = session;
      uri = uri;
      correlation_id = correlation_id;
      tx_code = offer_tx_code offer;
      user_pin = user_pin (offer_tx_code offer) drawn;
    })

  unfoldable pub pin_is_valid : AssertedUniformCredentialOffer → Bool
  unfolding assert_valid_pin_number
  pin_is_valid offer = elim (offer_tx_code offer) [
    | none ↦ true
    | some t ↦ assert_valid_pin_number (user_pin (some t) drawn) (some (pin_length_of t))
  ]

  unfoldable pub create_credential_offer_uri : Issuer CreateOfferResult
  unfolding offer_object refer uniform publish pin_is_valid throw_unless or_throw
  create_credential_offer_uri =
      if is_reference mode && not (text?_truthy opts.credential_offer_uri)
      then throw (error offer_uri_required)
      else (do
        offer ← or_throw (offer_object metadata opts uuid)
        throw_unless (pin_is_valid offer) pin_not_match_error
        referred ← refer offer
        publish (uniform referred))
