-- ===== src/Offer/Flows.antt =====
-- What is read off an offer by packages/oid4vci-common/lib/functions/CredentialOfferUtil.ts: its
-- flows, its grant types, its state, its issuer, and the uniform request that is made of it. The
-- payload is the record that both versions of the specification share, so that its version is always
-- found to be 1.0.15.
use oid4vc.Prelude.{
  String, Bool, true, false, ◌||◌, Option, none, some, List, [], ◌∷◌, ◌++◌, if◌then◌else◌,
  text?_truthy, is_some, and_then,
}
use oid4vc.Types.{
  GrantTypes, authorization_code, pre_authorized_code, CredentialOfferPayload,
  AssertedUniformCredentialOffer,
}

pub data AuthzFlowType : Type 0 where
  authorization_code_flow pre_authorized_code_flow : AuthzFlowType

abbrev pub same_flow : AuthzFlowType → AuthzFlowType → Bool
same_flow authorization_code_flow authorization_code_flow = true
same_flow pre_authorized_code_flow pre_authorized_code_flow = true
same_flow _ _ = false

-- `flows.includes(flow)`
abbrev pub supports : List AuthzFlowType → AuthzFlowType → Bool
supports [] flow = false
supports (f ∷ fs) flow = same_flow f flow || supports fs flow

unfoldable pub determine_flow_type : CredentialOfferPayload → List AuthzFlowType
determine_flow_type payload =
    (if is_some (and_then payload.grants (λ g. g.authorization_code))
      then authorization_code_flow ∷ []
      else [])
    ++ (if text?_truthy
          (and_then (and_then payload.grants (λ g. g.pre_authorized)) (λ p. p.pre_authorized_code))
        then pre_authorized_code_flow ∷ []
        else [])

unfoldable pub determine_grant_types : CredentialOfferPayload → List GrantTypes
determine_grant_types payload =
    (if is_some (and_then payload.grants (λ g. g.authorization_code))
      then authorization_code ∷ []
      else [])
    ++ (if is_some (and_then payload.grants (λ g. g.pre_authorized))
        then pre_authorized_code ∷ []
        else [])

unfoldable pub is_pre_auth_code : CredentialOfferPayload → Bool
is_pre_auth_code payload =
    is_some
      (and_then (and_then payload.grants (λ g. g.pre_authorized)) (λ p. p.pre_authorized_code))

-- `op_state` and a code at the top of the payload belong to older versions.
unfoldable pub get_state_from_credential_offer_payload : CredentialOfferPayload → Option String
get_state_from_credential_offer_payload offer = and_then offer.grants (λ g.
    elim g.authorization_code [
      | some a ↦ a.issuer_state
      | none ↦ and_then g.pre_authorized (λ p. p.pre_authorized_code)
    ])

pub record UniformCredentialOfferRequest : Type 0 where
  pub credential_offer : CredentialOfferPayload
  pub credential_offer_uri : Option String
  pub supported_flows : List AuthzFlowType

-- With `resolve: false`, or without a URI: the payload is that of the offer.
unfoldable pub to_uniform_credential_offer_request :
    AssertedUniformCredentialOffer → UniformCredentialOfferRequest
unfolding determine_flow_type
to_uniform_credential_offer_request offer = record {
  credential_offer = offer.credential_offer;
  credential_offer_uri =
      if text?_truthy offer.credential_offer_uri then offer.credential_offer_uri else none;
  supported_flows = determine_flow_type offer.credential_offer;
}
