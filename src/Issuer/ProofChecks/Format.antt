-- ===== src/Issuer/ProofChecks/Format.antt =====
-- Which format a request for a credential has (lookupCredentialFormat of packages/issuer/lib/VcIssuer.ts).
use mathlib.Core.Path.{fun_ext}
use oid4vc.Prelude.{
  String, ◌≡◌, refl, ap, ◌∙◌, true, false, ◌||◌, Option, none, some, List, [], ◌∷◌, arith, find,
  includes, map_get, string_eq, nat_eq, text_truthy, text?_truthy, get_or, and_then, text?_eq,
}
use oid4vc.Types.{CredentialRequest, AuthorizationDetails, detail_text, detail_object}
use oid4vc.Issuer.Config.{IssuerMetadata, CredentialConfiguration}
use oid4vc.Issuer.Binding.{
  lookup_credential_format, named_configuration, format_of, configuration, configuration_id,
  details_of, identifiers_of,
}
use oid4vc.Issuer.ProofChecks.Meant.{is_named}

-- The format of the issuer's configuration of this id, if there is one.
abbrev configured_format : IssuerMetadata → String → Option String
configured_format metadata id =
    and_then (and_then metadata.credential_configurations_supported (λ m. map_get m id))
      (λ c. some c.format)

abbrev configuration_of : AuthorizationDetails → Option String
configuration_of (detail_text t) = none
configuration_of (detail_object d) = d.credential_configuration_id

-- The configuration that the authorization names along with a credential.
abbrev granted_configuration : Option (List AuthorizationDetails) → String → Option String
granted_configuration details id =
    and_then (find (λ d. is_named d id) (get_or details [])) configuration_of

-- The format of the first configuration with this id or type of its own.
abbrev format_by_name : List (String × CredentialConfiguration) → String → Option String
format_by_name supported id =
    and_then (find (λ e. text?_eq e.1.id (some id) || text?_eq e.1.vct (some id)) supported)
      (λ e. some e.1.format)

-- The format is that of the request, or else of the configuration that the request names, or else,
-- for a credential, of the configuration that the authorization gives for it, or else of one that is
-- called like it.
pub record IsFormatOf (metadata : IssuerMetadata) (request : CredentialRequest)
    (details : Option (List AuthorizationDetails)) (format : Option String) : Type 0 where
  pub given : text?_truthy request.format ≡ true → format ≡ request.format
  pub by_configuration :
      (id : String)
      → text?_truthy request.format ≡ false
      → request.credential_configuration_id ≡ some id
      → text_truthy id ≡ true
      → format ≡ configured_format metadata id
  pub by_authorization :
      (id config : String)
      → text?_truthy request.format ≡ false
      → text?_truthy request.credential_configuration_id ≡ false
      → request.credential_identifier ≡ some id
      → text_truthy id ≡ true
      → granted_configuration details id ≡ some config
      → text_truthy config ≡ true
      → format ≡ configured_format metadata config
  pub by_name :
      (id : String)
      → text?_truthy request.format ≡ false
      → text?_truthy request.credential_configuration_id ≡ false
      → request.credential_identifier ≡ some id
      → text_truthy id ≡ true
      → text?_truthy (granted_configuration details id) ≡ false
      → format ≡ format_by_name (get_or metadata.credential_configurations_supported []) id
  pub otherwise :
      text?_truthy request.format ≡ false
      → text?_truthy request.credential_configuration_id ≡ false
      → text?_truthy request.credential_identifier ≡ false
      → format ≡ none

named_configuration-format :
    (supported : List (String × CredentialConfiguration)) (id : String)
    → format_of (named_configuration supported id) ≡ format_by_name supported id
unfolding named_configuration
named_configuration-format [] id = refl
named_configuration-format ((k, c) ∷ rest) id = ground (arith, named_configuration-format rest id)

configuration_format :
    (metadata : IssuerMetadata) (id : String)
    → format_of (configuration metadata (some id)) ≡ configured_format metadata id
configuration_format metadata id = ground arith

is_named_lem :
    (d : AuthorizationDetails) (id : String) → includes (identifiers_of d) id ≡ is_named d id
is_named_lem (detail_text t) id = refl
is_named_lem (detail_object d) id = refl

configuration_of_lem :
    (d : Option AuthorizationDetails) → configuration_id d ≡ and_then d configuration_of
configuration_of_lem none = refl
configuration_of_lem (some (detail_text t)) = refl
configuration_of_lem (some (detail_object d)) = refl

details_of_lem :
    (details : Option (List AuthorizationDetails)) (id : String)
    → configuration_id (details_of (get_or details []) id) ≡ granted_configuration details id
details_of_lem details id =
    ap (λ f. configuration_id (find f (get_or details []))) (fun_ext (λ d. is_named_lem d id))
    ∙ configuration_of_lem (find (λ d. is_named d id) (get_or details []))

pub lookup_credential_format-IsFormatOf :
    (metadata : IssuerMetadata) (request : CredentialRequest)
    (details : Option (List AuthorizationDetails))
    → IsFormatOf metadata request details (lookup_credential_format metadata request details)
unfolding lookup_credential_format
lookup_credential_format-IsFormatOf metadata request details = record {
  given = λ h. ground arith;
  by_configuration = λ id a e h. ground (arith, configuration_format metadata id);
  by_authorization = λ id config a b e h found c.
      ground (arith, details_of_lem details id, configuration_format metadata config);
  by_name = λ id a b e h c. ground (
    arith,
    details_of_lem details id,
    named_configuration-format (get_or metadata.credential_configurations_supported []) id,
  );
  otherwise = λ a b c. ground arith;
}
