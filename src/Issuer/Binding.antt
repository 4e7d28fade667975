-- ===== src/Issuer/Binding.antt =====
-- The pure parts of issueCredential (packages/issuer/lib/VcIssuer.ts): lookupCredentialFormat, the
-- tests of a request's identifiers, and the binding of a credential to the key or DID of the proof.
use oid4vc.Prelude.{
  String, Bool, not, ◌&&◌, ◌||◌, Option, none, some, List, [], ◌∷◌, ◌++◌, map, if◌then◌else◌, find,
  includes, map_get, string_eq, nat_eq, text_truthy, text?_truthy, is_some, get_or, and_then,
  text?_eq,
}
use oid4vc.Types.{
  Opaque, CredentialRequest, AuthorizationDetails, detail_text, detail_object, JwtVerifyResult,
  Credential, CredentialSubject, CredentialSubjects, one_subject, subjects, Confirmation,
  kid_confirmation, jwk_confirmation, issuer_text, issuer_object, Message, no_request_identifier,
  invalid_request_text, identifier_not_in_details,
}
use oid4vc.Issuer.Config.{IssuerMetadata, CredentialConfiguration}

abbrev pub configuration : IssuerMetadata → Option String → Option CredentialConfiguration
configuration metadata id =
    and_then metadata.credential_configurations_supported (λ m. map_get m (get_or id ""))

abbrev pub identifiers_of : AuthorizationDetails → List String
identifiers_of (detail_text t) = []
identifiers_of (detail_object d) = get_or d.credential_identifiers []

-- `authorizationDetails.flatMap(detail => detail.credential_identifiers || [])`
abbrev pub all_identifiers : List AuthorizationDetails → List String
all_identifiers [] = []
all_identifiers (d ∷ ds) = identifiers_of d ++ all_identifiers ds

unfoldable pub identifiers_error :
    IssuerMetadata → CredentialRequest → Option (List AuthorizationDetails) → Option Message
identifiers_error metadata request details =
    if not (is_some request.credential_identifier)
      && not (is_some request.credential_configuration_id)
    then some no_request_identifier
    else if text?_truthy request.credential_configuration_id
        && not (is_some (configuration metadata request.credential_configuration_id))
    then some invalid_request_text
    else if text?_truthy request.credential_identifier
        && is_some details
        && not (
            includes (all_identifiers (get_or details []))
              (get_or request.credential_identifier ""))
    then some identifier_not_in_details
    else none

-- `authorizationDetails.find(detail => detail.credential_identifiers?.includes(id))`
abbrev pub details_of : List AuthorizationDetails → String → Option AuthorizationDetails
details_of details id = find (λ d. includes (identifiers_of d) id) details

abbrev pub configuration_id : Option AuthorizationDetails → Option String
configuration_id none = none
configuration_id (some (detail_text t)) = none
configuration_id (some (detail_object d)) = d.credential_configuration_id

abbrev pub names : CredentialConfiguration → String → Bool
names config id = text?_eq config.id (some id) || text?_eq config.vct (some id)

-- `Object.values(…).find(config => id === config.id || id === config.vct)`
unfoldable pub named_configuration :
    List (String × CredentialConfiguration) → String → Option CredentialConfiguration
named_configuration [] id = none
named_configuration ((k, config) ∷ rest) id =
    if names config id then some config else named_configuration rest id

abbrev pub format_of : Option CredentialConfiguration → Option String
format_of none = none
format_of (some config) = some config.format

unfoldable pub lookup_credential_format :
    IssuerMetadata → CredentialRequest → Option (List AuthorizationDetails) → Option String
unfolding named_configuration
lookup_credential_format metadata request details =
    if text?_truthy request.format
    then request.format
    else if text?_truthy request.credential_configuration_id
    then format_of (configuration metadata request.credential_configuration_id)
    else if text?_truthy request.credential_identifier
    then (let detail = details_of (get_or details []) (get_or request.credential_identifier "") in
        if text?_truthy (configuration_id detail)
        then format_of (configuration metadata (configuration_id detail))
        else format_of (
            named_configuration (get_or metadata.credential_configurations_supported [])
              (get_or request.credential_identifier "")))
    else none

abbrev pub with_id : String → CredentialSubject → CredentialSubject
with_id did subject = if text?_truthy subject.id then subject else record subject { id = some did }

abbrev pub with_ids : String → CredentialSubjects → CredentialSubjects
with_ids did (one_subject subject) = one_subject (with_id did subject)
with_ids did (subjects l) = subjects (map (with_id did) l)

-- The confirmation: the key, if there is one, takes the place of the key id.
abbrev pub confirmation : Option String → Option Opaque → Option Confirmation
confirmation kid (some jwk) = some (jwk_confirmation jwk)
confirmation kid none = if text?_truthy kid then some (kid_confirmation (get_or kid "")) else none

-- `is_sd_jwt` is CredentialMapper.isSdJwtDecodedCredentialPayload of @sphereon/ssi-types.
unfoldable pub bind_credential :
    (is_sd_jwt : Credential → Bool) → JwtVerifyResult → Credential → Credential
bind_credential is_sd_jwt r credential =
    if is_sd_jwt credential && (text?_truthy r.kid || is_some r.jwk) && not (is_some credential.cnf)
    then record credential { cnf = confirmation r.kid r.jwk }
    else if text?_truthy r.did
        && not (is_sd_jwt credential)
        && is_some credential.credential_subject
    then record credential {
      credential_subject =
          and_then credential.credential_subject
            (λ subject. some (with_ids (get_or r.did "") subject));
    }
    else credential

-- The issuer that a credential names.
unfoldable pub credential_issuer_of : Credential → Option String
credential_issuer_of credential =
    if text?_truthy credential.iss
    then credential.iss
    else and_then credential.issuer (λ i. elim i [
      | issuer_text t ↦ if text_truthy t then some t else none
      | issuer_object id ↦ id
    ])
