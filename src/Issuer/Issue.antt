-- ===== src/Issuer/Issue.antt =====
-- issueCredential and issueCredentialImpl (packages/issuer/lib/VcIssuer.ts), without the events that
-- they emit. The `catch` of the method updates the sessions of the correlation as it is when the
-- error is thrown: before the proof has been validated, and after.
pub mod Nonces
pub mod Removal
pub mod Failures
mod Tests
use oid4vc.Prelude.{
  ℕ, ◌+◌, String, Bool, ◌&&◌, ◌||◌, Option, none, some, List, [], ◌∷◌, if◌then◌else◌, pure, gets,
  ◌>>=◌, ◌>>◌, ok, err, text?_truthy, is_some, get_or, or_else, and_then, text?_eq,
}
use oid4vc.StateManager.Memory
use oid4vc.Types.{
  Opaque, IssuerCorrelation, CredentialRequest, JwtVerifyResult, Credential, CredentialOfferSession,
  CNonceState, credential_issued, IssuerError, error, Message, issuer_config_error,
  credential_missing_error, no_credential_or_supplier, data_supplier_mandatory, session_required,
  credential_needed, only_proof_replace,
}
use oid4vc.Store.{IssuerStore, Issuer, on_c_nonces, set_session, write, read}
use oid4vc.Issuer.Config.{
  IssuerConfig, JwtVerifyCallback, CredentialSigner, SignerArgs, CredentialDataSupplier,
  SupplierArgs, SupplierResult,
}
use oid4vc.Issuer.Sessions.{update_session}
use oid4vc.Issuer.Binding.{
  identifiers_error, lookup_credential_format, bind_credential, credential_issuer_of,
}
use oid4vc.Issuer.Proof.{Validated, fail_if, call, on_error}
use oid4vc.Issuer.ProofChecks.{validate_credential_request_proof}

-- The options of the method.
pub record IssueOpts : Type 0 where
  pub credential_request : CredentialRequest
  pub issuer_correlation : IssuerCorrelation
  pub credential : Option Credential
  pub credential_data_supplier : Option CredentialDataSupplier
  pub credential_data_supplier_input : Option Opaque
  pub token_expires_in : Option ℕ
  pub jwt_verify_callback : Option JwtVerifyCallback
  pub credential_signer_callback : Option CredentialSigner

pub record CredentialResponse : Type 0 where
  pub credentials : List Opaque
  pub notification_id : Option String
  pub transaction_id : Option String
  pub credential_subject_issuance : Option String

-- What the method has of the credential before it signs.
pub record Draft : Type 0 where
  pub credential : Option Credential
  pub format : Option String
  pub signer : Option CredentialSigner

module _ (config : IssuerConfig) (is_sd_jwt : Credential → Bool) where
  abbrev pub session_used : IssuerCorrelation → Validated → Option ℕ
  session_used correlation validated =
      if text?_truthy correlation.pre_authorized_code && is_some validated.pre_auth_session
      then validated.pre_auth_session
      else validated.auth_session

  supply :
      IssueOpts
      → (format : Option String) → Validated
      → Option CredentialDataSupplier
      → Option ℕ
      → Issuer Draft
  supply opts format validated none session s = (err (error data_supplier_mandatory), s)
  supply opts format validated (some supplier) none s = (err (error session_required), s)
  supply opts format validated (some supplier) (some r) s =
      (do
        session ← read r
        result ← call (
            supplier (record {
              c_nonce = and_then validated.c_nonce_state (λ c. some c.c_nonce);
              credential_request = opts.credential_request;
              format = format;
              credential_offer = session.credential_offer;
              credential_data_supplier_input =
                  or_else opts.credential_data_supplier_input
                    session.credential_data_supplier_input;
            }))
        pure (record {
          credential = result.credential;
          format = if text?_truthy result.format then result.format else format;
          signer = or_else result.sign_callback opts.credential_signer_callback;
        }))
        s

  draft :
      IssueOpts → (format : Option String) → Validated → Option ℕ → Option Credential → Issuer Draft
  unfolding supply
  draft opts format validated session (some credential) s = (
    ok (record {
      credential = some credential;
      format = format;
      signer = opts.credential_signer_callback;
    }),
    s,
  )
  draft opts format validated session none s =
      supply opts format validated
        (or_else opts.credential_data_supplier config.credential_data_supplier) session s

  needed : Option Credential → Issuer Credential
  needed none s = (err (error credential_needed), s)
  needed (some credential) s = (ok credential, s)

  -- `issuerCallback ? issuerCallback(opts) : this._credentialSignerCallback(opts)`
  sign : Option CredentialSigner → Option CredentialSigner → SignerArgs → Issuer (Option Opaque)
  sign own none args s = (err (error issuer_config_error), s)
  sign none (some configured) args s = call (configured args) s
  sign (some own) (some configured) args s = call (own args) s

  pub issue_credential_impl : SignerArgs → Option CredentialSigner → Issuer (Option Opaque)
  unfolding sign
  issue_credential_impl args signer = sign signer config.credential_signer_callback args

  signed : Option Opaque → Issuer Opaque
  signed none s = (err (error credential_missing_error), s)
  signed (some credential) s = (ok credential, s)

  remove_nonce : Option CNonceState → Issuer (Unit {0})
  remove_nonce none s = (ok tt, s)
  remove_nonce (some c) s = (on_c_nonces (Memory.delete c.c_nonce) >> pure tt) s

  issued : ℕ → CredentialOfferSession → CredentialOfferSession
  issued now c = record c { last_updated_at = now; status = credential_issued }

  mark_issued : Option String → Option ℕ → ℕ → Issuer (Option String)
  unfolding issued
  mark_issued id none now s = (ok none, s)
  mark_issued id (some r) now s =
      (do
        write r (issued now)
        set_session (get_or id "") r
        session ← read r
        pure (some session.notification_id))
        s

  -- The session that the credential is booked on; gives its notification id.
  pub book : IssuerCorrelation → Validated → (now : ℕ) → Issuer (Option String)
  unfolding mark_issued
  book correlation validated now =
      if text?_truthy correlation.pre_authorized_code && is_some validated.pre_auth_session
      then mark_issued correlation.pre_authorized_code validated.pre_auth_session now
      else if text?_truthy correlation.issuer_state && is_some validated.auth_session
      then mark_issued correlation.issuer_state validated.auth_session now
      else pure none

  -- `authSession?.issuerState`
  state_of : Option ℕ → Issuer (Option String)
  state_of none s = (ok none, s)
  state_of (some r) s = (ok (s.heap r).issuer_state, s)

  respond : CredentialRequest → Validated → Opaque → Option String → Issuer CredentialResponse
  unfolding state_of
  respond request validated credential notification_id =
      if text?_truthy request.subject_proof_mode
      then (do
        fail_if (
            if text?_eq request.subject_proof_mode (some "proof_replace")
            then none
            else some only_proof_replace)
        transaction_id ← state_of validated.auth_session
        pure (record {
          credentials = credential ∷ [];
          notification_id = if text?_truthy notification_id then notification_id else none;
          transaction_id = transaction_id;
          credential_subject_issuance = request.subject_proof_mode;
        }))
      else pure (record {
        credentials = credential ∷ [];
        notification_id = if text?_truthy notification_id then notification_id else none;
        transaction_id = none;
        credential_subject_issuance = none;
      })

  -- From the validated proof on.
  pub finish :
      IssueOpts
      → IssuerCorrelation
      → (format : Option String) → Validated
      → (now : ℕ) → Issuer CredentialResponse
  finish opts correlation format validated now = do
    fail_if (
        if is_some opts.credential
          || is_some config.credential_data_supplier
          || is_some opts.credential_data_supplier
        then none
        else some no_credential_or_supplier)
    d ← draft opts format validated (session_used correlation validated) opts.credential
    credential ← needed d.credential
    let bound = bind_credential is_sd_jwt validated.jwt_verify_result credential
    status_lists ←
        gets (λ s. and_then (session_used correlation validated) (λ r. (s.heap r).status_lists))
    result ←
        issue_credential_impl
          (record {
            credential_request = opts.credential_request;
            format = d.format;
            credential = bound;
            jwt_verify_result = validated.jwt_verify_result;
            issuer = credential_issuer_of bound;
            status_lists = status_lists;
          })
          d.signer
    verifiable_credential ← signed result
    remove_nonce validated.c_nonce_state
    notification_id ← book correlation validated now
    respond opts.credential_request validated verifiable_credential notification_id

  -- Up to the validated proof.
  pub prepare : IssueOpts → (clock : ℕ → ℕ) → Issuer Validated
  prepare opts clock = do
    fail_if (
        identifiers_error config.issuer_metadata opts.credential_request
          opts.issuer_correlation.authorization_details)
    validate_credential_request_proof config opts.jwt_verify_callback opts.credential_request
        opts.issuer_correlation
        (lookup_credential_format config.issuer_metadata opts.credential_request
          opts.issuer_correlation.authorization_details)
        (get_or opts.token_expires_in 180) clock

  -- The correlation after the proof has been validated.
  abbrev pub correlated : IssuerCorrelation → Validated → IssuerCorrelation
  correlated correlation validated = record correlation {
    pre_authorized_code =
        if text?_truthy correlation.pre_authorized_code
        then correlation.pre_authorized_code
        else if text?_truthy validated.pre_authorized_code
        then validated.pre_authorized_code
        else correlation.pre_authorized_code;
    issuer_state =
        if text?_truthy correlation.issuer_state
        then correlation.issuer_state
        else if text?_truthy validated.issuer_state
        then validated.issuer_state
        else correlation.issuer_state;
  }

  -- `catch (error) { await this.updateSession(…); throw error }`
  abbrev pub with_update : {A : Type 0} → IssuerCorrelation → (ℕ → ℕ) → Issuer A → Issuer A
  with_update correlation clock m = on_error m (λ x.
      update_session correlation.pre_authorized_code correlation.issuer_state (some x) none clock)

  unfoldable pub issue_credential : IssueOpts → (clock : ℕ → ℕ) → Issuer CredentialResponse
  issue_credential opts clock = do
    validated ← with_update opts.issuer_correlation (λ n. clock (n + 6)) (prepare opts clock)
    with_update (correlated opts.issuer_correlation validated) (λ n. clock (n + 6))
        (finish opts (correlated opts.issuer_correlation validated)
          (lookup_credential_format config.issuer_metadata opts.credential_request
            opts.issuer_correlation.authorization_details)
          validated (clock 5))
