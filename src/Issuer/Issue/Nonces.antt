-- ===== src/Issuer/Issue/Nonces.antt =====
-- What an issued credential presupposes, and what becomes of its nonce (issueCredential of
-- packages/issuer/lib/VcIssuer.ts).
use oid4vc.Issuer.ProofChecks.Format.{IsFormatOf, lookup_credential_format-IsFormatOf}
use oid4vc.Issuer.ProofChecks.Meant.{IsIdentified, identifiers_error-IsIdentified}
use mathlib.Core.Path.{subst}
use oid4vc.Prelude.{
  ℕ, ◌+◌, String, ◌≡◌, refl, sym, ◌∙◌, ◌≢◌, Bool, true, Option, none, some, arith, >>=-eq-ok, ok,
  map_get, HasUniqueKeys, string_eq, nat_eq, text_truthy, get_or,
}
use oid4vc.Types.{IssuerCorrelation, Credential, CNonceState, JwtVerifyResult}
use oid4vc.Store.{IssuerStore, Issuer}
use oid4vc.Issuer.Config.{IssuerConfig}
use oid4vc.Issuer.Binding.{identifiers_error, lookup_credential_format}
use oid4vc.Issuer.Proof.{Validated}
use oid4vc.Issuer.Proof.Sound.{IsNonceOf, fail_if-eq-ok, on_error-eq-ok, on_error-eq-ok_parts}
use oid4vc.Issuer.ProofChecks.Sound.{IsProven, validate-IsProven}
use oid4vc.Issuer.Issue.{
  IssueOpts, CredentialResponse, finish, prepare, correlated, with_update, issue_credential,
  update_session, IssuerError,
}
use oid4vc.Issuer.Issue.Removal.{finish_nonce_gone}

-- Every nonce state stands under its own nonce, as the nonce endpoint puts it, and once.
pub record AreNoncesKeyed (s : IssuerStore) : Type 0 where
  pub unique : HasUniqueKeys s.c_nonces.states
  pub keyed : (n : String) (c : CNonceState) → map_get s.c_nonces.states n ≡ some c → c.c_nonce ≡ n

module _ (config : IssuerConfig) (is_sd_jwt : Credential → Bool) where
  prepare-eq-ok :
      (opts : IssueOpts) (clock : ℕ → ℕ) (s : IssuerStore) {v : Validated} {t : IssuerStore}
      → prepare config is_sd_jwt opts clock s ≡ (ok v, t)
      → IsIdentified config.issuer_metadata opts.credential_request
          opts.issuer_correlation.authorization_details
        × IsProven config opts.jwt_verify_callback opts.credential_request opts.issuer_correlation
            (lookup_credential_format config.issuer_metadata opts.credential_request
              opts.issuer_correlation.authorization_details)
            (get_or opts.token_expires_in 180)
            (clock 0)
            s
            v
        × (t.c_nonces ≡ s.c_nonces)
  unfolding prepare
  prepare-eq-ok opts clock s h =
      let (identified, h1) =
        fail_if-eq-ok
          (identifiers_error config.issuer_metadata opts.credential_request
            opts.issuer_correlation.authorization_details)
          _ s h in
      let (proven, nonces) =
        validate-IsProven config opts.jwt_verify_callback opts.credential_request
          opts.issuer_correlation
          (lookup_credential_format config.issuer_metadata opts.credential_request
            opts.issuer_correlation.authorization_details)
          (get_or opts.token_expires_in 180) clock s h1 in
      (
        identifiers_error-IsIdentified config.issuer_metadata opts.credential_request
            opts.issuer_correlation.authorization_details identified,
        proven,
        nonces,
      )

  some-≢-none : (c : CNonceState) → some c ≢ none
  some-≢-none c h = cc

  -- A nonce that is known is the one that its state stands under.
  nonce_of :
      (s : IssuerStore) (n : String) (o : Option CNonceState)
      → AreNoncesKeyed s
      → text_truthy n ≡ true
      → IsNonceOf s (some n) o
      → (c : CNonceState) × (o ≡ some c) × (map_get s.c_nonces.states n ≡ some c) × (c.c_nonce ≡ n)
  nonce_of s n none keyed truthy h = absurd (ground arith)
  nonce_of s n (some c) keyed truthy (m, e, _, found) =
      let same : n ≡ m = cc in
      let there : map_get s.c_nonces.states n ≡ some c =
        subst (λ x. map_get s.c_nonces.states x ≡ some c) (sym same) found in
      (c, refl, there, keyed.keyed n c there)

  -- A credential is issued, in a store whose nonces are keyed, only for a request that passes these
  -- tests. It names a configuration, which is the issuer's if the name is not empty, or a credential,
  -- which then is one of the authorization details, if there are any. Its format, by the request or
  -- else by the configuration found for it, is a supported one or is missing. The verify callback in
  -- use, that of the call before the configured one, accepted its JWT. The JWT has the type of a proof
  -- and an algorithm, and its key id, key, certificate chain and DID go together. Its audience is the
  -- issuer alone. Its time of issuance is not 0 and at most the rounded creation time and the lifetime
  -- of tokens, 180 seconds by default. It names its issuer if the session at the issuer state has a
  -- grant of the authorization code flow. The creation time is that of the session at the issuer
  -- state, or else that of the nonce, or else the time of the call. A session stands at the code or at
  -- the issuer state, and each that does has that code or that state as its own. If the JWT carries a
  -- nonce that is not empty, a nonce state stood under it before the call, and after it none does;
  -- without a nonce there is an issuer state.
  pub issue_credential-IsProven :
      (opts : IssueOpts) (clock : ℕ → ℕ) (s : IssuerStore) (response : CredentialResponse)
      (t : IssuerStore)
      → AreNoncesKeyed s
      → issue_credential config is_sd_jwt opts clock s ≡ (ok response, t)
      → (v : Validated) × (format : Option String) × IsIdentified config.issuer_metadata
          opts.credential_request opts.issuer_correlation.authorization_details
        × IsFormatOf config.issuer_metadata opts.credential_request
            opts.issuer_correlation.authorization_details format
        × IsProven config opts.jwt_verify_callback opts.credential_request opts.issuer_correlation
            format
            (get_or opts.token_expires_in 180)
            (clock 0)
            s
            v
        × ((n : String)
            → v.jwt_verify_result.payload.nonce ≡ some n
            → text_truthy n ≡ true
            → (map_get s.c_nonces.states n ≢ none) × (map_get t.c_nonces.states n ≡ none))
  unfolding issue_credential
  issue_credential-IsProven opts clock s response t keyed h =
      let later : ℕ → ℕ = λ n. clock (n + 6) in
      let start = prepare config is_sd_jwt opts clock in
      let handler : IssuerError → Issuer (Unit {0}) = λ x.
        update_session opts.issuer_correlation.pre_authorized_code
          opts.issuer_correlation.issuer_state (some x) none later in
      let (v, prepared, h1) =
        >>=-eq-ok (with_update config is_sd_jwt opts.issuer_correlation later start) _ s h in
      let u : IssuerStore =
        (with_update config is_sd_jwt opts.issuer_correlation later start s).1 in
      let (identified, proven, nonces) =
        prepare-eq-ok opts clock s (on_error-eq-ok_parts start handler s v prepared) in
      let bound : IssuerCorrelation = correlated config is_sd_jwt opts.issuer_correlation v in
      let finished =
        on_error-eq-ok
          (finish config is_sd_jwt opts bound
            (lookup_credential_format config.issuer_metadata opts.credential_request
              opts.issuer_correlation.authorization_details)
            v (clock 5))
          (λ x. update_session bound.pre_authorized_code bound.issuer_state (some x) none later) u
          h1 in
      (
        v,
        lookup_credential_format config.issuer_metadata opts.credential_request
            opts.issuer_correlation.authorization_details,
        identified,
        lookup_credential_format-IsFormatOf config.issuer_metadata opts.credential_request
            opts.issuer_correlation.authorization_details,
        proven,
        λ n carried truthy.
            let known : IsNonceOf s (some n) v.c_nonce_state =
              subst (λ x. IsNonceOf s x v.c_nonce_state) carried
                (subst (λ x. IsNonceOf s v.jwt_verify_result.payload.nonce x)
                  (sym proven.checked.nonce_same)
                  (subst
                    (λ (x : JwtVerifyResult). IsNonceOf s x.payload.nonce proven.seen.c_nonce_state)
                    (sym proven.checked.result_same) proven.read.nonce_known)) in
            let (c, has, there, own) = nonce_of s n v.c_nonce_state keyed truthy known in
            let gone =
              finish_nonce_gone config is_sd_jwt opts _ _ v (clock 5) u c
                (subst (λ x. HasUniqueKeys x.states) (sym nonces) keyed.unique) has finished in
            (
              λ e. absurd (some-≢-none c (sym there ∙ e)),
              subst (λ x. map_get t.c_nonces.states x ≡ none) own gone,
            ),
      )
