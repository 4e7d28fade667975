-- ===== src/Issuer/Issue/Failures.antt =====
-- What a failed issueCredential of VcIssuer leaves in the session.
use oid4vc.Issuer.Binding.{lookup_credential_format}
use mathlib.Core.Path.{subst}
use oid4vc.Store.{IssuerStore, ref_at, Issuer}
use oid4vc.Types.{IssuerError, Credential, IssuerCorrelation, error_occurred}
use oid4vc.Prelude.{
  ℕ, ◌+◌, String, ◌≡◌, refl, sym, ap, ◌∙◌, inl, inr, Bool, true, Option, none, some, arith,
  >>=-eq-err, err, text_truthy,
}
use oid4vc.Issuer.Config.{IssuerConfig}
use oid4vc.Issuer.Sessions.Notified.{noted, updated_at, ref_if, update_session_lem}
use oid4vc.Issuer.Issue.{
  IssueOpts, issue_credential, with_update, prepare, finish, correlated, IssuerError, Credential,
  IssuerStore, IssuerCorrelation, Issuer, lookup_credential_format,
}

-- The session at a code tells of an error.
pub record HasFailed (x : IssuerError) (r : ℕ) (t : IssuerStore) : Type 0 where
  pub status : (t.heap r).status ≡ error_occurred
  pub error : (t.heap r).error ≡ some x

updated_at-HasFailed :
    (x : IssuerError) (r : ℕ) (o : Option ℕ) (now : ℕ) (t : IssuerStore)
    → HasFailed x r t
    → HasFailed x r (updated_at o (noted (some x) none now) t)
updated_at-HasFailed x r none now t p = p
updated_at-HasFailed x r (some q) now t p = record {
  status = ground (arith, p.status);
  error = ground (arith, p.error);
}

updated_at-fails :
    (x : IssuerError) (r now : ℕ) (t : IssuerStore)
    → HasFailed x r (updated_at (some r) (noted (some x) none now) t)
updated_at-fails x r now t = record { status = ground arith; error = ground arith }

updated_at_refs :
    (x : IssuerError) (o : Option ℕ) (now : ℕ) (id : String) (t : IssuerStore)
    → ref_at (updated_at o (noted (some x) none now) t) id ≡ ref_at t id
updated_at_refs x none now id t = refl
updated_at_refs x (some q) now id t = refl

with_update_fails :
    {A : Type 0} (config : IssuerConfig) (is_sd_jwt : Credential → Bool)
    (correlation : IssuerCorrelation) (clock : ℕ → ℕ) (m : Issuer A) (s : IssuerStore)
    (x : IssuerError) (t : IssuerStore) (code : String) (r : ℕ)
    → (with_update config is_sd_jwt correlation clock m s).0 ≡ err x
    → (with_update config is_sd_jwt correlation clock m s).1 ≡ t
    → correlation.pre_authorized_code ≡ some code
    → text_truthy code ≡ true
    → ref_at t code ≡ some r
    → HasFailed x r t
with_update_fails config is_sd_jwt correlation clock m s x t code r threw left has truthy found =
    let u : IssuerStore = (m s).1 in
    let v : IssuerStore =
      updated_at (ref_if u correlation.pre_authorized_code) (noted (some x) none (clock 0)) u in
    let w : IssuerStore =
      updated_at (ref_if u correlation.issuer_state) (noted (some x) none (clock 1)) v in
    let body : (m s).0 ≡ err x = ground arith in
    let e : t ≡ w = ground (
      arith,
      update_session_lem (some x) none correlation.pre_authorized_code correlation.issuer_state
          clock u,
    ) in
    let there : ref_at u code ≡ some r =
      sym (updated_at_refs x (ref_if u correlation.pre_authorized_code) (clock 0) code u)
      ∙ sym (updated_at_refs x (ref_if u correlation.issuer_state) (clock 1) code v)
      ∙ ap (λ z. ref_at z code) (sym e)
      ∙ found in
    let ref : ref_if u correlation.pre_authorized_code ≡ some r = ground arith in
    subst (HasFailed x r) (sym e) (
      updated_at-HasFailed x r (ref_if u correlation.issuer_state) (clock 1) v (
        subst (λ o. HasFailed x r (updated_at o (noted (some x) none (clock 0)) u)) (sym ref)
          (updated_at-fails x r (clock 0) u)))

-- Where issueCredential throws, whatever it has done before, the session that then stands at the
-- pre-authorized code of the request's correlation has the status and the text of that error.
pub issue_credential-HasFailed :
    (config : IssuerConfig) (is_sd_jwt : Credential → Bool) (opts : IssueOpts) (clock : ℕ → ℕ)
    (s : IssuerStore) (x : IssuerError) (t : IssuerStore) (code : String) (r : ℕ)
    → issue_credential config is_sd_jwt opts clock s ≡ (err x, t)
    → opts.issuer_correlation.pre_authorized_code ≡ some code
    → text_truthy code ≡ true
    → ref_at t code ≡ some r
    → HasFailed x r t
unfolding issue_credential
issue_credential-HasFailed config is_sd_jwt opts clock s x t code r h has truthy found =
    let later : ℕ → ℕ = λ n. clock (n + 6) in
    let first =
      with_update config is_sd_jwt opts.issuer_correlation later
        (prepare config is_sd_jwt opts clock) in
    elim (>>=-eq-err first _ s h) [
      | inl (threw, left) ↦
          with_update_fails config is_sd_jwt opts.issuer_correlation later
            (prepare config is_sd_jwt opts clock) s x t code r threw left has truthy found
      | inr (v, prepared, h1) ↦
          with_update_fails config is_sd_jwt (correlated config is_sd_jwt opts.issuer_correlation v)
            later
            (finish config is_sd_jwt opts (correlated config is_sd_jwt opts.issuer_correlation v)
              (lookup_credential_format config.issuer_metadata opts.credential_request
                opts.issuer_correlation.authorization_details)
              v (clock 5))
            (first s).1 x t code r (ap (λ z. z.0) h1) (ap (λ z. z.1) h1) (ground arith) truthy found
    ]
