-- ===== src/Issuer/Issue/Removal.antt =====
-- What the second half of issueCredential (packages/issuer/lib/VcIssuer.ts) does with the nonces.
use mathlib.Core.Path.{subst}
use oid4vc.Prelude.{
  ℕ, String, ◌≡◌, refl, sym, ap, ◌∙◌, Bool, ◌||◌, Option, none, some, arith, if◌then◌else◌,
  >>=-eq-ok, >>=-reads, ok, map_get, HasUniqueKeys, map_get-map_delete, string_eq, nat_eq, ==_refl,
  is_some, or_else, and_then,
}
use oid4vc.StateManager.Memory
use oid4vc.Types.{CredentialRequest, IssuerCorrelation, Credential, CNonceState, Opaque}
use oid4vc.Store.{IssuerStore}
use oid4vc.Issuer.Config.{IssuerConfig, CredentialSigner, SignerArgs, CredentialDataSupplier}
use oid4vc.Issuer.Binding.{bind_credential, credential_issuer_of}
use oid4vc.Issuer.Proof.{Validated}
use oid4vc.Issuer.Proof.Sound.{fail_if-eq-ok}
use oid4vc.Issuer.Issue.{
  IssueOpts, CredentialResponse, draft, supply, needed, sign, issue_credential_impl, signed,
  remove_nonce, book, mark_issued, respond, finish, session_used, no_credential_or_supplier,
}

module _ (config : IssuerConfig) (is_sd_jwt : Credential → Bool) where
  supply_same :
      (opts : IssueOpts) (format : Option String) (v : Validated)
      (supplier : Option CredentialDataSupplier) (session : Option ℕ) (s : IssuerStore)
      → (supply config is_sd_jwt opts format v supplier session s).1 ≡ s
  unfolding supply
  supply_same opts format v none session s = refl
  supply_same opts format v (some supplier) none s = refl
  supply_same opts format v (some supplier) (some r) s = ground arith

  draft_same :
      (opts : IssueOpts) (format : Option String) (v : Validated) (session : Option ℕ)
      (credential : Option Credential) (s : IssuerStore)
      → (draft config is_sd_jwt opts format v session credential s).1 ≡ s
  unfolding draft
  draft_same opts format v session none s =
      supply_same opts format v
        (or_else opts.credential_data_supplier config.credential_data_supplier) session s
  draft_same opts format v session (some credential) s = refl

  needed_same :
      (credential : Option Credential) (s : IssuerStore)
      → (needed config is_sd_jwt credential s).1 ≡ s
  unfolding needed
  needed_same none s = refl
  needed_same (some credential) s = refl

  sign_same :
      (args : SignerArgs) (signer : Option CredentialSigner) (s : IssuerStore)
      → (issue_credential_impl config is_sd_jwt args signer s).1 ≡ s
  unfolding issue_credential_impl sign
  sign_same args signer s = ground arith

  signed_same :
      (credential : Option Opaque) (s : IssuerStore) → (signed config is_sd_jwt credential s).1 ≡ s
  unfolding signed
  signed_same none s = refl
  signed_same (some credential) s = refl

  book_nonces :
      (correlation : IssuerCorrelation) (v : Validated) (now : ℕ) (s : IssuerStore)
      → (book config is_sd_jwt correlation v now s).1.c_nonces ≡ s.c_nonces
  unfolding book mark_issued Memory.set
  book_nonces correlation v now s = ground arith

  respond_same :
      (request : CredentialRequest) (v : Validated) (credential : Opaque) (id : Option String)
      (s : IssuerStore)
      → (respond config is_sd_jwt request v credential id s).1 ≡ s
  unfolding respond
  respond_same request v credential id s = ground arith

  -- After a removal that returned no state stands under the nonce.
  remove_nonce_gone :
      (o : Option CNonceState) (c : CNonceState) (s : IssuerStore) (done : Unit {0})
      → HasUniqueKeys s.c_nonces.states
      → o ≡ some c
      → (remove_nonce config is_sd_jwt o s).0 ≡ ok done
      → map_get (remove_nonce config is_sd_jwt o s).1.c_nonces.states c.c_nonce ≡ none
  unfolding remove_nonce Memory.delete
  remove_nonce_gone none c s done unique e h = cc
  remove_nonce_gone (some d) c s done unique e h =
      let same : d ≡ c = cc in
      subst
        (λ (x : CNonceState).
          map_get (remove_nonce config is_sd_jwt (some d) s).1.c_nonces.states x.c_nonce ≡ none)
        same
        (ground (
          arith,
          map_get-map_delete s.c_nonces.states d.c_nonce d.c_nonce unique,
          ==_refl d.c_nonce,
        ))

  pub finish_nonce_gone :
      (opts : IssueOpts) (correlation : IssuerCorrelation) (format : Option String) (v : Validated)
      (now : ℕ) (s : IssuerStore) (c : CNonceState) {response : CredentialResponse}
      {t : IssuerStore}
      → HasUniqueKeys s.c_nonces.states
      → v.c_nonce_state ≡ some c
      → finish config is_sd_jwt opts correlation format v now s ≡ (ok response, t)
      → map_get t.c_nonces.states c.c_nonce ≡ none
  unfolding finish
  finish_nonce_gone opts correlation format v now s c {t} unique has_nonce h =
      let session = session_used config is_sd_jwt correlation v in
      let (_, h1) =
        fail_if-eq-ok
          (if is_some opts.credential
              || is_some config.credential_data_supplier
              || is_some opts.credential_data_supplier
            then none
            else some no_credential_or_supplier)
          _ s h in
      let (d, _, h2) =
        >>=-reads (draft config is_sd_jwt opts format v session opts.credential) _ (λ _. Unit {0}) s
          (λ _ _. (tt, draft_same opts format v session opts.credential s)) h1 in
      let (credential, _, h3) =
        >>=-reads (needed config is_sd_jwt d.credential) _ (λ _. Unit {0}) s
          (λ _ _. (tt, needed_same d.credential s)) h2 in
      let bound = bind_credential is_sd_jwt v.jwt_verify_result credential in
      let args : SignerArgs = record {
        credential_request = opts.credential_request;
        format = d.format;
        credential = bound;
        jwt_verify_result = v.jwt_verify_result;
        issuer = credential_issuer_of bound;
        status_lists = and_then session (λ r. (s.heap r).status_lists);
      } in
      let (result, _, h4) =
        >>=-reads (issue_credential_impl config is_sd_jwt args d.signer) _ (λ _. Unit {0}) s
          (λ _ _. (tt, sign_same args d.signer s)) h3 in
      let (verifiable, _, h5) =
        >>=-reads (signed config is_sd_jwt result) _ (λ _. Unit {0}) s
          (λ _ _. (tt, signed_same result s)) h4 in
      let (done, removed, h6) = >>=-eq-ok (remove_nonce config is_sd_jwt v.c_nonce_state) _ s h5 in
      let u : IssuerStore = (remove_nonce config is_sd_jwt v.c_nonce_state s).1 in
      let (notification_id, _, h7) = >>=-eq-ok (book config is_sd_jwt correlation v now) _ u h6 in
      let w : IssuerStore = (book config is_sd_jwt correlation v now u).1 in
      let gone : map_get u.c_nonces.states c.c_nonce ≡ none =
        remove_nonce_gone v.c_nonce_state c s done unique has_nonce removed in
      let last : w ≡ t =
        sym (respond_same opts.credential_request v verifiable notification_id w)
        ∙ ap (λ x. x.1) h7 in
      rw (← last) (rw (book_nonces correlation v now u) gone)
