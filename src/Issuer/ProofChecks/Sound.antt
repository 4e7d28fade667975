-- ===== src/Issuer/ProofChecks/Sound.antt =====
-- What the second part of validateCredentialRequestProof and the method as a whole establish
-- (packages/issuer/lib/VcIssuer.ts).
use mathlib.Core.Path.{subst}
use oid4vc.Prelude.{
  ℕ, String, ◌≡◌, refl, sym, ap, ◌∙◌, true, ◌||◌, Option, none, some, arith, if◌then◌else◌, passed,
  >>=-eq-ok, >>=-reads, pure-eq-ok, ok, text?_truthy, is_some, or_else, text?_eq_iff,
}
use oid4vc.StateManager.Memory
use oid4vc.Types.{CredentialRequest, IssuerCorrelation, no_session_for_proof}
use oid4vc.Prelude.{and_then}
use oid4vc.Types.{AssertedUniformCredentialOffer}
use oid4vc.Issuer.Sessions.Notified.{ref_if}
use oid4vc.Issuer.ProofChecks.Meant.{
  HasValidHeader, HasValidClaims, header_error-HasValidHeader, claims_error-HasValidClaims,
}
use oid4vc.Store.{IssuerStore, at_ref}
use oid4vc.Issuer.Config.{IssuerConfig, JwtVerifyCallback}
use oid4vc.Issuer.Proof.{Seen, Validated, read_proof, on_error}
use oid4vc.Issuer.Proof.Sound.{
  IsRead, read_proof-IsRead, fail_if-eq-ok, on_error-eq-ok, on_error-eq-ok_parts,
}
use oid4vc.Issuer.ProofChecks.{
  received, has_authorization_code_grant, session_if, mark_pre_auth, mark_auth, check_proof,
  failed_proof, validate_credential_request_proof, header_error, claims_error,
}

session_if-ref_if :
    (id : Option String) (s : IssuerStore) (r : Option ℕ)
    → (session_if id s).0 ≡ ok r
    → (r ≡ ref_if s id) × ((session_if id s).1 ≡ s)
unfolding session_if Memory.get
session_if-ref_if id s r h = (ground arith, ground arith)

-- Marks change neither an offer nor an issuer state.
abbrev HasSameOffers : IssuerStore → IssuerStore → Type 0
HasSameOffers s t =
    (i : ℕ)
    → ((t.heap i).credential_offer ≡ (s.heap i).credential_offer)
      × ((t.heap i).issuer_state ≡ (s.heap i).issuer_state)

mark_pre_auth-HasSameOffers :
    (r : Option ℕ) (code : Option String) (now : ℕ) (s : IssuerStore)
    → HasSameOffers s (mark_pre_auth r code now s).1
unfolding mark_pre_auth Memory.set received
mark_pre_auth-HasSameOffers r code now s i = (ground arith, ground arith)

mark_auth-HasSameOffers :
    (r : Option ℕ) (state : Option String) (now : ℕ) (s : IssuerStore)
    → HasSameOffers s (mark_auth r state now s).1
unfolding mark_auth received
mark_auth-HasSameOffers r state now s i = (ground arith, ground arith)

-- What a mark leaves of the store: the nonces, and of each session its code and issuer state.
mark_pre_auth_nonces :
    (r : Option ℕ) (code : Option String) (now : ℕ) (s : IssuerStore)
    → (mark_pre_auth r code now s).1.c_nonces ≡ s.c_nonces
unfolding mark_pre_auth Memory.set
mark_pre_auth_nonces r code now s = ground arith

mark_auth_nonces :
    (r : Option ℕ) (state : Option String) (now : ℕ) (s : IssuerStore)
    → (mark_auth r state now s).1.c_nonces ≡ s.c_nonces
unfolding mark_auth
mark_auth_nonces r state now s = ground arith

-- A session is marked only under its own code.
abbrev pub IsOwnCode : IssuerStore → Option ℕ → Option String → Type 0
IsOwnCode s none code = Unit
IsOwnCode s (some r) code = ((s.heap r).pre_authorized_code ≡ code) × (text?_truthy code ≡ true)

mark_pre_auth-IsOwnCode :
    (r : Option ℕ) (code : Option String) (now : ℕ) (s : IssuerStore)
    → (mark_pre_auth r code now s).0 ≡ ok tt
    → IsOwnCode s r code
unfolding mark_pre_auth
mark_pre_auth-IsOwnCode none code now s h = tt
mark_pre_auth-IsOwnCode (some r) code now s h =
    ground (arith, text?_eq_iff (s.heap r).pre_authorized_code code)

-- The same for the issuer state.
abbrev pub IsOwnState : IssuerStore → Option ℕ → Option String → Type 0
IsOwnState s none state = Unit
IsOwnState s (some r) state = ((s.heap r).issuer_state ≡ state) × (text?_truthy state ≡ true)

mark_auth-IsOwnState :
    (r : Option ℕ) (state : Option String) (now : ℕ) (s : IssuerStore)
    → (mark_auth r state now s).0 ≡ ok tt
    → IsOwnState s r state
unfolding mark_auth
mark_auth-IsOwnState none state now s h = tt
mark_auth-IsOwnState (some r) state now s h =
    ground (arith, text?_eq_iff (s.heap r).issuer_state state)

own_before :
    (r : Option ℕ) (state : Option String) (s t : IssuerStore)
    → HasSameOffers s t
    → IsOwnState t r state
    → IsOwnState s r state
own_before none state s t same own = tt
own_before (some r) state s t same own = (sym (same r).1 ∙ own.0, own.1)

grant_before :
    (r : Option ℕ) (s t : IssuerStore)
    → HasSameOffers s t
    → has_authorization_code_grant (at_ref t.heap r)
      ≡ has_authorization_code_grant (at_ref s.heap r)
grant_before none s t same = refl
grant_before (some r) s t same =
    ap
      (λ (o : AssertedUniformCredentialOffer).
        is_some (and_then o.credential_offer.grants (λ g. g.authorization_code)))
      (same r).0

pub record IsChecked (config : IssuerConfig) (correlation : IssuerCorrelation)
    (token_expires_in : ℕ) (s : IssuerStore) (seen : Seen) (v : Validated) : Type 0 where
  pub header : HasValidHeader seen.result
  pub claims :
      HasValidClaims config.issuer_metadata.credential_issuer token_expires_in seen.created_at
        (at_ref s.heap v.auth_session)
        seen.result.payload
  pub pre_auth_session : v.pre_auth_session ≡ ref_if s correlation.pre_authorized_code
  pub auth_session : v.auth_session ≡ ref_if s seen.issuer_state
  pub some_session : (is_some v.pre_auth_session || is_some v.auth_session) ≡ true
  pub own_code : IsOwnCode s v.pre_auth_session correlation.pre_authorized_code
  pub own_state : IsOwnState s v.auth_session seen.issuer_state
  pub code_same : v.pre_authorized_code ≡ correlation.pre_authorized_code
  pub state_same : v.issuer_state ≡ seen.issuer_state
  pub result_same : v.jwt_verify_result ≡ seen.result
  pub nonce_same : v.c_nonce_state ≡ seen.c_nonce_state

pub check_proof-IsChecked :
    (config : IssuerConfig) (correlation : IssuerCorrelation) (token_expires_in : ℕ) (clock : ℕ → ℕ)
    (seen : Seen) (s : IssuerStore) {v : Validated} {t : IssuerStore}
    → check_proof config correlation token_expires_in clock seen s ≡ (ok v, t)
    → IsChecked config correlation token_expires_in s seen v × (t.c_nonces ≡ s.c_nonces)
unfolding check_proof
check_proof-IsChecked config correlation token_expires_in clock seen s {v} {t} h =
    let (header, h1) = fail_if-eq-ok (header_error seen.result) _ s h in
    let (pre, pre_found, h2) =
      >>=-reads (session_if correlation.pre_authorized_code) _
        (λ (x : Option ℕ). x ≡ ref_if s correlation.pre_authorized_code) s
        (session_if-ref_if correlation.pre_authorized_code s) h1 in
    let (auth, auth_found, h3) =
      >>=-reads (session_if seen.issuer_state) _ (λ (x : Option ℕ). x ≡ ref_if s seen.issuer_state)
        s (session_if-ref_if seen.issuer_state s) h2 in
    let (there, h4) =
      fail_if-eq-ok (if is_some pre || is_some auth then none else some no_session_for_proof) _ s
        h3 in
    let (_, marked, h5) =
      >>=-eq-ok (mark_pre_auth pre correlation.pre_authorized_code (clock 1)) _ s h4 in
    let u : IssuerStore = (mark_pre_auth pre correlation.pre_authorized_code (clock 1) s).1 in
    let (_, auth_marked, h6) = >>=-eq-ok (mark_auth auth seen.issuer_state (clock 2)) _ u h5 in
    let w : IssuerStore = (mark_auth auth seen.issuer_state (clock 2) u).1 in
    let (claims, h7) =
      fail_if-eq-ok
        (claims_error config.issuer_metadata.credential_issuer token_expires_in seen
          (at_ref w.heap auth))
        _ w h6 in
    let before : HasSameOffers s u =
      mark_pre_auth-HasSameOffers pre correlation.pre_authorized_code (clock 1) s in
    let after : HasSameOffers u w = mark_auth-HasSameOffers auth seen.issuer_state (clock 2) u in
    let built : Validated = record {
      jwt_verify_result = seen.result;
      pre_authorized_code = correlation.pre_authorized_code;
      pre_auth_session = pre;
      issuer_state = seen.issuer_state;
      auth_session = auth;
      c_nonce_state = seen.c_nonce_state;
    } in
    let (same, last) = pure-eq-ok {a = built} {s = w} h7 in
    (
      subst (IsChecked config correlation token_expires_in s seen) same (record {
        header = header_error-HasValidHeader seen.result header;
        claims =
            claims_error-HasValidClaims config.issuer_metadata.credential_issuer token_expires_in
              seen (at_ref w.heap auth) (at_ref s.heap auth)
              (grant_before auth u w after ∙ grant_before auth s u before) claims;
        pre_auth_session = pre_found;
        auth_session = auth_found;
        own_state =
            own_before auth seen.issuer_state s u before
              (mark_auth-IsOwnState auth seen.issuer_state (clock 2) u auth_marked);
        code_same = refl;
        state_same = refl;
        some_session = passed (is_some pre || is_some auth) no_session_for_proof there;
        own_code = mark_pre_auth-IsOwnCode pre correlation.pre_authorized_code (clock 1) s marked;
        result_same = refl;
        nonce_same = refl;
      }),
      sym (ap (λ (x : IssuerStore). x.c_nonces) last)
          ∙ mark_auth_nonces auth seen.issuer_state (clock 2) u
          ∙ mark_pre_auth_nonces pre correlation.pre_authorized_code (clock 1) s,
    )

-- A proof that the method has accepted, with the store as it was before.
pub record IsProven (config : IssuerConfig) (callback : Option JwtVerifyCallback)
    (request : CredentialRequest) (correlation : IssuerCorrelation) (format : Option String)
    (token_expires_in now : ℕ) (s : IssuerStore) (v : Validated) : Type 0 where
  pub seen : Seen
  pub read :
      IsRead (or_else callback config.jwt_verify_callback) request correlation format now s seen
  pub checked : IsChecked config correlation token_expires_in s seen v

pub validate-IsProven :
    (config : IssuerConfig) (callback : Option JwtVerifyCallback) (request : CredentialRequest)
    (correlation : IssuerCorrelation) (format : Option String) (token_expires_in : ℕ)
    (clock : ℕ → ℕ) (s : IssuerStore) {v : Validated} {t : IssuerStore}
    → validate_credential_request_proof config callback request correlation format token_expires_in
        clock s
      ≡ (ok v, t)
    → IsProven config callback request correlation format token_expires_in (clock 0) s v
      × (t.c_nonces ≡ s.c_nonces)
unfolding validate_credential_request_proof
validate-IsProven config callback request correlation format token_expires_in clock s h =
    let reading =
      read_proof (or_else callback config.jwt_verify_callback) request correlation format clock in
    let handler = failed_proof correlation.pre_authorized_code none clock in
    let (seen, read, h1) =
      >>=-reads (on_error reading handler) _
        (IsRead (or_else callback config.jwt_verify_callback) request correlation format (clock 0)
          s)
        s
        (λ q e.
          read_proof-IsRead (or_else callback config.jwt_verify_callback) request correlation format
            clock s (on_error-eq-ok_parts reading handler s q e))
        h in
    let (checked, nonces) = check_proof-IsChecked config correlation token_expires_in clock seen s (
      on_error-eq-ok (check_proof config correlation token_expires_in clock seen)
        (failed_proof correlation.pre_authorized_code seen.issuer_state clock) s h1) in
    (record { seen = seen; read = read; checked = checked }, nonces)
