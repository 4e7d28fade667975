-- ===== src/Issuer/Proof/Sound.antt =====
-- What a validated proof has established (validateCredentialRequestProof of
-- packages/issuer/lib/VcIssuer.ts).
use mathlib.Core.Path.{subst}
use oid4vc.Prelude.{
  ℕ, String, ◌≡◌, refl, sym, inl, inr, true, false, ◌||◌, Option, none, some, arith, if◌then◌else◌,
  Bool-cases, Option-cases, ◌>>=◌, >>=-reads, pure-eq-ok, Result, ok, err, map_get, string_eq,
  nat_eq, text_truthy, text?_truthy, is_some,
}
use oid4vc.StateManager.Interface.{memory_get_asserted}
use oid4vc.Types.{
  Message, CredentialRequest, IssuerCorrelation, JwtVerifyResult, CNonceState, IssuerError,
}
use oid4vc.Prelude.{not, ◌&&◌, List, [], ◌∷◌, includes, get_or}
use oid4vc.Store.{IssuerStore, Issuer, ref_at}
use oid4vc.Issuer.Config.{JwtVerifyCallback}
use oid4vc.Issuer.Proof.{
  Seen, read_proof, fail_if, on_error, verify, jwt_or_fail, proof_jwt, nonce_state,
  state_created_at, requested_state, nonce_created_at, format_error, jwt_verify_config_error,
  no_nonce_or_issuer_state, first_jwt,
}

module _ {B : Type 0} where
  pub fail_if-eq-ok :
      (o : Option Message) (f : Unit {0} → Issuer B) (s : IssuerStore) {b : B} {t : IssuerStore}
      → (fail_if o >>= f) s ≡ (ok b, t)
      → (o ≡ none) × (f tt s ≡ (ok b, t))
  fail_if-eq-ok none f s h = (refl, h)
  fail_if-eq-ok (some m) f s h = cc

  pub on_error-eq-ok :
      (m : Issuer B) (handler : IssuerError → Issuer (Unit {0})) (s : IssuerStore) {b : B}
      {t : IssuerStore}
      → on_error m handler s ≡ (ok b, t)
      → m s ≡ (ok b, t)
  on_error-eq-ok m handler s h = ground arith

  -- A part that returned has returned as if nothing caught its errors.
  pub on_error-eq-ok_parts :
      (m : Issuer B) (handler : IssuerError → Issuer (Unit {0})) (s : IssuerStore) (b : B)
      → (on_error m handler s).0 ≡ ok b
      → m s ≡ (ok b, (on_error m handler s).1)
  on_error-eq-ok_parts m handler s b h = ground arith

-- What is known of a nonce state that a proof leads to.
abbrev pub IsNonceOf : IssuerStore → Option String → Option CNonceState → Type 0
IsNonceOf s nonce none = text?_truthy nonce ≡ false
IsNonceOf s nonce (some c) =
    (n : String) × (nonce ≡ some n)
    × (text_truthy n ≡ true)
    × (map_get s.c_nonces.states n ≡ some c)

nonce_state-eq-ok :
    (nonce : Option String) (s : IssuerStore) (c : Option CNonceState)
    → (nonce_state nonce s).0 ≡ ok c
    → IsNonceOf s nonce c × ((nonce_state nonce s).1 ≡ s)
unfolding nonce_state
nonce_state-eq-ok none s c h =
    let same : c ≡ none = cc in (subst (IsNonceOf s none) (sym same) refl, refl)
nonce_state-eq-ok (some n) s c h = elim (Bool-cases (text_truthy n)) [
  | inl truthy ↦ elim (Option-cases (map_get s.c_nonces.states n)) [
    | inl missing ↦ absurd (ground (arith, memory_get_asserted n s.c_nonces truthy))
    | inr (d, found) ↦
        let same : c ≡ some d = ground (arith, memory_get_asserted n s.c_nonces truthy) in
        (
          subst (IsNonceOf s (some n)) (sym same) (n, refl, truthy, found),
          ground (arith, memory_get_asserted n s.c_nonces truthy),
        )
  ]
  | inr empty ↦
      let same : c ≡ none = ground arith in
      (subst (IsNonceOf s (some n)) (sym same) empty, ground arith)
]

-- The creation time that a proof is measured by: that of the session at the issuer state, if there is
-- one, or else that of the nonce state, or else the time of the request.
abbrev pub IsCreatedAt :
    IssuerStore → Option String → Option CNonceState → (now created : ℕ) → Type 0
IsCreatedAt s (some id) c now created =
    (r : ℕ) × (ref_at s id ≡ some r) × (created ≡ (s.heap r).created_at)
IsCreatedAt s none (some c) now created = created ≡ c.created_at
IsCreatedAt s none none now created = created ≡ now

given_state : Option String → Option String
given_state state = if text?_truthy state then state else none

no_state_created :
    (s : IssuerStore) (c : Option CNonceState) (now : ℕ)
    → IsCreatedAt s none c now (nonce_created_at c now)
no_state_created s none now = refl
no_state_created s (some c) now = refl

state_created_at-eq-ok :
    (state : Option String) (c : Option CNonceState) (now : ℕ) (s : IssuerStore) (created : ℕ)
    → (state_created_at state (nonce_created_at c now) s).0 ≡ ok created
    → IsCreatedAt s (given_state state) c now created
      × ((state_created_at state (nonce_created_at c now) s).1 ≡ s)
unfolding state_created_at given_state
state_created_at-eq-ok none c now s created h =
    let same : nonce_created_at c now ≡ created = ground arith in
    (subst (IsCreatedAt s none c now) same (no_state_created s c now), refl)
state_created_at-eq-ok (some id) c now s created h = elim (Bool-cases (text_truthy id)) [
  | inl truthy ↦ elim (Option-cases (ref_at s id)) [
    | inl missing ↦
        absurd (ground (arith, memory_get_asserted id s.credential_offer_sessions truthy))
    | inr (r, found) ↦ (
      rw truthy
          (r, found, ground (arith, memory_get_asserted id s.credential_offer_sessions truthy)),
      ground (arith, memory_get_asserted id s.credential_offer_sessions truthy),
    )
  ]
  | inr empty ↦
      let same : nonce_created_at c now ≡ created = ground arith in
      (rw empty (subst (IsCreatedAt s none c now) same (no_state_created s c now)), ground arith)
]

-- What a callback has verified.
abbrev pub IsVerifiedBy : Option JwtVerifyCallback → String → JwtVerifyResult → Type 0
IsVerifiedBy callback jwt r = (f : JwtVerifyCallback) × (callback ≡ some f) × (f jwt ≡ ok r)

verify-eq-ok :
    (callback : Option JwtVerifyCallback) (jwt : String) (s : IssuerStore) (r : JwtVerifyResult)
    → (verify callback jwt s).0 ≡ ok r
    → IsVerifiedBy callback jwt r × ((verify callback jwt s).1 ≡ s)
unfolding verify
verify-eq-ok none jwt s r h = cc
verify-eq-ok (some f) jwt s r h = ((f, refl, ground arith), ground arith)

jwt_or_fail-eq-ok :
    (r : Result Message String) (s : IssuerStore) (jwt : String)
    → (jwt_or_fail r s).0 ≡ ok jwt
    → (r ≡ ok jwt) × ((jwt_or_fail r s).1 ≡ s)
unfolding jwt_or_fail
jwt_or_fail-eq-ok (ok jwt) s a h = (cc, refl)
jwt_or_fail-eq-ok (err m) s a h = cc

-- The JWT of a request: the first of its list of JWT proofs, or else that of its one proof.
abbrev pub IsJwtOf : Option (List (String × List String)) → Option String → String → Type 0
IsJwtOf none proof jwt = proof ≡ some jwt
IsJwtOf (some proofs) proof jwt = (jwts : List String) × (map_get proofs "jwt" ≡ some (jwt ∷ jwts))

first_jwt-IsJwtOf :
    (proofs : List (String × List String)) (found : Option (List String)) (jwt : String)
    → first_jwt proofs found ≡ ok jwt
    → (jwts : List String) × (found ≡ some (jwt ∷ jwts))
unfolding first_jwt
first_jwt-IsJwtOf proofs none jwt h = ground arith
first_jwt-IsJwtOf proofs (some []) jwt h = ground arith
first_jwt-IsJwtOf proofs (some (j ∷ jwts)) jwt h = (jwts, ground arith)

proof_jwt-IsJwtOf :
    (proofs : Option (List (String × List String))) (proof : Option String) (jwt : String)
    → proof_jwt proofs proof ≡ ok jwt
    → IsJwtOf proofs proof jwt
unfolding proof_jwt
proof_jwt-IsJwtOf (some proofs) proof jwt h = first_jwt-IsJwtOf proofs (map_get proofs "jwt") jwt h
proof_jwt-IsJwtOf none (some j) jwt h = ground arith
proof_jwt-IsJwtOf none none jwt h = ground arith

-- What the method reads from a request in a format that it knows: the issuer state of the request or
-- else of the access token, and the JWT, which the callback in use has verified. The JWT carries a
-- nonce that is known, or there is an issuer state.
pub record IsRead (callback : Option JwtVerifyCallback) (request : CredentialRequest)
    (correlation : IssuerCorrelation) (format : Option String) (now : ℕ) (s : IssuerStore)
    (seen : Seen) : Type 0 where
  pub supported :
      (text?_truthy format
        && not (
            includes
              ("jwt_vc_json" ∷ "jwt_vc_json-ld" ∷ "dc+sd-jwt" ∷ "ldp_vc" ∷ "mso_mdoc" ∷ [])
              (get_or format "")))
      ≡ false
  pub state : seen.issuer_state ≡ (
      if text?_truthy request.issuer_state
      then request.issuer_state
      else if text?_truthy correlation.issuer_state
      then correlation.issuer_state
      else none)
  pub created : IsCreatedAt s seen.issuer_state seen.c_nonce_state now seen.created_at
  pub jwt : String
  pub verifier : JwtVerifyCallback
  pub jwt_of_request : IsJwtOf request.proofs request.proof jwt
  pub in_use : callback ≡ some verifier
  pub verified : verifier jwt ≡ ok seen.result
  pub bound : (text?_truthy seen.result.payload.nonce || text?_truthy seen.issuer_state) ≡ true
  pub nonce_known : IsNonceOf s seen.result.payload.nonce seen.c_nonce_state

pub read_proof-IsRead :
    (callback : Option JwtVerifyCallback) (request : CredentialRequest)
    (correlation : IssuerCorrelation) (format : Option String) (clock : ℕ → ℕ) (s : IssuerStore)
    {seen : Seen} {t : IssuerStore}
    → read_proof callback request correlation format clock s ≡ (ok seen, t)
    → IsRead callback request correlation format (clock 0) s seen × (t ≡ s)
unfolding read_proof format_error given_state
read_proof-IsRead callback request correlation format clock s {seen} {t} h =
    let (supported, h1) = fail_if-eq-ok (format_error format) _ s h in
    let (_, h2) =
      fail_if-eq-ok (if is_some callback then none else some jwt_verify_config_error) _ s h1 in
    let (jwt, of_request, h3) =
      >>=-reads (jwt_or_fail (proof_jwt request.proofs request.proof)) _ _ s (jwt_or_fail-eq-ok _ s)
        h2 in
    let (r, (verifier, in_use, verified), h4) =
      >>=-reads (verify callback jwt) _ _ s (verify-eq-ok callback jwt s) h3 in
    let (bound, h5) =
      fail_if-eq-ok
        (if text?_truthy r.payload.nonce || text?_truthy (requested_state request correlation)
          then none
          else some no_nonce_or_issuer_state)
        _ s h4 in
    let (c, known, h6) =
      >>=-reads (nonce_state r.payload.nonce) _ (IsNonceOf s r.payload.nonce) s
        (nonce_state-eq-ok r.payload.nonce s) h5 in
    let (created_at, created, h7) =
      >>=-reads
        (state_created_at (requested_state request correlation) (nonce_created_at c (clock 0))) _
        (IsCreatedAt s (given_state (requested_state request correlation)) c (clock 0)) s
        (state_created_at-eq-ok (requested_state request correlation) c (clock 0) s) h6 in
    let built : Seen = record {
      result = r;
      c_nonce_state = c;
      created_at = created_at;
      issuer_state =
          if text?_truthy (requested_state request correlation)
          then requested_state request correlation
          else none;
    } in
    let (same, unchanged) = pure-eq-ok {a = built} h7 in
    (
      subst (IsRead callback request correlation format (clock 0) s) same (record {
        supported = ground arith;
        state = ground arith;
        created = created;
        jwt = jwt;
        verifier = verifier;
        jwt_of_request = proof_jwt-IsJwtOf request.proofs request.proof jwt of_request;
        in_use = in_use;
        verified = verified;
        bound = ground arith;
        nonce_known = known;
      }),
      sym unchanged,
    )
