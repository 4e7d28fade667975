-- ===== src/Dpop/Proven.antt =====
-- When verifyDPoP (packages/common/lib/dpop/DPoP.ts) returns a key.
use oid4vc.Prelude.{
  ℕ, ◌+◌, ◌≤◌, String, ◌≡◌, refl, ◌↔◌, ◌⊎◌, inl, inr, true, false, ◌&&◌, Option, none, some, List,
  [], ◌∷◌, arith, nat_beq_iff, Bool-cases, Option-cases, Result-cases, Result, ok, text_truthy,
  text?_truthy, nat?_truthy, get_or, codes, text?_eq_iff,
}
use oid4vc.Dpop.{
  Jwk, DpopHeader, DpopPayload, DpopError, DpopRequest, DpopVerifyOptions, same_codes, header_error,
  claims_error, is_accepted, nonce_error, nonce_error_again, signature_error, htm_error,
  current_uri, htu_error, now_of, tolerance, iat_error, dpop_error, verify_dpop, key_or_error,
}
use oid4vc.Dpop.Bound.{IsBound, IsBound-iff, or_else-none, first_if-none}

same_codes_iff : (cs ds : List ℕ) → (same_codes cs ds ≡ true) ↔ (cs ≡ ds)
unfolding same_codes
same_codes_iff [] [] = (λ h. refl, λ h. refl)
same_codes_iff [] (d ∷ ds) = (λ h. absurd (ground arith), λ h. absurd (ground arith))
same_codes_iff (c ∷ cs) [] = (λ h. absurd (ground arith), λ h. absurd (ground arith))
same_codes_iff (c ∷ cs) (d ∷ ds) = (
  λ h. ground (arith, nat_beq_iff c d, same_codes_iff cs ds),
  λ h. ground (arith, nat_beq_iff c d, same_codes_iff cs ds),
)

module _ (hash : List ℕ → String) (thumbprint : Jwk → String)
    (decode_jkt : List ℕ → Result DpopError (Option String)) where
  pub record IsProof (r : DpopRequest) (o : DpopVerifyOptions) (clock : ℕ) (raw : String)
      (h : DpopHeader) (p : DpopPayload) (jwk : Jwk) : Type 0 where
    pub key : h.jwk ≡ some jwk
    pub public_key : text?_truthy jwk.d ≡ false
    pub typ : h.typ ≡ some "dpop+jwt"
    pub alg_given : text?_truthy h.alg ≡ true
    pub alg_accepted : is_accepted o.accepted_algorithms h.alg ≡ true
    pub claims_given :
        (text?_truthy p.htm && text?_truthy p.htu && nat?_truthy p.iat && text?_truthy p.jti) ≡ true
    pub nonce : p.nonce ≡ o.expected_nonce
    pub signature : o.jwt_verify_callback jwk (get_or h.alg "") raw ≡ ok true
    pub method : p.htm ≡ some r.method
    pub uri : codes (get_or p.htu "") ≡ current_uri r
    pub not_old : now_of o clock ≤ get_or p.iat 0 + tolerance o
    pub not_early : get_or p.iat 0 ≤ now_of o clock + tolerance o
    pub bound :
        ((o.expect_access_token ≡ true) × IsBound hash thumbprint decode_jkt r jwk p)
        ⊎ ((o.expect_access_token ≡ false) × (text?_truthy r.authorization ≡ false))

  module _ (r : DpopRequest) (o : DpopVerifyOptions) (clock : ℕ) (raw : String) (h : DpopHeader)
      (p : DpopPayload) (jwk : Jwk) (key : h.jwk ≡ some jwk) where
    header_iff :
        (header_error h ≡ none)
        ↔ ((h.typ ≡ some "dpop+jwt") × (text?_truthy h.alg ≡ true) × (text?_truthy jwk.d ≡ false))
    unfolding header_error
    header_iff = (
      λ e. (ground (arith, text?_eq_iff h.typ (some "dpop+jwt")), ground arith, ground arith),
      λ (typ, alg, public). ground (arith, text?_eq_iff h.typ (some "dpop+jwt")),
    )

    claims_iff : (claims_error p ≡ none) ↔ (
        (text?_truthy p.htm && text?_truthy p.htu && nat?_truthy p.iat && text?_truthy p.jti)
        ≡ true)
    unfolding claims_error
    claims_iff = first_if-none _ DpopError.missing_claims

    nonce_iff :
        ((nonce_error o p ≡ none) × (nonce_error_again o p ≡ none)) ↔ (p.nonce ≡ o.expected_nonce)
    unfolding nonce_error nonce_error_again
    nonce_iff = (
      λ e. ground (arith, text?_eq_iff p.nonce o.expected_nonce),
      λ e. (
        ground (arith, text?_eq_iff p.nonce o.expected_nonce),
        ground (arith, text?_eq_iff p.nonce o.expected_nonce),
      ),
    )

    htm_iff : (htm_error r p ≡ none) ↔ (p.htm ≡ some r.method)
    unfolding htm_error
    htm_iff = (
      λ e. ground (arith, text?_eq_iff p.htm (some r.method)),
      λ e. ground (arith, text?_eq_iff p.htm (some r.method)),
    )

    htu_iff : (htu_error r p ≡ none) ↔ (codes (get_or p.htu "") ≡ current_uri r)
    unfolding htu_error
    htu_iff = (
      λ e. (same_codes_iff _ _).0 ((first_if-none _ _).0 e),
      λ e. (first_if-none _ _).1 ((same_codes_iff _ _).1 e),
    )

    iat_iff : (iat_error o p clock ≡ none) ↔ (
        (now_of o clock ≤ get_or p.iat 0 + tolerance o)
        × (get_or p.iat 0 ≤ now_of o clock + tolerance o))
    unfolding iat_error
    iat_iff = (λ e. (ground arith, ground arith), λ e. ground arith)

    signature_iff :
        (signature_error o h raw ≡ none)
        ↔ (o.jwt_verify_callback jwk (get_or h.alg "") raw ≡ ok true)
    unfolding signature_error
    signature_iff = (
      λ e. elim (Result-cases (o.jwt_verify_callback jwk (get_or h.alg "") raw)) [
        | inl (b, given) ↦ elim (Bool-cases b) [
          | inl holds ↦ ground arith
          | inr fails ↦ absurd (ground arith)
        ]
        | inr (x, failed) ↦ absurd (ground arith)
      ],
      λ v. ground arith,
    )

    IsProof-iff :
        (dpop_error hash thumbprint decode_jkt o r raw h p clock ≡ none)
        ↔ IsProof r o clock raw h p jwk
    unfolding dpop_error
    IsProof-iff = (
      λ e.
          let (e_header, e1) = (or_else-none _ _).0 e in
          let (e_claims, e2) = (or_else-none _ _).0 e1 in
          let (e_alg, e3) = (or_else-none _ _).0 e2 in
          let (e_nonce, e4) = (or_else-none _ _).0 e3 in
          let (e_signature, e5) = (or_else-none _ _).0 e4 in
          let (e_htm, e6) = (or_else-none _ _).0 e5 in
          let (e_htu, e7) = (or_else-none _ _).0 e6 in
          let (e_again, e8) = (or_else-none _ _).0 e7 in
          let (e_iat, e_bound) = (or_else-none _ _).0 e8 in
          record {
            key = key;
            public_key = (header_iff.0 e_header).2;
            typ = (header_iff.0 e_header).0;
            alg_given = (header_iff.0 e_header).1;
            alg_accepted = (first_if-none _ _).0 e_alg;
            claims_given = claims_iff.0 e_claims;
            nonce = nonce_iff.0 (e_nonce, e_again);
            signature = signature_iff.0 e_signature;
            method = htm_iff.0 e_htm;
            uri = htu_iff.0 e_htu;
            not_old = (iat_iff.0 e_iat).0;
            not_early = (iat_iff.0 e_iat).1;
            bound = (IsBound-iff hash thumbprint decode_jkt r o h p jwk key).0 e_bound;
          },
      λ q. (or_else-none _ _).1 (
        header_iff.1 (q.typ, q.alg_given, q.public_key),
        (or_else-none _ _).1 (
          claims_iff.1 q.claims_given,
          (or_else-none _ _).1 (
            (first_if-none _ _).1 q.alg_accepted,
            (or_else-none _ _).1 (
              (nonce_iff.1 q.nonce).0,
              (or_else-none _ _).1 (
                signature_iff.1 q.signature,
                (or_else-none _ _).1 (
                  htm_iff.1 q.method,
                  (or_else-none _ _).1 (
                    htu_iff.1 q.uri,
                    (or_else-none _ _).1 (
                      (nonce_iff.1 q.nonce).1,
                      (or_else-none _ _).1 (
                        iat_iff.1 (q.not_old, q.not_early),
                        (IsBound-iff hash thumbprint decode_jkt r o h p jwk key).1 q.bound,
                      ),
                    ),
                  ),
                ),
              ),
            ),
          ),
        ),
      ),
    )

  key_of_no_error :
      (e : Option DpopError) (o : Option Jwk) (jwk : Jwk)
      → (key_or_error hash thumbprint decode_jkt e o ≡ ok jwk) ↔ ((e ≡ none) × (o ≡ some jwk))
  unfolding key_or_error
  key_of_no_error (some x) o jwk = (λ h. absurd (ground arith), λ h. absurd (ground arith))
  key_of_no_error none none jwk = (λ h. absurd (ground arith), λ h. absurd (ground arith))
  key_of_no_error none (some k) jwk = (λ h. (refl, cc), λ (_, h). cc)

  -- `verifyDPoP` returns a key exactly when the request's header parses to a proof with that key:
  -- of the right type, with a public key, an accepted algorithm and all its claims, signed by the
  -- key as the callback tells, with the expected nonce, made for the request's method and for its
  -- URL up to the query and the fragment, at a time no further from now than the tolerance, and
  -- bound to the access token where one is expected, while none may come with it otherwise.
  pub verify_dpop_iff :
      (parse_jwt : String → Option (DpopHeader × DpopPayload)) (r : DpopRequest)
      (o : DpopVerifyOptions) (clock : ℕ) (jwk : Jwk)
      → (verify_dpop hash thumbprint decode_jkt parse_jwt r o clock ≡ ok jwk) ↔ (
          (raw : String) × (h : DpopHeader) × (p : DpopPayload) × (r.dpop ≡ some raw)
          × (text_truthy raw ≡ true)
          × (parse_jwt raw ≡ some (h, p))
          × IsProof r o clock raw h p jwk)
  unfolding verify_dpop
  verify_dpop_iff parse_jwt r o clock jwk = (
    λ e. elim (Option-cases r.dpop) [
      | inl nothing ↦ absurd (ground arith)
      | inr (raw, there) ↦ elim (Bool-cases (text_truthy raw)) [
        | inl truthy ↦ elim (Option-cases (parse_jwt raw)) [
          | inl failed ↦ absurd (ground arith)
          | inr ((h, p), parsed) ↦
              let returned : key_or_error hash thumbprint decode_jkt
                    (dpop_error hash thumbprint decode_jkt o r raw h p clock) h.jwk
                  ≡ ok jwk =
                ground arith in
              let (no_error, key) = (key_of_no_error _ _ jwk).0 returned in
              (raw, h, p, there, truthy, parsed, (IsProof-iff r o clock raw h p jwk key).0 no_error)
        ]
        | inr empty ↦ absurd (ground arith)
      ]
    ],
    λ (raw, h, p, there, truthy, parsed, q).
        let returned : key_or_error hash thumbprint decode_jkt
              (dpop_error hash thumbprint decode_jkt o r raw h p clock) h.jwk
            ≡ ok jwk =
          (key_of_no_error _ _ jwk).1 ((IsProof-iff r o clock raw h p jwk q.key).1 q, q.key) in
        ground arith,
  )
