-- ===== src/Dpop/Bound.antt =====
-- The access token that comes with a DPoP proof (packages/common/lib/dpop/DPoP.ts).
use oid4vc.Prelude.{
  ℕ, String, ◌≡◌, refl, ◌↔◌, ◌⊎◌, inl, inr, Bool, true, false, not, Option, none, some, List, arith,
  Bool-cases, Result-cases, Result, ok, text_truthy, text?_truthy, get_or, or_else, and_then, codes,
  text?_eq, text?_eq_iff,
}
use oid4vc.Token.Pins.{starts_with}
use oid4vc.Dpop.{
  Jwk, DpopHeader, DpopPayload, DpopError, DpopRequest, DpopVerifyOptions, first_if, access_token,
  jkt_error, access_token_error, authorization_error,
}

pub or_else-none : {A : Type 0} (a b : Option A) → (or_else a b ≡ none) ↔ ((a ≡ none) × (b ≡ none))
or_else-none none b = (λ h. (refl, h), λ h. h.1)
or_else-none (some x) b = (λ h. absurd (ground arith), λ h. absurd (ground arith))

pub first_if-none : {A : Type 0} (b : Bool) (x : A) → (first_if b x ≡ none) ↔ (b ≡ true)
first_if-none true x = (λ h. refl, λ h. refl)
first_if-none false x = (λ h. absurd (ground arith), λ h. absurd (ground arith))

scheme_given :
    (a : Option String)
    → starts_with (codes "DPoP ") (codes (get_or a "")) ≡ true
    → text?_truthy a ≡ true
unfolding starts_with
scheme_given none h = h
scheme_given (some String.[]) h = h
scheme_given (some (String.◌∷◌ c s)) h = refl

module _ (hash : List ℕ → String) (thumbprint : Jwk → String)
    (decode_jkt : List ℕ → Result DpopError (Option String)) where
  -- The proof is bound to the access token that comes with it: by its hash, and by the key that the
  -- token is for.
  pub record IsBound (r : DpopRequest) (jwk : Jwk) (p : DpopPayload) : Type 0 where
    pub scheme : starts_with (codes "DPoP ") (codes (get_or r.authorization "")) ≡ true
    pub ath : p.ath ≡ some (hash (access_token hash thumbprint decode_jkt r))
    pub ath_given : text?_truthy p.ath ≡ true
    pub jkt : decode_jkt (access_token hash thumbprint decode_jkt r) ≡ ok (some (thumbprint jwk))
    pub jkt_given : text_truthy (thumbprint jwk) ≡ true

  module _ (r : DpopRequest) (o : DpopVerifyOptions) (h : DpopHeader) (p : DpopPayload) (jwk : Jwk)
      (key : h.jwk ≡ some jwk) where
    abbrev jkt_read : Result DpopError (Option String)
    jkt_read = decode_jkt (access_token hash thumbprint decode_jkt r)

    jkt_iff :
        (jkt_error hash thumbprint decode_jkt h jkt_read ≡ none)
        ↔ ((jkt_read ≡ ok (some (thumbprint jwk))) × (text_truthy (thumbprint jwk) ≡ true))
    unfolding jkt_error
    jkt_iff = (
      λ e. elim (Result-cases jkt_read) [
        | inl (jkt, read) ↦
            let (given, same) =
              (or_else-none (first_if (text?_truthy jkt) DpopError.missing_jkt) (
                  first_if (text?_eq jkt (and_then h.jwk (λ k. some (thumbprint k))))
                    DpopError.thumbprint_mismatch)).0
                (ground arith) in
            let is_key : jkt ≡ some (thumbprint jwk) = ground (
              arith,
              first_if-none (text?_eq jkt (and_then h.jwk (λ k. some (thumbprint k))))
                  DpopError.thumbprint_mismatch,
              text?_eq_iff jkt (some (thumbprint jwk)),
            ) in
            (ground arith, ground (arith, first_if-none (text?_truthy jkt) DpopError.missing_jkt))
        | inr (x, failed) ↦ absurd (ground arith)
      ],
      λ (read, given). ground (arith, text?_eq_iff (some (thumbprint jwk)) (some (thumbprint jwk))),
    )

    IsBound-here : (access_token_error hash thumbprint decode_jkt r h p ≡ none) ↔ IsBound r jwk p
    unfolding access_token_error
    IsBound-here = (
      λ e.
          let (a, e1) = (or_else-none _ _).0 e in
          let (b, e2) = (or_else-none _ _).0 e1 in
          let (c, d) = (or_else-none _ _).0 e2 in
          let scheme_and_given = (first_if-none _ _).0 b in
          record {
            scheme = ground arith;
            ath =
                (text?_eq_iff p.ath (some (hash (access_token hash thumbprint decode_jkt r)))).0
                  ((first_if-none _ _).0 c);
            ath_given = (first_if-none _ _).0 a;
            jkt = (jkt_iff.0 d).0;
            jkt_given = (jkt_iff.0 d).1;
          },
      λ q.
          let given : text?_truthy r.authorization ≡ true = scheme_given r.authorization q.scheme in
          let last = jkt_iff.1 (q.jkt, q.jkt_given) in
          (or_else-none _ _).1 (
            (first_if-none _ _).1 q.ath_given,
            (or_else-none _ _).1 (
              (first_if-none _ _).1 (ground (arith, q.scheme)),
              (or_else-none _ _).1 (
                (first_if-none _ _).1 (
                    (text?_eq_iff p.ath (some (hash (access_token hash thumbprint decode_jkt r)))).1
                      q.ath),
                last,
              ),
            ),
          ),
    )

    pub IsBound-iff : (authorization_error hash thumbprint decode_jkt o r h p ≡ none) ↔ (
        ((o.expect_access_token ≡ true) × IsBound r jwk p)
        ⊎ ((o.expect_access_token ≡ false) × (text?_truthy r.authorization ≡ false)))
    unfolding authorization_error
    IsBound-iff = (
      λ e. elim (Bool-cases o.expect_access_token) [
        | inl expected ↦ inl (expected, IsBound-here.0 (ground arith))
        | inr not_expected ↦ inr (
          not_expected,
          ground (
            arith,
            first_if-none (not (text?_truthy r.authorization)) DpopError.unexpected_authorization,
          ),
        )
      ],
      λ b. elim b [
        | inl (expected, q) ↦ ground (arith, IsBound-here.1 q)
        | inr (not_expected, empty) ↦ ground arith
      ],
    )
