-- ===== src/Dpop.antt =====
-- verifyDPoP and verifyResourceDPoP (packages/common/lib/dpop/DPoP.ts), with getNowSkewed of packages/common/lib/jwt/
-- jwtUtils.ts. Decoding a JWT, the SHA-256 hash in base64url, the thumbprint of a key and the check of
-- the signature are library code or callbacks, and are parameters. URLs and access tokens are code
-- points.
pub mod Bound
pub mod Proven
use oid4vc.Types.{Opaque}
use oid4vc.Prelude.{
  ℕ, zero, suc, ◌+◌, String, Bool, true, false, not, ◌&&◌, ◌||◌, Option, none, some, List, [], ◌∷◌,
  leb, nat_beq, if◌then◌else◌, Result, ok, err, includes, string_eq, nat_eq, text?_truthy,
  nat?_truthy, is_some, get_or, or_else, and_then, codes, text?_eq,
}
use oid4vc.Token.Pins.{starts_with}

-- A key: whether it has the private part `d`, and the rest.
pub record Jwk : Type 0 where
  pub d : Option String
  pub content : Opaque

pub record DpopHeader : Type 0 where
  pub typ : Option String
  pub alg : Option String
  pub jwk : Option Jwk

pub record DpopPayload : Type 0 where
  pub htm : Option String
  pub htu : Option String
  pub iat : Option ℕ
  pub jti : Option String
  pub nonce : Option String
  pub ath : Option String

pub data DpopError : Type 0 where
  missing_header not_parsed invalid_header missing_claims unsupported_alg nonce_mismatch : DpopError
  missing_authorization : DpopError
  invalid_signature invalid_htm invalid_htu invalid_iat unexpected_authorization : DpopError
  missing_ath invalid_authorization invalid_ath missing_jkt thumbprint_mismatch : DpopError

pub record DpopRequest : Type 0 where
  pub dpop : Option String
  pub authorization : Option String
  pub full_url : List ℕ
  pub method : String

pub record DpopVerifyOptions : Type 0 where
  pub expected_nonce : Option String
  pub accepted_algorithms : Option (List String)
  pub max_iat_age_in_seconds : Option ℕ
  pub expect_access_token : Bool
  pub now : Option ℕ
  pub jwt_verify_callback : Jwk → (alg raw : String) → Result String Bool

abbrev pub first_if : {A : Type 0} → Bool → A → Option A
first_if b x = if b then none else some x

-- `text.split(c)[0]`
unfoldable pub before : ℕ → List ℕ → List ℕ
before c [] = []
before c (d ∷ cs) = if nat_beq d c then [] else d ∷ before c cs

unfoldable pub same_codes : List ℕ → List ℕ → Bool
same_codes [] [] = true
same_codes [] (c ∷ cs) = false
same_codes (c ∷ cs) [] = false
same_codes (c ∷ cs) (d ∷ ds) = nat_beq c d && same_codes cs ds

-- `cs` without its first `n` elements
unfoldable pub drop : ℕ → List ℕ → List ℕ
drop zero cs = cs
drop (suc n) [] = []
drop (suc n) (c ∷ cs) = drop n cs

unfoldable pub header_error : DpopHeader → Option DpopError
header_error h =
    first_if
      (text?_eq h.typ (some "dpop+jwt")
        && text?_truthy h.alg
        && is_some h.jwk
        && not (text?_truthy (and_then h.jwk (λ k. k.d))))
      invalid_header

unfoldable pub claims_error : DpopPayload → Option DpopError
claims_error p =
    first_if (text?_truthy p.htm && text?_truthy p.htu && nat?_truthy p.iat && text?_truthy p.jti)
      missing_claims

abbrev pub is_accepted : Option (List String) → Option String → Bool
is_accepted none alg = true
is_accepted (some algs) alg = includes algs (get_or alg "")

abbrev pub alg_error : DpopVerifyOptions → DpopHeader → Option DpopError
alg_error o h = first_if (is_accepted o.accepted_algorithms h.alg) unsupported_alg

unfoldable pub nonce_error : DpopVerifyOptions → DpopPayload → Option DpopError
nonce_error o p =
    first_if
      (not (text?_truthy o.expected_nonce && not (text?_truthy p.nonce))
        && text?_eq p.nonce o.expected_nonce)
      nonce_mismatch

-- The second test of the nonce, after the signature.
unfoldable pub nonce_error_again : DpopVerifyOptions → DpopPayload → Option DpopError
nonce_error_again o p =
    if (text?_truthy o.expected_nonce && not (text?_eq p.nonce o.expected_nonce))
      || (not (text?_truthy o.expected_nonce) && text?_truthy p.nonce)
    then some nonce_mismatch
    else none

abbrev pub is_verified : Result String Bool → Bool
is_verified (ok b) = b
is_verified (err m) = false

unfoldable pub signature_error : DpopVerifyOptions → DpopHeader → String → Option DpopError
signature_error o h raw = elim h.jwk [
  | none ↦ some invalid_signature
  | some jwk ↦
      first_if (is_verified (o.jwt_verify_callback jwk (get_or h.alg "") raw)) invalid_signature
]

unfoldable pub htm_error : DpopRequest → DpopPayload → Option DpopError
htm_error r p = first_if (text?_eq p.htm (some r.method)) invalid_htm

-- The URL without its query and its fragment.
abbrev pub current_uri : DpopRequest → List ℕ
current_uri r = before b'#' (before b'?' r.full_url)

unfoldable pub htu_error : DpopRequest → DpopPayload → Option DpopError
unfolding same_codes
htu_error r p = first_if (same_codes (codes (get_or p.htu "")) (current_uri r)) invalid_htu

-- `options.now` in seconds, or else the clock; 0 counts as none.
abbrev pub now_of : DpopVerifyOptions → (clock : ℕ) → ℕ
now_of o clock = if nat?_truthy o.now then get_or o.now 0 else clock

abbrev pub tolerance : DpopVerifyOptions → ℕ
tolerance o = get_or o.max_iat_age_in_seconds 60 + 60

-- `now - 60 - maxAge > iat || now + 60 + maxAge < iat`, over the integers.
unfoldable pub iat_error : DpopVerifyOptions → DpopPayload → (clock : ℕ) → Option DpopError
iat_error o p clock =
    first_if
      (leb (now_of o clock) (get_or p.iat 0 + tolerance o)
        && leb (get_or p.iat 0) (now_of o clock + tolerance o))
      invalid_iat

module _ (hash : List ℕ → String) (calculate_jwk_thumbprint : Jwk → String)
    (decode_jkt : List ℕ → Result DpopError (Option String)) where
  abbrev pub access_token : DpopRequest → List ℕ
  access_token r = drop 5 (codes (get_or r.authorization ""))

  unfoldable pub jkt_error : DpopHeader → Result DpopError (Option String) → Option DpopError
  jkt_error h (err x) = some x
  jkt_error h (ok jkt) = or_else (first_if (text?_truthy jkt) missing_jkt) (
      first_if (text?_eq jkt (and_then h.jwk (λ k. some (calculate_jwk_thumbprint k))))
        thumbprint_mismatch)

  unfoldable pub access_token_error : DpopRequest → DpopHeader → DpopPayload → Option DpopError
  unfolding jkt_error drop
  access_token_error r h p = or_else (first_if (text?_truthy p.ath) missing_ath) (
      or_else
        (first_if
          (text?_truthy r.authorization
            && starts_with (codes "DPoP ") (codes (get_or r.authorization "")))
          invalid_authorization)
        (or_else (first_if (text?_eq p.ath (some (hash (access_token r)))) invalid_ath)
          (jkt_error h (decode_jkt (access_token r)))))

  unfoldable pub authorization_error :
      DpopVerifyOptions → DpopRequest → DpopHeader → DpopPayload → Option DpopError
  unfolding access_token_error
  authorization_error o r h p =
      if o.expect_access_token
      then access_token_error r h p
      else first_if (not (text?_truthy r.authorization)) unexpected_authorization

  -- The tests in their order: the first error, if any.
  unfoldable pub dpop_error :
      DpopVerifyOptions
      → DpopRequest
      → (raw : String) → DpopHeader
      → DpopPayload
      → (clock : ℕ) → Option DpopError
  dpop_error o r raw h p clock = or_else (header_error h) (
      or_else (claims_error p) (
        or_else (alg_error o h) (
          or_else (nonce_error o p) (
            or_else (signature_error o h raw) (
              or_else (htm_error r p) (
                or_else (htu_error r p) (
                  or_else (nonce_error_again o p)
                    (or_else (iat_error o p clock) (authorization_error o r h p)))))))))

  key_or_error : Option DpopError → Option Jwk → Result DpopError Jwk
  key_or_error (some x) jwk = err x
  key_or_error none none = err invalid_header
  key_or_error none (some jwk) = ok jwk

  -- `clock` is the time in seconds.
  unfoldable pub verify_dpop :
      (parse_jwt : String → Option (DpopHeader × DpopPayload))
      → DpopRequest
      → DpopVerifyOptions
      → (clock : ℕ) → Result DpopError Jwk
  unfolding key_or_error
  verify_dpop parse_jwt r o clock =
      if text?_truthy r.dpop
      then elim (parse_jwt (get_or r.dpop "")) [
        | none ↦ err not_parsed
        | some (h, p) ↦ key_or_error (dpop_error o r (get_or r.dpop "") h p clock) h.jwk
      ]
      else err missing_header

  verify_if :
      Option String
      → (parse_jwt : String → Option (DpopHeader × DpopPayload)) → DpopRequest
      → DpopVerifyOptions
      → (clock : ℕ) → Result DpopError (Option Jwk)
  unfolding verify_dpop
  verify_if token_type parse_jwt r o clock =
      if text?_eq token_type (some "DPoP")
      then elim (verify_dpop parse_jwt r (record o { expect_access_token = true }) clock) [
        | ok jwk ↦ ok (some jwk)
        | err x ↦ err x
      ]
      else ok none

  -- `verifyResourceDPoP`; `decode_token_type` is the claim `token_type` of the token in the header.
  unfoldable pub verify_resource_dpop :
      (decode_token_type : String → Result DpopError (Option String))
      (parse_jwt : String → Option (DpopHeader × DpopPayload))
      → DpopRequest
      → DpopVerifyOptions
      → (clock : ℕ) → Result DpopError (Option Jwk)
  unfolding verify_if
  verify_resource_dpop decode_token_type parse_jwt r o clock =
      if text?_truthy r.authorization
      then elim (decode_token_type (get_or r.authorization "")) [
        | err x ↦ err x
        | ok token_type ↦ verify_if token_type parse_jwt r o clock
      ]
      else err missing_authorization
