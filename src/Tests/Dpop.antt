-- ===== src/Tests/Dpop.antt =====
-- Tests of DPoP proofs.
use oid4vc.Prelude.{
  ℕ, String, ◌≡◌, refl, ◌↔◌, true, false, Option, none, some, List, [], ◌∷◌, Result, ok, err,
  text_truthy, codes,
}
use oid4vc.Dpop.{
  Jwk, DpopHeader, DpopPayload, DpopError, DpopRequest, DpopVerifyOptions, verify_dpop, dpop_error,
  header_error, claims_error, nonce_error, signature_error, htm_error, htu_error, before,
  nonce_error_again, iat_error, authorization_error,
}
use oid4vc.Dpop.Proven.{IsProof, verify_dpop_iff}

abbrev jwk : Jwk
jwk = record { d = none; content = "key" }

abbrev header : DpopHeader
header = record { typ = some "dpop+jwt"; alg = some "ES256"; jwk = some jwk }

abbrev payload : DpopPayload
payload = record {
  htm = some "POST";
  htu = some "https://a";
  iat = some 1000;
  jti = some "id";
  nonce = none;
  ath = none;
}

abbrev request : DpopRequest
request = record {
  dpop = some "raw";
  authorization = none;
  full_url = codes "https://a?b#c";
  method = "POST";
}

abbrev options : DpopVerifyOptions
options = record {
  expected_nonce = none;
  accepted_algorithms = some ("ES256" ∷ []);
  max_iat_age_in_seconds = none;
  expect_access_token = false;
  now = none;
  jwt_verify_callback = λ k alg raw. ok true;
}

abbrev hash : List ℕ → String
hash cs = "hash"

abbrev thumbprint : Jwk → String
thumbprint k = "print"

abbrev decode_jkt : List ℕ → Result DpopError (Option String)
decode_jkt cs = ok none

abbrev parse_jwt : String → Option (DpopHeader × DpopPayload)
parse_jwt raw = some (header, payload)

in_time : verify_dpop hash thumbprint decode_jkt parse_jwt request options 1120 ≡ ok jwk
unfolding verify_dpop dpop_error header_error claims_error nonce_error signature_error htm_error
    htu_error before nonce_error_again iat_error authorization_error
in_time = refl

late :
    verify_dpop hash thumbprint decode_jkt parse_jwt request options 1121
    ≡ err DpopError.invalid_iat
unfolding verify_dpop dpop_error header_error claims_error nonce_error signature_error htm_error
    htu_error before nonce_error_again iat_error
late = refl

verify_dpop_iff_example :
    (verify_dpop hash thumbprint decode_jkt parse_jwt request options 1120 ≡ ok jwk) ↔ (
      (raw : String) × (h : DpopHeader) × (p : DpopPayload) × (some "raw" ≡ some raw)
      × (text_truthy raw ≡ true)
      × (◌≡◌ {A = Option (DpopHeader × DpopPayload)} (some (header, payload)) (some (h, p)))
      × IsProof hash thumbprint decode_jkt request options 1120 raw h p jwk)
verify_dpop_iff_example =
    verify_dpop_iff hash thumbprint decode_jkt parse_jwt request options 1120 jwk
