-- ===== src/Tests/Acquire.antt =====
-- Tests of the wallet's rounds with the token endpoint.
use oid4vc.Prelude.{strip, cut, nat_eq}
use oid4vc.Prelude.{ℕ, String, ◌≡◌, refl, none, some, List, [], ◌∷◌, Result, ok, codes}
use text.Mathlib.TextEquality.{eq_iff}
use Prim.Native.Char.{char, code}
use oid4vc.Prelude.{
  ◌≢◌, inl, inr, Bool-cases, nat_beq, if◌then◌else◌, ◌==◌, string_eq, text_truthy, ap, true, arith,
}
use oid4vc.Client.{ClientError}
use oid4vc.Types.{CredentialOfferPayload}
use oid4vc.Client.AcquireToken.{acquire_access_token}
use oid4vc.Prelude.{map, Option}
use oid4vc.Client.Acquire.{Acquisition}
use oid4vc.Client.TokenRequest.{AccessTokenRequestOpts, AssertionJwt}
use oid4vc.Client.TokenRequest.{ClientTokenRequest, validate_error}
use oid4vc.Client.TokenUrl.{determine_token_url}
use oid4vc.Client.DpopProof.{DpopClaims, CreateDpopOpts, with_nonce}
use oid4vc.Client.Acquire.{TokenReply, SentRequest, acquire_access_token_using_request}
use oid4vc.Client.Retry.{IsBounded, acquire-IsBounded}
use oid4vc.Client.Retried.{IsSigner, IsNonceServer, sent_nonce, acquire_retried}
use oid4vc.Tests.Data.{token_request}

abbrev request : ClientTokenRequest
request = record { request = token_request none none; client_assertion = none }

-- A proof is its nonce after a sign, or the sign of none.
abbrev proof_of : DpopClaims → String
proof_of claims = elim claims.nonce [ none ↦ "-" | some nonce ↦ String.◌∷◌ (char b'+' tt) nonce ]

abbrev nonce_after : ℕ → String → Option String
nonce_after c rest = if nat_beq c b'+' then some rest else none

abbrev nonce_in : String → Option String
nonce_in String.[] = none
nonce_in (String.◌∷◌ c rest) = nonce_after (code c) rest

abbrev sign : DpopClaims → Result ClientError String
sign claims = ok (proof_of claims)

abbrev hash : String → String
hash t = t

abbrev clock : ℕ → ℕ
clock n = 1000

abbrev uuids : ℕ → String
uuids n = "uuid"

abbrev wants_nonce : TokenReply
wants_nonce = record {
  status = 400;
  dpop_nonce = some "wanted";
  www_authenticate = none;
  success_token_type = none;
  error = some "use_dpop_nonce";
}

abbrev gives_token : TokenReply
gives_token = record {
  status = 200;
  dpop_nonce = some "next";
  www_authenticate = none;
  success_token_type = some (some "DPoP");
  error = none;
}

abbrev answer_to : Option String → TokenReply
answer_to none = wants_nonce
answer_to (some nonce) = if nonce == "wanted" then gives_token else wants_nonce

abbrev send : ℕ → SentRequest → Result ClientError TokenReply
send n q = ok (answer_to (sent_nonce nonce_in q))

proof_readable : (n : Option String) (c : DpopClaims) → c.nonce ≡ n → nonce_in (proof_of c) ≡ n
proof_readable none c e = rw e refl
proof_readable (some nonce) c e = rw e refl

proof_truthy : (n : Option String) (c : DpopClaims) → c.nonce ≡ n → text_truthy (proof_of c) ≡ true
proof_truthy none c e = rw e refl
proof_truthy (some nonce) c e = rw e refl

abbrev signer : IsSigner sign nonce_in
signer = record {
  proof_of = proof_of;
  signs = λ c. refl;
  not_empty = λ c. proof_truthy c.nonce c refl;
  readable = λ c. proof_readable c.nonce c refl;
}

answer_to_other : (o : Option String) → o ≢ some "wanted" → answer_to o ≡ wants_nonce
answer_to_other none other = refl
answer_to_other (some nonce) other = elim (Bool-cases (nonce == "wanted")) [
  | inl e ↦ absurd (other (ground (arith, eq_iff nonce "wanted")))
  | inr e ↦ rw e refl
]

send-IsNonceServer : IsNonceServer nonce_in "wanted" send
send-IsNonceServer = record {
  not_empty = refl;
  refuses = λ n q other. (
    wants_nonce,
    ap (λ (r : TokenReply). ok r) (answer_to_other (sent_nonce nonce_in q) other),
    refl,
    refl,
  );
  gives_token = λ n q e. (gives_token, ap (λ (o : Option String). ok (answer_to o)) e, refl);
}

abbrev dpop_opts : CreateDpopOpts
dpop_opts = record { signing_algs = some ("ES256" ∷ []); nonce = none; access_token = none }

abbrev endpoint : List ℕ
endpoint = codes "https://issuer/token?x#y"

endpoint_determined : determine_token_url none none (some endpoint) ≡ ok endpoint
unfolding determine_token_url
endpoint_determined = refl

acquire-IsBounded_example : IsBounded request endpoint (
    acquire_access_token_using_request sign hash clock uuids send request none none none
      (some endpoint)
      (some dpop_opts))
acquire-IsBounded_example =
    acquire-IsBounded sign hash clock uuids send request none none none (some endpoint) endpoint
      endpoint_determined (some dpop_opts)

acquire_retried_example :
    (s : TokenReply) × (s.success_token_type ≡ some (some "DPoP"))
    × (acquire_access_token_using_request sign hash clock uuids send request none none none
          (some endpoint)
          (some dpop_opts)
        ≡ record {
          outcome = ok (record {
            reply = s;
            next_nonce = elim s.dpop_nonce [
              | none ↦ some "wanted"
              | some next ↦ if text_truthy next then some next else none
            ];
          });
          sent =
              record { url = endpoint; request = request; dpop = some "-" }
              ∷ record { url = endpoint; request = request; dpop = some "+wanted" }
              ∷ [];
          dpop_opts = some (with_nonce dpop_opts "wanted");
        })
unfolding validate_error
acquire_retried_example =
    acquire_retried sign hash clock uuids send request none none none (some endpoint) endpoint
      dpop_opts nonce_in "wanted" signer send-IsNonceServer refl endpoint_determined refl refl
      (λ e. cc)

abbrev code_opts : AccessTokenRequestOpts
code_opts = record {
  credential_offer = none;
  client_opts = none;
  credential_issuer = none;
  metadata_issuer = some "https://issuer";
  additional_params = token_request none none;
  code = some "code";
  code_verifier = some "verifier";
  redirect_uri = none;
  pin = none;
  pin_metadata = none;
}

abbrev no_offer_at : String → Result ClientError (Option CredentialOfferPayload)
no_offer_at uri = ok none

abbrev no_assertion : AssertionJwt → Result ClientError String
no_assertion jwt = ok ""

acquired : Acquisition
unfolding acquire_access_token
acquired =
    acquire_access_token no_offer_at no_assertion "uuid" 0 sign hash clock uuids send code_opts none
      none (some dpop_opts)

-- From the metadata alone, in the authorization code flow, two requests go to the issuer.
acquired_twice : map (λ (s : SentRequest). s.dpop) acquired.sent ≡ some "-" ∷ some "+wanted" ∷ []
unfolding acquired strip cut
acquired_twice = refl
