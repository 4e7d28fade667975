-- ===== src/Client/Retried.antt =====
-- A token request whose DPoP proof lacks the nonce that the server wants (acquireAccessTokenUsingRequest
-- of packages/client/lib/AccessTokenClient.ts).
use oid4vc.Prelude.{
  ℕ, String, ◌≡◌, refl, ap, ◌∙◌, true, Option, none, some, List, [], ◌∷◌, if◌then◌else◌, Result, ok,
  text_truthy,
}
use oid4vc.Prelude.{◌/◌, ◌≢◌, first_part, codes, sym}
use oid4vc.Client.{ClientError, TxCodeAndPinRequired}
use oid4vc.Client.TokenRequest.{ClientTokenRequest, validate_error}
use oid4vc.Client.TokenUrl.{AuthorizationServerOpts, IssuerOpts, determine_token_url}
use oid4vc.Client.DpopProof.{DpopClaims, CreateDpopOpts, claims_of, uses_dpop, with_nonce}
use oid4vc.Client.Acquire.{TokenReply, SentRequest, acquire_access_token_using_request}
use oid4vc.Client.RetrySteps.{first_request_lem, second_request_lem, next_nonce_lem, retried}

-- The signer never fails, and the nonce of its claims can be read in the proof.
pub record IsSigner (sign : DpopClaims → Result ClientError String)
    (nonce_in : String → Option String) : Type 0 where
  pub proof_of : DpopClaims → String
  pub signs : (c : DpopClaims) → sign c ≡ ok (proof_of c)
  pub not_empty : (c : DpopClaims) → text_truthy (proof_of c) ≡ true
  pub readable : (c : DpopClaims) → nonce_in (proof_of c) ≡ c.nonce

-- The nonce of the proof that a request carries, if any.
abbrev pub sent_nonce : (String → Option String) → SentRequest → Option String
sent_nonce nonce_in q = elim q.dpop [ none ↦ none | some p ↦ nonce_in p ]

-- A server that gives a token of the type DPoP to each request with a proof of this nonce, and to
-- any other the error with the nonce that it wants.
pub record IsNonceServer (nonce_in : String → Option String) (nonce : String)
    (send : ℕ → SentRequest → Result ClientError TokenReply) : Type 0 where
  pub not_empty : text_truthy nonce ≡ true
  pub refuses :
      (n : ℕ) (q : SentRequest)
      → sent_nonce nonce_in q ≢ some nonce
      → (r : TokenReply) × (send n q ≡ ok r)
        × (r.error ≡ some "use_dpop_nonce")
        × (r.dpop_nonce ≡ some nonce)
  pub gives_token :
      (n : ℕ) (q : SentRequest)
      → sent_nonce nonce_in q ≡ some nonce
      → (r : TokenReply) × (send n q ≡ ok r) × (r.success_token_type ≡ some (some "DPoP"))

-- A proof for a token request at this URL, before it is signed.
abbrev pub claims_with : Option String → (htu : List ℕ) (iat : ℕ) (jti : String) → DpopClaims
claims_with nonce htu iat jti = record {
  htu = htu;
  htm = "POST";
  nonce = nonce;
  access_token = none;
  iat = iat;
  jti = jti;
  ath = none;
}

claims_of-claims_with :
    (hash : String → String) (clock : ℕ → ℕ) (uuids : ℕ → String) (n : ℕ) (o : CreateDpopOpts)
    (url : List ℕ)
    → o.access_token ≡ none
    → claims_of hash clock uuids n o url none
      ≡ claims_with o.nonce
          (first_part (codes "#") (first_part (codes "?") url))
          (clock n / 1000)
          (uuids n)
unfolding claims_of
claims_of-claims_with hash clock uuids n o url a = rw a refl

module _ (sign : DpopClaims → Result ClientError String) (hash : String → String) (clock : ℕ → ℕ)
    (uuids : ℕ → String) (send : ℕ → SentRequest → Result ClientError TokenReply)
    (request : ClientTokenRequest) (meta : Option TxCodeAndPinRequired)
    (as_opts : Option AuthorizationServerOpts) (issuer_opts : Option IssuerOpts)
    (metadata_endpoint : Option (List ℕ)) (url : List ℕ) (o : CreateDpopOpts)
    (nonce_in : String → Option String) (nonce : String) where
  -- The n-th proof.
  abbrev pub wallet_claims : ℕ → Option String → DpopClaims
  wallet_claims n with =
      claims_with with (first_part (codes "#") (first_part (codes "?") url)) (clock n / 1000)
        (uuids n)

  -- A wallet that makes proofs, but has not the nonce that the server wants, meets a server that
  -- gives tokens only to requests whose proof has it. Where the request is valid and its token URL is
  -- determined, the wallet sends the request twice to this URL, with a header for a signed proof each
  -- time, for the URL without query and fragment; the second proof has the server's nonce. The call
  -- then gives the token of the type DPoP, and for the next request the nonce of the answer's header,
  -- or else the nonce that the server wanted.
  pub acquire_retried :
      (h : IsSigner sign nonce_in)
      → IsNonceServer nonce_in nonce send
      → validate_error request.request meta ≡ none
      → determine_token_url as_opts issuer_opts metadata_endpoint ≡ ok url
      → uses_dpop (some o) ≡ true
      → o.access_token ≡ none
      → o.nonce ≢ some nonce
      → (s : TokenReply) × (s.success_token_type ≡ some (some "DPoP"))
        × (acquire_access_token_using_request sign hash clock uuids send request meta as_opts
              issuer_opts metadata_endpoint
              (some o)
            ≡ record {
              outcome = ok (record {
                reply = s;
                next_nonce = elim s.dpop_nonce [
                  | none ↦ some nonce
                  | some next ↦ if text_truthy next then some next else none
                ];
              });
              sent =
                  record {
                    url = url;
                    request = request;
                    dpop = some (h.proof_of (wallet_claims 0 o.nonce));
                  }
                  ∷ record {
                    url = url;
                    request = request;
                    dpop = some (h.proof_of (wallet_claims 1 (some nonce)));
                  }
                  ∷ [];
              dpop_opts = some (record {
                signing_algs = o.signing_algs;
                nonce = some nonce;
                access_token = o.access_token;
              });
            })
  acquire_retried h server v is_url u a other =
      let first : String = h.proof_of (wallet_claims 0 o.nonce) in
      let second : String = h.proof_of (wallet_claims 1 (some nonce)) in
      let q : SentRequest = record { url = url; request = request; dpop = some first } in
      let q' : SentRequest = record { url = url; request = request; dpop = some second } in
      let sent_first =
        first_request_lem url request first (h.not_empty (wallet_claims 0 o.nonce)) in
      let sent_second =
        second_request_lem url request second (h.not_empty (wallet_claims 1 (some nonce))) in
      let (r, refused, wants, has) =
        server.refuses 0 q (λ e. other (sym (h.readable (wallet_claims 0 o.nonce)) ∙ e)) in
      let (s, given, token) = server.gives_token 1 q' (h.readable (wallet_claims 1 (some nonce))) in
      let c1 =
        ap sign (claims_of-claims_with hash clock uuids 0 o url a)
        ∙ h.signs (wallet_claims 0 o.nonce) in
      let c2 =
        ap sign (claims_of-claims_with hash clock uuids 1 (with_nonce o nonce) url a)
        ∙ h.signs (wallet_claims 1 (some nonce)) in
      let next = next_nonce_lem nonce s.dpop_nonce server.not_empty in
      (
        s,
        token,
        retried sign hash clock uuids send request meta as_opts issuer_opts metadata_endpoint url o
              first second nonce r s v is_url u a c1 c2 (ap (send 0) sent_first ∙ refused)
              (record { error = wants; dpop_nonce = has; not_empty = server.not_empty })
              (ap (send 1) sent_second ∙ given) token
            ∙ (λ i. record {
              outcome = ok (record { reply = s; next_nonce = next i });
              sent = sent_first i ∷ sent_second i ∷ [];
              dpop_opts = some (with_nonce o nonce);
            }),
      )
