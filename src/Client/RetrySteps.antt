-- ===== src/Client/RetrySteps.antt =====
-- The two steps of a token request that is sent again, each with the answer that it is given
-- (packages/client/lib/AccessTokenClient.ts).
use oid4vc.Prelude.{
  ℕ, String, ◌≡◌, refl, ap, ◌∙◌, true, Option, none, some, List, [], ◌∷◌, if◌then◌else◌, Result, ok,
  err, text_truthy, text?_truthy, or_else,
}
use oid4vc.Client.{ClientError, token_with_scheme, TxCodeAndPinRequired}
use oid4vc.Client.TokenRequest.{ClientTokenRequest, validate_error}
use oid4vc.Client.TokenUrl.{AuthorizationServerOpts, IssuerOpts, determine_token_url}
use oid4vc.Client.DpopProof.{
  DpopClaims, CreateDpopOpts, create_dpop, has_scheme, claims_of, uses_dpop, with_nonce,
}
use oid4vc.Client.Acquire.{
  TokenReply, SentRequest, AcquiredToken, should_retry_token_request, first_proof, finish, retry,
  answered, replied, sent_again, second_outcome, send_with, sent_with_proof, sent_to, sent_if_valid,
  first_request, second_request, acquire_access_token_using_request,
}

-- The server wants this nonce, by its answer.
pub record IsNonceWanted (nonce : String) (r : TokenReply) : Type 0 where
  pub error : r.error ≡ some "use_dpop_nonce"
  pub dpop_nonce : r.dpop_nonce ≡ some nonce
  pub not_empty : text_truthy nonce ≡ true

wanted :
    (nonce : String) (r : TokenReply)
    → IsNonceWanted nonce r
    → should_retry_token_request r ≡ ok (some nonce)
unfolding should_retry_token_request
wanted nonce r h = rw (h.error, h.dpop_nonce, h.not_empty) refl

abbrev kept : Option String → Option String
kept next_nonce = if text?_truthy next_nonce then next_nonce else none

finished :
    (o : CreateDpopOpts) (r : TokenReply) (next_nonce : Option String)
    → r.success_token_type ≡ some (some "DPoP")
    → finish (some o) r next_nonce ≡ ok (record { reply = r; next_nonce = kept next_nonce })
unfolding finish
finished o r next_nonce h = rw h refl

module _ (sign : DpopClaims → Result ClientError String) (hash : String → String) (clock : ℕ → ℕ)
    (uuids : ℕ → String) (send : ℕ → SentRequest → Result ClientError TokenReply)
    (request : ClientTokenRequest) (meta : Option TxCodeAndPinRequired)
    (as_opts : Option AuthorizationServerOpts) (issuer_opts : Option IssuerOpts)
    (metadata_endpoint : Option (List ℕ)) (url : List ℕ) (o : CreateDpopOpts)
    (first second nonce : String) (r s : TokenReply) where
  proved :
      uses_dpop (some o) ≡ true
      → create_dpop sign hash clock uuids 0 o url none ≡ ok first
      → first_proof sign hash clock uuids (some o) url ≡ ok (some first)
  unfolding first_proof
  proved u e = rw (u, e) refl

  created :
      (n : ℕ) (o' : CreateDpopOpts) (p : String)
      → o'.access_token ≡ none
      → sign (claims_of hash clock uuids n o' url none) ≡ ok p
      → create_dpop sign hash clock uuids n o' url none ≡ ok p
  unfolding create_dpop
  created n o' p a e =
      ap
        (λ (token : Option String).
          if has_scheme token
          then err token_with_scheme
          else sign (claims_of hash clock uuids n o' url none))
        a
      ∙ e

  abbrev first_sent : SentRequest
  first_sent = first_request url request (some first)

  after_second :
      create_dpop sign hash clock uuids 1 (with_nonce o nonce) url none ≡ ok second
      → send 1 (second_request url request second) ≡ ok s
      → s.success_token_type ≡ some (some "DPoP")
      → retry sign hash clock uuids send o nonce url request first_sent ≡ record {
        outcome = ok (record { reply = s; next_nonce = kept (or_else s.dpop_nonce (some nonce)) });
        sent = first_sent ∷ second_request url request second ∷ [];
        dpop_opts = some (with_nonce o nonce);
      }
  unfolding retry sent_again second_outcome
  after_second c s1 t =
      ap (sent_again sign hash clock uuids send (with_nonce o nonce) nonce url request first_sent) c
      ∙ ap
          (λ (x : Result ClientError AcquiredToken). record {
            outcome = x;
            sent = first_sent ∷ second_request url request second ∷ [];
            dpop_opts = some (with_nonce o nonce);
          })
          (ap (second_outcome (with_nonce o nonce) nonce) s1
            ∙ finished (with_nonce o nonce) s (or_else s.dpop_nonce (some nonce)) t)

  after_valid :
      validate_error request.request meta ≡ none
      → determine_token_url as_opts issuer_opts metadata_endpoint ≡ ok url
      → first_proof sign hash clock uuids (some o) url ≡ ok (some first)
      → send 0 first_sent ≡ ok r
      → IsNonceWanted nonce r
      → acquire_access_token_using_request sign hash clock uuids send request meta as_opts
          issuer_opts metadata_endpoint
          (some o)
        ≡ retry sign hash clock uuids send o nonce url request first_sent
  unfolding acquire_access_token_using_request sent_if_valid sent_to sent_with_proof send_with
      replied answered
  after_valid v is_url f s0 w =
      ap
        (sent_if_valid sign hash clock uuids send (some o) request
          (determine_token_url as_opts issuer_opts metadata_endpoint))
        v
      ∙ ap (sent_to sign hash clock uuids send (some o) request) is_url
      ∙ ap (sent_with_proof sign hash clock uuids send (some o) url request) f
      ∙ ap (replied sign hash clock uuids send (some o) url request first_sent) s0
      ∙ ap (answered sign hash clock uuids send (some o) url request first_sent r)
          (wanted nonce r w)

  pub retried :
      validate_error request.request meta ≡ none
      → determine_token_url as_opts issuer_opts metadata_endpoint ≡ ok url
      → uses_dpop (some o) ≡ true
      → o.access_token ≡ none
      → sign (claims_of hash clock uuids 0 o url none) ≡ ok first
      → sign (claims_of hash clock uuids 1 (with_nonce o nonce) url none) ≡ ok second
      → send 0 first_sent ≡ ok r
      → IsNonceWanted nonce r
      → send 1 (second_request url request second) ≡ ok s
      → s.success_token_type ≡ some (some "DPoP")
      → acquire_access_token_using_request sign hash clock uuids send request meta as_opts
          issuer_opts metadata_endpoint
          (some o)
        ≡ record {
          outcome =
              ok (record { reply = s; next_nonce = kept (or_else s.dpop_nonce (some nonce)) });
          sent = first_sent ∷ second_request url request second ∷ [];
          dpop_opts = some (with_nonce o nonce);
        }
  retried v is_url u a c1 c2 s0 w s1 t =
      after_valid v is_url (proved u (created 0 o first a c1)) s0 w
      ∙ after_second (created 1 (with_nonce o nonce) second a c2) s1 t

pub first_request_lem :
    (url : List ℕ) (request : ClientTokenRequest) (p : String)
    → text_truthy p ≡ true
    → first_request url request (some p) ≡ record { url = url; request = request; dpop = some p }
first_request_lem url request p h = rw h refl

pub second_request_lem :
    (url : List ℕ) (request : ClientTokenRequest) (p : String)
    → text_truthy p ≡ true
    → second_request url request p ≡ record { url = url; request = request; dpop = some p }
second_request_lem url request p h = rw h refl

pub next_nonce_lem :
    (nonce : String) (d : Option String)
    → text_truthy nonce ≡ true
    → kept (or_else d (some nonce))
      ≡ elim d [ none ↦ some nonce | some next ↦ if text_truthy next then some next else none ]
next_nonce_lem nonce none h = rw h refl
next_nonce_lem nonce (some next) h = refl
