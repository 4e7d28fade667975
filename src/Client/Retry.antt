-- ===== src/Client/Retry.antt =====
-- How often a wallet asks for a token, and what it accepts.
use oid4vc.Prelude.{
  ℕ, ◌≤◌, String, ◌≡◌, refl, Option, none, some, List, arith, Result, ok, err, length, All,
}
use oid4vc.Client.{ClientError, TxCodeAndPinRequired}
use oid4vc.Client.TokenRequest.{ClientTokenRequest, validate_error}
use oid4vc.Client.TokenUrl.{AuthorizationServerOpts, IssuerOpts, determine_token_url}
use oid4vc.Client.DpopProof.{DpopClaims, CreateDpopOpts, create_dpop, with_nonce}
use oid4vc.Client.Acquire.{
  TokenReply, SentRequest, Acquisition, should_retry_token_request, first_proof, retry, answered,
  replied, sent_again, send_with, sent_with_proof, sent_to, sent_if_valid, first_request,
  acquire_access_token_using_request,
}

abbrev pub IsOfCall : ClientTokenRequest → List ℕ → SentRequest → Type 0
IsOfCall request url s = (s.url ≡ url) × (s.request ≡ request)

-- The requests are at most two, and those of the call.
pub record IsBounded (request : ClientTokenRequest) (url : List ℕ) (a : Acquisition) : Type 0 where
  pub at_most_two : length a.sent ≤ 2
  pub of_call : All (IsOfCall request url) a.sent

module _ (sign : DpopClaims → Result ClientError String) (hash : String → String) (clock : ℕ → ℕ)
    (uuids : ℕ → String) (send : ℕ → SentRequest → Result ClientError TokenReply)
    (request : ClientTokenRequest) (url : List ℕ) where
  sent_again-IsBounded :
      (o : CreateDpopOpts) (nonce : String) (proof : Option String) (p : Result ClientError String)
      → IsBounded request url (
          sent_again sign hash clock uuids send o nonce url request
            (first_request url request proof)
            p)
  unfolding sent_again
  sent_again-IsBounded o nonce proof (err x) = record {
    at_most_two = omega arith;
    of_call = ((refl, refl), tt);
  }
  sent_again-IsBounded o nonce proof (ok p) = record {
    at_most_two = omega arith;
    of_call = ((refl, refl), ((refl, refl), tt));
  }

  answered-IsBounded :
      (opts : Option CreateDpopOpts) (proof : Option String) (r : TokenReply)
      → (o : Result ClientError (Option String))
      → IsBounded request url (
          answered sign hash clock uuids send opts url request
            (first_request url request proof)
            r
            o)
  unfolding answered retry
  answered-IsBounded opts proof r (err x) = record {
    at_most_two = omega arith;
    of_call = ((refl, refl), tt);
  }
  answered-IsBounded opts proof r (ok none) = record {
    at_most_two = omega arith;
    of_call = ((refl, refl), tt);
  }
  answered-IsBounded none proof r (ok (some nonce)) = record {
    at_most_two = omega arith;
    of_call = ((refl, refl), tt);
  }
  answered-IsBounded (some o) proof r (ok (some nonce)) =
      sent_again-IsBounded (with_nonce o nonce) nonce proof
        (create_dpop sign hash clock uuids 1 (with_nonce o nonce) url none)

  replied-IsBounded :
      (opts : Option CreateDpopOpts) (proof : Option String) (r : Result ClientError TokenReply)
      → IsBounded request url
          (replied sign hash clock uuids send opts url request (first_request url request proof) r)
  unfolding replied
  replied-IsBounded opts proof (err x) = record {
    at_most_two = omega arith;
    of_call = ((refl, refl), tt);
  }
  replied-IsBounded opts proof (ok r) =
      answered-IsBounded opts proof r (should_retry_token_request r)

module _ (sign : DpopClaims → Result ClientError String) (hash : String → String) (clock : ℕ → ℕ)
    (uuids : ℕ → String) (send : ℕ → SentRequest → Result ClientError TokenReply)
    (request : ClientTokenRequest) (meta : Option TxCodeAndPinRequired)
    (as_opts : Option AuthorizationServerOpts) (issuer_opts : Option IssuerOpts)
    (metadata_endpoint : Option (List ℕ)) (url : List ℕ)
    (is_url : determine_token_url as_opts issuer_opts metadata_endpoint ≡ ok url) where
  proof_sent-IsBounded :
      (opts : Option CreateDpopOpts) (p : Result ClientError (Option String))
      → IsBounded request url (sent_with_proof sign hash clock uuids send opts url request p)
  unfolding sent_with_proof send_with
  proof_sent-IsBounded opts (err x) = record { at_most_two = omega arith; of_call = tt }
  proof_sent-IsBounded opts (ok p) =
      replied-IsBounded sign hash clock uuids send request url opts p
        (send 0 (first_request url request p))

  valid_sent-IsBounded :
      (opts : Option CreateDpopOpts) (v : Option ClientError)
      → IsBounded request url (
          sent_if_valid sign hash clock uuids send opts request
            (determine_token_url as_opts issuer_opts metadata_endpoint)
            v)
  unfolding sent_if_valid sent_to
  valid_sent-IsBounded opts (some x) = record { at_most_two = omega arith; of_call = tt }
  valid_sent-IsBounded opts none =
      rw is_url (proof_sent-IsBounded opts (first_proof sign hash clock uuids opts url))

  -- Whatever the server and the signer answer, a call of the wallet sends at most two requests, and
  -- each of them is the request of the call, sent to the token URL.
  pub acquire-IsBounded :
      (opts : Option CreateDpopOpts)
      → IsBounded request url (
          acquire_access_token_using_request sign hash clock uuids send request meta as_opts
            issuer_opts metadata_endpoint opts)
  unfolding acquire_access_token_using_request sent_to
  acquire-IsBounded opts = valid_sent-IsBounded opts (validate_error request.request meta)
