-- ===== src/Client/Acquire.antt =====
-- acquireAccessTokenUsingRequest of packages/client/lib/AccessTokenClient.ts: the request is sent,
-- and once more where the server asks for a nonce in the DPoP proof; with functions/dpopUtil.ts.
use oid4vc.Prelude.{
  ℕ, String, not, ◌&&◌, ◌||◌, Option, none, some, List, [], ◌∷◌, nat_beq, if◌then◌else◌, Result, ok,
  err, contains, ◌==◌, string_eq, nat_eq, text?_truthy, is_some, get_or, or_else, and_then, codes,
}
use oid4vc.Client.{ClientError, missing_dpop_nonce, wrong_token_type, TxCodeAndPinRequired}
use oid4vc.Client.TokenRequest.{ClientTokenRequest, validate_error}
use oid4vc.Client.TokenUrl.{AuthorizationServerOpts, IssuerOpts, determine_token_url}
use oid4vc.Client.DpopProof.{DpopClaims, CreateDpopOpts, uses_dpop, with_nonce, create_dpop}

-- `OpenIDResponse`: what is read of the answer and its headers.
pub record TokenReply : Type 0 where
  pub status : ℕ
  pub dpop_nonce : Option String
  pub www_authenticate : Option String
  pub success_token_type : Option (Option String)
  pub error : Option String

-- A request that goes to the server, before it is written as a form.
pub record SentRequest : Type 0 where
  pub url : List ℕ
  pub request : ClientTokenRequest
  pub dpop : Option String

pub record AcquiredToken : Type 0 where
  pub reply : TokenReply
  pub next_nonce : Option String

-- What a call gives, what it sent, in order, and the caller's options after it.
pub record Acquisition : Type 0 where
  pub outcome : Result ClientError AcquiredToken
  pub sent : List SentRequest
  pub dpop_opts : Option CreateDpopOpts

-- `shouldRetryTokenRequestWithDPoPNonce`: the nonce to retry with, if any.
unfoldable pub should_retry_token_request : TokenReply → Result ClientError (Option String)
should_retry_token_request r =
    if get_or r.error "" == "use_dpop_nonce"
    then (if text?_truthy r.dpop_nonce then ok r.dpop_nonce else err missing_dpop_nonce)
    else ok none

-- `shouldRetryResourceRequestWithDPoPNonce`
unfoldable pub should_retry_resource_request : TokenReply → Result ClientError (Option String)
should_retry_resource_request r =
    if not (is_some r.error) || not (nat_beq r.status 401)
    then ok none
    else if contains (codes "use_dpop_nonce") (codes (get_or r.www_authenticate ""))
    then (if text?_truthy r.dpop_nonce then ok r.dpop_nonce else err missing_dpop_nonce)
    else ok none

-- The answer that is returned, with the nonce for the next request.
unfoldable pub finish :
    Option CreateDpopOpts
    → TokenReply
    → (next_nonce : Option String) → Result ClientError AcquiredToken
finish opts r next_nonce =
    if is_some r.success_token_type
      && is_some opts
      && not (get_or (get_or r.success_token_type none) "" == "DPoP")
    then err wrong_token_type
    else ok
        (record { reply = r; next_nonce = if text?_truthy next_nonce then next_nonce else none })

abbrev pub second_request : List ℕ → ClientTokenRequest → String → SentRequest
second_request url request proof = record {
  url = url;
  request = request;
  dpop = if text?_truthy (some proof) then some proof else none;
}

unfoldable pub second_outcome :
    CreateDpopOpts → String → Result ClientError TokenReply → Result ClientError AcquiredToken
unfolding finish
second_outcome o nonce (err x) = err x
second_outcome o nonce (ok r) = finish (some o) r (or_else r.dpop_nonce (some nonce))

abbrev pub first_request : List ℕ → ClientTokenRequest → Option String → SentRequest
first_request url request proof = record {
  url = url;
  request = request;
  dpop = if text?_truthy proof then proof else none;
}

abbrev pub unsent : Option CreateDpopOpts → ClientError → Acquisition
unsent opts x = record { outcome = err x; sent = []; dpop_opts = opts }

-- `sign` is the caller's callback.
module _ (sign : DpopClaims → Result ClientError String) (hash : String → String) (clock : ℕ → ℕ)
    (uuids : ℕ → String) where
  unfoldable pub first_proof : Option CreateDpopOpts → List ℕ → Result ClientError (Option String)
  unfolding create_dpop
  first_proof none url = ok none
  first_proof (some o) url =
      if uses_dpop (some o)
      then elim (create_dpop sign hash clock uuids 0 o url none) [
        | ok p ↦ ok (some p)
        | err x ↦ err x
      ]
      else ok none

  -- `send n` is the server at the n-th request: the n-th exchange over HTTP.
  module _ (send : ℕ → SentRequest → Result ClientError TokenReply) where
    -- What follows the second proof.
    unfoldable pub sent_again :
        CreateDpopOpts
        → (nonce : String) (url : List ℕ) → ClientTokenRequest
        → (first : SentRequest) → Result ClientError String
        → Acquisition
    unfolding second_outcome
    sent_again o nonce url request first (err x) = record {
      outcome = err x;
      sent = first ∷ [];
      dpop_opts = some o;
    }
    sent_again o nonce url request first (ok proof) = record {
      outcome = second_outcome o nonce (send 1 (second_request url request proof));
      sent = first ∷ second_request url request proof ∷ [];
      dpop_opts = some o;
    }

    -- The second request, whose proof has the nonce of the answer to the first.
    unfoldable pub retry :
        CreateDpopOpts
        → (nonce : String) (url : List ℕ) → ClientTokenRequest
        → (first : SentRequest) → Acquisition
    unfolding create_dpop sent_again
    retry o nonce url request first =
        sent_again (with_nonce o nonce) nonce url request first
          (create_dpop sign hash clock uuids 1 (with_nonce o nonce) url none)

    -- What follows the first answer, by the nonce to retry with.
    unfoldable pub answered :
        Option CreateDpopOpts
        → (url : List ℕ) → ClientTokenRequest
        → (first : SentRequest) → TokenReply
        → Result ClientError (Option String)
        → Acquisition
    unfolding retry finish
    answered opts url request first r (err x) = record {
      outcome = err x;
      sent = first ∷ [];
      dpop_opts = opts;
    }
    answered opts url request first r (ok none) = record {
      outcome = finish opts r (and_then opts (λ o. o.nonce));
      sent = first ∷ [];
      dpop_opts = opts;
    }
    answered none url request first r (ok (some nonce)) = record {
      outcome = finish none r none;
      sent = first ∷ [];
      dpop_opts = none;
    }
    answered (some o) url request first r (ok (some nonce)) = retry o nonce url request first

    unfoldable pub replied :
        Option CreateDpopOpts
        → (url : List ℕ) → ClientTokenRequest
        → (first : SentRequest) → Result ClientError TokenReply
        → Acquisition
    unfolding should_retry_token_request answered
    replied opts url request first (err x) = record {
      outcome = err x;
      sent = first ∷ [];
      dpop_opts = opts;
    }
    replied opts url request first (ok r) =
        answered opts url request first r (should_retry_token_request r)

    unfoldable pub send_with :
        Option CreateDpopOpts
        → (url : List ℕ) → ClientTokenRequest
        → (proof : Option String) → Acquisition
    unfolding replied
    send_with opts url request proof =
        replied opts url request (first_request url request proof)
          (send 0 (first_request url request proof))

    unfoldable pub sent_with_proof :
        Option CreateDpopOpts
        → (url : List ℕ) → ClientTokenRequest
        → Result ClientError (Option String)
        → Acquisition
    unfolding send_with
    sent_with_proof opts url request (err x) = unsent opts x
    sent_with_proof opts url request (ok proof) = send_with opts url request proof

    unfoldable pub sent_to :
        Option CreateDpopOpts → ClientTokenRequest → Result ClientError (List ℕ) → Acquisition
    unfolding sent_with_proof first_proof
    sent_to opts request (err x) = unsent opts x
    sent_to opts request (ok url) = sent_with_proof opts url request (first_proof opts url)

    unfoldable pub sent_if_valid :
        Option CreateDpopOpts
        → ClientTokenRequest
        → Result ClientError (List ℕ)
        → Option ClientError
        → Acquisition
    unfolding sent_to
    sent_if_valid opts request url (some x) = unsent opts x
    sent_if_valid opts request url none = sent_to opts request url

    -- `metadata_endpoint` is the token endpoint of the metadata that is given or fetched.
    unfoldable pub acquire_access_token_using_request :
        ClientTokenRequest
        → Option TxCodeAndPinRequired
        → Option AuthorizationServerOpts
        → Option IssuerOpts
        → (metadata_endpoint : Option (List ℕ)) → Option CreateDpopOpts
        → Acquisition
    unfolding validate_error determine_token_url sent_if_valid
    acquire_access_token_using_request request pin_metadata as_opts issuer_opts metadata_endpoint
          opts =
        sent_if_valid opts request (determine_token_url as_opts issuer_opts metadata_endpoint)
          (validate_error request.request pin_metadata)
