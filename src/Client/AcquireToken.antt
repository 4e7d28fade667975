-- ===== src/Client/AcquireToken.antt =====
-- acquireAccessToken of packages/client/lib/AccessTokenClient.ts, from an offer or the metadata of
-- the issuer to an access token.
use oid4vc.Prelude.{
  ℕ, String, not, Option, none, some, List, if◌then◌else◌, Result, ok, err, text?_truthy, get_or,
  or_else, and_then, codes,
}
use oid4vc.Types.{CredentialOfferPayload}
use oid4vc.Client.{ClientError, issuer_required, TxCodeAndPinRequired}
use oid4vc.Client.TokenRequest.{
  AccessTokenRequestOpts, AssertionJwt, get_pin_metadata, create_access_token_request,
}
use oid4vc.Client.TokenUrl.{AuthorizationServerOpts}
use oid4vc.Client.DpopProof.{DpopClaims, CreateDpopOpts}
use oid4vc.Client.Acquire.{
  TokenReply, SentRequest, Acquisition, unsent, acquire_access_token_using_request,
}

unfoldable pub pin_metadata_of : AccessTokenRequestOpts → Option TxCodeAndPinRequired
unfolding get_pin_metadata
pin_metadata_of opts =
    and_then opts.credential_offer (λ offer. some (get_pin_metadata offer.credential_offer))

unfoldable pub acquire_issuer : AccessTokenRequestOpts → Option String
acquire_issuer opts = or_else opts.credential_issuer (elim opts.credential_offer [
  | some offer ↦ some offer.credential_offer.credential_issuer
  | none ↦ opts.metadata_issuer
])

module _ (resolve : String → Result ClientError (Option CredentialOfferPayload))
    (build_pop : AssertionJwt → Result ClientError String) (uuid : String) (now : ℕ)
    (sign : DpopClaims → Result ClientError String) (hash : String → String) (clock : ℕ → ℕ)
    (uuids : ℕ → String) (send : ℕ → SentRequest → Result ClientError TokenReply) where
  -- The offer in `opts` is one that assertedUniformCredentialOffer has passed.
  unfoldable pub acquire_access_token :
      AccessTokenRequestOpts
      → Option AuthorizationServerOpts
      → (metadata_endpoint : Option (List ℕ)) → Option CreateDpopOpts
      → Acquisition
  unfolding pin_metadata_of acquire_issuer create_access_token_request
      acquire_access_token_using_request
  acquire_access_token opts as_opts metadata_endpoint dpop_opts =
      let issuer = acquire_issuer opts in
      if not (text?_truthy issuer)
      then unsent dpop_opts issuer_required
      else elim (create_access_token_request resolve build_pop uuid now
          (record opts { credential_issuer = issuer; pin_metadata = pin_metadata_of opts })) [
            | err x ↦ unsent dpop_opts x
            | ok request ↦
                acquire_access_token_using_request sign hash clock uuids send request
                  (pin_metadata_of opts) as_opts
                  (some (record { issuer = codes (get_or issuer ""); token_endpoint = none }))
                  metadata_endpoint dpop_opts
          ]
