-- ===== src/Lib.antt =====
-- Verification of OID4VC, the issuer and relying party libraries for OpenID for Verifiable
-- Credentials.
--
-- The program. An issuer (packages/issuer) keeps sessions of credential offers, nonces and offer
-- URIs in state managers. A wallet that has an offer's pre-authorized code asks the token endpoint
-- for an access token, the nonce endpoint for a nonce, and the credential endpoint for a credential,
-- with a proof of possession of its key that carries the nonce; later it may send a notification of
-- what became of the credential. A relying party (packages/siop-oid4vp) sends authorization requests
-- and keeps what is known of them, and of the responses, in a session manager that listens to
-- events.
--
-- The files.
--   Prelude: names of the libraries passed on; Boolean tests, maps with keys that stand once
--   (JavaScript's `Map` and objects), JavaScript's truthiness, methods that change a state and may
--   throw (`Exec S E A`: what was written before a throw stays written).
--   StateManager: IStateManager as an interface with its laws (packages/oid4vci-common/lib/types/
--   StateManager.types.ts), MemoryStates and LookupStateManager (packages/issuer/lib/state-manager).
--   Function for method: `clear_expired` is clearExpired and so on; `multi_get` is
--   lookupStateManagerMultiGet. Memory/Cleanup has the timers.
--   Types: the data that is shared (packages/oid4vci-common/lib/types, packages/issuer/lib/types).
--   Store: the issuer's state over MemoryStates. A `Map` keeps references to session objects, so
--   that the sessions are cells of a heap, and two ids may lead to one cell.
--   Token: packages/issuer/lib/tokens/index.ts. `assert_valid_access_token_request` is
--   assertValidAccessTokenRequest in both flows, Checks its tests, Pins its regular expressions on
--   code points; Response has generateAccessToken and createAccessTokenResponse.
--   Issuer: packages/issuer/lib/VcIssuer.ts. Sessions has the session methods, Proof and ProofChecks
--   have the two parts of validateCredentialRequestProof, Binding and Issue have issueCredential;
--   ProofTypeNames has the names of proof types in error messages. ProofChecks/Meant and Format say
--   what the tests of a proof and of its format mean.
--   Offer: packages/issuer/lib/functions/CredentialOfferUtils.ts, with Uri for the offer's URI, Flows
--   for what CredentialOfferUtil.ts reads off an offer, and Create for createCredentialOfferURI of
--   VcIssuer.ts.
--   Client: the wallet's side of the token endpoint, packages/client/lib/AccessTokenClient.ts;
--   TokenRequest has createAccessTokenRequest and validate, TokenUrl determineTokenURL, Acquire
--   acquireAccessTokenUsingRequest, where the server is a function of the number of the request and
--   of the request, DpopProof createDPoP (packages/common/lib/dpop/DPoP.ts) and AcquireToken
--   acquireAccessToken. EndToEnd puts issuer, wallet and token endpoint together. OfferUri is
--   functions/CredentialOfferCommons.ts, the fetching of an offer by reference, and OfferFetch puts
--   it together with the issuer's URI.
--   Encoding: packages/oid4vci-common/lib/functions/Encoding.ts, convertJsonToURI and, in
--   Components, getURIComponentsAsArray; Plain has where texts are cut, Escapes what is written with
--   percent signs, FormRead reads a written form. The fetch and JavaScript's conversion to the
--   length of an array are parameters.
--   Rp: packages/siop-oid4vp/lib/rp/InMemoryRPSessionManager.ts.
--   Rest: the handlers of packages/issuer-rest/lib, from the parts of a request to a reply; the token
--   endpoint is verifyTokenRequest and then handleTokenRequest of IssuerTokenEndpoint.ts.
--   Dpop: packages/common/lib/dpop/DPoP.ts, the proofs that bind a token to a key.
--   Tests: data, runs of the code, and uses of the theorems.
--
-- How it is modelled. A method is a function of its arguments and its state. An `await` is a plain
-- sequence: calls do not interleave. The clock, identifiers from `uuidv4` and the integrator's
-- callbacks are parameters: `clock n` is the n-th reading of the clock in a call. Numbers are
-- natural; times are in milliseconds, except where the code has seconds. Texts are sequences of code
-- points, hashes are taken of their UTF-16 units and are 32-bit residues. Every loop is structural
-- recursion, so that no fuel is needed. An error is a constructor for each text, in a result.
--
-- Not modelled: logs and events to listeners, HTTP itself and its routers, JWT and DID libraries, the
-- rest of the wallet's client, the schemas, the builders and JARM. A credential is looked into only
-- for its subject ids, confirmation and issuer.
pub mod Prelude
pub mod StateManager
pub mod Types
pub mod Store
pub mod Token
pub mod Issuer
pub mod Offer
pub mod Client
pub mod Rp
pub mod Rest
pub mod Dpop
pub mod Encoding
mod Tests
