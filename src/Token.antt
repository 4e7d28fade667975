-- ===== src/Token.antt =====
-- The token endpoint of the issuer: packages/issuer/lib/tokens/index.ts, with
-- isPreAuthorizedCodeExpired and generateCredentialIdentifiers of
-- packages/issuer/lib/functions/CredentialOfferUtils.ts.
pub mod Pins
pub mod Checks
pub mod Request
pub mod Accepted
pub mod Outcome
pub mod PinSafety
pub mod Response
