-- ===== src/Issuer.antt =====
-- VcIssuer (packages/issuer/lib/VcIssuer.ts): the sessions of credential offers, the proof of a
-- credential request, and the issuance of a credential.
pub mod Sessions
pub mod ProofTypeNames
pub mod Config
pub mod Proof
pub mod ProofChecks
pub mod Binding
pub mod Issue
