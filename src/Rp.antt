-- ===== src/Rp.antt =====
-- The relying party's session manager (packages/siop-oid4vp/lib/rp/InMemoryRPSessionManager.ts): the
-- states of authorization requests and responses by correlation id, and the ids by nonce and state.
pub mod Hash
pub mod Manager
pub mod Update
pub mod Events
pub mod Deletion
