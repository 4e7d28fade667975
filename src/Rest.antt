-- ===== src/Rest.antt =====
-- The endpoints of the issuer's server (packages/issuer-rest/lib): what each handler does with a
-- request's parts and what it replies. Express, its routers and the paths are left out.
pub mod Reply
pub mod TokenEndpoint
pub mod Nonce
pub mod Endpoints
