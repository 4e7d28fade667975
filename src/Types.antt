-- ===== src/Types.antt =====
-- The data that the issuer's parts share (packages/oid4vci-common/lib/types): grants and offers,
-- sessions and their states, and the errors. A field whose value the modelled code only passes on
-- is a text that stands for it.
mod Offer
mod Session
mod Errors
mod Request
unfoldable pub use Offer.*
unfoldable pub use Session.*
unfoldable pub use Errors.*
unfoldable pub use Request.*
