-- ===== src/Tests.antt =====
-- Tests of the modules: the data that they share, runs of the code on it, and uses of the theorems
-- at it.
pub mod Data
mod Store
mod Rp
mod Dpop
mod Rest
mod Token
mod Acquire
mod Forms
mod Offers
mod Sessions
