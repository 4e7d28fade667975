-- ===== src/StateManager.antt =====
-- IStateManager (packages/oid4vci-common/lib/types/StateManager.types.ts): the storage that the
-- issuer keeps its sessions, nonces and offer URIs in. `Memory` is the implementation of
-- packages/issuer/lib/state-manager, `Lookup` the two-level manager on top of it.
pub mod Memory
pub mod Interface
pub mod Lookup
use oid4vc.Prelude.{ℕ, String, Bool, Option, Exec}

-- What `StateType` requires of a stored value. Times are in milliseconds.
pub record StateType (T : Type 0) : Type 0 where
  pub created_at : T → ℕ
  pub expires_at : T → Option ℕ

pub data StateError : Type 0 where
  no_id_supplied : StateError
  state_missing : String → StateError

-- The methods, on the manager's own state. `startCleanupRoutine` and `stopCleanupRoutine`, which
-- return nothing that a caller uses, stand with the implementation.
pub record IStateManager (T : Type 0) : Type 1 where
  pub State : Type 0
  pub set : String → T → Exec State StateError (Unit {0})
  pub get : String → Exec State StateError (Option T)
  pub has : String → Exec State StateError Bool
  pub delete : String → Exec State StateError Bool
  pub clear_expired : Option ℕ → ℕ → Exec State StateError (Unit {0})
  pub clear_all : Exec State StateError (Unit {0})
  pub get_asserted : String → Exec State StateError T
