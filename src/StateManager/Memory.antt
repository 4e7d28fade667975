-- ===== src/StateManager/Memory.antt =====
-- MemoryStates (packages/issuer/lib/state-manager/MemoryStates.ts): an IStateManager over a `Map`.

pub mod Expiry
pub mod Dictionary
pub mod Cleanup
use oid4vc.Prelude.{
  ℕ, ◌+◌, ◌*◌, String, Bool, Option, none, some, List, [], ◌∷◌, ltb, if◌then◌else◌, Exec, pure,
  throw, ◌>>=◌, ◌>>◌, ok, err, map_get, map_has, map_set, map_delete, string_eq, nat_eq,
  text_truthy, nat?_truthy, get_or,
}
use oid4vc.StateManager.{StateType, StateError, no_id_supplied, state_missing, IStateManager}

pub record MemoryStates (T : Type 0) : Type 0 where
  pub expires_in_ms : ℕ
  pub states : List (String × T)

-- The constructor; the argument is `opts?.expiresInSec`.
pub create : {T : Type 0} → Option ℕ → MemoryStates T
create none = record { expires_in_ms = 180000; states = [] }
create (some expires_in_sec) = record { expires_in_ms = expires_in_sec * 1000; states = [] }

module _ {T : Type 0} where
  unfoldable pub clear_all : Exec (MemoryStates T) StateError (Unit {0})
  clear_all m = (ok tt, record m { states = [] })

  unfoldable pub delete : String → Exec (MemoryStates T) StateError Bool
  unfolding map_has map_delete
  delete id m =
      if text_truthy id
      then (ok (map_has m.states id), record m { states = map_delete m.states id })
      else (err no_id_supplied, m)

  unfoldable pub get : String → Exec (MemoryStates T) StateError (Option T)
  get id m = (ok (map_get m.states id), m)

  unfoldable pub has : String → Exec (MemoryStates T) StateError Bool
  has id m = if text_truthy id then (ok (map_has m.states id), m) else (err no_id_supplied, m)

  unfoldable pub set : String → T → Exec (MemoryStates T) StateError (Unit {0})
  set id state_value m =
      if text_truthy id
      then (ok tt, record m { states = map_set m.states id state_value })
      else (err no_id_supplied, m)

  found_or_missing : String → Option T → Exec (MemoryStates T) StateError T
  found_or_missing id none = throw (state_missing id)
  found_or_missing id (some result) = pure result

  unfoldable pub get_asserted : String → Exec (MemoryStates T) StateError T
  unfolding has get found_or_missing
  get_asserted id =
      if text_truthy id
      then (do
        there ← has id
        result ← if there then get id else pure none
        found_or_missing id result)
      else throw no_id_supplied

  module _ (st : StateType T) where
    -- Whether `clearExpired` drops a state at the time `ts`. An expiration of 0 counts as none.
    pub is_expired : ℕ → ℕ → T → Bool
    is_expired expires_in_ms ts state =
        if nat?_truthy (st.expires_at state)
        then ltb (get_or (st.expires_at state) 0) ts
        else ltb (st.created_at state + expires_in_ms) ts

    -- The loop of `clearExpired` over a copy of the entries.
    clear_entries : ℕ → List (String × T) → MemoryStates T → MemoryStates T
    clear_entries ts [] m = m
    clear_entries ts ((id, state) ∷ rest) m = clear_entries ts rest (
        if is_expired m.expires_in_ms ts state
        then record m { states = map_delete m.states id }
        else m)

    -- `clearExpired(timestamp)` at the time `now`.
    unfoldable pub clear_expired : Option ℕ → ℕ → Exec (MemoryStates T) StateError (Unit {0})
    unfolding clear_entries is_expired
    clear_expired timestamp now m = (ok tt, clear_entries (get_or timestamp now) m.states m)

  abbrev pub memory_states : StateType T → IStateManager T
  memory_states st = record {
    State = MemoryStates T;
    set = set;
    get = get;
    has = has;
    delete = delete;
    clear_expired = clear_expired st;
    clear_all = clear_all;
    get_asserted = get_asserted;
  }
