-- ===== src/Store.antt =====
-- The state of an issuer over MemoryStates: a `Map` keeps references, so that two ids can lead to
-- one session object and a write to the object shows under both. Sessions are cells of a heap;
-- nonces and URI states are never changed in place, and are kept as values.
pub mod Laws
use oid4vc.Prelude.{
  ℕ, ◌+◌, ◌<◌, String, ◌≡◌, Option, none, some, nat_beq, if◌then◌else◌, Exec, ok, err, map_get,
  HasUniqueKeys, string_eq, nat_eq,
}
use oid4vc.StateManager.{StateError}
use oid4vc.StateManager.Memory
use oid4vc.StateManager.Memory.{MemoryStates}
use oid4vc.Types.{CredentialOfferSession, CNonceState, UriState, IssuerError, of_state}

pub record IssuerStore : Type 0 where
  -- the cells below `next_cell` are in use
  pub heap : ℕ → CredentialOfferSession
  pub next_cell : ℕ
  pub credential_offer_sessions : MemoryStates ℕ
  pub uris : MemoryStates UriState
  pub c_nonces : MemoryStates CNonceState

abbrev pub Issuer : Type 0 → Type 0
Issuer A = Exec IssuerStore IssuerError A

-- A call of one of the managers, whose errors pass through.
abbrev pub on_sessions : {A : Type 0} → Exec (MemoryStates ℕ) StateError A → Issuer A
on_sessions m s = elim (m s.credential_offer_sessions).0 [
  | ok a ↦ (ok a, record s { credential_offer_sessions = (m s.credential_offer_sessions).1 })
  | err x ↦
      (err (of_state x), record s { credential_offer_sessions = (m s.credential_offer_sessions).1 })
]

abbrev pub on_uris : {A : Type 0} → Exec (MemoryStates UriState) StateError A → Issuer A
on_uris m s = elim (m s.uris).0 [
  | ok a ↦ (ok a, record s { uris = (m s.uris).1 })
  | err x ↦ (err (of_state x), record s { uris = (m s.uris).1 })
]

abbrev pub on_c_nonces : {A : Type 0} → Exec (MemoryStates CNonceState) StateError A → Issuer A
on_c_nonces m s = elim (m s.c_nonces).0 [
  | ok a ↦ (ok a, record s { c_nonces = (m s.c_nonces).1 })
  | err x ↦ (err (of_state x), record s { c_nonces = (m s.c_nonces).1 })
]

-- `session.field = …` on the object at a cell.
abbrev pub update_cell :
    (ℕ → CredentialOfferSession)
    → ℕ
    → (CredentialOfferSession → CredentialOfferSession)
    → ℕ
    → CredentialOfferSession
update_cell heap r f i = if nat_beq r i then f (heap i) else heap i

abbrev pub write : ℕ → (CredentialOfferSession → CredentialOfferSession) → Issuer (Unit {0})
write r f s = (ok tt, record s { heap = update_cell s.heap r f })

abbrev pub read : ℕ → Issuer CredentialOfferSession
read r s = (ok (s.heap r), s)

-- A new object.
abbrev pub allocate : CredentialOfferSession → Issuer ℕ
allocate session s = (
  ok s.next_cell,
  record s { heap = update_cell s.heap s.next_cell (λ _. session); next_cell = s.next_cell + 1 },
)

-- The session that an id leads to.
abbrev pub ref_at : IssuerStore → String → Option ℕ
ref_at s id = map_get s.credential_offer_sessions.states id

abbrev pub at_ref : (ℕ → CredentialOfferSession) → Option ℕ → Option CredentialOfferSession
at_ref heap none = none
at_ref heap (some r) = some (heap r)

abbrev pub session_at : IssuerStore → String → Option CredentialOfferSession
session_at s id = at_ref s.heap (ref_at s id)

-- A cell in use for every id, and each id once.
pub record IsValid (s : IssuerStore) : Type 0 where
  pub in_use : (id : String) (r : ℕ) → ref_at s id ≡ some r → r < s.next_cell
  pub sessions_unique : HasUniqueKeys s.credential_offer_sessions.states
  pub uris_unique : HasUniqueKeys s.uris.states
  pub nonces_unique : HasUniqueKeys s.c_nonces.states

-- The calls that handlers make, by what they do to the store.
abbrev pub get_session : String → Issuer (Option ℕ)
get_session id = on_sessions (Memory.get id)

abbrev pub get_asserted_session : String → Issuer ℕ
get_asserted_session id = on_sessions (Memory.get_asserted id)

abbrev pub set_session : String → ℕ → Issuer (Unit {0})
set_session id r = on_sessions (Memory.set id r)
