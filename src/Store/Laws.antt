-- ===== src/Store/Laws.antt =====
-- The calls of the managers, by what they find in the store and do to it.
use oid4vc.Prelude.{
  ℕ, String, ◌≡◌, refl, true, none, some, List, [], ◌∷◌, arith, ok, err, map_get, map_set,
  string_eq, nat_eq, text_truthy,
}
use oid4vc.StateManager.Memory
use oid4vc.StateManager.{state_missing}
use oid4vc.StateManager.Interface.{memory_set, memory_get_asserted}
use oid4vc.Store.{IssuerStore, get_session, set_session, ref_at, get_asserted_session, of_state}

pub get_session_lem : (id : String) (s : IssuerStore) → get_session id s ≡ (ok (ref_at s id), s)
unfolding Memory.get
get_session_lem id s = refl

-- Writing the id's own reference back changes nothing.
map_set_same {ℓ} :
    {V : Type ℓ} (m : List (String × V)) (k : String) (v : V)
    → map_get m k ≡ some v
    → map_set m k v ≡ m
unfolding map_get map_set
map_set_same [] k v h = cc
map_set_same ((j, w) ∷ m) k v h = ground (arith, map_set_same m k v)

pub set_session_same :
    (id : String) (r : ℕ) (s : IssuerStore)
    → text_truthy id ≡ true
    → ref_at s id ≡ some r
    → set_session id r s ≡ (ok tt, s)
set_session_same id r s truthy found = ground (
  arith,
  memory_set id r s.credential_offer_sessions truthy,
  map_set_same s.credential_offer_sessions.states id r found,
)

pub get_asserted_found :
    (id : String) (r : ℕ) (s : IssuerStore)
    → text_truthy id ≡ true
    → ref_at s id ≡ some r
    → get_asserted_session id s ≡ (ok r, s)
get_asserted_found id r s truthy found =
    ground (arith, memory_get_asserted id s.credential_offer_sessions truthy)

pub get_asserted_missing :
    (id : String) (s : IssuerStore)
    → text_truthy id ≡ true
    → ref_at s id ≡ none
    → get_asserted_session id s ≡ (err (of_state (state_missing id)), s)
get_asserted_missing id s truthy missing =
    ground (arith, memory_get_asserted id s.credential_offer_sessions truthy)
