-- ===== src/StateManager/Memory/Expiry.antt =====
-- What `clearExpired` of MemoryStates keeps: its loop over a copy of the entries, with deletions
-- from the map, against one test for each entry.
use oid4vc.Prelude.{
  ℕ, String, ◌≡◌, refl, inl, inr, Option, none, some, List, [], ◌∷◌, arith, eq_iff, if◌then◌else◌,
  Bool-cases, map_get, map_delete, HasUniqueKeys, map_get-map_has, map_get-map_delete,
  map_delete-HasUniqueKeys, string_eq, nat_eq, get_or,
}
use oid4vc.StateManager.{StateType}
use oid4vc.StateManager.Memory.{MemoryStates, is_expired, clear_entries, clear_expired}

module _ {T : Type 0} (st : StateType T) where
  -- A value that is dropped where it has expired.
  abbrev pub if_live : (expires_in_ms ts : ℕ) → Option T → Option T
  if_live ms ts none = none
  if_live ms ts (some state) = if is_expired st ms ts state then none else some state

  -- What the loop leaves at a key: the map's value, unless a copied entry of that key has expired.
  abbrev left_by : (expires_in_ms ts : ℕ) → Option T → Option T → Option T
  left_by ms ts none found = found
  left_by ms ts (some state) found = if is_expired st ms ts state then none else found

  clear_entries-HasUniqueKeys :
      (ts : ℕ) (copy : List (String × T)) (m : MemoryStates T)
      → HasUniqueKeys m.states
      → HasUniqueKeys (clear_entries st ts copy m).states
  unfolding clear_entries
  clear_entries-HasUniqueKeys ts [] m u = u
  clear_entries-HasUniqueKeys ts ((id, state) ∷ rest) m u =
      clear_entries-HasUniqueKeys ts rest _ (ground (arith, map_delete-HasUniqueKeys m.states id u))

  clear_entries_get :
      (ts : ℕ) (copy : List (String × T)) (m : MemoryStates T) (k : String)
      → HasUniqueKeys copy
      → HasUniqueKeys m.states
      → map_get (clear_entries st ts copy m).states k
        ≡ left_by m.expires_in_ms ts (map_get copy k) (map_get m.states k)
  unfolding clear_entries map_get
  clear_entries_get ts [] m k uc u = refl
  clear_entries_get ts ((id, state) ∷ rest) m k uc u =
      elim (Bool-cases (is_expired st m.expires_in_ms ts state)) [
        | inl gone ↦
            rw (gone, clear_entries)
              (ground (
                arith,
                eq_iff id k,
                map_get-map_has rest id uc.0,
                map_get-map_delete m.states id k u,
                clear_entries_get ts rest (record m { states = map_delete m.states id }) k uc.1
                    (map_delete-HasUniqueKeys m.states id u),
              ))
        | inr kept ↦
            rw (kept, clear_entries)
              (ground (
                arith,
                eq_iff id k,
                map_get-map_has rest id uc.0,
                clear_entries_get ts rest m k uc.1 u,
              ))
      ]

  -- After `clearExpired` a key has what it had, unless that has expired; no key is added.
  pub clear_expired_get :
      (timestamp : Option ℕ) (now : ℕ) (m : MemoryStates T) (k : String)
      → HasUniqueKeys m.states
      → map_get (clear_expired st timestamp now m).1.states k
        ≡ if_live m.expires_in_ms (get_or timestamp now) (map_get m.states k)
  unfolding clear_expired
  clear_expired_get timestamp now m k u =
      ground (arith, clear_entries_get (get_or timestamp now) m.states m k u u)

  pub clear_expired-HasUniqueKeys :
      (timestamp : Option ℕ) (now : ℕ) (m : MemoryStates T)
      → HasUniqueKeys m.states
      → HasUniqueKeys (clear_expired st timestamp now m).1.states
  unfolding clear_expired
  clear_expired-HasUniqueKeys timestamp now m u =
      clear_entries-HasUniqueKeys (get_or timestamp now) m.states m u

  clear_entries-expires_in_ms :
      (ts : ℕ) (copy : List (String × T)) (m : MemoryStates T)
      → (clear_entries st ts copy m).expires_in_ms ≡ m.expires_in_ms
  unfolding clear_entries
  clear_entries-expires_in_ms ts [] m = refl
  clear_entries-expires_in_ms ts ((id, state) ∷ rest) m = ground (
    arith,
    clear_entries-expires_in_ms ts rest (
        if is_expired st m.expires_in_ms ts state
        then record m { states = map_delete m.states id }
        else m),
  )

  pub clear_expired-expires_in_ms :
      (timestamp : Option ℕ) (now : ℕ) (m : MemoryStates T)
      → (clear_expired st timestamp now m).1.expires_in_ms ≡ m.expires_in_ms
  unfolding clear_expired
  clear_expired-expires_in_ms timestamp now m =
      clear_entries-expires_in_ms (get_or timestamp now) m.states m
