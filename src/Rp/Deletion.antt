-- ===== src/Rp/Deletion.antt =====
-- What deleteStateForCorrelationId and cleanup of InMemoryRPSessionManager leave behind.
use oid4vc.Prelude.{
  ℕ, String, ◌≡◌, refl, ap, ◌∙◌, inl, inr, Bool, false, ◌||◌, Option, none, some, List, [], ◌∷◌,
  arith, eq_iff, if◌then◌else◌, nat_beq_iff, Bool-cases, Option-cases, includes, map_get,
  map_delete, HasUniqueKeys, map_get-map_has, map_get-map_delete, map_delete-HasUniqueKeys, ◌==◌,
  string_eq, nat_eq, text?_eq,
}
use oid4vc.Rp.Manager.{Manager, SessionState, Kind, nonce, state, mapping_of}
use oid4vc.Rp.Update.{
  keys_for, delete_keys, clean_mapping, delete_state_for_correlation_id, is_too_old, clean_entries,
  cleanup,
}

-- The maps of a manager have each key once.
pub record HasUniqueMaps (m : Manager) : Type 0 where
  pub requests : HasUniqueKeys m.authorization_requests
  pub responses : HasUniqueKeys m.authorization_responses
  pub mapping : (kind : Kind) → HasUniqueKeys (mapping_of kind m)

keys_for_lem :
    (m : List (ℕ × String)) (id : String) (h : ℕ)
    → HasUniqueKeys m
    → includes (keys_for m id) h ≡ text?_eq (map_get m h) (some id)
unfolding keys_for map_get
keys_for_lem [] id h u = refl
keys_for_lem ((k, v) ∷ m) id h u =
    ground (arith, eq_iff v id, nat_beq_iff k h, map_get-map_has m k u.0, keys_for_lem m id h u.1)

delete_keys_lem :
    (ks : List ℕ) (m : List (ℕ × String)) (h : ℕ)
    → HasUniqueKeys m
    → map_get (delete_keys ks m) h ≡ (if includes ks h then none else map_get m h)
unfolding delete_keys
delete_keys_lem [] m h u = refl
delete_keys_lem (k ∷ ks) m h u = ground (
  arith,
  delete_keys_lem ks (map_delete m k) h (map_delete-HasUniqueKeys m k u),
  map_get-map_delete m k h u,
)

delete_keys-HasUniqueKeys :
    (ks : List ℕ) (m : List (ℕ × String)) → HasUniqueKeys m → HasUniqueKeys (delete_keys ks m)
unfolding delete_keys
delete_keys-HasUniqueKeys [] m u = u
delete_keys-HasUniqueKeys (k ∷ ks) m u =
    delete_keys-HasUniqueKeys ks (map_delete m k) (map_delete-HasUniqueKeys m k u)

clean_mapping_lem :
    (m : List (ℕ × String)) (id : String) (h : ℕ)
    → HasUniqueKeys m
    → map_get (clean_mapping m id) h
      ≡ (if text?_eq (map_get m h) (some id) then none else map_get m h)
unfolding clean_mapping
clean_mapping_lem m id h u =
    delete_keys_lem (keys_for m id) m h u
    ∙ ap (λ b. if b then none else map_get m h) (keys_for_lem m id h u)

-- The entries that stay when the ids of a set go.
abbrev pub unless_dead : (String → Bool) → Option String → Option String
unless_dead dead none = none
unless_dead dead (some id) = if dead id then none else some id

-- The maps of `t` are those of `m` without the ids of a set.
pub record IsWithout (dead : String → Bool) (m t : Manager) : Type 0 where
  pub requests :
      (k : String)
      → map_get t.authorization_requests k
        ≡ (if dead k then none else map_get m.authorization_requests k)
  pub responses :
      (k : String)
      → map_get t.authorization_responses k
        ≡ (if dead k then none else map_get m.authorization_responses k)
  pub mapping :
      (kind : Kind) (h : ℕ)
      → map_get (mapping_of kind t) h ≡ unless_dead dead (map_get (mapping_of kind m) h)
  pub callbacks : t.callback_mapping ≡ m.callback_mapping
  pub query_ids : t.query_id_mapping ≡ m.query_id_mapping
  pub max_age : t.max_age_in_seconds ≡ m.max_age_in_seconds

mapping_of-delete :
    (kind : Kind) (id : String) (m : Manager)
    → mapping_of kind (delete_state_for_correlation_id id m) ≡ clean_mapping (mapping_of kind m) id
unfolding delete_state_for_correlation_id
mapping_of-delete nonce id m = refl
mapping_of-delete state id m = refl

clean_mapping-HasUniqueKeys :
    (m : List (ℕ × String)) (id : String) → HasUniqueKeys m → HasUniqueKeys (clean_mapping m id)
unfolding clean_mapping
clean_mapping-HasUniqueKeys m id u = delete_keys-HasUniqueKeys (keys_for m id) m u

delete-HasUniqueMaps :
    (id : String) (m : Manager)
    → HasUniqueMaps m
    → HasUniqueMaps (delete_state_for_correlation_id id m)
unfolding delete_state_for_correlation_id clean_mapping
delete-HasUniqueMaps id m u = record {
  requests = map_delete-HasUniqueKeys m.authorization_requests id u.requests;
  responses = map_delete-HasUniqueKeys m.authorization_responses id u.responses;
  mapping = λ kind.
      rw (mapping_of-delete kind id m)
        (clean_mapping-HasUniqueKeys (mapping_of kind m) id (u.mapping kind));
}

clean_mapping_id :
    (m : List (ℕ × String)) (id : String) (h : ℕ)
    → HasUniqueKeys m
    → map_get (clean_mapping m id) h ≡ unless_dead (λ k. id == k) (map_get m h)
clean_mapping_id m id h u = elim (Option-cases (map_get m h)) [
  | inl nothing ↦ ground (arith, clean_mapping_lem m id h u)
  | inr (v, found) ↦ ground (arith, clean_mapping_lem m id h u, eq_iff id v, eq_iff v id)
]

-- `deleteStateForCorrelationId` removes the request, the response and every nonce and state of the
-- id, and of no other id. The callback and the query id of the id stay.
pub delete_state_for_correlation_id_lem :
    (id : String) (m : Manager)
    → HasUniqueMaps m
    → HasUniqueMaps (delete_state_for_correlation_id id m)
      × IsWithout (λ k. id == k) m (delete_state_for_correlation_id id m)
unfolding delete_state_for_correlation_id
delete_state_for_correlation_id_lem id m u = (
  delete-HasUniqueMaps id m u,
  record {
    requests = λ k. map_get-map_delete m.authorization_requests id k u.requests;
    responses = λ k. map_get-map_delete m.authorization_responses id k u.responses;
    mapping = λ kind h.
        rw (mapping_of-delete kind id m)
          (clean_mapping_id (mapping_of kind m) id h (u.mapping kind));
    callbacks = refl;
    query_ids = refl;
    max_age = refl;
  },
)

-- Whether a state is there and too old.
abbrev pub expired : (max_age_in_seconds now : ℕ) → Option SessionState → Bool
expired max now none = false
expired max now (some s) = is_too_old max now s

IsWithout-trans :
    (first second both : String → Bool) (a b c : Manager)
    → ((k : String) → both k ≡ (first k || second k))
    → IsWithout first a b
    → IsWithout second b c
    → IsWithout both a c
IsWithout-trans first second both a b c sum p q = record {
  requests = λ k. ground (arith, p.requests k, q.requests k, sum k);
  responses = λ k. ground (arith, p.responses k, q.responses k, sum k);
  mapping = λ kind h. elim (Option-cases (map_get (mapping_of kind a) h)) [
    | inl nothing ↦ ground (arith, p.mapping kind h, q.mapping kind h)
    | inr (v, found) ↦ ground (arith, p.mapping kind h, q.mapping kind h, sum v)
  ];
  callbacks = q.callbacks ∙ p.callbacks;
  query_ids = q.query_ids ∙ p.query_ids;
  max_age = q.max_age ∙ p.max_age;
}

IsWithout-none :
    (dead : String → Bool) (m : Manager) → ((k : String) → dead k ≡ false) → IsWithout dead m m
IsWithout-none dead m h = record {
  requests = λ k. rw (h k) refl;
  responses = λ k. rw (h k) refl;
  mapping = λ kind j. elim (Option-cases (map_get (mapping_of kind m) j)) [
    | inl nothing ↦ ground arith
    | inr (v, found) ↦ ground (arith, h v)
  ];
  callbacks = refl;
  query_ids = refl;
  max_age = refl;
}

clean_entries_lem :
    (now : ℕ) (copy : List (String × SessionState)) (m : Manager)
    → HasUniqueKeys copy
    → HasUniqueMaps m
    → HasUniqueMaps (clean_entries now copy m)
      × IsWithout
          (λ k. expired m.max_age_in_seconds now (map_get copy k))
          m
          (clean_entries now copy m)
unfolding clean_entries map_get
clean_entries_lem now [] m uc u = (u, IsWithout-none _ m (λ k. refl))
clean_entries_lem now ((id, s) ∷ rest) m uc u =
    elim (Bool-cases (is_too_old m.max_age_in_seconds now s)) [
      | inl old ↦
          let (u1, p) = delete_state_for_correlation_id_lem id m u in
          let (u2, q) = clean_entries_lem now rest (delete_state_for_correlation_id id m) uc.1 u1 in
          rw (old, clean_entries)
            (
              u2,
              IsWithout-trans _ _ _ m (delete_state_for_correlation_id id m) _
                  (λ k. ground (arith, eq_iff id k, map_get-map_has rest id uc.0, p.max_age)) p q,
            )
      | inr fresh ↦
          let (u2, q) = clean_entries_lem now rest m uc.1 u in
          rw (fresh, clean_entries)
            (
              u2,
              IsWithout-trans _ _ _ m m _
                  (λ k. ground (arith, eq_iff id k, map_get-map_has rest id uc.0))
                  (IsWithout-none (λ k. false) m (λ k. refl)) q,
            )
    ]

-- Whether a session's request or its response is too old.
abbrev pub is_dead : ℕ → Manager → String → Bool
is_dead now m k =
    expired m.max_age_in_seconds now (map_get m.authorization_requests k)
    || expired m.max_age_in_seconds now (map_get m.authorization_responses k)

-- `cleanup` removes exactly the sessions whose request or response was last updated longer ago than
-- the maximum age, with their nonces and states. With a maximum age of 0 it removes nothing.
pub cleanup_lem :
    (now : ℕ) (m : Manager)
    → HasUniqueMaps m
    → HasUniqueMaps (cleanup now m) × IsWithout (is_dead now m) m (cleanup now m)
unfolding cleanup
cleanup_lem now m u =
    let first = clean_entries now m.authorization_requests m in
    let (u1, p) = clean_entries_lem now m.authorization_requests m u.requests u in
    let (u2, q) = clean_entries_lem now first.authorization_responses first u1.responses u1 in
    (u2, IsWithout-trans _ _ _ m first _ (λ k. ground (arith, p.responses k, p.max_age)) p q)
