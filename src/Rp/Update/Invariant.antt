-- ===== src/Rp/Update/Invariant.antt =====
-- The invariant that the mappings of InMemoryRPSessionManager lead to requests, and updateMapping.
use mathlib.Core.Path.{subst}
use oid4vc.Prelude.{
  ℕ, String, ◌≡◌, sym, ap, ◌∙◌, inl, inr, Bool, true, some, List, arith, Bool-cases, Option-cases,
  go_on, Result-cases, Result, ok, err, map_get, map_set, HasUniqueKeys, map_get-map_set,
  map_set-HasUniqueKeys, ◌==◌, string_eq, nat_eq, text_truthy, is_some,
}
use oid4vc.Rp.Manager.{
  AuthorizationEvent, Manager, OnManager, Kind, nonce, state, mapping_of, kind_text, update_mapping,
  ManagerError, hashcode_for_value, with_mapping, entered, mapping_conflict,
}
use oid4vc.Rp.Update.Alike.{AreAlike}
use oid4vc.Rp.Deletion.{HasUniqueMaps, IsWithout}

pub record IsLinked (m : Manager) : Type 0 where
  pub unique : HasUniqueMaps m
  pub linked :
      (kind : Kind) (h : ℕ) (id : String)
      → map_get (mapping_of kind m) h ≡ some id
      → is_some (map_get m.authorization_requests id) ≡ true

pub IsLinked-without :
    (dead : String → Bool) (m t : Manager)
    → HasUniqueMaps t
    → IsWithout dead m t
    → IsLinked m
    → IsLinked t
IsLinked-without dead m t u p l = record {
  unique = u;
  linked = λ kind h id e. elim (Option-cases (map_get (mapping_of kind m) h)) [
    | inl nothing ↦ absurd (ground (arith, p.mapping kind h))
    | inr (v, found) ↦ ground (arith, p.mapping kind h, p.requests id, l.linked kind h v found)
  ];
}

same_mapping : (kind : Kind) (a b : Manager) → AreAlike a b → mapping_of kind b ≡ mapping_of kind a
same_mapping nonce a b p = p.nonces
same_mapping state a b p = p.states

pub IsLinked-alike : (a b : Manager) → AreAlike a b → IsLinked a → IsLinked b
IsLinked-alike a b p l = record {
  unique = record {
    requests = rw p.requests l.unique.requests;
    responses = rw p.responses l.unique.responses;
    mapping = λ kind. rw (same_mapping kind a b p) (l.unique.mapping kind);
  };
  linked = λ kind h id e.
      rw p.requests
        (l.linked kind h id (ap (λ x. map_get x h) (sym (same_mapping kind a b p)) ∙ e));
}

module _ {A B : Type 0} (P : Manager → Type 0) where
  pub go_on-keeps :
      (r : Result ManagerError A) (f : A → OnManager B) (y : Manager)
      → P y
      → ((a : A) → P (f a y).1)
      → P (go_on r f y).1
  go_on-keeps (ok a) f y p q = q a
  go_on-keeps (err e) f y p q = p

module _ (event : AuthorizationEvent) where
  -- The request of the event is there too.
  abbrev pub IsStored : Manager → Type 0
  IsStored m = IsLinked m × (is_some (map_get m.authorization_requests event.correlation_id) ≡ true)

  map_set-linked :
      (l : List (ℕ × String)) (hash : ℕ) (m : Manager)
      → ((h : ℕ) (id : String)
          → map_get l h ≡ some id
          → is_some (map_get m.authorization_requests id) ≡ true)
      → is_some (map_get m.authorization_requests event.correlation_id) ≡ true
      → (h : ℕ) (id : String) → map_get (map_set l hash event.correlation_id) h ≡ some id
      → is_some (map_get m.authorization_requests id) ≡ true
  map_set-linked l hash m linked there h id e = elim (Bool-cases (hash == h)) [
    | inl same ↦
        let i : event.correlation_id ≡ id =
          ground (arith, map_get-map_set l hash h event.correlation_id) in
        ap (λ x. is_some (map_get m.authorization_requests x)) (sym i) ∙ there
    | inr other ↦ linked h id (ground (arith, map_get-map_set l hash h event.correlation_id))
  ]

  entered-IsStored :
      (kind : Kind) (hash : ℕ) (m : Manager)
      → IsStored m
      → IsStored (with_mapping kind m (map_set (mapping_of kind m) hash event.correlation_id))
  entered-IsStored nonce hash m (l, there) = (
    record {
      unique = record {
        requests = l.unique.requests;
        responses = l.unique.responses;
        mapping = λ kind.
            elim kind
              as (λ k. HasUniqueKeys (
                mapping_of k
                  (with_mapping nonce m (map_set m.nonce_mapping hash event.correlation_id)))) [
                    | nonce ↦
                        map_set-HasUniqueKeys m.nonce_mapping hash event.correlation_id
                          (l.unique.mapping nonce)
                    | state ↦ l.unique.mapping state
                  ];
      };
      linked = λ kind.
          elim kind
            as (λ k.
              (h : ℕ) (id : String)
              → map_get
                  (mapping_of k
                    (with_mapping nonce m (map_set m.nonce_mapping hash event.correlation_id)))
                  h
                ≡ some id
              → is_some (map_get m.authorization_requests id) ≡ true) [
                | nonce ↦ map_set-linked m.nonce_mapping hash m (l.linked nonce) there
                | state ↦ l.linked state
              ];
    },
    there,
  )
  entered-IsStored state hash m (l, there) = (
    record {
      unique = record {
        requests = l.unique.requests;
        responses = l.unique.responses;
        mapping = λ kind.
            elim kind
              as (λ k. HasUniqueKeys (
                mapping_of k
                  (with_mapping state m (map_set m.state_mapping hash event.correlation_id)))) [
                    | nonce ↦ l.unique.mapping nonce
                    | state ↦
                        map_set-HasUniqueKeys m.state_mapping hash event.correlation_id
                          (l.unique.mapping state)
                  ];
      };
      linked = λ kind.
          elim kind
            as (λ k.
              (h : ℕ) (id : String)
              → map_get
                  (mapping_of k
                    (with_mapping state m (map_set m.state_mapping hash event.correlation_id)))
                  h
                ≡ some id
              → is_some (map_get m.authorization_requests id) ≡ true) [
                | nonce ↦ l.linked nonce
                | state ↦ map_set-linked m.state_mapping hash m (l.linked state) there
              ];
    },
    there,
  )

  pub update_mapping-IsStored :
      (kind : Kind) (m : Manager)
      → text_truthy event.correlation_id ≡ true
      → IsStored m
      → IsStored (update_mapping kind event (some event.correlation_id) true m).1
  unfolding update_mapping entered
  update_mapping-IsStored kind m truthy p =
      elim (Result-cases (hashcode_for_value event (kind_text kind))) [
        | inl (hash, hashed) ↦
            elim (Option-cases (
              mapping_conflict (map_get (mapping_of kind m) hash) (kind_text kind)
                (some event.correlation_id) true)) [
                  | inl fine ↦
                      let e : (update_mapping kind event (some event.correlation_id) true m).1
                          ≡ with_mapping kind m
                              (map_set (mapping_of kind m) hash event.correlation_id) =
                        ground arith in
                      subst IsStored (sym e) (entered-IsStored kind hash m p)
                  | inr (x, conflict) ↦
                      let e : (update_mapping kind event (some event.correlation_id) true m).1 ≡ m =
                        ground arith in
                      subst IsStored (sym e) p
                ]
        | inr (x, failed) ↦
            let e : (update_mapping kind event (some event.correlation_id) true m).1 ≡ m =
              ground arith in
            subst IsStored (sym e) p
      ]
