-- ===== src/Rp/Update/Preserved.antt =====
-- updateRequestState and updateResponseState keep the mappings linked to requests.
use mathlib.Core.Path.{subst}
use oid4vc.Prelude.{
  ℕ, String, ◌≡◌, refl, sym, inl, inr, true, some, arith, Bool-cases, map_get, HasUniqueKeys,
  map_get-map_set, map_set-HasUniqueKeys, string_eq, nat_eq, ==_refl, text_truthy, is_some,
}
use oid4vc.Rp.Manager.{
  Status, AuthorizationEvent, SessionState, Manager, nonce, state, mapping_of, update_mapping,
}
use oid4vc.Rp.Update.{
  store_response, update_request, update_request_state, update_response, update_response_state,
  store_request, response_state, event_query_id,
}
use oid4vc.Rp.Update.Alike.{next_state, trigger-AreAlike, tail, tail-AreAlike}
use oid4vc.Rp.Update.Invariant.{
  IsLinked, IsLinked-alike, IsStored, go_on-keeps, update_mapping-IsStored,
}

module _ (event : AuthorizationEvent) (status : Status) where
  store_request-IsStored :
      (m : Manager)
      → IsLinked m
      → IsStored event (store_request event (next_state event status m) m).1
  unfolding store_request
  store_request-IsStored m l = (
    record {
      unique = record {
        requests =
            map_set-HasUniqueKeys m.authorization_requests event.correlation_id _ l.unique.requests;
        responses = l.unique.responses;
        mapping = λ kind.
            elim kind
              as (λ k.
                HasUniqueKeys
                  (mapping_of k (store_request event (next_state event status m) m).1)) [
                    | nonce ↦ l.unique.mapping nonce
                    | state ↦ l.unique.mapping state
                  ];
      };
      linked = λ kind.
          elim kind
            as (λ k.
              (h : ℕ) (id : String)
              → map_get (mapping_of k (store_request event (next_state event status m) m).1) h
                ≡ some id
              → is_some (
                  map_get
                    (store_request event (next_state event status m) m).1.authorization_requests id)
                ≡ true) [
                  | nonce ↦ λ h id e. ground (
                    arith,
                    map_get-map_set m.authorization_requests event.correlation_id id
                        (next_state event status m),
                    l.linked nonce h id e,
                  )
                  | state ↦ λ h id e. ground (
                    arith,
                    map_get-map_set m.authorization_requests event.correlation_id id
                        (next_state event status m),
                    l.linked state h id e,
                  )
                ];
    },
    rw (map_get-map_set, ==_refl) refl,
  )

  update_request-IsLinked :
      (m : Manager)
      → text_truthy event.correlation_id ≡ true
      → IsLinked m
      → IsLinked (update_request event status m).1
  unfolding update_request tail
  update_request-IsLinked m truthy l =
      let s : SessionState = next_state event status m in
      let m1 : Manager = (store_request event s m).1 in
      let m2 : Manager = (update_mapping nonce event (some event.correlation_id) true m1).1 in
      let m3 : Manager = (update_mapping state event (some event.correlation_id) true m2).1 in
      let p1 : IsStored event m1 = store_request-IsStored m l in
      let p2 : IsStored event m2 = update_mapping-IsStored event nonce m1 truthy p1 in
      let p3 : IsStored event m3 = update_mapping-IsStored event state m2 truthy p2 in
      go_on-keeps IsLinked (update_mapping nonce event (some event.correlation_id) true m1).0 _ m2
        p2.0
        (λ _.
          go_on-keeps IsLinked (update_mapping state event (some event.correlation_id) true m2).0 _
            m3 p3.0 (λ _. IsLinked-alike m3 _ (tail-AreAlike event status s m3) p3.0))

  pub update_request_state-IsLinked :
      (m : Manager) → IsLinked m → IsLinked (update_request_state event status m).1
  unfolding update_request_state
  update_request_state-IsLinked m l = elim (Bool-cases (text_truthy event.correlation_id)) [
    | inl truthy ↦
        let e : (update_request_state event status m).1 ≡ (update_request event status m).1 =
          ground arith in
        subst IsLinked (sym e) (update_request-IsLinked m truthy l)
    | inr empty ↦
        let e : (update_request_state event status m).1 ≡ m = ground arith in
        subst IsLinked (sym e) l
  ]

  update_response-IsLinked :
      (m : Manager) → IsLinked m → IsLinked (update_response event status m).1
  unfolding update_response store_response
  update_response-IsLinked m l =
      let s : SessionState = response_state event status (event_query_id event m) in
      let m1 : Manager = (store_response event s m).1 in
      IsLinked-alike m1 _ (trigger-AreAlike event status s m1) (record {
        unique = record {
          requests = l.unique.requests;
          responses =
              map_set-HasUniqueKeys m.authorization_responses event.correlation_id s
                l.unique.responses;
          mapping = λ kind. elim kind as (λ k. HasUniqueKeys (mapping_of k m1)) [
            | nonce ↦ l.unique.mapping nonce
            | state ↦ l.unique.mapping state
          ];
        };
        linked = λ kind.
            elim kind
              as (λ k.
                (h : ℕ) (id : String)
                → map_get (mapping_of k m1) h ≡ some id
                → is_some (map_get m.authorization_requests id) ≡ true) [
                  | nonce ↦ l.linked nonce
                  | state ↦ l.linked state
                ];
      })

  pub update_response_state-IsLinked :
      (m : Manager) → IsLinked m → IsLinked (update_response_state event status m).1
  unfolding update_response_state
  update_response_state-IsLinked m l = elim (Bool-cases (text_truthy event.correlation_id)) [
    | inl truthy ↦
        let e : (update_response_state event status m).1 ≡ (update_response event status m).1 =
          ground arith in
        subst IsLinked (sym e) (update_response-IsLinked m l)
    | inr empty ↦
        let e : (update_response_state event status m).1 ≡ m = ground arith in
        subst IsLinked (sym e) l
  ]
