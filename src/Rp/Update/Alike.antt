-- ===== src/Rp/Update/Alike.antt =====
-- The end of updateState of InMemoryRPSessionManager, after the mappings: query id, callback and
-- post leave the requests, the responses and the mappings as they are.
use oid4vc.Prelude.{
  ◌≡◌, refl, ◌∙◌, inl, inr, arith, Bool-cases, Option-cases, go_on, ◌>>◌, Result, ok, err, map_get,
  string_eq, nat_eq, text?_truthy,
}
use oid4vc.Rp.Manager.{Status, AuthorizationEvent, SessionState, Manager, OnManager, ManagerError}
use oid4vc.Rp.Update.{request_state, event_query_id, store_query_id, store_callback, trigger}

-- Managers that differ in callbacks, query ids and posts at most.
pub record AreAlike (a b : Manager) : Type 0 where
  pub requests : b.authorization_requests ≡ a.authorization_requests
  pub responses : b.authorization_responses ≡ a.authorization_responses
  pub nonces : b.nonce_mapping ≡ a.nonce_mapping
  pub states : b.state_mapping ≡ a.state_mapping
  pub max_age : b.max_age_in_seconds ≡ a.max_age_in_seconds

AreAlike-refl : (m : Manager) → AreAlike m m
AreAlike-refl m = record {
  requests = refl;
  responses = refl;
  nonces = refl;
  states = refl;
  max_age = refl;
}

AreAlike-trans : (a b c : Manager) → AreAlike a b → AreAlike b c → AreAlike a c
AreAlike-trans a b c p q = record {
  requests = q.requests ∙ p.requests;
  responses = q.responses ∙ p.responses;
  nonces = q.nonces ∙ p.nonces;
  states = q.states ∙ p.states;
  max_age = q.max_age ∙ p.max_age;
}

module _ {A B : Type 0} where
  go_on-AreAlike :
      (r : Result ManagerError A) (f : A → OnManager B) (x y : Manager)
      → AreAlike x y
      → ((a : A) → AreAlike y (f a y).1)
      → AreAlike x (go_on r f y).1
  go_on-AreAlike (ok a) f x y p q = AreAlike-trans x y _ p (q a)
  go_on-AreAlike (err e) f x y p q = p

module _ (event : AuthorizationEvent) (status : Status) where
  -- The state that the request gets.
  abbrev pub next_state : Manager → SessionState
  next_state m =
      request_state event status (event_query_id event m)
        (map_get m.authorization_requests event.correlation_id)

  store_query_id-AreAlike : (m : Manager) → AreAlike m (store_query_id event m).1
  unfolding store_query_id
  store_query_id-AreAlike m = elim (Bool-cases (text?_truthy event.query_id)) [
    | inl there ↦
        rw there (record {
          requests = refl;
          responses = refl;
          nonces = refl;
          states = refl;
          max_age = refl;
        })
    | inr empty ↦ rw empty (AreAlike-refl m)
  ]

  store_callback-AreAlike : (m : Manager) → AreAlike m (store_callback event m).1
  unfolding store_callback
  store_callback-AreAlike m = elim (Option-cases event.callback) [
    | inl nothing ↦ rw nothing (AreAlike-refl m)
    | inr (c, there) ↦
        rw there (record {
          requests = refl;
          responses = refl;
          nonces = refl;
          states = refl;
          max_age = refl;
        })
  ]

  pub trigger-AreAlike : (s : SessionState) (m : Manager) → AreAlike m (trigger event status s m).1
  unfolding trigger
  trigger-AreAlike s m = record {
    requests = ground arith;
    responses = ground arith;
    nonces = ground arith;
    states = ground arith;
    max_age = ground arith;
  }

  unfoldable pub tail : SessionState → OnManager (Unit {0})
  tail s = do store_query_id event; store_callback event; trigger event status s

  pub tail-AreAlike : (s : SessionState) (m : Manager) → AreAlike m (tail s m).1
  unfolding tail
  tail-AreAlike s m =
      go_on-AreAlike (store_query_id event m).0 _ m _ (store_query_id-AreAlike m) (λ _.
        go_on-AreAlike (store_callback event (store_query_id event m).1).0 _ _ _
          (store_callback-AreAlike _) (λ _. trigger-AreAlike s _))
