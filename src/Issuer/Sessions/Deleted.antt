-- ===== src/Issuer/Sessions/Deleted.antt =====
-- What deleteCredentialOfferSessionById of VcIssuer removes.
use oid4vc.Store.{IssuerStore, ref_at}
use oid4vc.Prelude.{
  ℕ, String, ◌≡◌, refl, ◌∙◌, inl, inr, Bool, true, ◌&&◌, ◌||◌, Option, none, some, List, ◌∷◌, arith,
  eq_iff, if◌then◌else◌, Bool-cases, Option-cases, ok, map_delete, HasUniqueKeys,
  map_get-map_delete, map_delete-HasUniqueKeys, ◌==◌, string_eq, nat_eq, text_truthy, text?_truthy,
  get_or,
}
use oid4vc.Issuer.Sessions.{delete_if_there, delete_credential_offer_session_by_id, IssuerStore}
use oid4vc.Issuer.Sessions.Found.{found_ref, get_by_id_lem}
use oid4vc.StateManager.Interface.{memory_has, memory_delete}

abbrev pub names_it : Option String → String → Bool
names_it o k = text?_truthy o && get_or o "" == k

-- The store without the sessions at some ids; the session objects stay for those who have them.
pub record IsWithoutSessions (gone : String → Bool) (s t : IssuerStore) : Type 0 where
  pub unique : HasUniqueKeys t.credential_offer_sessions.states
  pub sessions : (k : String) → ref_at t k ≡ (if gone k then none else ref_at s k)
  pub heap : t.heap ≡ s.heap
  pub uris : t.uris ≡ s.uris
  pub c_nonces : t.c_nonces ≡ s.c_nonces

delete_if_there_lem :
    (o : Option String) (s : IssuerStore)
    → HasUniqueKeys s.credential_offer_sessions.states
    → (t : IssuerStore) × (delete_if_there o s ≡ (ok tt, t)) × IsWithoutSessions (names_it o) s t
unfolding delete_if_there
delete_if_there_lem o s u = elim (Bool-cases (text?_truthy o)) [
  | inl truthy ↦
      let id : String = get_or o "" in
      let given : text_truthy id ≡ true = ground arith in
      elim (Option-cases (ref_at s id)) [
        | inl missing ↦ (
          s,
          ground (arith, memory_has id s.credential_offer_sessions given),
          record {
            unique = u;
            sessions = λ k. ground (arith, eq_iff id k);
            heap = refl;
            uris = refl;
            c_nonces = refl;
          },
        )
        | inr (r, there) ↦
            let t : IssuerStore = record s {
              credential_offer_sessions = record s.credential_offer_sessions {
                states = map_delete s.credential_offer_sessions.states id;
              };
            } in
            (
              t,
              ground (
                arith,
                memory_has id s.credential_offer_sessions given,
                memory_delete id s.credential_offer_sessions given,
              ),
              record {
                unique = map_delete-HasUniqueKeys s.credential_offer_sessions.states id u;
                sessions = λ k.
                    ground (arith, map_get-map_delete s.credential_offer_sessions.states id k u);
                heap = refl;
                uris = refl;
                c_nonces = refl;
              },
            )
      ]
  | inr empty ↦ (
    s,
    ground arith,
    record { unique = u; sessions = λ k. ground arith; heap = refl; uris = refl; c_nonces = refl },
  )
]

-- When a session is found, `deleteCredentialOfferSessionById` returns it and removes what stands at
-- its pre-authorized code and at its issuer state, and nothing else. A session that stands at another
-- id, as that of its authorization code, stays there.
pub delete_session_lem :
    (id lookup : String) (lookups : List String) (r : ℕ) (s : IssuerStore)
    → HasUniqueKeys s.credential_offer_sessions.states
    → found_ref s id ≡ some r
    → (t : IssuerStore) × (delete_credential_offer_session_by_id id (lookup ∷ lookups) s
        ≡ (ok r, t))
      × IsWithoutSessions
          (λ k. names_it (s.heap r).pre_authorized_code k || names_it (s.heap r).issuer_state k)
          s
          t
unfolding delete_credential_offer_session_by_id
delete_session_lem id lookup lookups r s u found =
    let (t1, first, p) = delete_if_there_lem (s.heap r).pre_authorized_code s u in
    let (t2, second, q) = delete_if_there_lem (s.heap r).issuer_state t1 p.unique in
    (
      t2,
      ground (arith, get_by_id_lem id lookup lookups s, first, second),
      record {
        unique = q.unique;
        sessions = λ k. ground (arith, p.sessions k, q.sessions k);
        heap = q.heap ∙ p.heap;
        uris = q.uris ∙ p.uris;
        c_nonces = q.c_nonces ∙ p.c_nonces;
      },
    )
