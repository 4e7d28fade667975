-- ===== src/Rest/Nonce.antt =====
-- nonceEndpoint (packages/issuer-rest/lib/oid4vci-api-functions.ts).
use oid4vc.Store.{on_c_nonces, IssuerStore}
use oid4vc.Types.{CNonceState}
use oid4vc.Prelude.{
  ℕ, ◌+◌, ◌*◌, String, ◌≡◌, refl, true, some, arith, eq_iff, if◌then◌else◌, map_get, map_set,
  map_get-map_set, map_set-HasUniqueKeys, ◌==◌, string_eq, nat_eq, text_truthy, nat?_truthy,
}
use oid4vc.Rest.Reply.{sent, refused, error_of, Handler, try_catch}
use oid4vc.StateManager.Memory
use oid4vc.Issuer.Issue.Nonces.{AreNoncesKeyed}

pub record NonceResponse : Type 0 where
  pub c_nonce : String
  pub c_nonce_expires_in : ℕ

-- `issuer.cNonceExpiresIn || 300`
abbrev pub nonce_life : ℕ → ℕ
nonce_life c_nonce_expires_in =
    if nat?_truthy (some c_nonce_expires_in) then c_nonce_expires_in else 300

abbrev pub fresh_nonce : (c_nonce_expires_in : ℕ) (uuid : String) (now : ℕ) → CNonceState
fresh_nonce c_nonce_expires_in uuid now = record {
  created_at = now;
  expires_at = some (now + nonce_life c_nonce_expires_in * 1000);
  c_nonce = uuid;
}

-- The nonce is what `uuidv4` gives.
unfoldable pub nonce_endpoint :
    (c_nonce_expires_in : ℕ) (uuid : String) (now : ℕ) → Handler NonceResponse
nonce_endpoint c_nonce_expires_in uuid now =
    try_catch (on_c_nonces (Memory.set uuid (fresh_nonce c_nonce_expires_in uuid now)))
      (λ _ s. (
        sent 200 (record { c_nonce = uuid; c_nonce_expires_in = nonce_life c_nonce_expires_in }),
        s,
      ))
      (λ x. refused 500 "server_error" (error_of x))

-- The nonce endpoint replies with the nonce that it stores under itself, to expire when it says; the
-- other nonces stay, every nonce state still stands under its own nonce, and the sessions and URIs
-- are left alone.
pub nonce_endpoint_lem :
    (c_nonce_expires_in : ℕ) (uuid : String) (now : ℕ) (s : IssuerStore)
    → text_truthy uuid ≡ true
    → AreNoncesKeyed s
    → (t : IssuerStore) × (nonce_endpoint c_nonce_expires_in uuid now s ≡ (
      sent 200 (record { c_nonce = uuid; c_nonce_expires_in = nonce_life c_nonce_expires_in }),
      t,
    ))
      × AreNoncesKeyed t
      × ((n : String)
          → map_get t.c_nonces.states n ≡ (
              if uuid == n
              then some (fresh_nonce c_nonce_expires_in uuid now)
              else map_get s.c_nonces.states n))
      × (t.heap ≡ s.heap)
      × (t.credential_offer_sessions ≡ s.credential_offer_sessions)
      × (t.uris ≡ s.uris)
unfolding nonce_endpoint Memory.set
nonce_endpoint_lem c_nonce_expires_in uuid now s truthy keyed =
    let c : CNonceState = fresh_nonce c_nonce_expires_in uuid now in
    let t : IssuerStore = record s {
      c_nonces = record s.c_nonces { states = map_set s.c_nonces.states uuid c };
    } in
    (
      t,
      ground arith,
      record {
        unique = map_set-HasUniqueKeys s.c_nonces.states uuid c keyed.unique;
        keyed = λ n d h.
            ground
              (arith, map_get-map_set s.c_nonces.states uuid n c, keyed.keyed n d, eq_iff uuid n);
      },
      λ n. map_get-map_set s.c_nonces.states uuid n c,
      refl,
      refl,
      refl,
    )
