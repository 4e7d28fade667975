-- ===== src/Offer/Mapped.antt =====
-- The storing of a session under its ids, `set_session_mapped` and what createCredentialOfferURI of
-- packages/issuer/lib/VcIssuer.ts throws on the way.
use mathlib.Core.Path.{subst}
use oid4vc.StateManager.Interface.{memory_set}
use oid4vc.Prelude.{
  ℕ, ◌<◌, String, ◌≡◌, refl, sym, ap, inl, inr, Bool, true, false, ◌&&◌, Option, none, some, arith,
  if◌then◌else◌, Bool-cases, throw, Result, ok, err, map_get, map_set, map_get-map_set,
  map_set-HasUniqueKeys, ◌==◌, string_eq, nat_eq, text_truthy, text?_truthy,
}
use oid4vc.StateManager.Lookup.{set_mapped}
use oid4vc.Types.{UriState, Message, IssuerError}
use oid4vc.Store.{IssuerStore, Issuer, IsValid, ref_at}
use oid4vc.Offer.Create.{set_session_mapped, or_throw, throw_unless}

-- Whether an id is that of the key, which may be missing.

abbrev pub is_key : Option String → String → Bool
is_key none id = false
is_key (some key) id = text_truthy key && (key == id)

-- The session stands under the key, everything else under ids and references is as before.
pub record IsMapped (key : Option String) (session : ℕ) (s t : IssuerStore) : Type 0 where
  pub valid : IsValid t
  pub refs : (id : String) → ref_at t id ≡ (if is_key key id then some session else ref_at s id)
  pub same_heap : t.heap ≡ s.heap
  pub same_next : t.next_cell ≡ s.next_cell
  pub same_nonces : t.c_nonces ≡ s.c_nonces

module _ (key c : String) (state : UriState) (session : ℕ) (s : IssuerStore) where
  abbrev mapped : IssuerStore
  mapped = record s {
    uris = record (s.uris) { states = map_set s.uris.states c state };
    credential_offer_sessions = record (s.credential_offer_sessions) {
      states = map_set s.credential_offer_sessions.states key session;
    };
  }

  set_session_mapped_lem :
      text_truthy key ≡ true
      → state.correlation_id ≡ some c
      → text_truthy c ≡ true
      → set_session_mapped (some key) state session s ≡ (ok tt, mapped)
  unfolding set_session_mapped set_mapped
  set_session_mapped_lem kt given ct =
      ground
        (arith, memory_set c state s.uris ct, memory_set key session s.credential_offer_sessions kt)

  mapped-IsMapped :
      text_truthy key ≡ true
      → IsValid s
      → session < s.next_cell
      → IsMapped (some key) session s mapped
  mapped-IsMapped kt v used = record {
    valid = record {
      in_use = λ id r found.
          ground (
            arith,
            map_get-map_set s.credential_offer_sessions.states key id session,
            v.in_use id r,
          );
      sessions_unique =
          map_set-HasUniqueKeys s.credential_offer_sessions.states key session v.sessions_unique;
      uris_unique = map_set-HasUniqueKeys s.uris.states c state v.uris_unique;
      nonces_unique = v.nonces_unique;
    };
    refs = λ id. ground (arith, map_get-map_set s.credential_offer_sessions.states key id session);
    same_heap = refl;
    same_next = refl;
    same_nonces = refl;
  }

pub unchanged-IsMapped :
    (key : Option String) (session : ℕ) (s : IssuerStore)
    → ((id : String) → is_key key id ≡ false)
    → IsValid s
    → IsMapped key session s s
unchanged-IsMapped key session s no_key v = record {
  valid = v;
  refs = λ id. rw (no_key id) refl;
  same_heap = refl;
  same_next = refl;
  same_nonces = refl;
}

pub set_session_mapped-IsMapped :
    (key : Option String) (c : String) (state : UriState) (session : ℕ) (s : IssuerStore)
    → IsValid s
    → session < s.next_cell
    → state.correlation_id ≡ some c
    → text_truthy c ≡ true
    → IsMapped key session s (set_session_mapped key state session s).1
unfolding set_session_mapped
set_session_mapped-IsMapped none c state session s v used given ct =
    unchanged-IsMapped none session s (λ id. refl) v
set_session_mapped-IsMapped (some key) c state session s v used given ct =
    elim (Bool-cases (text_truthy key)) [
      | inl kt ↦
          subst (IsMapped (some key) session s)
            (ap (λ x. x.1) (sym (set_session_mapped_lem key c state session s kt given ct)))
            (mapped-IsMapped key c state session s kt v used)
      | inr empty ↦
          let e : set_session_mapped (some key) state session s ≡ (ok tt, s) = ground arith in
          subst (IsMapped (some key) session s) (ap (λ x. x.1) (sym e))
            (unchanged-IsMapped (some key) session s (λ id. ground arith) v)
    ]

-- A URI state stands under the id `c` now, where it was put, and every other id has what it had.
abbrev pub IsUriPut : Bool → String → UriState → IssuerStore → IssuerStore → Type 0
IsUriPut put c state s t =
    (id : String)
    → map_get t.uris.states id ≡ (if put && c == id then some state else map_get s.uris.states id)

pub set_session_mapped-IsUriPut :
    (key : Option String) (c : String) (state : UriState) (session : ℕ) (s : IssuerStore)
    → state.correlation_id ≡ some c
    → text_truthy c ≡ true
    → IsUriPut (text?_truthy key) c state s (set_session_mapped key state session s).1
unfolding set_session_mapped
set_session_mapped-IsUriPut none c state session s given ct = λ id. refl
set_session_mapped-IsUriPut (some key) c state session s given ct =
    elim (Bool-cases (text_truthy key)) [
      | inl kt ↦
          subst (IsUriPut (text_truthy key) c state s)
            (ap (λ x. x.1) (sym (set_session_mapped_lem key c state session s kt given ct)))
            (λ id. rw kt (map_get-map_set s.uris.states c id state))
      | inr empty ↦
          let e : set_session_mapped (some key) state session s ≡ (ok tt, s) = ground arith in
          subst (IsUriPut (text_truthy key) c state s) (ap (λ x. x.1) (sym e)) (λ id. rw empty refl)
    ]

pub or_throw_same : {A : Type 0} (r : Result Message A) (s : IssuerStore) → (or_throw r s).1 ≡ s
unfolding or_throw
or_throw_same (ok a) s = refl
or_throw_same (err x) s = refl

pub or_throw-eq-ok :
    {A : Type 0} (r : Result Message A) (s : IssuerStore) (a : A)
    → (or_throw r s).0 ≡ ok a
    → r ≡ ok a
unfolding or_throw
or_throw-eq-ok (ok b) s a h = cc
or_throw-eq-ok (err x) s a h = cc

pub throw_unless_same : (b : Bool) (m : Message) (s : IssuerStore) → (throw_unless b m s).1 ≡ s
unfolding throw_unless
throw_unless_same true m s = refl
throw_unless_same false m s = refl

pub unless-eq-ok :
    {A : Type 0} (b : Bool) (x : IssuerError) (m : Issuer A) (s : IssuerStore) {a : A}
    {t : IssuerStore}
    → (if b then throw x else m) s ≡ (ok a, t)
    → (b ≡ false) × (m s ≡ (ok a, t))
unless-eq-ok true x m s h = absurd (cc h)
unless-eq-ok false x m s h = (refl, h)
