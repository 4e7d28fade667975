-- ===== src/Issuer/Sessions/Found.antt =====
-- Which session getCredentialOfferSessionById finds, and that finding one changes nothing.
use oid4vc.Prelude.{
  ℕ, String, ◌≡◌, Option, none, some, List, ◌∷◌, arith, if◌then◌else◌, Result, ok, err, map_get,
  string_eq, nat_eq, text?_truthy, get_or, or_else,
}
use oid4vc.StateManager.Memory.{memory_states}
use oid4vc.StateManager.Interface.{memory_states-IsStateManager}
use oid4vc.StateManager.Lookup.{multi_get_asserted, no_value_found}
use oid4vc.StateManager.Lookup.Laws.{multi_get_lem}
use oid4vc.Types.{uri_state, UriState, IssuerError, of_lookup}
use oid4vc.Store.{IssuerStore, ref_at}
use oid4vc.Issuer.Sessions.{
  uri_property, session_ref, all_lookups, get_credential_offer_session_by_id,
}

-- The session at the id that a URI state's property holds, if the property is there and not empty.
abbrev through : IssuerStore → Option UriState → String → Option ℕ
through s none lookup = none
through s (some k) lookup =
    if text?_truthy (uri_property lookup k)
    then ref_at s (get_or (uri_property lookup k) "")
    else none

-- The URI state at the id may name a session by its pre-authorized code, its issuer state or its
-- correlation id; if none of them is one's id, the id itself may be.
abbrev pub found_ref : IssuerStore → String → Option ℕ
found_ref s id =
    let k = map_get s.uris.states id in
    or_else (through s k "preAuthorizedCode")
      (or_else (through s k "issuerState") (or_else (through s k "correlationId") (ref_at s id)))

abbrev pub found_or_error : String → Option ℕ → Result IssuerError ℕ
found_or_error id none = err (of_lookup (no_value_found id))
found_or_error id (some r) = ok r

-- With a list of lookups that is not empty, whichever they are, the method finds the session that
-- the URI state at the id names by pre-authorized code, issuer state or correlation id, in this
-- order, or else the one at the id itself; it fails if there is none, and changes nothing.
pub get_by_id_lem :
    (id lookup : String) (lookups : List String) (s : IssuerStore)
    → get_credential_offer_session_by_id id (lookup ∷ lookups) s
      ≡ (found_or_error id (found_ref s id), s)
unfolding get_credential_offer_session_by_id multi_get_asserted memory_states-IsStateManager
get_by_id_lem id lookup lookups s = ground (
  arith,
  multi_get_lem uri_property (memory_states uri_state) (memory_states (session_ref s.heap))
      (memory_states-IsStateManager uri_state) (memory_states-IsStateManager (session_ref s.heap))
      all_lookups id (s.uris, s.credential_offer_sessions),
)
