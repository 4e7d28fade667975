-- ===== src/Tests/Store.antt =====
-- Tests of the state managers.
use oid4vc.Types.{CNonceState, UriState, uri_state, c_nonce_state}
use oid4vc.Prelude.{
  String, ◌≡◌, refl, true, false, Option, none, some, List, [], ◌∷◌, if◌then◌else◌, Exec, ok,
  map_get, map_has, HasUniqueKeys, ◌==◌, string_eq, nat_eq,
}
use oid4vc.StateManager.Memory
use oid4vc.Types.{c_nonce_state}
use oid4vc.StateManager.Memory.{MemoryStates, memory_states}
use oid4vc.StateManager.Memory.Dictionary.{runs, runs-all_meant, all_meant, Command}
use oid4vc.StateManager.Memory.Cleanup.{
  Call, calls, Intervals, start_stop, stopped_for_good, is_cleaning, start_cleanup_routine,
  stop_cleanup_routine,
}
use oid4vc.StateManager.Interface.{memory_states-IsStateManager}
use oid4vc.StateManager.Lookup.{multi_get, set_mapped, get, delete, LookupError}
use oid4vc.StateManager.Lookup.Laws.{
  multi_get_lem, multi_get-set_mapped, get-set_mapped_self, delete_lem, IsValid,
}
use oid4vc.Issuer.Sessions.{uri_property}
use oid4vc.Tests.Data.{one_nonce}

abbrev nonces : MemoryStates CNonceState
nonces = record { expires_in_ms = 180000; states = ("nonce", one_nonce) ∷ [] }

abbrev commands : List (Command CNonceState)
commands = Command.set "other" one_nonce ∷ Command.delete "nonce" ∷ Command.set "" one_nonce ∷ []

runs-all_meant_example :
    HasUniqueKeys (runs c_nonce_state commands nonces).states
    × ((k : String)
        → (Memory.get k (runs c_nonce_state commands nonces)).0
          ≡ ok (all_meant c_nonce_state 180000 commands (map_get nonces.states) k))
unfolding map_has
runs-all_meant_example = runs-all_meant c_nonce_state commands nonces (refl, tt)

abbrev idle : Intervals
idle = record { next_id = 1; running = [] }

start_stop_example :
    (is_cleaning (start_cleanup_routine none (none, idle)) ≡ true)
    × (map_get (start_cleanup_routine none (none, idle)).1.running 1 ≡ some 30000)
    × (start_cleanup_routine (some 5) (start_cleanup_routine none (none, idle))
        ≡ start_cleanup_routine none (none, idle))
    × (is_cleaning (stop_cleanup_routine (start_cleanup_routine none (none, idle))) ≡ false)
unfolding map_get
start_stop_example = start_stop none (some 5) idle tt refl

abbrev running : Intervals
running = record { next_id = 2; running = (1, 30000) ∷ [] }

stopped_for_good_example :
    is_cleaning (calls (Call.stop ∷ Call.start none ∷ []) (some 1, running)) ≡ false
unfolding map_has
stopped_for_good_example = stopped_for_good (Call.start none ∷ []) 1 running (refl, tt)

abbrev uri_of : String → UriState
uri_of code = record {
  created_at = 1000;
  expires_at = none;
  issuer_state = none;
  pre_authorized_code = some code;
  uri = "https://issuer/offer";
  correlation_id = some "id";
}

abbrev managers : MemoryStates UriState × MemoryStates CNonceState
managers = (record { expires_in_ms = 180000; states = ("id", uri_of "nonce") ∷ [] }, nonces)

abbrev get_many :
    List String
    → String
    → Exec (MemoryStates UriState × MemoryStates CNonceState) LookupError (Option CNonceState)
get_many = multi_get uri_property (memory_states uri_state) (memory_states c_nonce_state)

multi_get_lem_example :
    get_many ("issuerState" ∷ "preAuthorizedCode" ∷ []) "id" managers
    ≡ (ok (some one_nonce), managers)
unfolding memory_states-IsStateManager map_get
multi_get_lem_example =
    multi_get_lem uri_property (memory_states uri_state) (memory_states c_nonce_state)
      (memory_states-IsStateManager uri_state) (memory_states-IsStateManager c_nonce_state)
      ("issuerState" ∷ "preAuthorizedCode" ∷ []) "id" managers

abbrev named : UriState
named = uri_of "nonce"

-- Stored under the property "correlationId", and found by "preAuthorizedCode".
multi_get-set_mapped_example :
    (t : MemoryStates UriState × MemoryStates CNonceState) × (set_mapped uri_property
        (memory_states uri_state)
        (memory_states c_nonce_state)
        "correlationId"
        "nonce"
        named
        one_nonce
        managers
      ≡ (ok tt, t))
    × IsValid uri_property
        (memory_states uri_state)
        (memory_states c_nonce_state)
        (memory_states-IsStateManager uri_state)
        (memory_states-IsStateManager c_nonce_state)
        t
    × (get_many ("preAuthorizedCode" ∷ []) "id" t ≡ (ok (some one_nonce), t))
unfolding memory_states-IsStateManager map_has
multi_get-set_mapped_example =
    multi_get-set_mapped uri_property (memory_states uri_state) (memory_states c_nonce_state)
      (memory_states-IsStateManager uri_state) (memory_states-IsStateManager c_nonce_state)
      "correlationId" "preAuthorizedCode" [] "nonce" "id" named one_nonce managers
      ((refl, tt), (refl, tt)) refl refl refl refl

get-set_mapped_self_example :
    (t : MemoryStates UriState × MemoryStates CNonceState) × (set_mapped uri_property
        (memory_states uri_state)
        (memory_states c_nonce_state)
        "correlationId"
        "other"
        named
        one_nonce
        managers
      ≡ (ok tt, t))
    × (get uri_property
          (memory_states uri_state)
          (memory_states c_nonce_state)
          "correlationId"
          "id"
          t
        ≡ (ok none, t))
unfolding memory_states-IsStateManager map_has map_get
get-set_mapped_self_example =
    get-set_mapped_self uri_property (memory_states uri_state) (memory_states c_nonce_state)
      (memory_states-IsStateManager uri_state) (memory_states-IsStateManager c_nonce_state)
      "correlationId" "other" "id" named one_nonce managers ((refl, tt), (refl, tt)) refl refl refl

delete_lem_example :
    (t : MemoryStates UriState × MemoryStates CNonceState) × (delete uri_property
        (memory_states uri_state)
        (memory_states c_nonce_state)
        "preAuthorizedCode"
        "id"
        managers
      ≡ (ok true, t))
    × IsValid uri_property
        (memory_states uri_state)
        (memory_states c_nonce_state)
        (memory_states-IsStateManager uri_state)
        (memory_states-IsStateManager c_nonce_state)
        t
    × ((k : String)
        → map_get t.0.states k ≡ (if "id" == k then none else map_get managers.0.states k))
    × ((k : String)
        → map_get t.1.states k ≡ (if "nonce" == k then none else map_get managers.1.states k))
unfolding memory_states-IsStateManager map_has map_get
delete_lem_example =
    delete_lem uri_property (memory_states uri_state) (memory_states c_nonce_state)
      (memory_states-IsStateManager uri_state) (memory_states-IsStateManager c_nonce_state)
      "preAuthorizedCode" "id" "nonce" named managers ((refl, tt), (refl, tt)) refl refl refl refl
