-- ===== src/StateManager/Memory/Dictionary.antt =====
-- What MemoryStates promises: a dictionary that forgets what has expired. The promise is stated on
-- functions from ids to values, and the methods are shown to keep it over any sequence of calls.
use oid4vc.Prelude.{
  ℕ, String, ◌≡◌, refl, ◌∙◌, ◌&&◌, Option, none, some, List, [], ◌∷◌, arith, if◌then◌else◌, ok,
  map_get, HasUniqueKeys, map_get-map_set, map_get-map_delete, map_set-HasUniqueKeys,
  map_delete-HasUniqueKeys, ◌==◌, string_eq, nat_eq, text_truthy, get_or,
}
use mathlib.Core.Path.{ap₂, fun_ext}
use oid4vc.StateManager.{StateType}
use oid4vc.StateManager.Memory
use oid4vc.StateManager.Memory.{MemoryStates}
use oid4vc.StateManager.Memory.Expiry.{
  if_live, clear_expired_get, clear_expired-HasUniqueKeys, clear_expired-expires_in_ms,
}

-- The calls that change a manager.
pub data Command (T : Type 0) : Type 0 where
  set : String → T → Command T
  delete : String → Command T
  clear_expired : Option ℕ → ℕ → Command T
  clear_all : Command T

abbrev pub Dictionary : Type 0 → Type 0
Dictionary T = String → Option T

module _ {T : Type 0} (st : StateType T) where
  -- The manager after a call, whether it threw or not.
  pub run : Command T → MemoryStates T → MemoryStates T
  run (set id state_value) m = (Memory.set id state_value m).1
  run (delete id) m = (Memory.delete id m).1
  run (clear_expired timestamp now) m = (Memory.clear_expired st timestamp now m).1
  run clear_all m = (Memory.clear_all m).1

  unfoldable pub runs : List (Command T) → MemoryStates T → MemoryStates T
  runs [] m = m
  runs (c ∷ cs) m = runs cs (run c m)

  -- The meaning of a call for the dictionary, where a state lives `ms` milliseconds by default.
  abbrev pub meant : ℕ → Command T → Dictionary T → Dictionary T
  meant ms (set id state_value) d k = if text_truthy id && id == k then some state_value else d k
  meant ms (delete id) d k = if text_truthy id && id == k then none else d k
  meant ms (clear_expired timestamp now) d k = if_live st ms (get_or timestamp now) (d k)
  meant ms clear_all d k = none

  abbrev pub all_meant : ℕ → List (Command T) → Dictionary T → Dictionary T
  all_meant ms [] d = d
  all_meant ms (c ∷ cs) d = all_meant ms cs (meant ms c d)

  pub run-HasUniqueKeys :
      (c : Command T) (m : MemoryStates T) → HasUniqueKeys m.states → HasUniqueKeys (run c m).states
  unfolding run Memory.set Memory.delete Memory.clear_all
  run-HasUniqueKeys (set id v) m u = ground (arith, map_set-HasUniqueKeys m.states id v u)
  run-HasUniqueKeys (delete id) m u = ground (arith, map_delete-HasUniqueKeys m.states id u)
  run-HasUniqueKeys (clear_expired timestamp now) m u =
      clear_expired-HasUniqueKeys st timestamp now m u
  run-HasUniqueKeys clear_all m u = tt

  run_get :
      (c : Command T) (m : MemoryStates T) (k : String)
      → HasUniqueKeys m.states
      → map_get (run c m).states k ≡ meant m.expires_in_ms c (map_get m.states) k
  unfolding run Memory.set Memory.delete Memory.clear_all map_get
  run_get (set id v) m k u = ground (arith, map_get-map_set m.states id k v)
  run_get (delete id) m k u = ground (arith, map_get-map_delete m.states id k u)
  run_get (clear_expired timestamp now) m k u = clear_expired_get st timestamp now m k u
  run_get clear_all m k u = refl

  run-expires_in_ms :
      (c : Command T) (m : MemoryStates T) → (run c m).expires_in_ms ≡ m.expires_in_ms
  unfolding run Memory.set Memory.delete Memory.clear_all
  run-expires_in_ms (clear_expired timestamp now) m = clear_expired-expires_in_ms st timestamp now m
  run-expires_in_ms (set id v) m = ground arith
  run-expires_in_ms (delete id) m = ground arith
  run-expires_in_ms clear_all m = refl

  -- After any calls, failed ones included, a manager with unique keys still has unique keys, and
  -- `get` finds at each id what the calls mean for the dictionary that the manager stood for.
  pub runs-all_meant :
      (cs : List (Command T)) (m : MemoryStates T)
      → HasUniqueKeys m.states
      → HasUniqueKeys (runs cs m).states
        × ((k : String)
            → (Memory.get k (runs cs m)).0 ≡ ok (all_meant m.expires_in_ms cs (map_get m.states) k))
  unfolding runs Memory.get
  runs-all_meant [] m u = (u, λ k. refl)
  runs-all_meant (c ∷ cs) m u =
      let (unique, found) = runs-all_meant cs (run c m) (run-HasUniqueKeys c m u) in
      (
        unique,
        λ k.
            found k
            ∙ ap₂ (λ (ms : ℕ) (d : Dictionary T). ok (all_meant ms cs d k)) (run-expires_in_ms c m)
                (fun_ext (λ j. run_get c m j u)),
      )
