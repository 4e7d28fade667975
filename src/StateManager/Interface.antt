-- ===== src/StateManager/Interface.antt =====
-- What a client of an IStateManager may rely on: the manager's methods, described by the value
-- that it holds at each id. MemoryStates meets it.
use oid4vc.Prelude.{
  ◌≡◌, refl, true, none, some, List, [], ◌∷◌, arith, if◌then◌else◌, Result, ok, err, map_get,
  map_has, map_set, map_delete, HasUniqueKeys, map_get-map_set, map_get-map_delete,
  map_set-HasUniqueKeys, map_delete-HasUniqueKeys, ◌==◌, string_eq, nat_eq, text_truthy, is_some,
}
use oid4vc.StateManager.{StateType, StateError, state_missing, IStateManager, String, Option}
use oid4vc.StateManager.Memory
use oid4vc.StateManager.Memory.{MemoryStates, memory_states}

abbrev pub asserted : {T : Type 0} → String → Option T → Result StateError T
asserted id none = err (state_missing id)
asserted id (some state) = ok state

pub record IsStateManager {T : Type 0} (M : IStateManager T) : Type 1 where
  pub IsValid : M.State → Type 0
  pub view : M.State → String → Option T
  pub get_lem : (id : String) (s : M.State) → M.get id s ≡ (ok (view s id), s)
  pub has_lem :
      (id : String) (s : M.State)
      → text_truthy id ≡ true
      → M.has id s ≡ (ok (is_some (view s id)), s)
  pub set_lem :
      (id : String) (v : T) (s : M.State)
      → IsValid s
      → text_truthy id ≡ true
      → (t : M.State) × (M.set id v s ≡ (ok tt, t))
        × IsValid t
        × ((k : String) → view t k ≡ (if id == k then some v else view s k))
  pub delete_lem :
      (id : String) (s : M.State)
      → IsValid s
      → text_truthy id ≡ true
      → (t : M.State) × (M.delete id s ≡ (ok (is_some (view s id)), t))
        × IsValid t
        × ((k : String) → view t k ≡ (if id == k then none else view s k))
  pub get_asserted_lem :
      (id : String) (s : M.State)
      → text_truthy id ≡ true
      → M.get_asserted id s ≡ (asserted id (view s id), s)

module _ {T : Type 0} where
  map_has-is_some : (m : List (String × T)) (k : String) → map_has m k ≡ is_some (map_get m k)
  unfolding map_has map_get
  map_has-is_some [] k = refl
  map_has-is_some ((j, v) ∷ m) k = ground (arith, map_has-is_some m k)

  pub memory_has :
      (id : String) (m : MemoryStates T)
      → text_truthy id ≡ true
      → Memory.has id m ≡ (ok (is_some (map_get m.states id)), m)
  unfolding Memory.has
  memory_has id m h = rw h (rw map_has-is_some)

  pub memory_set :
      (id : String) (v : T) (m : MemoryStates T)
      → text_truthy id ≡ true
      → Memory.set id v m ≡ (ok tt, record m { states = map_set m.states id v })
  unfolding Memory.set
  memory_set id v m h = rw h

  pub memory_delete :
      (id : String) (m : MemoryStates T)
      → text_truthy id ≡ true
      → Memory.delete id m
        ≡ (ok (is_some (map_get m.states id)), record m { states = map_delete m.states id })
  unfolding Memory.delete
  memory_delete id m h = rw (h, map_has-is_some)

  pub memory_get_asserted :
      (id : String) (m : MemoryStates T)
      → text_truthy id ≡ true
      → Memory.get_asserted id m ≡ (asserted id (map_get m.states id), m)
  unfolding Memory.get_asserted
  memory_get_asserted id m h = ground (arith, map_has-is_some m.states id)

  unfoldable pub memory_states-IsStateManager :
      (st : StateType T) → IsStateManager (memory_states st)
  unfolding Memory.get
  memory_states-IsStateManager st = record {
    IsValid = λ m. HasUniqueKeys m.states;
    view = λ m. map_get m.states;
    get_lem = λ id m. refl;
    has_lem = memory_has;
    set_lem = λ id v m u h. (
      record m { states = map_set m.states id v },
      memory_set id v m h,
      map_set-HasUniqueKeys m.states id v u,
      λ k. map_get-map_set m.states id k v,
    );
    delete_lem = λ id m u h. (
      record m { states = map_delete m.states id },
      memory_delete id m h,
      map_delete-HasUniqueKeys m.states id u,
      λ k. map_get-map_delete m.states id k u,
    );
    get_asserted_lem = memory_get_asserted;
  }
