-- ===== src/StateManager/Lookup.antt =====
-- LookupStateManager (packages/issuer/lib/state-manager/LookupStateManager.ts): a manager of values
-- behind a manager of key objects. The lookup names the property of a key object that holds the id
-- of the value. A `throw` of the managers below passes through unless the code catches it.
pub mod Laws
use oid4vc.Prelude.{
  ℕ, String, Bool, false, Option, none, some, List, [], ◌∷◌, if◌then◌else◌, Exec, pure, throw,
  ◌>>=◌, ◌>>◌, ok, err, text?_truthy, get_or, and_then,
}
use oid4vc.StateManager.{StateError, IStateManager}

pub data LookupError : Type 0 where
  of_manager : StateError → LookupError
  no_value_id : String → LookupError
  use_set_mapped : LookupError
  no_lookup_property : String → LookupError
  no_value_found : String → LookupError

-- `property lookup k` is `k[lookup]` where that is a text, and none where it is not there.
module _ {K V : Type 0} (property : String → K → Option String) (keys : IStateManager K)
    (values : IStateManager V) where
  abbrev pub Managers : Type 0
  Managers = keys.State × values.State

  -- A call of `keyValueMapper`.
  abbrev pub on_keys : {A : Type 0} → Exec keys.State StateError A → Exec Managers LookupError A
  on_keys m s = elim (m s.0).0 [
    | ok a ↦ (ok a, ((m s.0).1, s.1))
    | err x ↦ (err (of_manager x), ((m s.0).1, s.1))
  ]

  -- A call of `valueStateManager`.
  abbrev pub on_values : {A : Type 0} → Exec values.State StateError A → Exec Managers LookupError A
  on_values m s = elim (m s.1).0 [
    | ok a ↦ (ok a, (s.0, (m s.1).1))
    | err x ↦ (err (of_manager x), (s.0, (m s.1).1))
  ]

  text_or_throw : String → Option String → Exec Managers LookupError String
  text_or_throw key none = throw (no_value_id key)
  text_or_throw key (some value_id) = pure value_id

  asserted_value_id : String → String → Exec Managers LookupError String
  unfolding text_or_throw
  asserted_value_id lookup key = do
    key_state ← on_keys (keys.get_asserted key)
    text_or_throw key (property lookup key_state)

  value_id : String → String → Exec Managers LookupError (Option String)
  value_id lookup key = do
    key_state ← on_keys (keys.get key)
    pure (and_then key_state (property lookup))

  -- Neither call of a manager is awaited: each is made, and whether it fails is not seen.
  unfoldable pub clear_all : Exec Managers LookupError (Unit {0})
  clear_all s = (ok tt, ((keys.clear_all s.0).1, (values.clear_all s.1).1))

  unfoldable pub clear_expired : Option ℕ → ℕ → Exec Managers LookupError (Unit {0})
  clear_expired timestamp now s = (
    ok tt,
    ((keys.clear_expired timestamp now s.0).1, (values.clear_expired timestamp now s.1).1),
  )

  unfoldable pub delete : String → String → Exec Managers LookupError Bool
  unfolding asserted_value_id
  delete lookup id = do
    value ← asserted_value_id lookup id
    on_keys (keys.delete id)
    on_values (values.delete value)

  unfoldable pub get : String → String → Exec Managers LookupError (Option V)
  unfolding value_id
  get lookup id = do
    value ← value_id lookup id
    if text?_truthy value then on_values (values.get (get_or value "")) else pure none

  unfoldable pub has : String → String → Exec Managers LookupError Bool
  unfolding value_id
  has lookup id = do
    value ← value_id lookup id
    if text?_truthy value then on_values (values.has (get_or value "")) else pure false

  pub set : String → V → Exec Managers LookupError (Unit {0})
  set id state_value = throw use_set_mapped

  unfoldable pub set_mapped : String → String → K → V → Exec Managers LookupError (Unit {0})
  set_mapped lookup value_key key_object state_value =
      if text?_truthy (property lookup key_object)
      then (do
        on_keys (keys.set (get_or (property lookup key_object) "") key_object)
        on_values (values.set value_key state_value))
      else throw (no_lookup_property lookup)

  unfoldable pub get_asserted : String → String → Exec Managers LookupError V
  unfolding asserted_value_id
  get_asserted lookup id = do
    value ← asserted_value_id lookup id
    on_values (values.get_asserted value)

  -- `lookupStateManagerMultiGet`: the first lookup that finds a value; errors on the way are
  -- dropped, and without a hit the id is taken for that of a value.
  unfoldable pub multi_get : List String → String → Exec Managers LookupError (Option V)
  unfolding get
  multi_get [] id s = on_values (values.get id) s
  multi_get (lookup ∷ lookups) id s = elim (get lookup id s).0 [
    | ok value ↦ elim value [
      | some found ↦ (ok (some found), (get lookup id s).1)
      | none ↦ multi_get lookups id (get lookup id s).1
    ]
    | err x ↦ multi_get lookups id (get lookup id s).1
  ]

  unfoldable pub multi_get_asserted : List String → String → Exec Managers LookupError V
  unfolding multi_get
  multi_get_asserted lookups id = do
    value ← multi_get lookups id
    elim value [ none ↦ throw (no_value_found id) | some found ↦ pure found ]
