-- ===== src/StateManager/Lookup/Laws.antt =====
-- What LookupStateManager finds, in terms of what the two managers below it hold.
use oid4vc.Prelude.{
  String, ◌≡◌, inl, inr, true, Option, none, some, List, [], ◌∷◌, arith, if◌then◌else◌,
  Option-cases, ok, err, ◌==◌, string_eq, nat_eq, ==_refl, text_truthy, text?_truthy, is_some,
  get_or, or_else, and_then,
}
use oid4vc.StateManager.{state_missing, IStateManager}
use oid4vc.StateManager.Interface.{IsStateManager}
use oid4vc.StateManager.Lookup.{
  Managers, get, multi_get, set_mapped, delete, LookupError, of_manager, no_value_id,
}

-- All that a law about the two-level manager supposes of the two managers below it.
module _ {K V : Type 0} (property : String → K → Option String) (keys : IStateManager K)
    (values : IStateManager V) (ik : IsStateManager keys) (iv : IsStateManager values) where
  abbrev pub IsValid : Managers property keys values → Type 0
  IsValid s = ik.IsValid s.0 × iv.IsValid s.1

  abbrev pub view_if : Option String → values.State → Option V
  view_if value s = if text?_truthy value then iv.view s (get_or value "") else none

  -- The value behind an id: the key object's property, if it is a text that is not empty, names it.
  abbrev pub behind : Managers property keys values → String → String → Option V
  behind s lookup id = view_if (and_then (ik.view s.0 id) (property lookup)) s.1

  -- The value behind the first lookup that leads to one, and else the value at the id itself.
  abbrev pub first_hit : Managers property keys values → List String → String → Option V
  first_hit s [] id = iv.view s.1 id
  first_hit s (lookup ∷ lookups) id = or_else (behind s lookup id) (first_hit s lookups id)

  -- `get` changes nothing and finds the value behind the id.
  pub get_lem :
      (lookup id : String) (s : Managers property keys values)
      → get property keys values lookup id s ≡ (ok (behind s lookup id), s)
  unfolding get
  get_lem lookup id s = ground (
    arith,
    ik.get_lem id s.0,
    iv.get_lem (get_or (and_then (ik.view s.0 id) (property lookup)) "") s.1,
  )

  -- `lookupStateManagerMultiGet` never fails over such managers, changes nothing, and finds the
  -- value behind the first lookup that leads to one, and else the value at the id itself.
  pub multi_get_lem :
      (lookups : List String) (id : String) (s : Managers property keys values)
      → multi_get property keys values lookups id s ≡ (ok (first_hit s lookups id), s)
  unfolding multi_get
  multi_get_lem [] id s = ground (arith, iv.get_lem id s.1)
  multi_get_lem (lookup ∷ lookups) id s =
      ground (arith, get_lem lookup id s, multi_get_lem lookups id s)

  -- The two entries that `setMapped` writes: the key object under its own property, the value under
  -- the id that the caller gives.
  set_mapped_lem :
      (lookup value_key key : String) (key_object : K) (v : V) (s : Managers property keys values)
      → IsValid s
      → property lookup key_object ≡ some key
      → text_truthy key ≡ true
      → text_truthy value_key ≡ true
      → (t : Managers property keys values) × (set_mapped property keys values lookup value_key
            key_object v s
          ≡ (ok tt, t))
        × IsValid t
        × ((k : String) → ik.view t.0 k ≡ (if key == k then some key_object else ik.view s.0 k))
        × ((k : String) → iv.view t.1 k ≡ (if value_key == k then some v else iv.view s.1 k))
  unfolding set_mapped
  set_mapped_lem lookup value_key key key_object v s valid named tk tv =
      let (ks, ks_set, ks_valid, ks_view) = ik.set_lem key key_object s.0 valid.0 tk in
      let (vs, vs_set, vs_valid, vs_view) = iv.set_lem value_key v s.1 valid.1 tv in
      ((ks, vs), ground arith, (ks_valid, vs_valid), ks_view, vs_view)

  -- Once `setMapped` has stored a value, `lookupStateManagerMultiGet` finds it under the key object's
  -- own id as soon as the first lookup names the property that holds the value's id.
  pub multi_get-set_mapped :
      (lookup first : String) (rest : List String) (value_key key : String) (key_object : K) (v : V)
      (s : Managers property keys values)
      → IsValid s
      → property lookup key_object ≡ some key
      → text_truthy key ≡ true
      → property first key_object ≡ some value_key
      → text_truthy value_key ≡ true
      → (t : Managers property keys values) × (set_mapped property keys values lookup value_key
            key_object v s
          ≡ (ok tt, t))
        × IsValid t
        × (multi_get property keys values (first ∷ rest) key t ≡ (ok (some v), t))
  multi_get-set_mapped lookup first rest value_key key key_object v s valid named tk names tv =
      let (t, done, t_valid, key_view, value_view) =
        set_mapped_lem lookup value_key key key_object v s valid named tk tv in
      (
        t,
        done,
        t_valid,
        ground (
          arith,
          multi_get_lem (first ∷ rest) key t,
          key_view key,
          value_view value_key,
          ==_refl key,
          ==_refl value_key,
        ),
      )

  -- After `setMapped` of a value the manager's own `get` at the key leads to the value at the key
  -- itself, so it returns the stored value only if that was stored under the same id.
  pub get-set_mapped_self :
      (lookup value_key key : String) (key_object : K) (v : V) (s : Managers property keys values)
      → IsValid s
      → property lookup key_object ≡ some key
      → text_truthy key ≡ true
      → text_truthy value_key ≡ true
      → (t : Managers property keys values) × (set_mapped property keys values lookup value_key
            key_object v s
          ≡ (ok tt, t))
        × (get property keys values lookup key t
            ≡ (ok (if value_key == key then some v else iv.view s.1 key), t))
  get-set_mapped_self lookup value_key key key_object v s valid named tk tv =
      let (t, done, t_valid, key_view, value_view) =
        set_mapped_lem lookup value_key key key_object v s valid named tk tv in
      (t, done, ground (arith, get_lem lookup key t, key_view key, value_view key, ==_refl key))

  -- `delete` of an id with a value behind it removes the key object and the value, says whether the
  -- value was there, and leaves every other id of both managers as it was.
  pub delete_lem :
      (lookup id value : String) (key_state : K) (s : Managers property keys values)
      → IsValid s
      → text_truthy id ≡ true
      → ik.view s.0 id ≡ some key_state
      → property lookup key_state ≡ some value
      → text_truthy value ≡ true
      → (t : Managers property keys values) × (delete property keys values lookup id s
          ≡ (ok (is_some (iv.view s.1 value)), t))
        × IsValid t
        × ((k : String) → ik.view t.0 k ≡ (if id == k then none else ik.view s.0 k))
        × ((k : String) → iv.view t.1 k ≡ (if value == k then none else iv.view s.1 k))
  unfolding delete
  delete_lem lookup id value key_state s valid ti found named tv =
      let (ks, ks_delete, ks_valid, ks_view) = ik.delete_lem id s.0 valid.0 ti in
      let (vs, vs_delete, vs_valid, vs_view) = iv.delete_lem value s.1 valid.1 tv in
      ((ks, vs), ground (arith, ik.get_asserted_lem id s.0), (ks_valid, vs_valid), ks_view, vs_view)

  -- Without a value behind it `delete` fails, and neither manager has changed.
  pub delete_missing :
      (lookup id : String) (s : Managers property keys values)
      → text_truthy id ≡ true
      → and_then (ik.view s.0 id) (property lookup) ≡ none
      → (x : LookupError) × (delete property keys values lookup id s ≡ (err x, s))
  unfolding delete
  delete_missing lookup id s ti none_there = elim (Option-cases (ik.view s.0 id)) [
    | inl missing ↦ (of_manager (state_missing id), ground (arith, ik.get_asserted_lem id s.0))
    | inr (k, found) ↦ (no_value_id id, ground (arith, ik.get_asserted_lem id s.0))
  ]
