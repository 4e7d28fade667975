-- ===== src/Prelude/Maps.antt =====
-- A JavaScript `Map`, and an object used as one: the entries in the order of insertion, a key at
-- most once. A `set` of a key that is there keeps its place; `delete` says whether it was there.
use mathlib.Core.Path.{◌≡◌, refl}
use mathlib.Core.Bool.{Bool, true, false, ◌||◌}
use mathlib.Core.Option.{Option, none, some}
use mathlib.Core.List.{List, [], ◌∷◌}
use native.Mathlib.Omega.{arith}
use oid4vc.Prelude.Tests.{if◌then◌else◌}
use oid4vc.Prelude.Keys.{Key, ◌==◌}

module _ {ℓ κ} {K : Type ℓ} {V : Type κ} ⦃e : Key K⦄ where
  unfoldable pub map_get : List (K × V) → K → Option V
  map_get [] k = none
  map_get ((j, v) ∷ m) k = if j == k then some v else map_get m k

  unfoldable pub map_has : List (K × V) → K → Bool
  map_has [] k = false
  map_has ((j, v) ∷ m) k = j == k || map_has m k

  unfoldable pub map_set : List (K × V) → K → V → List (K × V)
  map_set [] k v = (k, v) ∷ []
  map_set ((j, w) ∷ m) k v = if j == k then (j, v) ∷ m else (j, w) ∷ map_set m k v

  unfoldable pub map_delete : List (K × V) → K → List (K × V)
  map_delete [] k = []
  map_delete ((j, w) ∷ m) k = if j == k then m else (j, w) ∷ map_delete m k

  -- No key stands twice.
  abbrev pub HasUniqueKeys : List (K × V) → Type 0
  HasUniqueKeys [] = Unit
  HasUniqueKeys ((j, v) ∷ m) = (map_has m j ≡ false) × HasUniqueKeys m

  pub map_get-map_has : (m : List (K × V)) (k : K) → map_has m k ≡ false → map_get m k ≡ none
  unfolding map_get map_has
  map_get-map_has [] k h = refl
  map_get-map_has ((j, v) ∷ m) k h = ground (arith, map_get-map_has m k)

  pub map_has-map_get : (m : List (K × V)) (k : K) → map_get m k ≡ none → map_has m k ≡ false
  unfolding map_get map_has
  map_has-map_get [] k h = refl
  map_has-map_get ((j, v) ∷ m) k h = ground (arith, map_has-map_get m k)

  pub map_get-map_set :
      (m : List (K × V)) (k j : K) (v : V)
      → map_get (map_set m k v) j ≡ (if k == j then some v else map_get m j)
  unfolding map_get map_set
  map_get-map_set [] k j v = refl
  map_get-map_set ((i, w) ∷ m) k j v =
      ground (arith, e.same_iff k j, e.same_iff i k, e.same_iff i j, map_get-map_set m k j v)

  pub map_has-map_set :
      (m : List (K × V)) (k j : K) (v : V)
      → map_has (map_set m k v) j ≡ (if k == j then true else map_has m j)
  unfolding map_has map_set
  map_has-map_set [] k j v = ground arith
  map_has-map_set ((i, w) ∷ m) k j v =
      ground (arith, e.same_iff k j, e.same_iff i k, e.same_iff i j, map_has-map_set m k j v)

  pub map_has-map_delete :
      (m : List (K × V)) (k j : K)
      → HasUniqueKeys m
      → map_has (map_delete m k) j ≡ (if k == j then false else map_has m j)
  unfolding map_has map_delete
  map_has-map_delete [] k j u = ground arith
  map_has-map_delete ((i, w) ∷ m) k j u =
      ground
        (arith, e.same_iff k j, e.same_iff i k, e.same_iff i j, map_has-map_delete m k j u.1, u.0)

  pub map_get-map_delete :
      (m : List (K × V)) (k j : K)
      → HasUniqueKeys m
      → map_get (map_delete m k) j ≡ (if k == j then none else map_get m j)
  unfolding map_get map_delete
  map_get-map_delete [] k j u = ground arith
  map_get-map_delete ((i, w) ∷ m) k j u = ground (
    arith,
    e.same_iff k j,
    e.same_iff i k,
    e.same_iff i j,
    map_get-map_delete m k j u.1,
    map_get-map_has m i u.0,
  )

  pub map_set-HasUniqueKeys :
      (m : List (K × V)) (k : K) (v : V) → HasUniqueKeys m → HasUniqueKeys (map_set m k v)
  unfolding map_has map_set
  map_set-HasUniqueKeys [] k v u = (refl, tt)
  map_set-HasUniqueKeys ((i, w) ∷ m) k v u = ground (
    arith,
    e.same_iff i k,
    e.same_iff k i,
    map_has-map_set m k i v,
    map_set-HasUniqueKeys m k v u.1,
  )

  pub map_delete-HasUniqueKeys :
      (m : List (K × V)) (k : K) → HasUniqueKeys m → HasUniqueKeys (map_delete m k)
  unfolding map_has map_delete
  map_delete-HasUniqueKeys [] k u = tt
  map_delete-HasUniqueKeys ((i, w) ∷ m) k u =
      ground (arith, map_has-map_delete m k i u.1, map_delete-HasUniqueKeys m k u.1)
