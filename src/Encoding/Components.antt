-- ===== src/Encoding/Components.antt =====
-- The reading of a URI's components, getURIComponentsAsArray of packages/oid4vci-common/lib/
-- functions/Encoding.ts: an array is used as an object, whose properties are the components.
use oid4vc.Prelude.{
  ℕ, ◌&&◌, Option, none, some, List, [], ◌∷◌, ◌++◌, ltb, nat_beq, if◌then◌else◌, decimal, contains,
  first_part, second_part, get_or, and_then, codes,
}
use oid4vc.Prelude.Decimal.Digits.{value}
use oid4vc.Encoding.{nats_equal, listed}

-- A property of the array on which the components are put: a text, the texts of a name that can
-- stand more than once, or `undefined`. An entry without `=` has no text.
pub data Component : Type 0 where
  absent : Component
  single : List ℕ → Component
  several : List (Option (List ℕ)) → Component

abbrev pub Components : Type 0
Components = List ℕ → Component

abbrev pub put_component : List ℕ → Component → Components → Components
put_component key v json = λ k. if nats_equal key k then v else json k

abbrev pub component_of : Option (List ℕ) → Component
component_of none = absent
component_of (some v) = single v

-- A key that is an index of an array, with the index.
index_of : List ℕ → Option ℕ
unfolding value
index_of key =
    if nats_equal (decimal (value 0 key)) key && ltb (value 0 key) 4294967295
    then some (value 0 key)
    else none

truncated : ℕ → Components → Components
unfolding index_of
truncated n json k = elim (index_of k) [
  | none ↦ json k
  | some i ↦ if ltb i n then json k else absent
]

add_several : Option (List ℕ) → Component → Component
add_several v (several vs) = several (vs ++ (v ∷ []))
add_several v _ = several (v ∷ [])

abbrev in_first : ℕ → List (List ℕ) → List (List ℕ)
in_first d [] = (d ∷ []) ∷ []
in_first d (p ∷ ps) = (d ∷ p) ∷ ps

-- `parts.split(c)`
unfoldable pub split_at : ℕ → List ℕ → List (List ℕ)
split_at c [] = [] ∷ []
split_at c (d ∷ cs) = let rest = split_at c cs in if nat_beq c d then [] ∷ rest else in_first d rest

unfoldable pub query_of : List ℕ → List ℕ
query_of uri =
    if contains (b'?' ∷ []) uri
    then get_or (second_part (b'?' ∷ []) uri) []
    else if contains (codes "://") uri
    then get_or (second_part (codes "://") uri) []
    else uri

-- `array_length` is JavaScript's conversion to the length of an array, `none` where the assignment
-- throws.
module _ (array_length : Option (List ℕ) → Option ℕ) where
  -- `json[key] = v` on an array: `length` truncates it, and a text given to `__proto__` is ignored.
  unfoldable pub assign : List ℕ → Option (List ℕ) → Components → Option Components
  unfolding truncated
  assign key v json =
      if nats_equal key (codes "length")
      then elim (array_length v) [ none ↦ none | some n ↦ some (truncated n json) ]
      else if nats_equal key (codes "__proto__")
      then some json
      else some (put_component key (component_of v) json)

  -- The names in `array_types` are those of properties that an array does not have by itself.
  unfoldable pub put_entry : (array_types : List (List ℕ)) → List ℕ → Components → Option Components
  unfolding assign add_several
  put_entry array_types entry json =
      let key = first_part (b'=' ∷ []) entry in
      let v = second_part (b'=' ∷ []) entry in
      if listed array_types key
      then some (put_component key (add_several v (json key)) json)
      else assign key v json

  unfoldable pub put_entries :
      (array_types : List (List ℕ)) → List (List ℕ) → Components → Option Components
  unfolding put_entry
  put_entries array_types [] json = some json
  put_entries array_types (entry ∷ entries) json =
      and_then (put_entry array_types entry json) (put_entries array_types entries)

  unfoldable pub get_uri_components_as_array :
      List ℕ → (array_types : List (List ℕ)) → Option Components
  unfolding put_entries split_at query_of
  get_uri_components_as_array uri array_types =
      put_entries array_types (split_at b'&' (query_of uri)) (λ key. absent)
