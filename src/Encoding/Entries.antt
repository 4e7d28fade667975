-- ===== src/Encoding/Entries.antt =====
-- What an entry of a query, a key and a text with `=` between them, puts on the components, and what
-- the query of a URI is.
use oid4vc.Prelude.{
  ℕ, ◌≡◌, refl, ap, ◌∙◌, false, Option, some, List, [], ◌∷◌, ◌++◌, cut, second_part, codes,
}
use oid4vc.Encoding.{nats_equal, equation}
use oid4vc.Encoding.Components.{Components, single, put_component, put_entry, assign, query_of}
use oid4vc.Encoding.Plain.{
  IsFree, cut_free, cut_at, contains_cut, first_part_cut, second_part_cut, first_part_uncut,
}

pub query_of-append :
    (before query : List ℕ)
    → IsFree b'?' before
    → IsFree b'?' query
    → query_of (before ++ (b'?' ∷ query)) ≡ query
unfolding query_of
query_of-append before query f g =
    let e = cut_at b'?' before query f in
    let uri = before ++ (b'?' ∷ query) in
    rw (contains_cut (b'?' ∷ []) uri before query e, second_part_cut (b'?' ∷ []) uri before query e)
      (first_part_uncut (b'?' ∷ []) query (cut_free b'?' query g))

module _ (array_length : Option (List ℕ) → Option ℕ) (key v : List ℕ) (key_free : IsFree b'=' key)
    (value_free : IsFree b'=' v) where
  entry_cut : cut (b'=' ∷ []) (equation key v) ≡ some (key, v)
  entry_cut = cut_at b'=' key v key_free

  entry_value : second_part (b'=' ∷ []) (equation key v) ≡ some v
  entry_value =
      second_part_cut (b'=' ∷ []) (equation key v) key v entry_cut
      ∙ ap (λ (x : List ℕ). some x) (first_part_uncut (b'=' ∷ []) v (cut_free b'=' v value_free))

  pub put_entry-equation :
      (json : Components)
      → nats_equal key (codes "length") ≡ false
      → nats_equal key (codes "__proto__") ≡ false
      → put_entry array_length [] (equation key v) json ≡ some (put_component key (single v) json)
  unfolding put_entry assign
  put_entry-equation json n p =
      ap (λ (k : List ℕ). assign array_length k (second_part (b'=' ∷ []) (equation key v)) json)
        (first_part_cut (b'=' ∷ []) (equation key v) key v entry_cut)
      ∙ ap (λ (x : Option (List ℕ)). assign array_length key x json) entry_value
      ∙ rw (n, p) refl
