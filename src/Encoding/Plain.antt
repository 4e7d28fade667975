-- ===== src/Encoding/Plain.antt =====
-- Texts without some character: where they are cut and split.
use oid4vc.Prelude.{
  ℕ, ◌≡◌, refl, ap, ◌∙◌, true, false, not, Option, none, some, List, [], ◌∷◌, ◌++◌, arith, nat_beq,
  cut, contains, first_part, second_part, all, All, is_some,
}
use oid4vc.Encoding.{join}
use oid4vc.Encoding.Components.{split_at}

abbrev pub IsFree : ℕ → List ℕ → Type 0
IsFree k cs = All (λ c. nat_beq k c ≡ false) cs

module _ (key cs : List ℕ) where
  module _ (e : cut key cs ≡ none) where
    pub contains_uncut : contains key cs ≡ false
    contains_uncut = ap (λ (o : Option (List ℕ × List ℕ)). is_some o) e

    pub first_part_uncut : first_part key cs ≡ cs
    first_part_uncut =
        ap (λ (o : Option (List ℕ × List ℕ)). elim o [ none ↦ cs | some (a, b) ↦ a ]) e

  module _ (xs ys : List ℕ) (e : cut key cs ≡ some (xs, ys)) where
    pub contains_cut : contains key cs ≡ true
    contains_cut = ap (λ (o : Option (List ℕ × List ℕ)). is_some o) e

    pub first_part_cut : first_part key cs ≡ xs
    first_part_cut = ap (λ (o : Option (List ℕ × List ℕ)). elim o [ none ↦ cs | some (a, b) ↦ a ]) e

    pub second_part_cut : second_part key cs ≡ some (first_part key ys)
    second_part_cut =
        ap
          (λ (o : Option (List ℕ × List ℕ)). elim o [
            | none ↦ none
            | some (a, b) ↦ some (first_part key b)
          ])
          e

module _ (k : ℕ) where
  pub all-IsFree : (cs : List ℕ) → all (λ c. not (nat_beq k c)) cs ≡ true → IsFree k cs
  all-IsFree [] h = tt
  all-IsFree (c ∷ cs) h = (ground arith, all-IsFree cs (ground arith))

  pub IsFree-append : (xs ys : List ℕ) → IsFree k xs → IsFree k ys → IsFree k (xs ++ ys)
  IsFree-append [] ys f g = g
  IsFree-append (x ∷ xs) ys f g = (f.0, IsFree-append xs ys f.1 g)

  pub cut_free : (cs : List ℕ) → IsFree k cs → cut (k ∷ []) cs ≡ none
  unfolding cut
  cut_free [] f = refl
  cut_free (c ∷ cs) f = rw (f.0, cut_free cs f.1) refl

  pub cut_at : (xs ys : List ℕ) → IsFree k xs → cut (k ∷ []) (xs ++ (k ∷ ys)) ≡ some (xs, ys)
  unfolding cut
  cut_at [] ys f = ground arith
  cut_at (x ∷ xs) ys f = rw (f.0, cut_at xs ys f.1) refl

  pub split_at_free : (cs : List ℕ) → IsFree k cs → split_at k cs ≡ cs ∷ []
  unfolding split_at
  split_at_free [] f = refl
  split_at_free (c ∷ cs) f = rw (f.0, split_at_free cs f.1) refl

  pub split_at-append :
      (xs ys : List ℕ) → IsFree k xs → split_at k (xs ++ (k ∷ ys)) ≡ xs ∷ split_at k ys
  unfolding split_at
  split_at-append [] ys f = ground arith
  split_at-append (x ∷ xs) ys f = rw (f.0, split_at-append xs ys f.1) refl

  pub split_at-join :
      (p : List ℕ) (ps : List (List ℕ))
      → All (IsFree k) (p ∷ ps)
      → split_at k (join (k ∷ []) (p ∷ ps)) ≡ p ∷ ps
  unfolding join
  split_at-join p [] f = split_at_free p f.0
  split_at-join p (q ∷ ps) f =
      split_at-append p (join (k ∷ []) (q ∷ ps)) f.0
      ∙ ap (λ (x : List (List ℕ)). p ∷ x) (split_at-join q ps f.1)

  pub join-IsFree :
      (c : ℕ) (ps : List (List ℕ))
      → nat_beq k c ≡ false
      → All (IsFree k) ps
      → IsFree k (join (c ∷ []) ps)
  unfolding join
  join-IsFree c [] n f = tt
  join-IsFree c (p ∷ []) n f = f.0
  join-IsFree c (p ∷ q ∷ ps) n f =
      IsFree-append p (c ∷ join (c ∷ []) (q ∷ ps)) f.0 (n, join-IsFree c (q ∷ ps) n f.1)
