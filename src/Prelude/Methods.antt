-- ===== src/Prelude/Methods.antt =====
-- Methods that change a state and may throw: what was written before the throw stays written.
use mathlib.Core.Path.{◌≡◌, refl, ap, sym, ◌∙◌}
use mathlib.Core.Bool.{Bool, true, false}
use mathlib.Core.Logic.{◌⊎◌, inl, inr}

pub data Result {ℓ} (E A : Type ℓ) : Type ℓ where
  ok : A → Result E A
  err : E → Result E A

abbrev pub Exec {ℓ} : Type ℓ → Type ℓ → Type ℓ → Type ℓ
Exec S E A = S → Result E A × S

module _ {ℓ} {S E A : Type ℓ} where
  abbrev pub pure : A → Exec S E A
  pure a s = (ok a, s)

  abbrev pub throw : E → Exec S E A
  throw x s = (err x, s)

  abbrev pub gets : (S → A) → Exec S E A
  gets f s = (ok (f s), s)

module _ {ℓ} {S E A B : Type ℓ} where
  abbrev pub go_on : Result E A → (A → Exec S E B) → Exec S E B
  go_on (ok a) f s = f a s
  go_on (err x) f s = (err x, s)

  infixl 5 ◌>>=◌ ◌>>◌
  abbrev pub ◌>>=◌ : Exec S E A → (A → Exec S E B) → Exec S E B
  ◌>>=◌ m f s = go_on (m s).0 f (m s).1

  abbrev pub ◌>>◌ : Exec S E A → Exec S E B → Exec S E B
  m >> n = m >>= λ _. n

module _ {ℓ} {S E : Type ℓ} where
  abbrev pub modify : (S → S) → Exec S E (Unit {ℓ})
  modify f s = (ok tt, f s)

  -- `if (!test) throw x`
  abbrev pub require : Bool → E → Exec S E (Unit {ℓ})
  require true x s = (ok tt, s)
  require false x s = (err x, s)

-- The parts of a method that returned.
module _ {ℓ} {S E A B : Type ℓ} where
  go_on-eq-ok :
      (r : Result E A) (f : A → Exec S E B) (u : S) {b : B} {t : S}
      → go_on r f u ≡ (ok b, t)
      → (a : A) × (r ≡ ok a) × (f a u ≡ (ok b, t))
  go_on-eq-ok (ok a) f u h = (a, refl, h)
  go_on-eq-ok (err x) f u h = cc

  pub >>=-eq-ok :
      (m : Exec S E A) (f : A → Exec S E B) (s : S) {b : B} {t : S}
      → (m >>= f) s ≡ (ok b, t)
      → (a : A) × ((m s).0 ≡ ok a) × (f a (m s).1 ≡ (ok b, t))
  >>=-eq-ok m f s h = go_on-eq-ok (m s).0 f (m s).1 h

  -- The same for a part that leaves the state as it is, with what is known of its result.
  pub >>=-reads :
      (m : Exec S E A) (f : A → Exec S E B) (P : A → Type ℓ) (s : S) {b : B} {t : S}
      → ((a : A) → (m s).0 ≡ ok a → P a × ((m s).1 ≡ s))
      → (m >>= f) s ≡ (ok b, t)
      → (a : A) × P a × (f a s ≡ (ok b, t))
  >>=-reads m f P s known h =
      let (a, e, rest) = >>=-eq-ok m f s h in
      let (p, same) = known a e in (a, p, ap (f a) (sym same) ∙ rest)

pub pure-eq-ok {ℓ} :
    {S E A : Type ℓ} {a b : A} {s t : S}
    → ◌≡◌ {A = Result E A × S} (ok a, s) (ok b, t)
    → (a ≡ b) × (s ≡ t)
pure-eq-ok h = (cc, cc)

pub Result-cases {ℓ} :
    {E A : Type ℓ} (r : Result E A) → ((a : A) × (r ≡ ok a)) ⊎ ((x : E) × (r ≡ err x))
Result-cases (ok a) = inl (a, refl)
Result-cases (err x) = inr (x, refl)

-- A method that threw threw in its first part or in its second.
module _ {ℓ} {S E A B : Type ℓ} where
  go_on-eq-err :
      (r : Result E A) (f : A → Exec S E B) (u : S) {x : E} {t : S}
      → go_on r f u ≡ (err x, t)
      → ((r ≡ err x) × (u ≡ t)) ⊎ ((a : A) × (r ≡ ok a) × (f a u ≡ (err x, t)))
  go_on-eq-err (ok a) f u h = inr (a, refl, h)
  go_on-eq-err (err y) f u h = inl (cc, cc)

  pub >>=-eq-err :
      (m : Exec S E A) (f : A → Exec S E B) (s : S) {x : E} {t : S}
      → (m >>= f) s ≡ (err x, t)
      → (((m s).0 ≡ err x) × ((m s).1 ≡ t))
        ⊎ ((a : A) × ((m s).0 ≡ ok a) × (f a (m s).1 ≡ (err x, t)))
  >>=-eq-err m f s h = go_on-eq-err (m s).0 f (m s).1 h
