-- ===== src/Prelude/Decimal/Digits.antt =====
-- The decimal digits of a number: they are digits, they denote the number, and a number below the
-- k-th power of ten has at most k of them.
use Prim.Native.Nat.{ℕ, zero, suc, ◌+◌, ◌-◌, ◌*◌, ◌/◌, ◌%◌, ◌^◌, ◌≤◌, ◌<◌}
use mathlib.Core.Path.{◌≡◌, ap, ◌∙◌}
use mathlib.Core.Logic.{inl, inr}
use mathlib.Core.List.{List, [], ◌∷◌}
use native.Mathlib.Omega.{arith}
use oid4vc.Prelude.Tests.{ltb, Bool-cases}
use oid4vc.Prelude.Lists.{All, length}
use oid4vc.Prelude.Values.{codes}
use oid4vc.Prelude.Text.{codes-text_of, IsLow}
use oid4vc.Prelude.Decimal.{decimal, decimal_from, decimal_text}

abbrev pub IsDigit : ℕ → Type 0
IsDigit c = (b'0' ≤ c) × (c ≤ b'9')

-- The number that digits denote, after those that denote `acc`.
unfoldable pub value : (acc : ℕ) → List ℕ → ℕ
value acc [] = acc
value acc (c ∷ cs) = value (acc * 10 + (c - b'0')) cs

decimal_from-digits :
    (f n : ℕ) (acc : List ℕ) → All IsDigit acc → All IsDigit (decimal_from f n acc)
unfolding decimal_from
decimal_from-digits zero n acc h = h
decimal_from-digits (suc f) n acc h = elim (Bool-cases (ltb n 10)) [
  | inl small ↦ rw small (ground arith)
  | inr large ↦ rw large (decimal_from-digits f (n / 10) ((b'0' + n % 10) ∷ acc) (omega arith, h))
]

-- Fuel above the number is enough.
decimal_from-value : (f n : ℕ) (acc : List ℕ) → n < f → value 0 (decimal_from f n acc) ≡ value n acc
unfolding decimal_from value
decimal_from-value zero n acc h = elim h [ ]
decimal_from-value (suc f) n acc h = elim (Bool-cases (ltb n 10)) [
  | inl small ↦ rw small (ap (λ (x : ℕ). value x acc) (omega arith))
  | inr large ↦ rw large (
      decimal_from-value f (n / 10) ((b'0' + n % 10) ∷ acc) (ground arith)
      ∙ ap (λ (x : ℕ). value x acc) (omega arith))
]

decimal_from-length :
    (f n k : ℕ) (acc : List ℕ) → n < 10 ^ suc k → length (decimal_from f n acc) ≤ length acc + suc k
unfolding decimal_from
decimal_from-length zero n k acc h = omega arith
decimal_from-length (suc f) n zero acc h = elim (Bool-cases (ltb n 10)) [
  | inl small ↦ rw small (omega arith)
  | inr large ↦ absurd (ground arith)
]
decimal_from-length (suc f) n (suc k) acc h = elim (Bool-cases (ltb n 10)) [
  | inl small ↦ rw small (omega arith)
  | inr large ↦
      rw large
        (omega (arith, decimal_from-length f (n / 10) k ((b'0' + n % 10) ∷ acc) (omega arith)))
]

digits-IsLow : (cs : List ℕ) → All IsDigit cs → All IsLow cs
digits-IsLow [] h = tt
digits-IsLow (c ∷ cs) h = (omega arith, digits-IsLow cs h.1)

pub decimal-digits : (n : ℕ) → All IsDigit (decimal n)
unfolding decimal
decimal-digits n = decimal_from-digits (n + 1) n [] tt

pub decimal-value : (n : ℕ) → value 0 (decimal n) ≡ n
unfolding decimal value
decimal-value n = decimal_from-value (n + 1) n [] (omega arith)

pub decimal-length : (n k : ℕ) → n < 10 ^ suc k → length (decimal n) ≤ suc k
unfolding decimal
decimal-length n k h = omega (arith, decimal_from-length (n + 1) n k [] h)

pub decimal_text-codes : (n : ℕ) → codes (decimal_text n) ≡ decimal n
unfolding decimal_text
decimal_text-codes n = codes-text_of (decimal n) (digits-IsLow (decimal n) (decimal-digits n))
