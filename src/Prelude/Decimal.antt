-- ===== src/Prelude/Decimal.antt =====
-- The decimal digits that a template string shows a number by.
pub mod Digits
use Prim.Native.Nat.{ℕ, zero, suc, ◌+◌, ◌/◌, ◌%◌}
use Prim.Native.String
use Prim.Native.String.{String}
use mathlib.Core.List.{List, [], ◌∷◌}
use oid4vc.Prelude.Tests.{ltb, if◌then◌else◌}
use oid4vc.Prelude.Text.{text_of}

-- Fuel `n + 1` is enough, as each round divides by ten.
decimal_from : ℕ → ℕ → List ℕ → List ℕ
decimal_from zero n acc = acc
decimal_from (suc fuel) n acc =
    let rest = decimal_from fuel (n / 10) ((b'0' + n % 10) ∷ acc) in
    if ltb n 10 then (b'0' + n) ∷ acc else rest

unfoldable pub decimal : ℕ → List ℕ
unfolding decimal_from
decimal n = decimal_from (n + 1) n []

unfoldable pub decimal_text : ℕ → String
unfolding decimal text_of
decimal_text n = text_of (decimal n)

-- `concat(a, b, …)` of texts.
unfoldable pub concat : List String → String
concat [] = ""
concat (t ∷ ts) = String.◌++◌ t (concat ts)
