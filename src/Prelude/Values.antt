-- ===== src/Prelude/Values.antt =====
-- Values that may be `undefined`, and which of them JavaScript takes for true.
use Prim.Native.Nat.{ℕ, zero, suc}
use Prim.Native.Char.{code}
use Prim.Native.String.{String}
use mathlib.Core.Bool.{Bool, true, false}
use mathlib.Core.Option.{Option, none, some}
use mathlib.Core.List.{List, [], ◌∷◌}
use mathlib.Core.Path.{◌≡◌}
use mathlib.Core.Logic.{◌↔◌}
use native.Mathlib.Omega.{arith}
use text.Mathlib.TextEquality.{eq_iff}
use oid4vc.Prelude.Keys.{◌==◌, string_eq}

-- The empty text is false.
abbrev pub text_truthy : String → Bool
text_truthy String.[] = false
text_truthy (String.◌∷◌ c s) = true

-- So are `undefined` and, among numbers, 0.
abbrev pub text?_truthy : Option String → Bool
text?_truthy none = false
text?_truthy (some s) = text_truthy s

abbrev pub nat?_truthy : Option ℕ → Bool
nat?_truthy none = false
nat?_truthy (some zero) = false
nat?_truthy (some (suc n)) = true

abbrev pub bool?_truthy : Option Bool → Bool
bool?_truthy none = false
bool?_truthy (some b) = b

abbrev pub is_some {ℓ} : {A : Type ℓ} → Option A → Bool
is_some none = false
is_some (some a) = true

-- `a ?? b`
abbrev pub get_or {ℓ} : {A : Type ℓ} → Option A → A → A
get_or none b = b
get_or (some a) b = a

-- `a ?? b` where `b` may be `undefined` too
abbrev pub or_else {ℓ} : {A : Type ℓ} → Option A → Option A → Option A
or_else none b = b
or_else (some a) b = some a

-- The property read `o?.f` of a value that may be `undefined`.
abbrev pub and_then {ℓ κ} : {A : Type ℓ} {B : Type κ} → Option A → (A → Option B) → Option B
and_then none f = none
and_then (some a) f = f a

-- The code points of a text.
abbrev pub codes : String → List ℕ
codes String.[] = []
codes (String.◌∷◌ c s) = code c ∷ codes s

-- `a === b` of texts that may be `undefined`
abbrev pub text?_eq : Option String → Option String → Bool
text?_eq none none = true
text?_eq none (some b) = false
text?_eq (some a) none = false
text?_eq (some a) (some b) = a == b

pub text?_eq_iff : (a b : Option String) → (text?_eq a b ≡ true) ↔ (a ≡ b)
text?_eq_iff none none = ground arith
text?_eq_iff none (some b) = ground arith
text?_eq_iff (some a) none = ground arith
text?_eq_iff (some a) (some b) = ground (arith, eq_iff a b)
