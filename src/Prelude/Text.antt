-- ===== src/Prelude/Text.antt =====
-- Texts as lists of code points, and JavaScript's searches in them: `includes`, `replace` of the
-- first occurrence and `split`.
use Prim.Native.Nat.{ℕ, ◌<◌, compare, Ordering}
use Prim.Native.Char.{Char, char, code, nul, IsScalar}
use Prim.Native.String
use Prim.Native.String.{String}
use mathlib.Core.Path.{◌≡◌, refl, ap, ◌∙◌}
use mathlib.Core.Bool.{Bool}
use mathlib.Core.Option.{Option, none, some}
use mathlib.Core.List.{List, [], ◌∷◌, ◌++◌}
use native.Mathlib.Omega.{arith}
use text.Mathlib.TextLemmas.{nil-append, cons-append}
use oid4vc.Prelude.Tests.{nat_beq, if◌then◌else◌}
use oid4vc.Prelude.Lists.{All}
use oid4vc.Prelude.Values.{codes, is_some}

low_scalar : (n : ℕ) → compare n 55296 ≡ Ordering.lt → IsScalar n
low_scalar n e = rw e tt

high_scalar :
    (n : ℕ)
    → compare n 55296 ≡ Ordering.gt
    → compare 57343 n ≡ Ordering.lt
    → compare n 1114112 ≡ Ordering.lt
    → IsScalar n
high_scalar n e f g = rw (e, f, g) tt

high_char_below :
    (n : ℕ) (o : Ordering)
    → compare n 55296 ≡ Ordering.gt
    → compare 57343 n ≡ Ordering.lt
    → compare n 1114112 ≡ o
    → Char
high_char_below n Ordering.lt e f g = char n (high_scalar n e f g)
high_char_below n Ordering.eq e f g = nul
high_char_below n Ordering.gt e f g = nul

high_char : (n : ℕ) (o : Ordering) → compare n 55296 ≡ Ordering.gt → compare 57343 n ≡ o → Char
unfolding high_char_below high_scalar
high_char n Ordering.lt e f = high_char_below n (compare n 1114112) e f refl
high_char n Ordering.eq e f = nul
high_char n Ordering.gt e f = nul

char_by : (n : ℕ) (o : Ordering) → compare n 55296 ≡ o → Char
unfolding low_scalar high_char
char_by n Ordering.lt e = char n (low_scalar n e)
char_by n Ordering.eq e = nul
char_by n Ordering.gt e = high_char n (compare 57343 n) e refl

-- The text of these code points; a number that is none stands for U+0000.
unfoldable pub text_of : List ℕ → String
unfolding char_by
text_of [] = String.[]
text_of (c ∷ cs) = String.◌∷◌ (char_by c (compare c 55296) refl) (text_of cs)

code-char_by :
    (n : ℕ) (o : Ordering) (e : compare n 55296 ≡ o) → o ≡ Ordering.lt → code (char_by n o e) ≡ n
unfolding char_by
code-char_by n Ordering.lt e h = refl
code-char_by n Ordering.eq e h = cc
code-char_by n Ordering.gt e h = cc

abbrev pub IsLow : ℕ → Type 0
IsLow c = c < 55296

pub codes-text_of : (cs : List ℕ) → All IsLow cs → codes (text_of cs) ≡ cs
unfolding text_of
codes-text_of [] h = refl
codes-text_of (c ∷ cs) h =
    ap (λ (x : ℕ). x ∷ codes (text_of cs)) (code-char_by c (compare c 55296) refl (ground arith))
    ∙ ap (λ (x : List ℕ). c ∷ x) (codes-text_of cs h.1)

pub codes-append : (s t : String) → codes (String.◌++◌ s t) ≡ codes s ++ codes t
codes-append String.[] t = ap codes (nil-append t)
codes-append (String.◌∷◌ c s) t =
    ap codes (cons-append c s t) ∙ ap (λ (x : List ℕ). code c ∷ x) (codes-append s t)

-- What follows a prefix.
unfoldable pub strip : List ℕ → List ℕ → Option (List ℕ)
strip [] cs = some cs
strip (p ∷ ps) [] = none
strip (p ∷ ps) (c ∷ cs) = if nat_beq p c then strip ps cs else none

abbrev put_before : ℕ → Option (List ℕ × List ℕ) → Option (List ℕ × List ℕ)
put_before c none = none
put_before c (some (a, b)) = some (c ∷ a, b)

abbrev first_cut : Option (List ℕ) → Option (List ℕ × List ℕ) → Option (List ℕ × List ℕ)
first_cut (some rest) later = some ([], rest)
first_cut none later = later

-- What stands before and after the first occurrence of `key`.
unfoldable pub cut : (key : List ℕ) → List ℕ → Option (List ℕ × List ℕ)
unfolding strip
cut key [] = first_cut (strip key []) none
cut key (c ∷ cs) = first_cut (strip key (c ∷ cs)) (put_before c (cut key cs))

-- `cs.includes(key)`
abbrev pub contains : (key : List ℕ) → List ℕ → Bool
contains key cs = is_some (cut key cs)

-- `cs.replace(key, by)` of a text, where `by` has no dollar sign.
abbrev pub replace_first : (key by : List ℕ) → List ℕ → List ℕ
replace_first key by cs = elim (cut key cs) [ none ↦ cs | some (a, b) ↦ a ++ (by ++ b) ]

-- `cs.split(key)[0]`
abbrev pub first_part : (key : List ℕ) → List ℕ → List ℕ
first_part key cs = elim (cut key cs) [ none ↦ cs | some (a, b) ↦ a ]

-- `cs.split(key)[1]`, which is `undefined` without an occurrence.
abbrev pub second_part : (key : List ℕ) → List ℕ → Option (List ℕ)
second_part key cs = elim (cut key cs) [ none ↦ none | some (a, b) ↦ some (first_part key b) ]

-- `cs.startsWith(key)`
abbrev pub begins : (key : List ℕ) → List ℕ → Bool
begins key cs = is_some (strip key cs)

pub strip-append : (key rest : List ℕ) → strip key (key ++ rest) ≡ some rest
unfolding strip
strip-append [] rest = refl
strip-append (p ∷ ps) rest = ground (arith, strip-append ps rest)
