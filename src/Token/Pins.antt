-- ===== src/Token/Pins.antt =====
-- The tests of transaction codes by regular expressions, on the code points of the text. `\d` is an
-- ASCII digit, and a test succeeds if the pattern fits anywhere.
use oid4vc.Prelude.{
  ℕ, zero, suc, Bool, true, false, not, ◌&&◌, ◌||◌, Option, none, some, List, [], ◌∷◌, ◌++◌, leb,
  nat_beq, decimal, length, codes,
}

abbrev pub is_digit : ℕ → Bool
is_digit c = leb b'0' c && leb c b'9'

-- `[…]{n}` at the start of the text, for a class of characters.
unfoldable pub starts_run : (ℕ → Bool) → ℕ → List ℕ → Bool
starts_run fits zero cs = true
starts_run fits (suc n) [] = false
starts_run fits (suc n) (c ∷ cs) = fits c && starts_run fits n cs

-- `[…]{n}` anywhere.
unfoldable pub has_run : (ℕ → Bool) → ℕ → List ℕ → Bool
unfolding starts_run
has_run fits n [] = starts_run fits n []
has_run fits n (c ∷ cs) = starts_run fits n (c ∷ cs) || has_run fits n cs

unfoldable pub starts_with : List ℕ → List ℕ → Bool
starts_with [] cs = true
starts_with (p ∷ ps) [] = false
starts_with (p ∷ ps) (c ∷ cs) = nat_beq p c && starts_with ps cs

-- One character of a class and then the given text, anywhere.
unfoldable pub has_before : (ℕ → Bool) → List ℕ → List ℕ → Bool
unfolding starts_with
has_before fits after [] = false
has_before fits after (c ∷ cs) = (fits c && starts_with after cs) || has_before fits after cs

-- `${length}` of a number that may be `undefined`.
abbrev pub shown_length : Option ℕ → List ℕ
shown_length none = codes "undefined"
shown_length (some n) = decimal n

-- `[\d]{${length}}`. With `undefined` between them the braces are no quantifier and stand for
-- themselves.
unfoldable pub matches_digits : Option ℕ → List ℕ → Bool
unfolding has_run has_before
matches_digits none pin = has_before is_digit (b'{' ∷ (codes "undefined" ++ b'}' ∷ [])) pin
matches_digits (some n) pin = has_run is_digit n pin

-- `[\D]{${length}`, as the code has it for a text. The closing brace is missing, so that the opening
-- one is no quantifier and stands for itself.
unfoldable pub matches_text : Option ℕ → List ℕ → Bool
unfolding has_before
matches_text length pin = has_before (λ c. not (is_digit c)) (b'{' ∷ shown_length length) pin

-- `/[\\d]{1,8}/`, as the code has it for a `user_pin`: in a literal this is a class of two
-- characters, the backslash and the letter d.
unfoldable pub matches_user_pin : List ℕ → Bool
matches_user_pin [] = false
matches_user_pin (c ∷ cs) = (nat_beq c b'\\' || nat_beq c b'd') || matches_user_pin cs
