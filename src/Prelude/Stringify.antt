-- ===== src/Prelude/Stringify.antt =====
-- JSON values, and `JSON.stringify` of them. Texts are sequences of code points.
use Prim.Native.Nat.{ℕ, ◌+◌, ◌/◌, ◌%◌}
use mathlib.Core.Bool.{Bool, true, false}
use mathlib.Core.List.{List, [], ◌∷◌, ◌++◌}
use oid4vc.Prelude.Tests.{ltb, nat_beq, if◌then◌else◌}
use oid4vc.Prelude.Decimal.{decimal}
use oid4vc.Prelude.Values.{codes}

mutual
  pub data Json : Type 0 where
    null : Json
    boolean : Bool → Json
    number : ℕ → Json
    string : List ℕ → Json
    array : Elements → Json
    object : Members → Json

  pub data Elements : Type 0 where
    no_elements : Elements
    element : Json → Elements → Elements

  pub data Members : Type 0 where
    no_members : Members
    member : List ℕ → Json → Members → Members

-- A digit in base 16, in lower case.
abbrev pub hex_digit : ℕ → ℕ
hex_digit n = if ltb n 10 then b'0' + n else 87 + n

-- A character as it stands between the quotes.
unfoldable pub quoted_char : ℕ → List ℕ
quoted_char c =
    if nat_beq c b'"'
    then b'\\' ∷ b'"' ∷ []
    else if nat_beq c b'\\'
    then b'\\' ∷ b'\\' ∷ []
    else if nat_beq c 8
    then b'\\' ∷ b'b' ∷ []
    else if nat_beq c 12
    then b'\\' ∷ b'f' ∷ []
    else if nat_beq c 10
    then b'\\' ∷ b'n' ∷ []
    else if nat_beq c 13
    then b'\\' ∷ b'r' ∷ []
    else if nat_beq c 9
    then b'\\' ∷ b't' ∷ []
    else if ltb c 32
    then b'\\' ∷ b'u' ∷ b'0' ∷ b'0' ∷ hex_digit (c / 16) ∷ hex_digit (c % 16) ∷ []
    else c ∷ []

quoted_chars : List ℕ → List ℕ
unfolding quoted_char
quoted_chars [] = []
quoted_chars (c ∷ cs) = quoted_char c ++ quoted_chars cs

unfoldable pub quoted : List ℕ → List ℕ
unfolding quoted_chars
quoted cs = b'"' ∷ (quoted_chars cs ++ b'"' ∷ [])

unfoldable mutual
  unfolding quoted

  pub stringify : Json → List ℕ
  stringify null = codes "null"
  stringify (boolean true) = codes "true"
  stringify (boolean false) = codes "false"
  stringify (number n) = decimal n
  stringify (string cs) = quoted cs
  stringify (array es) = b'[' ∷ stringify_elements es
  stringify (object ms) = b'{' ∷ stringify_members ms

  pub stringify_elements : Elements → List ℕ
  stringify_elements no_elements = b']' ∷ []
  stringify_elements (element j es) = stringify j ++ stringify_more es

  pub stringify_more : Elements → List ℕ
  stringify_more no_elements = b']' ∷ []
  stringify_more (element j es) = b',' ∷ (stringify j ++ stringify_more es)

  pub stringify_members : Members → List ℕ
  stringify_members no_members = b'}' ∷ []
  stringify_members (member k j ms) =
      quoted k ++ (b':' ∷ (stringify j ++ stringify_more_members ms))

  pub stringify_more_members : Members → List ℕ
  stringify_more_members no_members = b'}' ∷ []
  stringify_more_members (member k j ms) =
      b',' ∷ (quoted k ++ (b':' ∷ (stringify j ++ stringify_more_members ms)))

-- An array of texts.
abbrev pub strings : List (List ℕ) → Elements
strings [] = no_elements
strings (t ∷ ts) = element (string t) (strings ts)
