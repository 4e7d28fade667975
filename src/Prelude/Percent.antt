-- ===== src/Prelude/Percent.antt =====
-- `encodeURIComponent` and `decodeURIComponent` on code points: a character that is not unreserved
-- stands as its bytes in UTF-8, each as a percent sign and two digits in base 16.
pub mod RoundTrip
use Prim.Native.Nat.{ℕ, zero, suc, ◌+◌, ◌-◌, ◌*◌, ◌/◌, ◌%◌}
use mathlib.Core.Bool.{Bool, true, false, ◌&&◌, ◌||◌}
use mathlib.Core.Option.{Option, none, some}
use mathlib.Core.List.{List, [], ◌∷◌, ◌++◌}
use oid4vc.Prelude.Tests.{ltb, leb, nat_beq, if◌then◌else◌}

abbrev pub is_letter_or_digit : ℕ → Bool
is_letter_or_digit c =
    (leb b'a' c && leb c b'z') || (leb b'A' c && leb c b'Z') || (leb b'0' c && leb c b'9')

-- The characters that stay: letters, digits and `-_.!~*'()`.
abbrev pub is_unescaped : ℕ → Bool
is_unescaped c =
    is_letter_or_digit c
    || nat_beq c b'-'
    || nat_beq c b'_'
    || nat_beq c b'.'
    || nat_beq c b'!'
    || nat_beq c b'~'
    || nat_beq c b'*'
    || nat_beq c 39
    || nat_beq c b'('
    || nat_beq c b')'

-- A digit in base 16, in upper case.
abbrev pub hex_upper : ℕ → ℕ
hex_upper n = if ltb n 10 then b'0' + n else 55 + n

-- `%XY`
unfoldable pub percent : ℕ → List ℕ
percent b = b'%' ∷ hex_upper (b / 16) ∷ hex_upper (b % 16) ∷ []

-- The bytes of a code point in UTF-8.
unfoldable pub utf8 : ℕ → List ℕ
utf8 c =
    if ltb c 128
    then c ∷ []
    else if ltb c 2048
    then (192 + c / 64) ∷ (128 + c % 64) ∷ []
    else if ltb c 65536
    then (224 + c / 4096) ∷ (128 + c / 64 % 64) ∷ (128 + c % 64) ∷ []
    else (240 + c / 262144) ∷ (128 + c / 4096 % 64) ∷ (128 + c / 64 % 64) ∷ (128 + c % 64) ∷ []

unfoldable pub percents : List ℕ → List ℕ
unfolding percent
percents [] = []
percents (b ∷ bs) = percent b ++ percents bs

unfoldable pub encode_char : ℕ → List ℕ
unfolding percents utf8
encode_char c = if is_unescaped c then c ∷ [] else percents (utf8 c)

unfoldable pub encode_uri_component : List ℕ → List ℕ
unfolding encode_char
encode_uri_component [] = []
encode_uri_component (c ∷ cs) = encode_char c ++ encode_uri_component cs

-- The bytes of a character that are read and still to come: `bytes_due n acc low` waits for `n + 1`
-- bytes, after those that give `acc`, for a code point of at least `low`.
pub data Pending : Type 0 where
  no_bytes : Pending
  bytes_due : (n acc low : ℕ) → Pending

abbrev pub is_scalar : ℕ → Bool
is_scalar c = ltb c 55296 || (leb 57344 c && ltb c 1114112)

-- What a byte does: a code point that is now whole, if any, and what is pending then; `none` is a
-- sequence that is not UTF-8.
unfoldable pub take_byte : Pending → ℕ → Option (Option ℕ × Pending)
take_byte no_bytes b =
    if ltb b 128
    then some (some b, no_bytes)
    else if leb 194 b && ltb b 224
    then some (none, bytes_due 0 (b - 192) 128)
    else if leb 224 b && ltb b 240
    then some (none, bytes_due 1 (b - 224) 2048)
    else if leb 240 b && ltb b 245
    then some (none, bytes_due 2 (b - 240) 65536)
    else none
take_byte (bytes_due zero acc low) b =
    if leb 128 b && ltb b 192 && leb low (acc * 64 + (b - 128)) && is_scalar (acc * 64 + (b - 128))
    then some (some (acc * 64 + (b - 128)), no_bytes)
    else none
take_byte (bytes_due (suc n) acc low) b =
    if leb 128 b && ltb b 192 then some (none, bytes_due n (acc * 64 + (b - 128)) low) else none

abbrev pub hex_value : ℕ → Option ℕ
hex_value c =
    if leb b'0' c && leb c b'9'
    then some (c - b'0')
    else if leb b'A' c && leb c b'F'
    then some (c - 55)
    else if leb b'a' c && leb c b'f'
    then some (c - 87)
    else none

abbrev pub of_digits : Option ℕ → Option ℕ → Option ℕ
of_digits (some a) (some b) = some (a * 16 + b)
of_digits (some a) none = none
of_digits none _ = none

-- The byte of two digits in base 16.
unfoldable pub hex_byte : ℕ → ℕ → Option ℕ
hex_byte h l = of_digits (hex_value h) (hex_value l)

abbrev pub put_char : Option ℕ → Option (List ℕ) → Option (List ℕ)
put_char (some c) (some cs) = some (c ∷ cs)
put_char none (some cs) = some cs
put_char _ none = none

abbrev pub at_end : Pending → Option (List ℕ)
at_end no_bytes = some []
at_end _ = none

-- A character that stands for itself cannot come within another one's bytes.
abbrev pub keep : Pending → ℕ → Option (List ℕ) → Option (List ℕ)
keep no_bytes c rest = put_char (some c) rest
keep _ c rest = none

abbrev pub after_byte : Option (Option ℕ × Pending) → (Pending → Option (List ℕ)) → Option (List ℕ)
after_byte none rest = none
after_byte (some (c, p)) rest = put_char c (rest p)

abbrev pub byte_of : Pending → Option ℕ → Option (Option ℕ × Pending)
byte_of p none = none
byte_of p (some b) = take_byte p b

unfoldable pub decode_from : Pending → List ℕ → Option (List ℕ)
unfolding take_byte hex_byte
decode_from p [] = at_end p
decode_from p (c ∷ []) = if nat_beq c b'%' then none else keep p c (at_end p)
decode_from p (c ∷ h ∷ []) =
    let rest = decode_from p (h ∷ []) in if nat_beq c b'%' then none else keep p c rest
decode_from p (c ∷ h ∷ l ∷ cs) =
    let rest = decode_from p (h ∷ l ∷ cs) in
    if nat_beq c b'%'
    then after_byte (byte_of p (hex_byte h l)) (λ q. decode_from q cs)
    else keep p c rest

-- `none` where `decodeURIComponent` throws.
unfoldable pub decode_uri_component : List ℕ → Option (List ℕ)
unfolding decode_from
decode_uri_component cs = decode_from no_bytes cs
