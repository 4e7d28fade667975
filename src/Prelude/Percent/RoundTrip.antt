-- ===== src/Prelude/Percent/RoundTrip.antt =====
-- `decodeURIComponent` reads back what `encodeURIComponent` wrote.
use Prim.Native.Nat.{ℕ, ◌+◌, ◌/◌, ◌%◌, ◌≤◌, ◌<◌}
use mathlib.Core.Path.{◌≡◌, refl, ap, ◌∙◌, sym}
use mathlib.Core.Logic.{inl, inr}
use mathlib.Core.Bool.{true, false}
use mathlib.Core.Option.{Option, none, some}
use mathlib.Core.List.{List, [], ◌∷◌, ◌++◌, append_assoc, append-nil}
use Prim.Native.Nat.{compare, Ordering}
use Prim.Native.Char.{char, IsScalar}
use Prim.Native.String.{String}
use oid4vc.Prelude.Values.{codes}
use native.Mathlib.Omega.{arith}
use oid4vc.Prelude.Tests.{ltb, nat_beq, Bool-cases}
use oid4vc.Prelude.Lists.{All}
use oid4vc.Prelude.Percent.{
  is_unescaped, hex_upper, percent, percents, encode_char, encode_uri_component, Pending, no_bytes,
  bytes_due, is_scalar, take_byte, hex_value, hex_byte, of_digits, put_char, after_byte,
  decode_from, decode_uri_component,
}

abbrev pub IsScalarCode : ℕ → Type 0
IsScalarCode c = is_scalar c ≡ true

plain_char :
    (c : ℕ) (cs : List ℕ)
    → nat_beq c b'%' ≡ false
    → decode_from no_bytes (c ∷ cs) ≡ put_char (some c) (decode_from no_bytes cs)
unfolding decode_from
plain_char c [] h = ground arith
plain_char c (d ∷ []) h = ground arith
plain_char c (d ∷ e ∷ cs) h = ground arith

hex_digit_read : (n : ℕ) → n < 16 → hex_value (hex_upper n) ≡ some n
hex_digit_read n h = ground arith

hex_byte_read : (b : ℕ) → b < 256 → hex_byte (hex_upper (b / 16)) (hex_upper (b % 16)) ≡ some b
unfolding hex_byte
hex_byte_read b h =
    ap (λ (x : Option ℕ). of_digits x (hex_value (hex_upper (b % 16))))
      (hex_digit_read (b / 16) (omega arith))
    ∙ ap (λ (x : Option ℕ). of_digits (some (b / 16)) x) (hex_digit_read (b % 16) (omega arith))
    ∙ ap (λ (x : ℕ). some x) (omega arith)

-- A byte that is written as a percent sign and its digits.
percent_byte :
    (p : Pending) (b : ℕ) (cs : List ℕ)
    → b < 256
    → decode_from p (percent b ++ cs) ≡ after_byte (take_byte p b) (λ q. decode_from q cs)
unfolding decode_from percent
percent_byte p b cs h = rw (hex_byte_read b h) refl

put_none : (o : Option (List ℕ)) → put_char none o ≡ o
put_none none = refl
put_none (some cs) = refl

lead_byte :
    (p q : Pending) (b : ℕ) (cs : List ℕ)
    → b < 256
    → take_byte p b ≡ some (none, q)
    → decode_from p (percent b ++ cs) ≡ decode_from q cs
lead_byte p q b cs h e = percent_byte p b cs h ∙ rw e (put_none (decode_from q cs))

last_byte :
    (p : Pending) (b c : ℕ) (cs : List ℕ)
    → b < 256
    → take_byte p b ≡ some (some c, no_bytes)
    → decode_from p (percent b ++ cs) ≡ put_char (some c) (decode_from no_bytes cs)
last_byte p b c cs h e = percent_byte p b cs h ∙ rw e refl

module _ (c : ℕ) (cs : List ℕ) where
  pub one_byte :
      c < 128
      → decode_from no_bytes (percents (c ∷ []) ++ cs) ≡ put_char (some c) (decode_from no_bytes cs)
  unfolding percents take_byte
  one_byte h = last_byte no_bytes c c cs (omega arith) (ground arith)

  two_bytes :
      128 ≤ c
      → c < 2048
      → decode_from no_bytes (percents ((192 + c / 64) ∷ (128 + c % 64) ∷ []) ++ cs)
        ≡ put_char (some c) (decode_from no_bytes cs)
  unfolding percents take_byte
  two_bytes l h =
      lead_byte no_bytes (bytes_due 0 (c / 64) 128) (192 + c / 64) (percent (128 + c % 64) ++ cs)
        (omega arith) (ground arith)
      ∙ last_byte (bytes_due 0 (c / 64) 128) (128 + c % 64) c cs (omega arith) (ground arith)

  three_bytes :
      2048 ≤ c
      → c < 65536
      → is_scalar c ≡ true
      → decode_from no_bytes
          (percents ((224 + c / 4096) ∷ (128 + c / 64 % 64) ∷ (128 + c % 64) ∷ []) ++ cs)
        ≡ put_char (some c) (decode_from no_bytes cs)
  unfolding percents take_byte
  three_bytes l h s =
      lead_byte no_bytes (bytes_due 1 (c / 4096) 2048) (224 + c / 4096)
        (percent (128 + c / 64 % 64) ++ (percent (128 + c % 64) ++ cs)) (omega arith) (ground arith)
      ∙ lead_byte (bytes_due 1 (c / 4096) 2048) (bytes_due 0 (c / 64) 2048) (128 + c / 64 % 64)
          (percent (128 + c % 64) ++ cs) (omega arith) (ground arith)
      ∙ last_byte (bytes_due 0 (c / 64) 2048) (128 + c % 64) c cs (omega arith) (ground arith)

  four_bytes :
      65536 ≤ c
      → is_scalar c ≡ true
      → decode_from no_bytes (
          percents
            ((240 + c / 262144) ∷ (128 + c / 4096 % 64) ∷ (128 + c / 64 % 64) ∷ (128 + c % 64) ∷ [])
          ++ cs)
        ≡ put_char (some c) (decode_from no_bytes cs)
  unfolding percents take_byte
  four_bytes l s =
      lead_byte no_bytes (bytes_due 2 (c / 262144) 65536) (240 + c / 262144)
        (percent (128 + c / 4096 % 64)
          ++ (percent (128 + c / 64 % 64) ++ (percent (128 + c % 64) ++ cs)))
        (ground arith) (ground arith)
      ∙ lead_byte (bytes_due 2 (c / 262144) 65536) (bytes_due 1 (c / 4096) 65536)
          (128 + c / 4096 % 64) (percent (128 + c / 64 % 64) ++ (percent (128 + c % 64) ++ cs))
          (omega arith) (ground arith)
      ∙ lead_byte (bytes_due 1 (c / 4096) 65536) (bytes_due 0 (c / 64) 65536) (128 + c / 64 % 64)
          (percent (128 + c % 64) ++ cs) (omega arith) (ground arith)
      ∙ last_byte (bytes_due 0 (c / 64) 65536) (128 + c % 64) c cs (omega arith) (ground arith)

  pub encode_char_read :
      is_scalar c ≡ true
      → decode_from no_bytes (encode_char c ++ cs) ≡ put_char (some c) (decode_from no_bytes cs)
  unfolding encode_char
  encode_char_read s = elim (Bool-cases (is_unescaped c)) [
    | inl e ↦ rw e (plain_char c cs (ground arith))
    | inr e ↦ elim (Bool-cases (ltb c 128)) [
      | inl f ↦ rw (e, f) (one_byte (ground arith))
      | inr f ↦ elim (Bool-cases (ltb c 2048)) [
        | inl g ↦ rw (e, f, g) (two_bytes (ground arith) (ground arith))
        | inr g ↦ elim (Bool-cases (ltb c 65536)) [
          | inl k ↦ rw (e, f, g, k) (three_bytes (ground arith) (ground arith) s)
          | inr k ↦ rw (e, f, g, k) (four_bytes (ground arith) s)
        ]
      ]
    ]
  ]

put_all : List ℕ → Option (List ℕ) → Option (List ℕ)
put_all [] o = o
put_all (c ∷ cs) o = put_char (some c) (put_all cs o)

put_all-some : (cs rest : List ℕ) → put_all cs (some rest) ≡ some (cs ++ rest)
unfolding put_all
put_all-some [] rest = refl
put_all-some (c ∷ cs) rest =
    ap (λ (x : Option (List ℕ)). put_char (some c) x) (put_all-some cs rest)

encode_read :
    (cs rest : List ℕ)
    → All IsScalarCode cs
    → decode_from no_bytes (encode_uri_component cs ++ rest)
      ≡ put_all cs (decode_from no_bytes rest)
unfolding encode_uri_component put_all
encode_read [] rest h = refl
encode_read (c ∷ cs) rest h =
    ap (decode_from no_bytes) (append_assoc (encode_char c) (encode_uri_component cs) rest)
    ∙ encode_char_read c (encode_uri_component cs ++ rest) h.0
    ∙ ap (λ (x : Option (List ℕ)). put_char (some c) x) (encode_read cs rest h.1)

pub decode-encode_uri_component :
    (cs : List ℕ) → All IsScalarCode cs → decode_uri_component (encode_uri_component cs) ≡ some cs
unfolding decode_uri_component
decode-encode_uri_component cs h =
    ap (decode_from no_bytes) (sym (append-nil (encode_uri_component cs)))
    ∙ encode_read cs [] h
    ∙ put_all-some cs []
    ∙ ap (λ (x : List ℕ). some x) (append-nil cs)

scalar_by :
    (n : ℕ) (o p q : Ordering)
    → compare n 55296 ≡ o
    → compare 57343 n ≡ p
    → compare n 1114112 ≡ q
    → IsScalar n
    → is_scalar n ≡ true
scalar_by n Ordering.lt p q e f g h = ground arith
scalar_by n Ordering.eq Ordering.lt Ordering.lt e f g h = ground arith
scalar_by n Ordering.gt Ordering.lt Ordering.lt e f g h = ground arith
scalar_by n o p q e f g h = ground arith

pub codes-scalar : (t : String) → All IsScalarCode (codes t)
codes-scalar String.[] = tt
codes-scalar (String.◌∷◌ (char n h) t) = (
  scalar_by n (compare n 55296) (compare 57343 n) (compare n 1114112) refl refl refl h,
  codes-scalar t,
)
