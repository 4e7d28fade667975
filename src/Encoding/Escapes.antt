-- ===== src/Encoding/Escapes.antt =====
-- What `encodeURIComponent` and customEncodeURIComponent write: characters that do not occur in it,
-- and how it is read back.
use mathlib.Core.Path.{subst}
use oid4vc.Prelude.{
  ℕ, ◌/◌, ◌%◌, ◌<◌, ◌≡◌, refl, ap, ◌∙◌, inl, inr, true, false, Option, some, List, [], ◌∷◌, ◌++◌,
  arith, ltb, nat_beq, Bool-cases, All, is_letter_or_digit, is_unescaped, hex_upper, percent, utf8,
  percents, encode_char, encode_uri_component, is_scalar,
}
use oid4vc.Prelude.Percent.{decode_uri_component, decode_from, no_bytes, put_char}
use oid4vc.Prelude.Percent.RoundTrip.{IsScalarCode, encode_char_read, one_byte}
use oid4vc.Encoding.{escape_dots, custom_encode_uri_component}
use oid4vc.Encoding.Plain.{IsFree, IsFree-append}

module _ (k : ℕ) where
  module _ (h : is_letter_or_digit k ≡ false) (p : nat_beq k b'%' ≡ false) where
    hex_free : (n : ℕ) → n < 16 → nat_beq k (hex_upper n) ≡ false
    hex_free n l = ground arith

    pub percent-IsFree : (b : ℕ) → b < 256 → IsFree k (percent b)
    unfolding percent
    percent-IsFree b l =
        (p, (hex_free (b / 16) (omega arith), (hex_free (b % 16) (omega arith), tt)))

    pub percents-IsFree : (bs : List ℕ) → All (λ b. b < 256) bs → IsFree k (percents bs)
    unfolding percents
    percents-IsFree [] l = tt
    percents-IsFree (b ∷ bs) l =
        IsFree-append k (percent b) (percents bs) (percent-IsFree b l.0) (percents-IsFree bs l.1)

pub utf8_bytes : (c : ℕ) → is_scalar c ≡ true → All (λ b. b < 256) (utf8 c)
unfolding utf8
utf8_bytes c s = elim (Bool-cases (ltb c 128)) [
  | inl f ↦ rw f (ground arith)
  | inr f ↦ elim (Bool-cases (ltb c 2048)) [
    | inl g ↦ rw (f, g) (ground arith, (omega arith, tt))
    | inr g ↦ elim (Bool-cases (ltb c 65536)) [
      | inl l ↦ rw (f, g, l) (ground arith, (omega arith, (omega arith, tt)))
      | inr l ↦ rw (f, g, l) (ground arith, (omega arith, (omega arith, (omega arith, tt))))
    ]
  ]
]

module _ (k : ℕ) (h : is_unescaped k ≡ false) (p : nat_beq k b'%' ≡ false) where
  unescaped_differs : (c : ℕ) → is_unescaped c ≡ true → nat_beq k c ≡ false
  unescaped_differs c e = ground arith

  encode_char-IsFree : (c : ℕ) → is_scalar c ≡ true → IsFree k (encode_char c)
  unfolding encode_char
  encode_char-IsFree c s = elim (Bool-cases (is_unescaped c)) [
    | inl e ↦ rw e (unescaped_differs c e, tt)
    | inr e ↦ rw e (percents-IsFree k (ground arith) p (utf8 c) (utf8_bytes c s))
  ]

  pub encode_uri_component-IsFree :
      (cs : List ℕ) → All IsScalarCode cs → IsFree k (encode_uri_component cs)
  unfolding encode_uri_component
  encode_uri_component-IsFree [] s = tt
  encode_uri_component-IsFree (c ∷ cs) s =
      IsFree-append k (encode_char c) (encode_uri_component cs) (encode_char-IsFree c s.0)
        (encode_uri_component-IsFree cs s.1)

  escape_dots-IsFree : (cs : List ℕ) → IsFree k cs → IsFree k (escape_dots cs)
  unfolding escape_dots
  escape_dots-IsFree [] f = tt
  escape_dots-IsFree (c ∷ cs) f = elim (Bool-cases (nat_beq c b'.')) [
    | inl e ↦ rw e (
        IsFree-append k (percent b'.') (escape_dots cs)
          (percent-IsFree k (ground arith) p b'.' (omega arith)) (escape_dots-IsFree cs f.1))
    | inr e ↦ rw e (f.0, escape_dots-IsFree cs f.1)
  ]

  pub custom_encode-IsFree :
      (cs : List ℕ) → All IsScalarCode cs → IsFree k (custom_encode_uri_component cs)
  unfolding custom_encode_uri_component
  custom_encode-IsFree cs s =
      escape_dots-IsFree (encode_uri_component cs) (encode_uri_component-IsFree cs s)

escape_dots-append : (xs ys : List ℕ) → escape_dots (xs ++ ys) ≡ escape_dots xs ++ escape_dots ys
unfolding escape_dots
escape_dots-append [] ys = refl
escape_dots-append (x ∷ xs) ys = elim (Bool-cases (nat_beq x b'.')) [
  | inl e ↦ rw e (ap (λ (z : List ℕ). percent b'.' ++ z) (escape_dots-append xs ys))
  | inr e ↦ rw e (ap (λ (z : List ℕ). x ∷ z) (escape_dots-append xs ys))
]

escape_dots_free : (cs : List ℕ) → IsFree b'.' cs → escape_dots cs ≡ cs
unfolding escape_dots
escape_dots_free [] f = refl
escape_dots_free (c ∷ cs) f = elim (Bool-cases (nat_beq c b'.')) [
  | inl e ↦ absurd (ground (arith, f.0))
  | inr e ↦ rw e (ap (λ (z : List ℕ). c ∷ z) (escape_dots_free cs f.1))
]

encode_char_dotless :
    (c : ℕ) → is_scalar c ≡ true → nat_beq c b'.' ≡ false → IsFree b'.' (encode_char c)
unfolding encode_char
encode_char_dotless c s n = elim (Bool-cases (is_unescaped c)) [
  | inl e ↦ rw e (ground arith, tt)
  | inr e ↦ rw e (percents-IsFree b'.' refl refl (utf8 c) (utf8_bytes c s))
]

dot_read :
    (rest : List ℕ)
    → decode_from no_bytes (escape_dots (encode_char b'.') ++ rest)
      ≡ put_char (some b'.') (decode_from no_bytes rest)
unfolding escape_dots encode_char
dot_read rest = one_byte b'.' rest (omega arith)

custom_char_read :
    (c : ℕ) (rest : List ℕ)
    → is_scalar c ≡ true
    → decode_from no_bytes (escape_dots (encode_char c) ++ rest)
      ≡ put_char (some c) (decode_from no_bytes rest)
custom_char_read c rest s = elim (Bool-cases (nat_beq c b'.')) [
  | inl e ↦
      subst
        (λ d.
          decode_from no_bytes (escape_dots (encode_char d) ++ rest)
          ≡ put_char (some d) (decode_from no_bytes rest))
        (ground arith) (dot_read rest)
  | inr e ↦
      ap (λ (z : List ℕ). decode_from no_bytes (z ++ rest))
        (escape_dots_free (encode_char c) (encode_char_dotless c s e))
      ∙ encode_char_read c rest s
]

nothing_read : decode_from no_bytes (escape_dots []) ≡ some []
unfolding decode_from escape_dots
nothing_read = refl

custom_read_from :
    (cs : List ℕ)
    → All IsScalarCode cs
    → decode_from no_bytes (escape_dots (encode_uri_component cs)) ≡ some cs
unfolding encode_uri_component
custom_read_from [] s = nothing_read
custom_read_from (c ∷ cs) s =
    ap (decode_from no_bytes) (escape_dots-append (encode_char c) (encode_uri_component cs))
    ∙ custom_char_read c (escape_dots (encode_uri_component cs)) s.0
    ∙ ap (λ (x : Option (List ℕ)). put_char (some c) x) (custom_read_from cs s.1)

pub decode-custom_encode :
    (cs : List ℕ)
    → All IsScalarCode cs
    → decode_uri_component (custom_encode_uri_component cs) ≡ some cs
unfolding decode_uri_component custom_encode_uri_component
decode-custom_encode cs s = custom_read_from cs s
