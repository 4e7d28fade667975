-- ===== src/Encoding/EncodedKeys.antt =====
-- Keys that `encodeURIComponent` wrote are the same only where the keys are.
use oid4vc.Prelude.{
  ℕ, ◌≡◌, refl, sym, ap, ◌∙◌, inl, inr, true, some, List, [], ◌∷◌, arith, Bool-cases, All,
  encode_uri_component, decode_uri_component,
}
use mathlib.Core.Path.{subst}
use oid4vc.Prelude.Percent.RoundTrip.{IsScalarCode, decode-encode_uri_component}
use oid4vc.Encoding.{nats_equal}

nats_equal_refl : (xs : List ℕ) → nats_equal xs xs ≡ true
nats_equal_refl [] = refl
nats_equal_refl (x ∷ xs) = ground (arith, nats_equal_refl xs)

nats_equal→eq : (xs ys : List ℕ) → nats_equal xs ys ≡ true → xs ≡ ys
nats_equal→eq [] [] h = refl
nats_equal→eq [] (y ∷ ys) h = ground arith
nats_equal→eq (x ∷ xs) [] h = ground arith
nats_equal→eq (x ∷ xs) (y ∷ ys) h = ground (arith, nats_equal→eq xs ys)

some_injective : (xs ys : List ℕ) → some xs ≡ some ys → xs ≡ ys
some_injective xs ys e = cc

encode_injective :
    (k key : List ℕ)
    → All IsScalarCode k
    → All IsScalarCode key
    → encode_uri_component k ≡ encode_uri_component key
    → k ≡ key
encode_injective k key s t e = some_injective k key (
    sym (decode-encode_uri_component k s)
    ∙ ap decode_uri_component e
    ∙ decode-encode_uri_component key t)

pub nats_equal-encode :
    (k key : List ℕ)
    → All IsScalarCode k
    → All IsScalarCode key
    → nats_equal (encode_uri_component k) (encode_uri_component key) ≡ nats_equal k key
nats_equal-encode k key s t = elim (Bool-cases (nats_equal k key)) [
  | inl e ↦
      subst (λ k'. nats_equal (encode_uri_component k) (encode_uri_component k') ≡ nats_equal k k')
        (nats_equal→eq k key e) (nats_equal_refl (encode_uri_component k) ∙ sym (nats_equal_refl k))
  | inr e ↦ elim (Bool-cases (nats_equal (encode_uri_component k) (encode_uri_component key))) [
    | inl f ↦ ground (
      arith,
      sym (nats_equal_refl k)
          ∙ ap (nats_equal k) (
              encode_injective k key s t
                (nats_equal→eq (encode_uri_component k) (encode_uri_component key) f))
          ∙ e,
    )
    | inr f ↦ f ∙ sym e
  ]
]
