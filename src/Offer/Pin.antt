-- ===== src/Offer/Pin.antt =====
-- The PIN that createCredentialOfferURI draws for an offer with a transaction code.
use oid4vc.Prelude.{
  ℕ, zero, suc, ◌+◌, ◌-◌, ◌^◌, ◌<◌, String, ◌≡◌, refl, ◌∙◌, Bool, true, some, List, [], ◌∷◌, ◌++◌,
  arith, decimal, codes-append, length, All, codes,
}
use oid4vc.Prelude.Decimal.Digits.{
  IsDigit, value, decimal-digits, decimal-value, decimal-length, decimal_text-codes,
}
use oid4vc.Types.{TxCode}
use oid4vc.Token.Pins.{is_digit, has_run, starts_run, matches_digits}
use oid4vc.Offer.Create.{zeros, padded, user_pin, assert_valid_pin_number}

zeros-digits : (n : ℕ) (cs : List ℕ) → All IsDigit cs → All IsDigit (codes (zeros n) ++ cs)
unfolding zeros
zeros-digits zero cs h = h
zeros-digits (suc n) cs h = rw (codes-append "0" (zeros n)) (omega arith, zeros-digits n cs h)

zeros-value : (n : ℕ) (cs : List ℕ) → value 0 (codes (zeros n) ++ cs) ≡ value 0 cs
unfolding zeros value
zeros-value zero cs = refl
zeros-value (suc n) cs = rw (codes-append "0" (zeros n)) (zeros-value n cs)

zeros-length : (n : ℕ) (cs : List ℕ) → length (codes (zeros n) ++ cs) ≡ n + length cs
unfolding zeros
zeros-length zero cs = omega arith
zeros-length (suc n) cs = rw (codes-append "0" (zeros n)) (omega (arith, zeros-length n cs))

padded-codes :
    (width n : ℕ) → codes (padded width n) ≡ codes (zeros (width - length (decimal n))) ++ decimal n
unfolding padded
padded-codes width n = rw (codes-append, decimal_text-codes n) refl

module _ (fits : ℕ → Bool) (P : ℕ → Type 0) (holds : (c : ℕ) → P c → fits c ≡ true) where
  starts_run-All : (cs : List ℕ) → All P cs → starts_run fits (length cs) cs ≡ true
  unfolding starts_run
  starts_run-All [] h = refl
  starts_run-All (c ∷ cs) h = ground (arith, holds c h.0, starts_run-All cs h.1)

  pub has_run-All : (cs : List ℕ) (n : ℕ) → All P cs → length cs ≡ n → has_run fits n cs ≡ true
  unfolding has_run
  has_run-All [] n h e = rw (← e) (starts_run-All [] h)
  has_run-All (c ∷ cs) n h e = rw (← e) (ground (arith, starts_run-All (c ∷ cs) h))

pub matches_digits-All :
    (cs : List ℕ) (n : ℕ) → All IsDigit cs → length cs ≡ n → matches_digits (some n) cs ≡ true
unfolding matches_digits
matches_digits-All cs n h e = has_run-All is_digit IsDigit (λ c d. ground arith) cs n h e

-- Where the drawn number has at most as many digits as the code is to have, the PIN is made of
-- exactly that many digits, which denote the number, and it passes the test of its form.
pub user_pin_lem :
    (t : TxCode) (k drawn : ℕ)
    → t.length ≡ some (suc k)
    → drawn < 10 ^ suc k
    → (pin : String) × (user_pin (some t) drawn ≡ some pin)
      × All IsDigit (codes pin)
      × (length (codes pin) ≡ suc k)
      × (value 0 (codes pin) ≡ drawn)
      × (assert_valid_pin_number (some pin) (some (suc k)) ≡ true)
unfolding user_pin assert_valid_pin_number
user_pin_lem t k drawn given small =
    let pin : String = padded (suc k) drawn in
    let same : user_pin (some t) drawn ≡ some pin = rw given refl in
    let digits : All IsDigit (codes pin) =
      rw (padded-codes (suc k) drawn)
        (zeros-digits (suc k - length (decimal drawn)) (decimal drawn) (decimal-digits drawn)) in
    let size : length (codes pin) ≡ suc k = rw (padded-codes (suc k) drawn) (
      omega (
        arith,
        zeros-length (suc k - length (decimal drawn)) (decimal drawn),
        decimal-length drawn k small,
      )) in
    let denotes : value 0 (codes pin) ≡ drawn =
      rw (padded-codes (suc k) drawn)
        (zeros-value (suc k - length (decimal drawn)) (decimal drawn) ∙ decimal-value drawn) in
    let run : has_run (λ c. true) (suc k) (codes pin) ≡ true =
      has_run-All (λ c. true) IsDigit (λ c d. refl) (codes pin) (suc k) digits size in
    (pin, same, digits, size, denotes, ground arith)
