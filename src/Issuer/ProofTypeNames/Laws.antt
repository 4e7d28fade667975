-- ===== src/Issuer/ProofTypeNames/Laws.antt =====
-- A name in an error message is short, of harmless characters, and not mistaken for another.
use oid4vc.Prelude.{
  ℕ, zero, suc, ◌+◌, ◌≤◌, ◌<◌, ◌≡◌, refl, sym, ap, ◌∙◌, ◌⊎◌, inl, inr, true, List, [], ◌∷◌, ◌++◌,
  map, arith, ltb, leb, if◌then◌else◌, ltb→lt, leb→le, Bool-cases, length, take, All,
}
use oid4vc.Issuer.ProofTypeNames.{
  is_safe_character, safe_character, escape, sanitize_proof_type_name_for_error,
}

length-append {ℓ} : {A : Type ℓ} (xs ys : List A) → length (xs ++ ys) ≡ length xs + length ys
length-append [] ys = omega arith
length-append (x ∷ xs) ys = omega (arith, length-append xs ys)

length-map {ℓ κ} :
    {A : Type ℓ} {B : Type κ} (f : A → B) (xs : List A) → length (map f xs) ≡ length xs
length-map f [] = refl
length-map f (x ∷ xs) = ap suc (length-map f xs)

length-take {ℓ} : {A : Type ℓ} (n : ℕ) (xs : List A) → length (take n xs) ≤ n
length-take zero xs = omega arith
length-take (suc n) [] = omega arith
length-take (suc n) (x ∷ xs) = omega (arith, length-take n xs)

-- What a rendered character can be: an allowed one, or the question mark.
abbrev pub IsRendered : ℕ → Type 0
IsRendered c = (is_safe_character c ≡ true) ⊎ (c ≡ b'?')

safe_character-IsRendered : (c : ℕ) → IsRendered (safe_character c)
unfolding safe_character
safe_character-IsRendered c = ground arith

-- The text between the quotes.
abbrev pub rendered : List ℕ → List ℕ
rendered name =
    if ltb 32 (length name)
    then map safe_character (take 32 name) ++ b'.' ∷ b'.' ∷ b'.' ∷ []
    else map safe_character (take 32 name)

All-append {ℓ κ} :
    {A : Type ℓ} (P : A → Type κ) (xs ys : List A) → All P xs → All P ys → All P (xs ++ ys)
All-append P [] ys hx hy = hy
All-append P (x ∷ xs) ys hx hy = (hx.0, All-append P xs ys hx.1 hy)

map-All : (cs : List ℕ) → All IsRendered (map safe_character cs)
map-All [] = tt
map-All (c ∷ cs) = (safe_character-IsRendered c, map-All cs)

rendered-All : (name : List ℕ) → All IsRendered (rendered name)
unfolding is_safe_character
rendered-All name = elim (Bool-cases (ltb 32 (length name))) [
  | inl long ↦ rw long (
      All-append IsRendered (map safe_character (take 32 name)) _ (map-All (take 32 name))
        (inl refl, (inl refl, (inl refl, tt))))
  | inr short ↦ rw short (map-All (take 32 name))
]

escape-rendered : (cs : List ℕ) → All IsRendered cs → escape cs ≡ cs
unfolding escape is_safe_character
escape-rendered [] h = refl
escape-rendered (c ∷ cs) (h, hs) = ground (arith, escape-rendered cs hs)

sanitize-rendered :
    (name : List ℕ) → sanitize_proof_type_name_for_error name ≡ b'"' ∷ rendered name ++ b'"' ∷ []
unfolding sanitize_proof_type_name_for_error
sanitize-rendered name =
    ap (λ t. b'"' ∷ t ++ b'"' ∷ []) (escape-rendered (rendered name) (rendered-All name))

rendered-length : (name : List ℕ) → length (rendered name) ≤ 35
rendered-length name = elim (Bool-cases (ltb 32 (length name))) [
  | inl long ↦ rw long (
      omega (
        arith,
        length-append (map safe_character (take 32 name)) (b'.' ∷ b'.' ∷ b'.' ∷ []),
        length-map safe_character (take 32 name),
        length-take 32 name,
      ))
  | inr short ↦
      rw short (omega (arith, length-map safe_character (take 32 name), length-take 32 name))
]

-- Whatever the request's name is, the message shows it in quotes, by at most 35 characters, each of
-- them a question mark or one of the allowed characters, which are printable ASCII and no quotes.
pub sanitize_bounded :
    (name : List ℕ)
    → (text : List ℕ) × (sanitize_proof_type_name_for_error name ≡ b'"' ∷ text ++ b'"' ∷ [])
      × (length text ≤ 35)
      × All IsRendered text
sanitize_bounded name =
    (rendered name, sanitize-rendered name, rendered-length name, rendered-All name)

take-all {ℓ} : {A : Type ℓ} (n : ℕ) (xs : List A) → length xs ≤ n → take n xs ≡ xs
take-all zero [] h = refl
take-all zero (x ∷ xs) h = absurd (omega arith)
take-all (suc n) [] h = refl
take-all (suc n) (x ∷ xs) h = ap (λ t. x ∷ t) (take-all n xs (omega arith))

abbrev pub IsClean : List ℕ → Type 0
IsClean name = All (λ c. is_safe_character c ≡ true) name × (length name ≤ 32)

map-safe : (cs : List ℕ) → All (λ c. is_safe_character c ≡ true) cs → map safe_character cs ≡ cs
unfolding safe_character
map-safe [] h = refl
map-safe (c ∷ cs) (h, hs) = ground (arith, map-safe cs hs)

rendered-short : (name : List ℕ) → length name ≤ 32 → rendered name ≡ map safe_character name
rendered-short name h = elim (Bool-cases (ltb 32 (length name))) [
  | inl long ↦ absurd (omega (arith, ltb→lt 32 (length name) long))
  | inr short ↦ rw short (ap (map safe_character) (take-all 32 name h))
]

-- A name of the allowed characters, no longer than 32, is shown as it is.
pub sanitize_clean :
    (name : List ℕ)
    → IsClean name
    → sanitize_proof_type_name_for_error name ≡ b'"' ∷ name ++ b'"' ∷ []
sanitize_clean name (safe, short) =
    sanitize-rendered name
    ∙ ap (λ t. b'"' ∷ t ++ b'"' ∷ []) (rendered-short name short ∙ map-safe name safe)

append-injective : (xs ys : List ℕ) (c : ℕ) → xs ++ c ∷ [] ≡ ys ++ c ∷ [] → xs ≡ ys
append-injective [] [] c h = refl
append-injective [] (y ∷ []) c h = cc
append-injective [] (y ∷ z ∷ ys) c h = cc
append-injective (x ∷ []) [] c h = cc
append-injective (x ∷ z ∷ xs) [] c h = cc
append-injective (x ∷ xs) (y ∷ ys) c h =
    let e : xs ++ c ∷ [] ≡ ys ++ c ∷ [] = cc in
    let i : x ≡ y = cc in cc (append-injective xs ys c e)

map-eq_safe :
    (cs ds : List ℕ)
    → All (λ c. is_safe_character c ≡ true) ds
    → map safe_character cs ≡ ds
    → cs ≡ ds
unfolding safe_character is_safe_character
map-eq_safe [] ds h e = e
map-eq_safe (c ∷ cs) [] h e = cc
map-eq_safe (c ∷ cs) (d ∷ ds) (h, hs) e =
    let es : map safe_character cs ≡ ds = cc in
    let ed : safe_character c ≡ d = cc in ground (arith, map-eq_safe cs ds hs es)

length-take_long {ℓ} : {A : Type ℓ} (n : ℕ) (xs : List A) → n ≤ length xs → length (take n xs) ≡ n
length-take_long zero xs h = refl
length-take_long (suc n) [] h = absurd (omega arith)
length-take_long (suc n) (x ∷ xs) h = ap suc (length-take_long n xs (omega arith))

rendered-length_long : (name : List ℕ) → 32 < length name → length (rendered name) ≡ 35
rendered-length_long name h = elim (Bool-cases (ltb 32 (length name))) [
  | inl long ↦ rw long (
      omega (
        arith,
        length-append (map safe_character (take 32 name)) (b'.' ∷ b'.' ∷ b'.' ∷ []),
        length-map safe_character (take 32 name),
        length-take_long 32 name (omega arith),
      ))
  | inr short ↦ absurd (ground arith)
]

quote-injective : (xs ys : List ℕ) → (b'"' ∷ xs ++ b'"' ∷ []) ≡ (b'"' ∷ ys ++ b'"' ∷ []) → xs ≡ ys
quote-injective xs ys e =
    let tails : (xs ++ b'"' ∷ []) ≡ (ys ++ b'"' ∷ []) = cc in append-injective xs ys b'"' tails

-- If a name is shown in the same way as one of at most 32 allowed characters, the two names are the
-- same: neither a replaced character nor a truncation makes a name look like another, clean one.
pub sanitize-clean_injective :
    (name other : List ℕ)
    → IsClean other
    → sanitize_proof_type_name_for_error name ≡ sanitize_proof_type_name_for_error other
    → name ≡ other
sanitize-clean_injective name other clean same =
    let e : rendered name ≡ other =
      quote-injective (rendered name) other
        (sym (sanitize-rendered name) ∙ same ∙ sanitize_clean other clean) in
    elim (Bool-cases (leb (length name) 32)) [
      | inl short ↦
          map-eq_safe name other clean.0
            (sym (rendered-short name (leb→le (length name) 32 short)) ∙ e)
      | inr long ↦
          absurd (omega (arith, rendered-length_long name (ground arith), ap length e, clean.1))
    ]
