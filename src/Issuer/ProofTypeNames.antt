-- ===== src/Issuer/ProofTypeNames.antt =====
-- sanitizeProofTypeNameForError and formatProofTypeNamesForError (packages/issuer/lib/VcIssuer.ts),
-- on the code points of the names.
pub mod Laws
use oid4vc.Prelude.{
  ℕ, ◌-◌, Bool, ◌&&◌, ◌||◌, List, [], ◌∷◌, ◌++◌, map, ltb, leb, nat_beq, if◌then◌else◌, decimal,
  length, take, includes, string_eq, nat_eq, codes,
}

abbrev pub max_proof_type_name_length_in_error : ℕ
max_proof_type_name_length_in_error = 32

abbrev pub max_proof_type_names_in_error : ℕ
max_proof_type_names_in_error = 3

-- The characters `- . _ ~ : / # % = + @`.
abbrev pub safe_punctuation : List ℕ
safe_punctuation = b'-' ∷ b'.' ∷ b'_' ∷ b'~' ∷ b':' ∷ b'/' ∷ b'#' ∷ b'%' ∷ b'=' ∷ b'+' ∷ b'@' ∷ []

-- SAFE_PROOF_TYPE_NAME_CHARACTER
unfoldable pub is_safe_character : ℕ → Bool
is_safe_character c =
    (leb b'A' c && leb c b'Z')
    || (leb b'a' c && leb c b'z')
    || (leb b'0' c && leb c b'9')
    || includes safe_punctuation c

unfoldable pub safe_character : ℕ → ℕ
safe_character c = if is_safe_character c then c else b'?'

-- JSON.stringify of a text of printable ASCII characters; it escapes quotes and backslashes.
unfoldable pub escape : List ℕ → List ℕ
escape [] = []
escape (c ∷ cs) = if nat_beq c b'"' || nat_beq c b'\\' then b'\\' ∷ c ∷ escape cs else c ∷ escape cs

unfoldable pub quote : List ℕ → List ℕ
unfolding escape
quote cs = b'"' ∷ escape cs ++ b'"' ∷ []

unfoldable pub sanitize_proof_type_name_for_error : List ℕ → List ℕ
unfolding quote
sanitize_proof_type_name_for_error proof_type_name =
    let safe = map safe_character (take max_proof_type_name_length_in_error proof_type_name) in
    quote (
      if ltb max_proof_type_name_length_in_error (length proof_type_name)
      then safe ++ b'.' ∷ b'.' ∷ b'.' ∷ []
      else safe)

-- `listed.join(', ')`
unfoldable pub join : List (List ℕ) → List ℕ
join [] = []
join (t ∷ []) = t
join (t ∷ u ∷ ts) = t ++ b',' ∷ b' ' ∷ join (u ∷ ts)

unfoldable pub format_proof_type_names_for_error : List (List ℕ) → List ℕ
unfolding sanitize_proof_type_name_for_error join
format_proof_type_names_for_error proof_type_names =
    let listed = join (
      map sanitize_proof_type_name_for_error
        (take max_proof_type_names_in_error proof_type_names)) in
    let omitted = length proof_type_names - max_proof_type_names_in_error in
    if ltb 0 omitted then listed ++ codes " (and " ++ decimal omitted ++ codes " more)" else listed
