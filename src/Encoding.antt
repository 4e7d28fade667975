-- ===== src/Encoding.antt =====
-- The conversions between JSON objects and URIs of packages/oid4vci-common/lib/functions/
-- Encoding.ts. Texts are sequences of code points; an object's members stand in the order of
-- `Object.entries`.
pub mod Components
pub mod EncodedKeys
pub mod Entries
pub mod Escapes
pub mod FormRead
pub mod Plain
use oid4vc.Prelude.{
  ℕ, Bool, true, false, not, ◌&&◌, Option, none, some, List, [], ◌∷◌, ◌++◌, ltb, nat_beq,
  if◌then◌else◌, decimal, contains, replace_first, length, any, percent, encode_uri_component,
  codes, stringify, Json, Elements, Members, null, boolean, number, string, array, object,
  no_elements, element, no_members, member,
}
use oid4vc.Prelude.Decimal.Digits.{value}

abbrev pub nats_equal : List ℕ → List ℕ → Bool
nats_equal [] [] = true
nats_equal (x ∷ xs) (y ∷ ys) = nat_beq x y && nats_equal xs ys
nats_equal _ _ = false

abbrev pub listed : List (List ℕ) → List ℕ → Bool
listed names key = any (nats_equal key) names

-- `cs.endsWith(c)`
unfoldable pub ends : ℕ → List ℕ → Bool
ends c [] = false
ends c (d ∷ []) = nat_beq c d
ends c (d ∷ cs) = ends c cs

-- `parts.join(by)`
unfoldable pub join : (by : List ℕ) → List (List ℕ) → List ℕ
join by [] = []
join by (p ∷ []) = p
join by (p ∷ q ∷ ps) = p ++ (by ++ join by (q ∷ ps))

-- A value where a text is wanted; within an array, `null` gives none.
mutual
  text_within : (in_array : Bool) → Json → List ℕ
  text_within true null = []
  text_within false null = codes "null"
  text_within w (boolean true) = codes "true"
  text_within w (boolean false) = codes "false"
  text_within w (number n) = decimal n
  text_within w (string cs) = cs
  text_within w (array es) = text_elements es
  text_within w (object ms) = codes "[object Object]"

  text_elements : Elements → List ℕ
  text_elements no_elements = []
  text_elements (element j es) = text_within true j ++ text_rest es

  text_rest : Elements → List ℕ
  text_rest no_elements = []
  text_rest (element j es) = b',' ∷ (text_within true j ++ text_rest es)

-- `${value}`
unfoldable pub to_text : Json → List ℕ
unfolding text_within
to_text j = text_within false j

abbrev pub json_truthy : Json → Bool
json_truthy null = false
json_truthy (boolean b) = b
json_truthy (number n) = ltb 0 n
json_truthy (string []) = false
json_truthy (string (c ∷ cs)) = true
json_truthy _ = true

-- Each dot becomes `%2E`, the character code in base 16.
unfoldable pub escape_dots : List ℕ → List ℕ
unfolding percent
escape_dots [] = []
escape_dots (c ∷ cs) = if nat_beq c b'.' then percent b'.' ++ escape_dots cs else c ∷ escape_dots cs

-- With `/\./g` as the search value, the only one the code passes.
unfoldable pub custom_encode_uri_component : List ℕ → List ℕ
unfolding encode_uri_component escape_dots
custom_encode_uri_component cs = escape_dots (encode_uri_component cs)

unfoldable pub encode_and_strip_whitespace : List ℕ → List ℕ
unfolding encode_uri_component
encode_and_strip_whitespace key = encode_uri_component (replace_first (b' ' ∷ []) [] key)

pub data JsonUriMode : Type 0 where
  json_stringify x_form_www_urlencoded : JsonUriMode

pub record EncodeJsonAsUriOpts : Type 0 where
  pub uri_type_properties : List (List ℕ)
  pub array_type_properties : List (List ℕ)
  pub base_url : List ℕ
  pub param : List ℕ
  pub mode : JsonUriMode

abbrev pub equation : List ℕ → List ℕ → List ℕ
equation key v = key ++ (b'=' ∷ v)

array_pairs : List ℕ → Elements → List (List ℕ)
unfolding encode_and_strip_whitespace custom_encode_uri_component to_text
array_pairs key no_elements = []
array_pairs key (element j es) =
    equation (encode_and_strip_whitespace key) (custom_encode_uri_component (to_text j))
    ∷ array_pairs key es

encoded_value : Json → List ℕ
unfolding custom_encode_uri_component to_text stringify
encoded_value (boolean b) = to_text (boolean b)
encoded_value (number n) = to_text (number n)
encoded_value (string cs) = custom_encode_uri_component cs
encoded_value j = custom_encode_uri_component (stringify j)

-- A property that is of URI type.
unfoldable pub uri_pair : EncodeJsonAsUriOpts → List ℕ → Json → List ℕ
unfolding array_pairs encoded_value encode_and_strip_whitespace join
uri_pair opts key (array es) =
    if listed opts.array_type_properties key
    then join (b'&' ∷ []) (array_pairs key es)
    else equation (encode_and_strip_whitespace key) (encoded_value (array es))
uri_pair opts key j = equation (encode_and_strip_whitespace key) (encoded_value j)

-- The results of the loop over the entries.
unfoldable pub form_pairs : EncodeJsonAsUriOpts → Members → List (List ℕ)
unfolding uri_pair to_text
form_pairs opts no_members = []
form_pairs opts (member key j ms) =
    let rest = form_pairs opts ms in
    if not (json_truthy j)
    then rest
    else if not (listed opts.uri_type_properties key)
    then equation key (to_text j) ∷ rest
    else uri_pair opts key j ∷ rest

unfoldable pub json_components : EncodeJsonAsUriOpts → JsonUriMode → Members → List ℕ
unfolding encode_and_strip_whitespace stringify form_pairs join
json_components opts json_stringify ms = encode_and_strip_whitespace (stringify (object ms))
json_components opts x_form_www_urlencoded ms = join (b'&' ∷ []) (form_pairs opts ms)

param_prefix : List ℕ → List ℕ
param_prefix [] = []
param_prefix (c ∷ cs) = (c ∷ cs) ++ (b'=' ∷ [])

-- `none` for the error on a base that ends in `=` with a param.
unfoldable pub with_base_url : (base_url param components : List ℕ) → Option (List ℕ)
unfolding ends param_prefix
with_base_url [] param components = some components
with_base_url (b ∷ base) param components =
    if ends b'=' (b ∷ base)
    then (if ltb 0 (length param) then none else some ((b ∷ base) ++ components))
    else if not (contains (b'?' ∷ []) (b ∷ base))
    then some ((b ∷ base) ++ (b'?' ∷ (param_prefix param ++ components)))
    else if ends b'?' (b ∷ base)
    then some ((b ∷ base) ++ (param_prefix param ++ components))
    else some
        ((b ∷ base) ++ ((if ltb 0 (length param) then b'&' ∷ param else []) ++ (b'=' ∷ components)))

unfoldable pub convert_json_to_uri : Members → EncodeJsonAsUriOpts → Option (List ℕ)
unfolding with_base_url json_components
convert_json_to_uri ms opts =
    with_base_url opts.base_url opts.param (json_components opts opts.mode ms)
