-- ===== src/Encoding/FormRead.antt =====
-- What convertJsonToURI wrote as a form is read back by getURIComponentsAsArray.
use oid4vc.Prelude.{
  ℕ, ◌≡◌, refl, ap, ◌∙◌, inl, inr, Bool, true, false, Option, none, some, List, [], ◌∷◌, ◌++◌, map,
  arith, nat_beq, if◌then◌else◌, Bool-cases, All, is_unescaped, encode_uri_component,
  decode_uri_component, codes, Members, string, no_members, member,
}
use oid4vc.Prelude.Percent.RoundTrip.{IsScalarCode}
use oid4vc.Encoding.{
  nats_equal, listed, join, EncodeJsonAsUriOpts, x_form_www_urlencoded, form_pairs, uri_pair,
  json_components, with_base_url, convert_json_to_uri, custom_encode_uri_component,
  encode_and_strip_whitespace, json_truthy, equation,
}
use oid4vc.Encoding.Components.{
  Component, absent, single, several, Components, put_component, put_entries, split_at,
  get_uri_components_as_array,
}
use oid4vc.Encoding.Plain.{
  IsFree, IsFree-append, cut_free, contains_uncut, split_at-join, join-IsFree,
}
use oid4vc.Encoding.Entries.{query_of-append, put_entry-equation}
use oid4vc.Encoding.{ends}
use oid4vc.Encoding.EncodedKeys.{nats_equal-encode}
use oid4vc.Prelude.{length, ltb}
use oid4vc.Encoding.Escapes.{
  encode_uri_component-IsFree, custom_encode-IsFree, decode-custom_encode,
}

-- A property that is a text.
abbrev pub Property : Type 0
Property = List ℕ × List ℕ

abbrev pub properties : List Property → Members
properties [] = no_members
properties ((k, v) ∷ ps) = member k (string v) (properties ps)

abbrev pub written : Property → List ℕ
written (k, v) = equation (encode_uri_component k) (custom_encode_uri_component v)

-- The key has no space and is no special name of an array; the property is of URI type and its text
-- is not empty.
pub record IsWritten (opts : EncodeJsonAsUriOpts) (p : Property) : Type 0 where
  pub no_space : IsFree b' ' p.0
  pub key_scalar : All IsScalarCode p.0
  pub value_scalar : All IsScalarCode p.1
  pub not_empty : json_truthy (string p.1) ≡ true
  pub of_uri_type : listed opts.uri_type_properties p.0 ≡ true
  pub not_length : nats_equal (encode_uri_component p.0) (codes "length") ≡ false
  pub not_proto : nats_equal (encode_uri_component p.0) (codes "__proto__") ≡ false

strip_free : (k : List ℕ) → IsFree b' ' k → encode_and_strip_whitespace k ≡ encode_uri_component k
unfolding encode_and_strip_whitespace
strip_free k f =
    ap
      (λ (o : Option (List ℕ × List ℕ)).
        encode_uri_component (elim o [ none ↦ k | some (a, b) ↦ a ++ b ]))
      (cut_free b' ' k f)

module _ (opts : EncodeJsonAsUriOpts) where
  form_pairs-properties :
      (ps : List Property)
      → All (IsWritten opts) ps
      → form_pairs opts (properties ps) ≡ map written ps
  unfolding form_pairs uri_pair
  form_pairs-properties [] h = refl
  form_pairs-properties ((k, v) ∷ ps) h =
      rw (h.0.not_empty, h.0.of_uri_type, strip_free k h.0.no_space, form_pairs-properties ps h.1)
        refl

  written-IsFree :
      (c : ℕ)
      → is_unescaped c ≡ false
      → nat_beq c b'%' ≡ false
      → nat_beq c b'=' ≡ false
      → (ps : List Property) → All (IsWritten opts) ps
      → All (IsFree c) (map written ps)
  written-IsFree c u p e [] h = tt
  written-IsFree c u p e ((k, v) ∷ ps) h = (
    IsFree-append c (encode_uri_component k) (b'=' ∷ custom_encode_uri_component v)
        (encode_uri_component-IsFree c u p k h.0.key_scalar)
        (e, custom_encode-IsFree c u p v h.0.value_scalar),
    written-IsFree c u p e ps h.1,
  )

abbrev pub load : List Property → Components → Components
load [] json = json
load ((k, v) ∷ ps) json =
    load ps (put_component (encode_uri_component k) (single (custom_encode_uri_component v)) json)

-- The text that an object has under a key; a later property of the same key takes its place.
abbrev later : Option (List ℕ) → Option (List ℕ) → Option (List ℕ)
later (some v) first = some v
later none first = first

abbrev pub text_at : List Property → List ℕ → Option (List ℕ)
text_at [] key = none
text_at ((k, v) ∷ ps) key = later (text_at ps key) (if nats_equal k key then some v else none)

-- The decoded text of a component.
abbrev pub decoded : Component → Option (List ℕ)
decoded absent = none
decoded (single v) = decode_uri_component v
decoded (several vs) = none

later-none : (o : Option (List ℕ)) → later o none ≡ o
later-none none = refl
later-none (some v) = refl

with_base :
    (u components : List ℕ)
    → ltb 0 (length u) ≡ true
    → ends b'=' u ≡ false
    → IsFree b'?' u
    → with_base_url u [] components ≡ some (u ++ (b'?' ∷ components))
unfolding with_base_url
with_base [] components n e f = ground arith
with_base (b ∷ base) components n e f =
    rw (e, contains_uncut (b'?' ∷ []) (b ∷ base) (cut_free b'?' (b ∷ base) f)) refl

later_if :
    (o : Option (List ℕ)) (b : Bool) (v : List ℕ) (first : Option (List ℕ))
    → later o (if b then some v else first) ≡ later (later o (if b then some v else none)) first
later_if (some w) b v first = refl
later_if none true v first = refl
later_if none false v first = refl

module _ (opts : EncodeJsonAsUriOpts) (key : List ℕ) (key_scalar : All IsScalarCode key) where
  decoded-put_component :
      (k v : List ℕ) (json : Components)
      → IsWritten opts (k, v)
      → decoded (
          put_component
            (encode_uri_component k)
            (single (custom_encode_uri_component v))
            json
            (encode_uri_component key))
        ≡ (if nats_equal k key then some v else decoded (json (encode_uri_component key)))
  decoded-put_component k v json h = elim (Bool-cases (nats_equal k key)) [
    | inl e ↦
        rw
          (
            nats_equal-encode k key h.key_scalar key_scalar,
            e,
            decode-custom_encode v h.value_scalar,
          )
          refl
    | inr e ↦ rw (nats_equal-encode k key h.key_scalar key_scalar, e) refl
  ]

  decoded-load :
      (ps : List Property) (json : Components)
      → All (IsWritten opts) ps
      → decoded (load ps json (encode_uri_component key))
        ≡ later (text_at ps key) (decoded (json (encode_uri_component key)))
  decoded-load [] json h = refl
  decoded-load ((k, v) ∷ ps) json h =
      decoded-load ps
        (put_component (encode_uri_component k) (single (custom_encode_uri_component v)) json) h.1
      ∙ ap (later (text_at ps key)) (decoded-put_component k v json h.0)
      ∙ later_if (text_at ps key) (nats_equal k key) v (decoded (json (encode_uri_component key)))

-- The URI of the form.
abbrev pub form_uri : EncodeJsonAsUriOpts → List Property → List ℕ
form_uri opts ps = opts.base_url ++ (b'?' ∷ join (b'&' ∷ []) (map written ps))

module _ (array_length : Option (List ℕ) → Option ℕ) (opts : EncodeJsonAsUriOpts) where
  put_entries-written :
      (ps : List Property) (json : Components)
      → All (IsWritten opts) ps
      → put_entries array_length [] (map written ps) json ≡ some (load ps json)
  unfolding put_entries
  put_entries-written [] json h = refl
  put_entries-written ((k, v) ∷ ps) json h =
      rw
        (put_entry-equation array_length (encode_uri_component k) (custom_encode_uri_component v)
          (encode_uri_component-IsFree b'=' refl refl k h.0.key_scalar)
          (custom_encode-IsFree b'=' refl refl v h.0.value_scalar) json h.0.not_length
          h.0.not_proto)
        (put_entries-written ps
          (put_component (encode_uri_component k) (single (custom_encode_uri_component v)) json)
          h.1)

  convert-properties :
      (ps : List Property)
      → opts.mode ≡ x_form_www_urlencoded
      → opts.param ≡ []
      → ltb 0 (length opts.base_url) ≡ true
      → ends b'=' opts.base_url ≡ false
      → IsFree b'?' opts.base_url
      → All (IsWritten opts) ps
      → convert_json_to_uri (properties ps) opts ≡ some (form_uri opts ps)
  unfolding convert_json_to_uri json_components
  convert-properties ps m p n e f h =
      rw (m, p, form_pairs-properties opts ps h)
        (with_base opts.base_url (join (b'&' ∷ []) (map written ps)) n e f)

  read_form :
      (p : Property) (ps : List Property)
      → IsFree b'?' opts.base_url
      → All (IsWritten opts) (p ∷ ps)
      → get_uri_components_as_array array_length (form_uri opts (p ∷ ps)) []
        ≡ some (load (p ∷ ps) (λ k. absent))
  unfolding get_uri_components_as_array
  read_form p ps f h =
      ap (λ (q : List ℕ). put_entries array_length [] (split_at b'&' q) (λ k. absent))
        (query_of-append opts.base_url (join (b'&' ∷ []) (map written (p ∷ ps))) f (
          join-IsFree b'?' b'&' (map written (p ∷ ps)) refl
            (written-IsFree opts b'?' refl refl refl (p ∷ ps) h)))
      ∙ ap (λ (es : List (List ℕ)). put_entries array_length [] es (λ k. absent))
          (split_at-join b'&' (written p) (map written ps)
            (written-IsFree opts b'&' refl refl refl (p ∷ ps) h))
      ∙ put_entries-written (p ∷ ps) (λ k. absent) h

  -- Where a form is written to a base without a question mark that does not end in `=`, from
  -- properties of URI type whose texts are not empty and whose keys have no space and are no special
  -- names of an array, the components of the URI are read without an error, and what they have under
  -- any key, decoded, is what the object has under it.
  pub form_read_back :
      (p : Property) (ps : List Property) (key : List ℕ)
      → opts.mode ≡ x_form_www_urlencoded
      → opts.param ≡ []
      → ltb 0 (length opts.base_url) ≡ true
      → ends b'=' opts.base_url ≡ false
      → IsFree b'?' opts.base_url
      → All (IsWritten opts) (p ∷ ps)
      → All IsScalarCode key
      → (convert_json_to_uri (properties (p ∷ ps)) opts ≡ some (form_uri opts (p ∷ ps)))
        × ((get_uri_components_as_array array_length (form_uri opts (p ∷ ps)) []
              ≡ some (load (p ∷ ps) (λ k. absent)))
            × (decoded (load (p ∷ ps) (λ k. absent) (encode_uri_component key))
                ≡ text_at (p ∷ ps) key))
  form_read_back p ps key m q n e f h s = (
    convert-properties (p ∷ ps) m q n e f h,
    (
      read_form p ps f h,
      decoded-load opts key s (p ∷ ps) (λ k. absent) h ∙ later-none (text_at (p ∷ ps) key),
    ),
  )
