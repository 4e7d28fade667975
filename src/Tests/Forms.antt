-- ===== src/Tests/Forms.antt =====
-- Tests of the writing and reading of forms in URIs.
use oid4vc.Prelude.{
  ℕ, ◌≡◌, refl, Option, none, some, List, [], ◌∷◌, encode_char, encode_uri_component, codes,
}
use oid4vc.Prelude.Percent.RoundTrip.{codes-scalar}
use oid4vc.Encoding.{EncodeJsonAsUriOpts, x_form_www_urlencoded, convert_json_to_uri, ends}
use oid4vc.Encoding.Components.{absent, get_uri_components_as_array}
use oid4vc.Encoding.Plain.{all-IsFree}
use oid4vc.Encoding.FormRead.{
  Property, IsWritten, properties, form_uri, load, decoded, text_at, form_read_back,
}

abbrev no_length : Option (List ℕ) → Option ℕ
no_length v = none

abbrev form_opts : EncodeJsonAsUriOpts
form_opts = record {
  uri_type_properties = codes "redirect_uri" ∷ codes "scope" ∷ [];
  array_type_properties = [];
  base_url = codes "https://as/authorize";
  param = [];
  mode = x_form_www_urlencoded;
}

abbrev redirect_property : Property
redirect_property = (codes "redirect_uri", codes "https://wallet.example/cb?x=1&y=%20")

abbrev scope_property : Property
scope_property = (codes "scope", codes "a é")

redirect-IsWritten : IsWritten form_opts redirect_property
unfolding encode_uri_component encode_char
redirect-IsWritten = record {
  no_space = all-IsFree b' ' (codes "redirect_uri") refl;
  key_scalar = codes-scalar "redirect_uri";
  value_scalar = codes-scalar "https://wallet.example/cb?x=1&y=%20";
  not_empty = refl;
  of_uri_type = refl;
  not_length = refl;
  not_proto = refl;
}

scope-IsWritten : IsWritten form_opts scope_property
unfolding encode_uri_component encode_char
scope-IsWritten = record {
  no_space = all-IsFree b' ' (codes "scope") refl;
  key_scalar = codes-scalar "scope";
  value_scalar = codes-scalar "a é";
  not_empty = refl;
  of_uri_type = refl;
  not_length = refl;
  not_proto = refl;
}

form_read_back_example :
    (convert_json_to_uri (properties (redirect_property ∷ scope_property ∷ [])) form_opts
      ≡ some (form_uri form_opts (redirect_property ∷ scope_property ∷ [])))
    × ((get_uri_components_as_array no_length
            (form_uri form_opts (redirect_property ∷ scope_property ∷ []))
            []
          ≡ some (load (redirect_property ∷ scope_property ∷ []) (λ k. absent)))
        × (decoded (
              load
                (redirect_property ∷ scope_property ∷ [])
                (λ k. absent)
                (encode_uri_component (codes "scope")))
            ≡ text_at (redirect_property ∷ scope_property ∷ []) (codes "scope")))
unfolding ends
form_read_back_example =
    form_read_back no_length form_opts redirect_property (scope_property ∷ []) (codes "scope") refl
      refl refl refl (all-IsFree b'?' (codes "https://as/authorize") refl)
      (redirect-IsWritten, (scope-IsWritten, tt)) (codes-scalar "scope")
