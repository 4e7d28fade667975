-- ===== src/Client/TokenUrl.antt =====
-- determineTokenURL and creatTokenURLFromURL of packages/client/lib/AccessTokenClient.ts. URLs are
-- sequences of code points.
use oid4vc.Prelude.{
  ℕ, Bool, true, false, not, ◌&&◌, Option, none, some, List, [], ◌∷◌, ◌++◌, nat_beq, if◌then◌else◌,
  Result, ok, err, strip, first_part, begins, bool?_truthy, is_some, get_or, and_then, codes,
}
use oid4vc.Client.{ClientError, unprotected_endpoint, token_url_needed, no_token_url}

-- `asOpts`, of which the URL takes these.
pub record AuthorizationServerOpts : Type 0 where
  pub authorization_server : Option (List ℕ)
  pub allow_insecure_endpoints : Option Bool
  pub token_endpoint : Option (List ℕ)

pub record IssuerOpts : Type 0 where
  pub issuer : List ℕ
  pub token_endpoint : Option (List ℕ)

abbrev pub truthy : List ℕ → Bool
truthy [] = false
truthy (c ∷ cs) = true

abbrev pub truthy? : Option (List ℕ) → Bool
truthy? none = false
truthy? (some cs) = truthy cs

-- `replace(/https?:\/\//, '')`: the first place where either is found.
unfoldable pub without_scheme : List ℕ → List ℕ
without_scheme [] = []
without_scheme (c ∷ cs) = elim (strip (codes "http://") (c ∷ cs)) [
  | some rest ↦ rest
  | none ↦ elim (strip (codes "https://") (c ∷ cs)) [
    | some rest ↦ rest
    | none ↦ c ∷ without_scheme cs
  ]
]

-- `replace(/\/$/, '')`
unfoldable pub without_slash : List ℕ → List ℕ
without_slash [] = []
without_slash (c ∷ []) = if nat_beq c b'/' then [] else c ∷ []
without_slash (c ∷ d ∷ cs) = c ∷ without_slash (d ∷ cs)

abbrev tail : List ℕ → List ℕ
tail [] = []
tail (c ∷ cs) = cs

-- An endpoint that does not start with a slash loses its first character.
unfoldable pub endpoint_path : Option (List ℕ) → List ℕ
endpoint_path token_endpoint =
    if truthy? token_endpoint
    then (if begins (codes "/") (get_or token_endpoint [])
        then get_or token_endpoint []
        else tail (get_or token_endpoint []))
    else codes "/token"

unfoldable pub creat_token_url_from_url :
    (url : List ℕ) (allow_insecure_endpoints : Option Bool) (token_endpoint : Option (List ℕ))
    → Result ClientError (List ℕ)
unfolding without_scheme without_slash endpoint_path
creat_token_url_from_url url allow_insecure_endpoints token_endpoint =
    if not (bool?_truthy allow_insecure_endpoints) && begins (codes "http:") url
    then err unprotected_endpoint
    else ok (
        (if truthy (first_part (codes "://") url)
          then first_part (codes "://") url ++ codes "://"
          else codes "https://")
        ++ (without_slash (without_scheme url) ++ endpoint_path token_endpoint))

-- The URL that is chosen, before the last test.
chosen_url :
    Option AuthorizationServerOpts
    → Option IssuerOpts
    → (metadata_endpoint : Option (List ℕ)) → Result ClientError (List ℕ)
unfolding creat_token_url_from_url
chosen_url as_opts issuer_opts metadata_endpoint =
    let url = and_then as_opts (λ o. o.authorization_server) in
    let insecure = and_then as_opts (λ o. o.allow_insecure_endpoints) in
    if truthy? url
    then creat_token_url_from_url (get_or url []) insecure
        (and_then as_opts (λ o. o.token_endpoint))
    else if truthy? metadata_endpoint
    then ok (get_or metadata_endpoint [])
    else elim issuer_opts [
      | none ↦ err token_url_needed
      | some o ↦
          if truthy o.issuer
          then creat_token_url_from_url o.issuer insecure o.token_endpoint
          else err token_url_needed
    ]

-- `metadata_endpoint` is `metadata?.token_endpoint`.
unfoldable pub determine_token_url :
    Option AuthorizationServerOpts
    → Option IssuerOpts
    → (metadata_endpoint : Option (List ℕ)) → Result ClientError (List ℕ)
unfolding chosen_url
determine_token_url as_opts issuer_opts metadata_endpoint =
    if not (is_some as_opts) && not (truthy? metadata_endpoint) && not (is_some issuer_opts)
    then err no_token_url
    else elim (chosen_url as_opts issuer_opts metadata_endpoint) [
      | err x ↦ err x
      | ok url ↦ if truthy url then ok url else err no_token_url
    ]
