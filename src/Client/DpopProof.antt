-- ===== src/Client/DpopProof.antt =====
-- The proofs that a wallet makes: getCreateDPoPOptions and createDPoP of packages/common/lib/dpop/
-- DPoP.ts.
use oid4vc.Prelude.{
  ℕ, ◌/◌, String, Bool, false, ◌||◌, Option, none, some, List, [], ltb, if◌then◌else◌, Result, err,
  first_part, begins, length, text?_truthy, get_or, or_else, codes,
}
use oid4vc.Client.{ClientError, token_with_scheme}

-- The claims of a proof that the wallet signs. Times are in seconds.
pub record DpopClaims : Type 0 where
  pub htu : List ℕ
  pub htm : String
  pub nonce : Option String
  pub access_token : Option String
  pub iat : ℕ
  pub jti : String
  pub ath : Option String

-- What the caller gives for proofs, of which `nonce` is changed by a call.
pub record CreateDpopOpts : Type 0 where
  pub signing_algs : Option (List String)
  pub nonce : Option String
  pub access_token : Option String

abbrev pub uses_dpop : Option CreateDpopOpts → Bool
uses_dpop none = false
uses_dpop (some o) = ltb 0 (length (get_or o.signing_algs []))

abbrev pub with_nonce : CreateDpopOpts → String → CreateDpopOpts
with_nonce o nonce = record o { nonce = some nonce }

-- `getCreateDPoPOptions` and then `createDPoP`, up to the signature; `resource_token` is the access
-- token of a request for a resource, `hash` the SHA-256 in base64url; `clock` and `uuids` give the
-- time in milliseconds and an identifier for the n-th proof.
unfoldable pub claims_of :
    (hash : String → String) (clock : ℕ → ℕ) (uuids : ℕ → String)
    → ℕ
    → CreateDpopOpts
    → (endpoint : List ℕ) (resource_token : Option String) → DpopClaims
claims_of hash clock uuids n opts endpoint resource_token =
    let token = or_else resource_token opts.access_token in
    record {
      htu = first_part (codes "#") (first_part (codes "?") endpoint);
      htm = "POST";
      nonce = opts.nonce;
      access_token = token;
      iat = clock n / 1000;
      jti = uuids n;
      ath = if text?_truthy token then some (hash (get_or token "")) else none;
    }

abbrev pub has_scheme : Option String → Bool
has_scheme none = false
has_scheme (some token) =
    begins (codes "DPoP ") (codes token) || begins (codes "Bearer ") (codes token)

unfoldable pub create_dpop :
    (sign : DpopClaims → Result ClientError String) (hash : String → String)
    → (clock : ℕ → ℕ) (uuids : ℕ → String) → ℕ
    → CreateDpopOpts
    → (endpoint : List ℕ) (resource_token : Option String) → Result ClientError String
unfolding claims_of
create_dpop sign hash clock uuids n opts endpoint resource_token =
    if has_scheme (or_else resource_token opts.access_token)
    then err token_with_scheme
    else sign (claims_of hash clock uuids n opts endpoint resource_token)
