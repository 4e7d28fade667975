-- ===== src/Rest/Reply.antt =====
-- What a handler sends back, and validateJWT (packages/oid4vci-common/lib/functions/ProofUtil.ts).
use oid4vc.Store.{IssuerStore, Issuer}
use oid4vc.Types.{IssuerError}
use oid4vc.Prelude.{
  ℕ, String, Option, none, some, List, if◌then◌else◌, Result, ok, err, text?_truthy, get_or,
}
use oid4vc.Token.Response.{Claim}

-- The `error_description`, if any: a text of the handler, or that of an error.
pub data Description : Type 0 where
  nothing : Description
  text_of : String → Description
  error_of : IssuerError → Description

pub data Reply (A : Type 0) : Type 0 where
  sent : (status_code : ℕ) → A → Reply A
  -- `sendErrorResponse`
  refused : (status_code : ℕ) (error : String) → Description → Reply A

-- A handler ends with a reply, whatever it throws on the way.
abbrev pub Handler : Type 0 → Type 0
Handler A = IssuerStore → Reply A × IssuerStore

-- `try { m … } catch (e) { … }`
abbrev pub try_catch :
    {A B : Type 0} → Issuer A → (A → Handler B) → (IssuerError → Reply B) → Handler B
try_catch m f failed s = elim (m s).0 [ ok a ↦ f a (m s).1 | err x ↦ (failed x, (m s).1) ]

abbrev pub Claims : Type 0
Claims = List (String × Claim)

abbrev pub TokenVerifier : Type 0
TokenVerifier = String → Result String Claims

-- `validateJWT`: the claims of an access token, by the callback, or else by decoding the token.
unfoldable pub validate_jwt :
    (decode : TokenVerifier) → Option TokenVerifier → Option String → Result String Claims
validate_jwt decode callback jwt =
    if text?_truthy jwt
    then elim callback [ none ↦ decode (get_or jwt "") | some verify ↦ verify (get_or jwt "") ]
    else err "No JWT was supplied"
