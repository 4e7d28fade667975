-- ===== src/Tests/Sessions.antt =====
-- Tests of the session methods.
use oid4vc.Types.{invalid_notification_id}
use oid4vc.Store.{IssuerStore}
use oid4vc.Prelude.{
  ℕ, ◌≤◌, ◌≡◌, refl, inl, inr, none, some, List, [], ◌∷◌, ◌++◌, arith, ok, length, All, map_get,
  string_eq, nat_eq, codes,
}
use oid4vc.Issuer.Sessions.{
  get_credential_offer_session_by_id, process_notification, update_session,
}
use oid4vc.Issuer.Sessions.Found.{get_by_id_lem}
use oid4vc.Issuer.Sessions.Notified.{
  update_session_lem, process_notification_lem, process_notification_wrong_id, noted, updated_at,
}
use oid4vc.Issuer.ProofTypeNames.{sanitize_proof_type_name_for_error, is_safe_character}
use oid4vc.Issuer.ProofTypeNames.Laws.{sanitize_bounded, sanitize-clean_injective, IsRendered}
use oid4vc.Tests.Data.{session_with, grant_with, store_of, seconds, note}

abbrev offered : IssuerStore
offered = store_of (session_with (grant_with none none) none)

get_by_id_lem_example :
    get_credential_offer_session_by_id "code" ("preAuthorizedCode" ∷ []) offered ≡ (ok 0, offered)
unfolding map_get
get_by_id_lem_example = get_by_id_lem "code" "preAuthorizedCode" [] offered

process_notification_lem_example :
    process_notification (some "code") none note seconds offered
    ≡ (ok (inr 0), updated_at (some 0) (noted none (some note) 3000) offered)
unfolding map_get
process_notification_lem_example =
    process_notification_lem "code" none note seconds offered refl 0 refl refl

process_notification_wrong_id_example :
    process_notification
      (some "code")
      none
      (record note { notification_id = "other" })
      seconds
      offered
    ≡ (ok (inl invalid_notification_id), offered)
unfolding map_get
process_notification_wrong_id_example =
    process_notification_wrong_id "code" none (record note { notification_id = "other" }) seconds
      offered refl 0 refl refl

update_session_lem_example :
    update_session (some "code") (some "state") none (some note) seconds offered
    ≡ (ok tt, updated_at (some 0) (noted none (some note) 3000) offered)
unfolding map_get
update_session_lem_example =
    update_session_lem none (some note) (some "code") (some "state") seconds offered

sanitize_bounded_example :
    (text : List ℕ) × (sanitize_proof_type_name_for_error (codes "a\"b") ≡ b'"' ∷ text ++ b'"' ∷ [])
    × (length text ≤ 35)
    × All IsRendered text
sanitize_bounded_example = sanitize_bounded (codes "a\"b")

sanitize-clean_injective_example : codes "jwt" ≡ codes "jwt"
unfolding is_safe_character
sanitize-clean_injective_example =
    sanitize-clean_injective (codes "jwt") (codes "jwt") ((refl, (refl, (refl, tt))), ground arith)
      refl
