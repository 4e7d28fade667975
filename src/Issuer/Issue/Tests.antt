-- ===== src/Issuer/Issue/Tests.antt =====
-- Tests of the issuer.
use oid4vc.Issuer.ProofChecks.Format.{IsFormatOf}
use oid4vc.Issuer.ProofChecks.Meant.{IsIdentified}
use oid4vc.Issuer.Issue.Failures.{HasFailed, issue_credential-HasFailed}
use oid4vc.Issuer.Sessions.{update_session}
use oid4vc.Issuer.ProofChecks.{validate_credential_request_proof, check_proof}
use oid4vc.Issuer.ProofChecks.Sound.{IsProven}
use oid4vc.Issuer.Binding.{
  identifiers_error, lookup_credential_format, bind_credential, credential_issuer_of,
}
use oid4vc.Types.{Credential, IssuerError, Message}
use oid4vc.Store.{IssuerStore, ref_at}
use oid4vc.Prelude.{
  String, ◌≡◌, refl, ◌≢◌, Bool, true, false, Option, none, some, [], ◌∷◌, arith, eq_iff, Result, ok,
  err, map_get, map_has, map_set, map_delete, string_eq, nat_eq, text_truthy,
}
use oid4vc.Issuer.Issue.{
  issued, draft, supply, needed, sign, signed, issue_credential, CredentialResponse, IssuerStore,
  Credential, IssuerError, prepare, finish, issued, draft, supply, needed, sign,
  issue_credential_impl, signed, remove_nonce, identifiers_error, book, mark_issued, respond,
  state_of, validate_credential_request_proof, IssueOpts, Message,
}
use oid4vc.Issuer.Issue.Nonces.{AreNoncesKeyed, issue_credential-IsProven}
use oid4vc.StateManager.Memory
use oid4vc.Issuer.Proof.{Validated, read_proof}
use oid4vc.Tests.Data.{session_with, grant_with, store_of, seconds, config, issue_opts}

abbrev store : IssuerStore
store = store_of (session_with (grant_with none none) none)

abbrev no_sd_jwt : Credential → Bool
no_sd_jwt c = false

abbrev issue : Result IssuerError CredentialResponse × IssuerStore
issue = issue_credential config no_sd_jwt issue_opts seconds store

abbrev response : CredentialResponse
response = record {
  credentials = "signed" ∷ [];
  notification_id = some "note";
  transaction_id = none;
  credential_subject_issuance = none;
}

is_issued : issue ≡ (ok response, issue.1)
unfolding issue_credential prepare finish draft supply needed sign issue_credential_impl signed
    remove_nonce book mark_issued respond state_of issued identifiers_error lookup_credential_format
    bind_credential credential_issuer_of validate_credential_request_proof read_proof check_proof
    Memory.get_asserted Memory.get Memory.set Memory.delete map_get map_set map_delete map_has
is_issued = refl

nonce_keyed : AreNoncesKeyed store
unfolding map_get map_has
nonce_keyed = record { unique = (refl, tt); keyed = λ n c h. ground (arith, eq_iff "nonce" n) }

issue_credential-IsProven_example :
    (v : Validated) × (format : Option String) × IsIdentified config.issuer_metadata
      issue_opts.credential_request none
    × IsFormatOf config.issuer_metadata issue_opts.credential_request none format
    × IsProven config none issue_opts.credential_request issue_opts.issuer_correlation format 600
        (seconds 0)
        store
        v
    × ((n : String)
        → v.jwt_verify_result.payload.nonce ≡ some n
        → text_truthy n ≡ true
        → (map_get store.c_nonces.states n ≢ none) × (map_get issue.1.c_nonces.states n ≡ none))
issue_credential-IsProven_example =
    issue_credential-IsProven config no_sd_jwt issue_opts seconds store response issue.1 nonce_keyed
      is_issued

abbrev unproven : IssueOpts
unproven = record issue_opts {
  credential_request = record issue_opts.credential_request { proofs = none };
}

abbrev failure : Result IssuerError CredentialResponse × IssuerStore
failure = issue_credential config no_sd_jwt unproven seconds store

has_failed : failure ≡ (err (IssuerError.error Message.proof_required), failure.1)
unfolding issue_credential prepare finish draft supply needed sign issue_credential_impl signed
    remove_nonce book mark_issued respond state_of issued identifiers_error lookup_credential_format
    bind_credential credential_issuer_of validate_credential_request_proof read_proof check_proof
    Memory.get_asserted Memory.get Memory.set Memory.delete map_get map_set map_delete map_has
    update_session
has_failed = refl

still_there : ref_at failure.1 "code" ≡ some 0
unfolding issue_credential prepare finish draft supply needed sign issue_credential_impl signed
    remove_nonce book mark_issued respond state_of issued identifiers_error lookup_credential_format
    bind_credential credential_issuer_of validate_credential_request_proof read_proof check_proof
    Memory.get_asserted Memory.get Memory.set Memory.delete map_get map_set map_delete map_has
    update_session
still_there = refl

issue_credential-HasFailed_example :
    HasFailed (IssuerError.error Message.proof_required) 0 failure.1
issue_credential-HasFailed_example =
    issue_credential-HasFailed config no_sd_jwt unproven seconds store
      (IssuerError.error Message.proof_required) failure.1 "code" 0 has_failed refl refl still_there
