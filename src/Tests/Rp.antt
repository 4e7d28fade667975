-- ===== src/Tests/Rp.antt =====
-- Tests of the relying party's session manager.
use oid4vc.Prelude.{
  ◌≡◌, refl, inl, true, none, some, List, [], ◌∷◌, arith, eq_iff, ok, map_get, map_has, map_set,
  map_delete, HasUniqueKeys, ◌==◌, string_eq, nat_eq,
}
use oid4vc.Rp.Manager.{
  AuthorizationEvent, Manager, SessionState, new_manager, nonce, state, Subject, request_created,
  get_correlation_id, get_from_mapping, hashcode_for_value, mapping_of, update_mapping,
  get_request_state_by_nonce, mapping_conflict, get_request_state_by_state, entered,
}
use oid4vc.Rp.Update.{
  update_request_state, delete_state_for_correlation_id, cleanup, request_state, clean_entries,
  store_request,
}
use oid4vc.Rp.Update.Alike.{next_state}
use oid4vc.Rp.Update.Created.{request_created_found, nonce_taken, IsOwn, created_state}
use oid4vc.Rp.Update.Linked.{run-linked}
use oid4vc.Rp.Events.{handle, run, Step, Event}
use oid4vc.Rp.Deletion.{
  HasUniqueMaps, IsWithout, delete_state_for_correlation_id_lem, cleanup_lem, is_dead,
}
use oid4vc.Rp.Hash.{hash_code}

abbrev request : Subject
request = record { merged = some (("nonce", "n") ∷ ("state", "s") ∷ []); content = "request" }

abbrev created : AuthorizationEvent
created = record {
  correlation_id = "id";
  query_id = none;
  subject = some request;
  callback = none;
  response_redirect_uri = none;
  error = none;
  timestamp = 1000;
}

abbrev empty : Manager
empty = record {
  authorization_requests = [];
  authorization_responses = [];
  nonce_mapping = [];
  state_mapping = [];
  callback_mapping = [];
  query_id_mapping = [];
  max_age_in_seconds = 300;
  posted = [];
}

-- 31 + code "n"
hash_n : hash_code "n" ≡ 141
unfolding hash_code
hash_n = refl

-- Two texts with one hash.
collision : hash_code "Aa" ≡ hash_code "BB"
unfolding hash_code
collision = refl

unique_empty : HasUniqueMaps empty
unique_empty = record {
  requests = tt;
  responses = tt;
  mapping =
      λ kind. elim kind as (λ k. HasUniqueKeys (mapping_of k empty)) [ nonce ↦ tt | state ↦ tt ];
}

nonce-IsOwn : IsOwn created request_created nonce empty "n"
unfolding hashcode_for_value map_get hash_code
nonce-IsOwn = record { given = refl; free = inl refl }

state-IsOwn : IsOwn created request_created state empty "s"
unfolding hashcode_for_value map_get hash_code
state-IsOwn = record { given = refl; free = inl refl }

request_created_found_example :
    (get_request_state_by_nonce "n" true (handle (Event.request_created_success created) 2000 empty)
      ≡ (
        ok (some (created_state created 2000 "n" "s" empty)),
        handle (Event.request_created_success created) 2000 empty,
      ))
    × (get_request_state_by_state "s" true
          (handle (Event.request_created_success created) 2000 empty)
        ≡ (
          ok (some (created_state created 2000 "n" "s" empty)),
          handle (Event.request_created_success created) 2000 empty,
        ))
unfolding request_state map_get
request_created_found_example =
    request_created_found created 2000 "n" "s" empty true refl refl refl unique_empty nonce-IsOwn
      state-IsOwn refl refl

abbrev taken : Manager
taken = record empty { nonce_mapping = (141, "other") ∷ [] }

nonce_taken_example : update_request_state created request_created taken ≡ (
  ok tt,
  record taken {
    authorization_requests =
        map_set taken.authorization_requests "id" (next_state created request_created taken);
  },
)
unfolding hashcode_for_value map_get hash_code
nonce_taken_example =
    nonce_taken created request_created "n" "other" taken refl refl refl refl
      (λ h. absurd (ground (arith, eq_iff "other" "id")))

abbrev history : List Step
history = Step.event (Event.request_created_success created) 2000 ∷ []

run-linked_example :
    HasUniqueMaps (run history (new_manager none))
    × ((s : SessionState) × (map_get (run history (new_manager none)).authorization_requests "id"
          ≡ some s)
        × (get_from_mapping nonce "n"
              (λ m. m.authorization_requests)
              true
              (run history (new_manager none))
            ≡ (ok (some s), run history (new_manager none))))
unfolding run handle new_manager get_correlation_id update_request_state update_mapping
    hashcode_for_value mapping_conflict entered cleanup clean_entries map_get map_set map_delete
    hash_code request_state store_request delete_state_for_correlation_id
run-linked_example = run-linked history none nonce "n" "id" true refl refl

unique_taken : HasUniqueMaps taken
unfolding map_has
unique_taken = record {
  requests = tt;
  responses = tt;
  mapping = λ kind. elim kind as (λ k. HasUniqueKeys (mapping_of k taken)) [
    | nonce ↦ (refl, tt)
    | state ↦ tt
  ];
}

delete_state_for_correlation_id_lem_example :
    HasUniqueMaps (delete_state_for_correlation_id "other" taken)
    × IsWithout (λ k. "other" == k) taken (delete_state_for_correlation_id "other" taken)
delete_state_for_correlation_id_lem_example =
    delete_state_for_correlation_id_lem "other" taken unique_taken

cleanup_lem_example :
    HasUniqueMaps (cleanup 400000 taken)
    × IsWithout (is_dead 400000 taken) taken (cleanup 400000 taken)
cleanup_lem_example = cleanup_lem 400000 taken unique_taken
