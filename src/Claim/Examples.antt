-- ===== src/Claim/Examples.antt =====
-- A subscription that is claimed and run, as concrete data, with the claims' theorems applied to it.
use tmdb_mteam_hub.Claim.Passes.{Passes}
use tmdb_mteam_hub.Common.{
  ◌≡◌, refl, List, ◌++◌, false, none, some, text, ok, err, is_blank, is_whitespace, contains_nul,
  text_eq, is_empty, trim, trim_start, ℕ_discrete, as_bytes, encode_char, text_lt, insert_set, [],
}
use tmdb_mteam_hub.Model.{
  Lifecycle-discrete, Execution-discrete, Attention-discrete, Media-discrete,
}
use tmdb_mteam_hub.Repository.Operation.{
  SubscriptionKey, key_eq, Operation-discrete, for_lifecycle, operation_label,
  disposition_operation, next_lifecycle, next_delay, waits_for_release, search_pushed,
}
use tmdb_mteam_hub.Repository.Errors.{
  validated_text, validate_text_bytes, check_optional, check_text, for_each, key_try_new,
  revision_try_new, attempt_id_try_new, repository_integer,
}
use tmdb_mteam_hub.Repository.Payload.{Payload-discrete}
use tmdb_mteam_hub.Repository.Payload.Validate.{
  validate, validate_source, validate_observation, validate_tv, validate_artifacts,
  validate_downloads, validate_links, validate_issue, validate_owner,
}
use tmdb_mteam_hub.Repository.Payload.Keys.{validate_for}
use tmdb_mteam_hub.Repository.Source.{
  Projection-discrete, from_source, projected_title, observed_text,
}
use tmdb_mteam_hub.Repository.Head.{
  head_validate, retries_exhausted, validate_attention_tags, validate_payload_media_kind,
  validate_against, detail_validate, Key-discrete, OptionText-discrete, OptionNumber-discrete,
  Tags-discrete, Token-discrete,
}
use tmdb_mteam_hub.Claim.Table.{
  Row, release_attempt, find_row, write_row, attempt_taken, check_controls, satisfies_checks,
  update_found, update_row, extend_attempt, finish_attempt, fail_attempt, check_each_column,
  check_together,
}
use tmdb_mteam_hub.Claim.Load.{
  checked_required_text, checked_text, decode_head, decode_summary, decode_detail, expect_operation,
  decode_running, decode_controls, decode_row, load_found, load_stored_subscription, idle, running,
}
use tmdb_mteam_hub.Claim.Persist.{
  audit, verify_preserved_detail, claimed, claim_one, claim_due, claim_classified, claim_selected,
  persist_claim, verify_claim, claimed_try_new, verify_claim_head,
}
use tmdb_mteam_hub.Claim.Update.{
  runs_attempt, claim_update, allocated, allocate, set_claim, where_idle, absolute_time,
}
use tmdb_mteam_hub.Claim.Terminal.{
  require_live_attempt, next_revision, where_live, set_release, expect_exact_attempt_update,
  update_attempt, verify_immutable_subscription_head_fields, verify_immutable_subscription_fields,
  set_extend, set_consume, verify_terminal_post_write, schedule_from_repository_now,
}
use tmdb_mteam_hub.Claim.Terminal.Operations.{
  load_live, verify_released, release, finish, fail, extend_lease, commit_extension,
  verify_extended, finish_values, fail_values, consume_attempt,
}
use tmdb_mteam_hub.Claim.Terminal.Commands.{retry_schedule, finish_try_new}
use tmdb_mteam_hub.Claim.Classify.{
  classify, classify_operation, classify_controls, classify_idle, eligible_operation,
  eligible_previous, live_attempt,
}
use tmdb_mteam_hub.Claim.Select.{
  expired_candidate, force_candidate, due_candidate, lease_order, due_order, first_row,
  branch_matches, expect_branch, load_candidate, select_or_else, select_due_candidate,
  select_metadata, normal_branch,
}
use tmdb_mteam_hub.Claim.Terminal.Issues.{
  finish_tags, terminal_attention_tags, collect_kept, insert_tag, replace_execution_issue,
  clear_execution_issue, execution_issue_matches,
}
use tmdb_mteam_hub.Repository.Delta.{
  searched, apply_to_latest, apply_delta, validate_shape, validate_unique_updates,
  merge_download_updates, merge_updates, validate_execution_result_operation, delta_operation,
}
use tmdb_mteam_hub.Claim.Terminal.Fence.{execute, release_command}
use tmdb_mteam_hub.Claim.Persist.{not_claimed}
use tmdb_mteam_hub.Repository.Errors.{stale_attempt}
use tmdb_mteam_hub.Claim.Exclusive.{Claims, claim_one-Claims}
use tmdb_mteam_hub.Claim.Due.{claim_due-Claims}
use tmdb_mteam_hub.Claim.Refusals.{claim_one-live}
use tmdb_mteam_hub.Claim.Candidates.{is_eligible, selects, classify-candidate}
use tmdb_mteam_hub.Claim.Terminal.Fence.{
  Ends, finish_command, token_of, action_of, execute-Exclusive, execute-Stale,
}
use tmdb_mteam_hub.Claim.Terminal.Effect.{Finishes, Fails, finish-Effect, fail-Effect}
use tmdb_mteam_hub.Claim.Terminal.Released.{released_detail}
use tmdb_mteam_hub.Claim.Terminal.Release.{release-commits}
use tmdb_mteam_hub.Claim.Terminal.Operations.{append_audit}
use tmdb_mteam_hub.Claim.Terminal.Extend.{Extends, extend_lease-Extends}
use tmdb_mteam_hub.Claim.Steps.{Steps, claims_one, ends, here, step}
use tmdb_mteam_hub.Claim.Steps.Invariant.{Steps-grows}
use tmdb_mteam_hub.Claim.Table.{AuditEntry}
use tmdb_mteam_hub.Common.{◌≤◌}
use tmdb_mteam_hub.Claim.Scenario.{
  no_digest, key, token, attempt, deps, idle_row, idle_db, running_row, running_db, subscription,
  stored, after, longer, released_row, extended_row, pushed, finished_row, broken, failed_row,
}

-- The operations on these data, run.
runs :
    (claim_one no_digest deps idle_db key 100 ≡ ok (running_db, claimed subscription))
    × (claim_due no_digest deps idle_db (text "a") false 100 ≡ ok (running_db, some subscription))
    × (release no_digest 150 running_db token
        ≡ ok (after release_attempt 150 attempt released_row, released_row.detail))
    × (extend_lease no_digest 150 running_db token 300
        ≡ ok (after extend_attempt 150 longer extended_row, 9, longer))
    × (finish no_digest 150 running_db pushed
        ≡ ok (after finish_attempt 150 attempt finished_row, finished_row.detail))
    × (fail no_digest 150 running_db broken
        ≡ ok (after fail_attempt 150 attempt failed_row, failed_row.detail))
    × (load_stored_subscription no_digest running_db.rows key
        ≡ ok (stored (running attempt) running_row))
    × (decode_row no_digest idle_row ≡ ok (stored idle idle_row))
    × (finish_try_new token search_pushed (searched none []) ≡ ok pushed)
unfolding release verify_released load_live require_live_attempt next_revision where_live
    set_release expect_exact_attempt_update update_attempt verify_immutable_subscription_head_fields
    verify_immutable_subscription_fields audit runs_attempt verify_preserved_detail
    checked_required_text checked_text decode_head decode_summary decode_detail expect_operation
    decode_running decode_controls decode_row load_found load_stored_subscription find_row write_row
    attempt_taken check_controls check_each_column check_together satisfies_checks update_found
    update_row head_validate retries_exhausted validate_attention_tags validate_payload_media_kind
    validate_against detail_validate Key-discrete OptionText-discrete OptionNumber-discrete
    Tags-discrete Token-discrete Projection-discrete from_source projected_title observed_text
    validate validate_for validate_source validate_observation validate_tv validate_artifacts
    validate_downloads validate_links Payload-discrete validated_text validate_text_bytes
    check_optional check_text for_each key_try_new revision_try_new attempt_id_try_new
    repository_integer key_eq Operation-discrete for_lifecycle Lifecycle-discrete Execution-discrete
    Attention-discrete Media-discrete is_blank is_whitespace contains_nul text_eq is_empty trim
    trim_start ℕ_discrete as_bytes encode_char text_lt insert_set claim_one claim_due
    claim_classified claim_selected persist_claim verify_claim claimed_try_new claim_update
    allocated allocate set_claim where_idle absolute_time verify_claim_head classify
    classify_operation classify_controls classify_idle eligible_operation eligible_previous
    expired_candidate force_candidate due_candidate lease_order due_order first_row branch_matches
    expect_branch load_candidate select_or_else select_due_candidate select_metadata finish fail
    execute extend_lease commit_extension verify_extended set_extend set_consume finish_values
    fail_values finish_tags terminal_attention_tags collect_kept insert_tag replace_execution_issue
    clear_execution_issue execution_issue_matches operation_label consume_attempt
    verify_terminal_post_write schedule_from_repository_now retry_schedule apply_to_latest
    apply_delta validate_shape validate_unique_updates merge_download_updates merge_updates
    finish_try_new validate_execution_result_operation delta_operation disposition_operation
    next_lifecycle next_delay waits_for_release validate_issue validate_owner
runs = (refl, refl, refl, refl, refl, refl, refl, refl, refl)

pub claimed_once : claim_one no_digest deps idle_db key 100 ≡ ok (running_db, claimed subscription)
claimed_once = runs.0

claim_one-Claims_example : Claims key 100 100 idle_db running_db subscription
claim_one-Claims_example =
    claim_one-Claims no_digest deps idle_db running_db key 100 subscription runs.0

claim_due-Claims_example :
    (k : SubscriptionKey) × (k.account_key ≡ text "a")
    × Claims k 100 100 idle_db running_db subscription
claim_due-Claims_example =
    claim_due-Claims no_digest deps idle_db running_db (text "a") false 100 subscription runs.1

claim_one-live_example :
    claim_one no_digest deps running_db key 100
    ≡ ok (running_db, not_claimed (live_attempt attempt))
claim_one-live_example =
    claim_one-live no_digest deps running_db key 100 (stored (running attempt) running_row) attempt
      refl runs.6 refl refl

released :
    execute no_digest 150 running_db (release_command token)
    ≡ ok (after release_attempt 150 attempt released_row, released_row.detail)
unfolding execute
released = runs.2

execute-Exclusive_example :
    Ends token release_attempt 150 running_db
      (after release_attempt 150 attempt released_row)
      released_row.detail
unfolding token_of action_of
execute-Exclusive_example =
    execute-Exclusive no_digest 150 running_db (after release_attempt 150 attempt released_row)
      (release_command token) released_row.detail released

execute-Stale_example :
    (execute no_digest 160 (after release_attempt 150 attempt released_row) (finish_command pushed)
      ≡ err (stale_attempt token none))
    × (extend_lease no_digest 160 (after release_attempt 150 attempt released_row) token 300
        ≡ err (stale_attempt token none))
unfolding token_of
execute-Stale_example =
    execute-Stale no_digest 150 160 running_db (after release_attempt 150 attempt released_row)
      (release_command token) (finish_command pushed) released_row.detail 300 released refl refl

finish-Effect_example :
    Finishes pushed 150 running_db (after finish_attempt 150 attempt finished_row)
finish-Effect_example =
    finish-Effect no_digest 150 running_db (after finish_attempt 150 attempt finished_row)
      finished_row.detail token search_pushed (searched none []) pushed runs.8 runs.4

fail-Effect_example : Fails broken 150 running_db (after fail_attempt 150 attempt failed_row)
fail-Effect_example =
    fail-Effect no_digest 150 running_db (after fail_attempt 150 attempt failed_row)
      failed_row.detail broken runs.5

extend_lease-Extends_example :
    Extends token 150 450 running_db (after extend_attempt 150 longer extended_row)
extend_lease-Extends_example =
    extend_lease-Extends no_digest 150 running_db (after extend_attempt 150 longer extended_row)
      token 300 9 longer runs.3

classify-candidate_example :
    is_eligible normal_branch (classify (stored idle idle_row) 100)
    ≡ selects normal_branch (text "a") 100 idle_row
classify-candidate_example =
    classify-candidate no_digest normal_branch (text "a") 100 idle_row (stored idle idle_row) runs.7
      (unfold text_eq in refl)

-- A claim, then a release.
claimed_then_released : Steps no_digest idle_db (after release_attempt 150 attempt released_row)
claimed_then_released =
    step (claims_one deps key 100 subscription runs.0)
      (step (ends 150 (release_command token) released_row.detail released) here)

Steps-grows_example :
    ((r' : Row) × (find_row key (after release_attempt 150 attempt released_row).rows ≡ some r')
      × (7 ≤ r'.detail.head.revision))
    × ((more : List AuditEntry) × ((after release_attempt 150 attempt released_row).logs
          ≡ idle_db.logs ++ more))
Steps-grows_example =
    Steps-grows no_digest idle_db (after release_attempt 150 attempt released_row) key idle_row
      claimed_then_released (unfold find_row key_eq text_eq in refl)

release-commits_example :
    release no_digest 150 running_db token
    ≡ ok (
      append_audit release_attempt 150 attempt
          (released_detail 150 running_row.detail)
          (write_row key (set_release 150 running_row) running_db.rows)
          running_db,
      released_detail 150 running_row.detail,
    )
release-commits_example =
    release-commits no_digest 150 running_db token (stored (running attempt) running_row)
      running_row (unfold find_row key_eq text_eq set_claim in refl)
      (unfold satisfies_checks check_each_column check_together check_controls retries_exhausted
          set_claim Operation-discrete for_lifecycle as_bytes encode_char in
        refl)
      runs.6 attempt refl refl refl refl refl (unfold set_claim in refl)
