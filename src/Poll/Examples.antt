-- ===== src/Poll/Examples.antt =====
-- The polls' theorems at concrete data.
use tmdb_mteam_hub.Poll.Commits.{CanBegin, begin_poll-commits}
use tmdb_mteam_hub.Common.{
  Text, ap, arith, as_bytes, contains_nul, encode_char, err, false, hex, hex_digit, insert_set,
  is_blank, is_empty, is_whitespace, none, ok, refl, some, starts_with, subst, text_eq, text_lt,
  to_be_bytes, trim, trim_start, true, ℕ_discrete, ◌<◌, ◌∷◌, ◌≡◌, ◌≢◌, [],
}
use tmdb_mteam_hub.Model.{
  Lifecycle-discrete, Execution-discrete, Attention-discrete, Media-discrete,
}
use tmdb_mteam_hub.Repository.Operation.{key_eq, Operation-discrete, for_lifecycle}
use tmdb_mteam_hub.Repository.Errors.{
  validated_text, validate_text_bytes, check_optional, check_text, for_each, key_try_new,
  revision_try_new, attempt_id_try_new, command_integer, check_number, stale_poll,
}
use tmdb_mteam_hub.Repository.Payload.{Payload-discrete}
use tmdb_mteam_hub.Repository.Payload.Validate.{
  validate, validate_source, validate_observation, validate_tv, validate_artifacts,
  validate_downloads, validate_links,
}
use tmdb_mteam_hub.Repository.Payload.Keys.{validate_for}
use tmdb_mteam_hub.Repository.Source.{
  Projection-discrete, from_source, projected_title, observed_text, merge_source_observation,
  replace_text, replace_optional_text, replace_values, trimmed_values, unique_values,
}
use tmdb_mteam_hub.Repository.Retry.{delay_secs, double_delay, next_poll_at, policy_try_new}
use tmdb_mteam_hub.Repository.Poll.{
  merge_snapshot_observation, poll_generation_try_new, poll_failure_try_new, begin_poll_try_new,
}
use tmdb_mteam_hub.Repository.Head.{
  head_validate, retries_exhausted, validate_attention_tags, validate_payload_media_kind,
  validate_against, detail_validate, OptionText-discrete, OptionNumber-discrete,
}
use tmdb_mteam_hub.Claim.Table.{
  find_row, write_row, attempt_taken, check_controls, satisfies_checks, update_found, update_row,
  check_each_column, check_together,
}
use tmdb_mteam_hub.Claim.Load.{checked_required_text, expect_operation}
use tmdb_mteam_hub.Claim.Update.{set_claim}
use tmdb_mteam_hub.Claim.Persist.{audit}
use tmdb_mteam_hub.Claim.Scenario.{no_digest}
use tmdb_mteam_hub.Poll.Meta.{
  Meta, OptionToken-discrete, Store, check_success, current_token, find_meta, insert_meta,
  meta_satisfies, read_current_found, require_consumed, require_current_found, require_current_poll,
  require_single_write, snapshot_id_input, stable_snapshot_id, terminal_meta, token_of_columns,
  update_meta, update_meta_found, validate_state_version, validate_terminal_time, write_meta,
  check_meta_columns, check_meta_together,
}
use tmdb_mteam_hub.Poll.Existing.{
  attempt_of_columns, check_attempt_columns, check_columns, check_head_texts,
  check_running_operation, decode_existing, existing_attempt, increment_revision, supersede_audit,
  supersede_entry,
}
use tmdb_mteam_hub.Poll.Seen.{
  apply_seen_found, apply_seen_records, count_updated, insert_new_seen, merged_payload, new_payload,
  new_row, persist_seen, seen_logs, superseded_attempt, update_existing_seen,
}
use tmdb_mteam_hub.Poll.Merged.{
  check_bound_values, cleared_payload, insert_found, insert_row, is_changed, is_newly_seen,
  is_skipped, merged_kind, merged_row, next_updated_at, revised_row, set_seen, written,
}
use tmdb_mteam_hub.Poll.Missing.{
  audit_missing, deactivate_missing, deactivate_row, insert_by_subject,
  load_missing_for_deactivation, missing_logs, order_by_subject, set_deactivated, validate_missing,
  where_missing,
}
use tmdb_mteam_hub.Poll.Operations.{
  apply_complete_snapshot, apply_records, consume_poll, incomplete_current, incomplete_reason_label,
  record_incomplete_snapshot, record_poll_failure, set_completed, set_failed, set_incomplete,
  where_open,
}
use tmdb_mteam_hub.Poll.Opening.{
  begin_found, begin_poll, new_meta, set_begun, validate_command_time, BeginPollResult,
}
use tmdb_mteam_hub.Poll.Terminal.{complete, execute_poll, failure}
use tmdb_mteam_hub.Poll.Scenario.{
  account, backoff, begin, begun, begun_again, begun_meta, begun_result, completed,
  completed_result, completing, failed, failing, first_token, observed_result, observed_store,
  observing, second_result, second_token, snapshot_id, unpolled,
}
use tmdb_mteam_hub.Repository.Operation.{SubscriptionKey}
use tmdb_mteam_hub.Poll.Seen.Rows.{SeenAt}
use tmdb_mteam_hub.Poll.Seen.Loop.{listed}
use tmdb_mteam_hub.Poll.Begin.{Begins, begin_poll-Begins, begin_poll-Stale}
use tmdb_mteam_hub.Poll.Stale.{execute_poll-Stale}
use tmdb_mteam_hub.Poll.Snapshot.{Completes, Refreshes, apply_complete_snapshot-Refreshes}
use tmdb_mteam_hub.Poll.Incomplete.{Pauses, record_incomplete_snapshot-Observes}
use tmdb_mteam_hub.Poll.Steps.{here, settles, step}
use tmdb_mteam_hub.Poll.Steps.Generation.{superseded_poll-never_commits}

-- The operations on these data, run.
runs :
    (begin_poll no_digest unpolled (begin 250) ≡ ok (begun, begun_result))
    × (record_poll_failure begun failing
        ≡ ok (failed, record { token = first_token; failure_count = 1; next_poll_at = 360 }))
    × (record_incomplete_snapshot no_digest begun observing ≡ ok (observed_store, observed_result))
    × (apply_complete_snapshot no_digest begun completing ≡ ok (completed, completed_result))
    × (begin_poll no_digest failed (begin 400) ≡ ok (begun_again, second_result))
    × (poll_failure_try_new failing ≡ ok failing)
    × (policy_try_new 60 600 ≡ ok backoff)
    × (execute_poll no_digest begun (failure failing) ≡ ok failed)
unfolding begin_poll begin_found find_meta write_meta check_success check_meta_columns
    check_meta_together meta_satisfies update_meta_found update_meta insert_meta
    validate_state_version require_single_write token_of_columns current_token OptionToken-discrete
    terminal_meta require_current_found require_current_poll validate_terminal_time
    read_current_found require_consumed snapshot_id_input stable_snapshot_id check_attempt_columns
    check_running_operation check_columns check_head_texts decode_existing attempt_of_columns
    existing_attempt increment_revision supersede_entry supersede_audit merged_kind cleared_payload
    is_skipped merged_row is_newly_seen is_changed next_updated_at revised_row set_seen written
    check_bound_values insert_found insert_row merged_payload superseded_attempt seen_logs
    persist_seen update_existing_seen new_payload new_row insert_new_seen count_updated
    apply_seen_found apply_seen_records where_missing insert_by_subject order_by_subject
    set_deactivated deactivate_row deactivate_missing validate_missing load_missing_for_deactivation
    missing_logs audit_missing validate_command_time set_begun new_meta where_open set_failed
    consume_poll record_poll_failure incomplete_reason_label set_incomplete set_completed
    incomplete_current record_incomplete_snapshot apply_records apply_complete_snapshot
    poll_generation_try_new merge_snapshot_observation poll_failure_try_new policy_try_new
    execute_poll delay_secs double_delay next_poll_at command_integer check_number
    merge_source_observation replace_text replace_optional_text replace_values trimmed_values
    unique_values find_row write_row attempt_taken check_controls check_each_column check_together
    satisfies_checks update_found update_row head_validate retries_exhausted validate_attention_tags
    validate_payload_media_kind validate_against detail_validate OptionText-discrete
    OptionNumber-discrete Projection-discrete from_source projected_title observed_text validate
    validate_for validate_source validate_observation validate_tv validate_artifacts
    validate_downloads validate_links Payload-discrete validated_text validate_text_bytes
    check_optional check_text for_each key_try_new revision_try_new attempt_id_try_new key_eq
    Operation-discrete for_lifecycle Lifecycle-discrete Execution-discrete Attention-discrete
    Media-discrete is_blank is_whitespace contains_nul text_eq is_empty trim trim_start starts_with
    ℕ_discrete as_bytes encode_char to_be_bytes hex hex_digit text_lt insert_set set_claim audit
    checked_required_text expect_operation
runs = (refl, refl, refl, refl, refl, refl, refl, refl)

failed_once : execute_poll no_digest begun (failure failing) ≡ ok failed
failed_once = runs.7

begin_poll-Begins_example : Begins (begin 250) begun_result unpolled begun
begin_poll-Begins_example =
    begin_poll-Begins no_digest unpolled begun (begin 250) begun_result runs.0

begin_poll-Stale_example :
    execute_poll no_digest begun_again (failure failing)
    ≡ err (stale_poll account first_token (some second_token))
begin_poll-Stale_example =
    begin_poll-Stale no_digest failed begun_again (begin 400) second_result (failure failing) runs.4
      refl (λ e. absurd (omega (arith, ap (λ t. t.generation) e))) refl

execute_poll-Stale_example :
    execute_poll no_digest failed (complete completing) ≡ err (stale_poll account first_token none)
execute_poll-Stale_example =
    execute_poll-Stale no_digest begun failed (failure failing) (complete completing) failed_once
      refl refl

apply_complete_snapshot-Refreshes_example :
    Refreshes completing begun.db.rows completed.db.rows × Completes completing begun completed
apply_complete_snapshot-Refreshes_example =
    apply_complete_snapshot-Refreshes no_digest begun completed completing completed_result runs.3

record_incomplete_snapshot-Observes_example :
    ((key : SubscriptionKey)
      → (listed account key observing.records ≡ true
          → SeenAt key snapshot_id observed_store.db.rows)
        × (listed account key observing.records ≡ false
            → find_row key observed_store.db.rows ≡ find_row key begun.db.rows))
    × Pauses observing begun observed_store
record_incomplete_snapshot-Observes_example =
    record_incomplete_snapshot-Observes no_digest begun observed_store observing observed_result
      runs.2

superseded_poll-never_commits_example :
    (1 < 2) × (execute_poll no_digest begun_again (failure failing) ≢ ok failed)
superseded_poll-never_commits_example =
    superseded_poll-never_commits no_digest unpolled begun failed begun_again begun_again failed
      (begin 250) (begin 400) begun_result second_result (failure failing) runs.0
      (step (settles (failure failing) failed_once) here) runs.4 refl here refl refl

one_meta : (a : Text) (m x : Meta) → find_meta a (m ∷ []) ≡ some x → m ≡ x
unfolding find_meta
one_meta a m x h = ground arith

begun_meta-CanBegin : CanBegin 400 begun_meta
unfolding meta_satisfies check_meta_columns check_meta_together check_success new_meta
begun_meta-CanBegin = (refl, refl, omega arith, omega arith)

-- The poll that is open does not stop another begin.
begin_poll-commits_example :
    (s' : Store) × (r : BeginPollResult) × (begin_poll no_digest begun (begin 400) ≡ ok (s', r))
    × Begins (begin 400) r begun s'
begin_poll-commits_example =
    begin_poll-commits no_digest begun (begin 400)
      (unfold begin_poll_try_new validated_text is_blank is_whitespace contains_nul in refl)
      (omega arith)
      (λ m f. subst (CanBegin 400) (one_meta account begun_meta m f) begun_meta-CanBegin)
