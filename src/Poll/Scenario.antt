-- ===== src/Poll/Scenario.antt =====
-- Polls of an account (src/storage/subscription_repo/poll.rs), as concrete data.
use tmdb_mteam_hub.Common.{ℕ, [], ◌∷◌, ◌++◌, true, false, none, some, Text, text}
use tmdb_mteam_hub.Model.{movie, idle}
use tmdb_mteam_hub.Repository.Operation.{PollAttemptToken, search}
use tmdb_mteam_hub.Repository.Payload.{SubscriptionPayload}
use tmdb_mteam_hub.Repository.Source.{merge_source_observation}
use tmdb_mteam_hub.Repository.Retry.{PollRetryPolicy}
use tmdb_mteam_hub.Repository.Poll.{
  SnapshotRecord, NewRecordPolicy, BeginPollCommand, ApplyCompleteSnapshotCommand,
  RecordIncompleteSnapshotCommand, RecordPollFailureCommand, end_not_observed,
}
use tmdb_mteam_hub.Claim.Table.{Row, missing_from_complete_snapshot}
use tmdb_mteam_hub.Claim.Scenario.{no_digest, source, payload, running_row, running_db}
use tmdb_mteam_hub.Poll.Meta.{Meta, Store}
use tmdb_mteam_hub.Poll.Existing.{PollFenceContext, inactive_reason, supersede_entry}
use tmdb_mteam_hub.Poll.Seen.{new_row}
use tmdb_mteam_hub.Poll.Merged.{merged_row, revised_row, set_seen}
use tmdb_mteam_hub.Poll.Missing.{set_deactivated}
use tmdb_mteam_hub.Poll.Operations.{
  RecordIncompleteSnapshotResult, ApplyCompleteSnapshotResult, set_failed, set_incomplete,
  set_completed,
}
use tmdb_mteam_hub.Poll.Opening.{BeginPollResult, new_meta, set_begun}

abbrev pub account : Text
account = text "a"

abbrev pub snapshot_id : Text
snapshot_id = text "wanted-poll-v1-"

abbrev pub first_token : PollAttemptToken
first_token = record { generation = 1; snapshot_id = snapshot_id }

abbrev pub observed : Text → SnapshotRecord
observed subject = record {
  subject_id = subject;
  media_kind = movie;
  schedulable = true;
  blocked_reason = none;
  source = source;
}

abbrev pub policy : NewRecordPolicy
policy = record { max_retries = 3; bootstrap_existing_as_skipped = true }

abbrev pub backoff : PollRetryPolicy
backoff = record { initial_delay_secs = 60; max_delay_secs = 600 }

-- An account that was never polled, with a running subscription.
abbrev pub unpolled : Store
unpolled = record { metas = []; db = running_db }

abbrev pub begin : ℕ → BeginPollCommand
begin at = record { account_key = account; attempted_at = at }

abbrev pub begun_meta : Meta
begun_meta = new_meta account 250 snapshot_id

abbrev pub begun : Store
begun = record { metas = begun_meta ∷ []; db = running_db }

abbrev pub begun_result : BeginPollResult
begun_result = record { token = first_token; attempted_at = 250 }

abbrev pub failing : RecordPollFailureCommand
failing = record {
  account_key = account;
  token = first_token;
  failed_at = 300;
  message = text "m";
  retry_policy = backoff;
}

abbrev pub failed : Store
failed = record { metas = set_failed 300 1 360 (text "m") begun_meta ∷ []; db = running_db }

-- A snapshot with a new subject, in which the running one is missing.
abbrev pub completing : ApplyCompleteSnapshotCommand
completing = record {
  account_key = account;
  token = first_token;
  completed_at = 300;
  next_poll_at = 900;
  new_record_policy = policy;
  records = observed (text "n") ∷ [];
}

abbrev pub fence : PollFenceContext
fence = record { token = first_token; is_complete = true; fenced_at = 300 }

abbrev pub inserted_row : Row
inserted_row =
    new_row no_digest account fence 300 true policy (observed (text "n"))
      running_row.detail.projection (record { account_key = account; subject_id = text "n" })

abbrev pub completed : Store
completed = record {
  metas = set_completed completing begun_meta ∷ [];
  db = record {
    rows = set_deactivated 300 running_row ∷ inserted_row ∷ [];
    logs =
        running_db.logs
        ++ supersede_entry running_row.detail.head
            (record { operation = search; attempt_id = text "x"; lease_until = 200 }) fence
            missing_from_complete_snapshot
            (record {
              revision = 9;
              active = false;
              execution_state = idle;
              media_kind = movie;
              blocked_reason = some inactive_reason;
              target_title = text "T";
            })
          ∷ [];
  };
}

abbrev pub completed_result : ApplyCompleteSnapshotResult
completed_result = record {
  token = first_token;
  effects = record { inserted = 1; updated = 0; unchanged = 0; reactivated = 0 };
  deactivated = 1;
  completed_at = 300;
  next_poll_at = 900;
}

-- A snapshot that has the running subject, and is not complete.
abbrev pub observing : RecordIncompleteSnapshotCommand
observing = record {
  account_key = account;
  token = first_token;
  incomplete_at = 300;
  observation = record {
    fetched_pages = 2;
    truncated_by_limit = false;
    end_observed = false;
    reason = end_not_observed;
  };
  new_record_policy = policy;
  records = observed (text "s") ∷ [];
  retry_policy = backoff;
}

abbrev pub merged : SubscriptionPayload
merged = record payload {
  source = merge_source_observation source source;
  observation = record { created_at = 1; first_seen_at = 1; last_seen_at = 300 };
}

abbrev pub seen_row : Row
seen_row =
    set_seen
      (revised_row 9 300 (
        merged_row snapshot_id 300 (observed (text "s")) running_row merged
          running_row.detail.projection))
      running_row

abbrev pub observed_store : Store
observed_store = record {
  metas = set_incomplete observing 1 360 begun_meta ∷ [];
  db = record { rows = seen_row ∷ []; logs = running_db.logs };
}

abbrev pub observed_result : RecordIncompleteSnapshotResult
observed_result = record {
  token = first_token;
  effects = record { inserted = 0; updated = 1; unchanged = 0; reactivated = 0 };
  incomplete_at = 300;
  failure_count = 1;
  next_poll_at = 360;
}

-- The next poll of the account.
abbrev pub second_token : PollAttemptToken
second_token = record { generation = 2; snapshot_id = snapshot_id }

abbrev pub begun_again : Store
begun_again = record {
  metas = set_begun 400 2 snapshot_id (set_failed 300 1 360 (text "m") begun_meta) ∷ [];
  db = running_db;
}

abbrev pub second_result : BeginPollResult
second_result = record { token = second_token; attempted_at = 400 }
