-- ===== src/Poll/Existing.antt =====
-- Reading a row before it is merged, and the audit of an attempt that a poll supersedes
-- (src/storage/subscription_repo/poll.rs). `ExistingRecord` has the columns of a `Row`.
use tmdb_mteam_hub.Common.{
  ℕ, ◌+◌, List, Bool, not, ◌&&◌, ltb, leb, ◌==◌, Option, none, some, is_some, is_none, Text, text,
  ok, err, ◌>>=◌, ◌>>◌, guard,
}
use tmdb_mteam_hub.Model.{SubscriptionExecutionState, idle, running, SubscriptionMediaKind}
use tmdb_mteam_hub.Repository.Operation.{
  PollAttemptToken, ExecutionOperation, for_lifecycle, i64_max, u32_max,
}
use tmdb_mteam_hub.Repository.Errors.{
  RepositoryResult, corrupt_data, check_text, check_optional, key_try_new, revision_try_new,
  attempt_id_try_new, command_integer,
}
use tmdb_mteam_hub.Repository.Head.{SubscriptionHead, detail_validate, unique_tags, is_running}
use tmdb_mteam_hub.Claim.Load.{persisted, checked_required_text, expect_operation}
use tmdb_mteam_hub.Claim.Table.{Row, AuditEntry, supersede_attempt, PollSupersedeReason, at_most}

-- `super::INACTIVE_SUBSCRIPTION_REASON`
abbrev pub inactive_reason : Text
inactive_reason = text "subscription_inactive"

-- `PollFenceContext`
pub record PollFenceContext : Type 0 where
  pub token : PollAttemptToken
  pub is_complete : Bool
  pub fenced_at : ℕ

-- The check of an attempt id that is there.
abbrev pub check_attempt_id : Option Text → RepositoryResult Unit
check_attempt_id none = ok tt
check_attempt_id (some id) = do
  checked_required_text id
  id' ← persisted (attempt_id_try_new id)
  ok tt

-- The attempt columns against the execution state.
unfoldable pub check_attempt_columns : SubscriptionExecutionState → Row → RepositoryResult Unit
check_attempt_columns idle r =
    guard (is_none r.claimed_operation && is_none r.attempt_id && is_none r.lease_until)
      corrupt_data
check_attempt_columns running r =
    guard (is_some r.claimed_operation && is_some r.attempt_id && is_some r.lease_until)
      corrupt_data

-- The claimed operation of a running row against its lifecycle state.
unfoldable pub check_running_operation :
    SubscriptionExecutionState
    → Option ExecutionOperation
    → Option ExecutionOperation
    → RepositoryResult Unit
unfolding expect_operation
check_running_operation idle claimed expected = ok tt
check_running_operation running claimed none = err corrupt_data
check_running_operation running none (some expected) = err corrupt_data
check_running_operation running (some claimed) expected = expect_operation claimed expected

-- The checks of `try_into_existing` on the typed columns outside the payload.
unfoldable pub check_columns : Row → RepositoryResult Unit
unfolding check_attempt_columns check_running_operation
check_columns r = do
  let head = r.detail.head
  key ← persisted (key_try_new head.key.account_key head.key.subject_id)
  revision ← persisted (revision_try_new head.revision)
  check_attempt_id r.attempt_id
  check_attempt_columns head.execution_state r
  check_running_operation head.execution_state r.claimed_operation
      (for_lifecycle head.lifecycle_state)
  guard (at_most r.detail.projection.release_year 65535) corrupt_data

unfoldable pub check_head_texts : Row → RepositoryResult Unit
check_head_texts r = do
  persisted (check_optional (check_text "snapshot_id") r.detail.head.last_seen_snapshot_id)
  persisted (check_optional (check_text "blocked_reason") r.detail.head.blocked_reason)
  guard (leb r.detail.head.retry_count u32_max && leb r.detail.head.max_retries u32_max)
      corrupt_data
  guard (unique_tags r.detail.attention_tags) corrupt_data

-- `RawExisting::try_into_existing`
unfoldable pub decode_existing : (List ℕ → List ℕ) → Row → RepositoryResult Row
unfolding check_columns check_head_texts
decode_existing sha256 r = do
  check_columns r
  check_head_texts r
  persisted (detail_validate sha256 r.detail)
  ok r

-- `StoredExecutionAttempt`
pub record StoredExecutionAttempt : Type 0 where
  pub operation : ExecutionOperation
  pub attempt_id : Text
  pub lease_until : ℕ

unfoldable pub attempt_of_columns :
    SubscriptionExecutionState
    → Option ExecutionOperation
    → Option Text
    → Option ℕ
    → RepositoryResult (Option StoredExecutionAttempt)
attempt_of_columns idle operation id lease = ok none
attempt_of_columns running (some operation) (some id) (some lease) =
    ok (some (record { operation = operation; attempt_id = id; lease_until = lease }))
attempt_of_columns running _ _ _ = err corrupt_data

-- `ExistingRecord::running_attempt`
unfoldable pub existing_attempt : Row → RepositoryResult (Option StoredExecutionAttempt)
unfolding attempt_of_columns
existing_attempt r =
    attempt_of_columns r.detail.head.execution_state r.claimed_operation r.attempt_id r.lease_until

-- `increment_revision`
unfoldable pub increment_revision : ℕ → RepositoryResult ℕ
increment_revision value = do
  guard (not (leb i64_max value)) corrupt_data
  revision_try_new (value + 1)

-- `SupersedeAfter`
pub record SupersedeAfter : Type 0 where
  pub revision : ℕ
  pub active : Bool
  pub execution_state : SubscriptionExecutionState
  pub media_kind : SubscriptionMediaKind
  pub blocked_reason : Option Text
  pub target_title : Text

unfoldable pub supersede_entry :
    SubscriptionHead
    → StoredExecutionAttempt
    → PollFenceContext
    → PollSupersedeReason
    → SupersedeAfter
    → AuditEntry
supersede_entry head attempt fence reason after = record {
  account_key = head.key.account_key;
  created_at = fence.fenced_at;
  action = supersede_attempt;
  target_id = head.key.subject_id;
  target_title = after.target_title;
  attempt_id = attempt.attempt_id;
  operation = attempt.operation;
  lease_until = attempt.lease_until;
  row_revision = after.revision;
  superseded = some (record {
    reason = reason;
    lease_live_at_fence = ltb fence.fenced_at attempt.lease_until;
    token = fence.token;
    is_complete = fence.is_complete;
    revision_before = head.revision;
    active_before = head.active;
    active_after = after.active;
    media_kind_before = head.media_kind;
    media_kind_after = after.media_kind;
    blocked_reason_before = head.blocked_reason;
    blocked_reason_after = after.blocked_reason;
  });
}

-- `append_poll_supersede_audit`, with the checks of `append_execution_audit`: the new entry.
unfoldable pub supersede_audit :
    Row
    → StoredExecutionAttempt
    → PollFenceContext
    → PollSupersedeReason
    → SupersedeAfter
    → RepositoryResult AuditEntry
unfolding supersede_entry increment_revision
supersede_audit existing attempt fence reason after = do
  guard (is_running existing.detail.head.execution_state) corrupt_data
  next ← increment_revision existing.detail.head.revision
  guard (next == after.revision) corrupt_data
  guard (not (is_running after.execution_state)) corrupt_data
  at ← command_integer "execution_audit.created_at" fence.fenced_at
  ok (supersede_entry existing.detail.head attempt fence reason after)
