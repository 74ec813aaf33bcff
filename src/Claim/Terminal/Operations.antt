-- ===== src/Claim/Terminal/Operations.antt =====
-- `extend_lease`, `finish`, `fail` and `release` (src/storage/subscription_repo/claim.rs). An operation
-- runs in one immediate transaction: an error leaves the database as it was.
use tmdb_mteam_hub.Common.{
  ℕ, ◌+◌, List, [], ◌∷◌, ◌++◌, Bool, true, false, not, ◌&&◌, ltb, ◌==◌, max, Option, same, ok,
  ◌>>=◌, ◌>>◌, guard,
}
use tmdb_mteam_hub.Model.{Lifecycle-discrete}
use tmdb_mteam_hub.Repository.Operation.{
  SubscriptionKey, ExecutionAttemptToken, Attempt, next_lifecycle, next_delay, waits_for_release,
  u32_max,
}
use tmdb_mteam_hub.Repository.Errors.{
  RepositoryResult, corrupt_data, lease_not_extended, repository_integer,
}
use tmdb_mteam_hub.Repository.Payload.{SubscriptionPayload}
use tmdb_mteam_hub.Repository.Payload.Keys.{validate_for}
use tmdb_mteam_hub.Repository.Source.{SubscriptionProjection, from_source}
use tmdb_mteam_hub.Repository.Delta.{apply_to_latest}
use tmdb_mteam_hub.Repository.Head.{
  SubscriptionHead, SubscriptionDetail, bool_eq, retries_exhausted, Token-discrete,
  OptionNumber-discrete,
}
use tmdb_mteam_hub.Claim.Table.{
  Row, Db, AuditAction, extend_attempt, finish_attempt, fail_attempt, release_attempt,
}
use tmdb_mteam_hub.Claim.Load.{StoredSubscription, load_stored_subscription}
use tmdb_mteam_hub.Claim.Persist.{audit, running_attempt, verify_preserved_detail}
use tmdb_mteam_hub.Claim.Update.{absolute_time}
use tmdb_mteam_hub.Claim.Terminal.{
  require_live_attempt, next_revision, schedule_from_repository_now, set_extend, Consumed,
  set_consume, set_release, update_attempt, verify_immutable_subscription_fields, is_idle,
  verify_terminal_post_write,
}
use tmdb_mteam_hub.Claim.Terminal.Issues.{
  terminal_attention_tags, clear_execution_issue, replace_execution_issue, finish_tags,
}
use tmdb_mteam_hub.Claim.Terminal.Commands.{
  FinishExecutionCommand, FailExecutionCommand, is_replacement_step, check_integer, retry_schedule,
}

-- The database after the transaction, and the detail that the result carries.
abbrev pub Committed : Type 0
Committed = Db × SubscriptionDetail

abbrev pub append_audit : AuditAction → ℕ → Attempt → SubscriptionDetail → List Row → Db → Db
append_audit action now a d rows db = record {
  rows = rows;
  logs = db.logs ++ audit action now a d ∷ [];
}

-- The bound values of a finish.
unfoldable pub finish_values :
    FinishExecutionCommand
    → SubscriptionDetail
    → SubscriptionPayload
    → SubscriptionProjection
    → Option ℕ
    → Consumed
unfolding finish_tags
finish_values c before payload projection next_attempt_at = record {
  lifecycle_state = next_lifecycle c.disposition;
  next_attempt_at = next_attempt_at;
  retry_count = 0;
  retry_blocked = false;
  attention_tags =
      finish_tags before.attention_tags
        (waits_for_release c.disposition && not (is_replacement_step c.payload_delta))
        payload.candidates;
  payload = payload;
  projection = projection;
}

-- The bound values of a failure.
unfoldable pub fail_values :
    SubscriptionDetail → SubscriptionPayload → SubscriptionProjection → Option ℕ → Consumed
unfolding terminal_attention_tags
fail_values before payload projection next_attempt_at = record {
  lifecycle_state = before.head.lifecycle_state;
  next_attempt_at = next_attempt_at;
  retry_count = before.head.retry_count + 1;
  retry_blocked = retries_exhausted before.head.max_retries (before.head.retry_count + 1);
  attention_tags =
      terminal_attention_tags before.attention_tags false true
        (retries_exhausted before.head.max_retries (before.head.retry_count + 1));
  payload = payload;
  projection = projection;
}

module _ (sha256 : List ℕ → List ℕ) (now : ℕ) (db : Db) where
  -- The start of the four transactions: the row of the token's key and its live attempt.
  unfoldable pub load_live : ExecutionAttemptToken → RepositoryResult (StoredSubscription × Attempt)
  load_live token = do
    now' ← repository_integer now
    stored ← load_stored_subscription sha256 db.rows token.key
    current ← require_live_attempt stored token now
    ok (stored, current)

  -- The UPDATE that consumes the attempt, the reload and its verification.
  unfoldable pub consume_attempt :
      SubscriptionKey
      → StoredSubscription
      → Attempt
      → ℕ
      → Consumed
      → AuditAction
      → RepositoryResult Committed
  consume_attempt key stored current revision c action = do
    lease' ← repository_integer current.lease_until
    check_integer c.projection.douban_sort_time
    rows ← update_attempt key current now (set_consume c now) db.rows
    post ← load_stored_subscription sha256 rows key
    verify_terminal_post_write post stored.detail revision (max stored.detail.head.updated_at now) c
    ok (append_audit action now current post.detail rows db, post.detail)

  unfoldable pub finish : FinishExecutionCommand → RepositoryResult Committed
  unfolding consume_attempt
  finish c = do
    live ← load_live c.token
    let (stored, current) = live
    revision ← next_revision stored.detail.head.revision
    applied ← apply_to_latest sha256 c.payload_delta c.token.key stored.detail.payload
    let payload = clear_execution_issue applied c.token.operation
    validate_for sha256 c.token.key.account_key c.token.key.subject_id payload
    projection ← from_source payload.source
    next_attempt_at ← schedule_from_repository_now now (next_delay c.disposition)
    check_integer next_attempt_at
    consume_attempt c.token.key stored current revision
        (finish_values c stored.detail payload projection next_attempt_at) finish_attempt

  unfoldable pub fail : FailExecutionCommand → RepositoryResult Committed
  unfolding consume_attempt
  fail c = do
    live ← load_live c.token
    let (stored, current) = live
    let head = stored.detail.head
    revision ← next_revision head.revision
    guard (ltb head.retry_count u32_max) corrupt_data
    next_attempt_at ←
        retry_schedule (retries_exhausted head.max_retries (head.retry_count + 1)) now c.retry_after
    applied ← apply_to_latest sha256 c.payload_delta c.token.key stored.detail.payload
    let payload = replace_execution_issue applied c.token.operation c.error_type c.message now
    validate_for sha256 c.token.key.account_key c.token.key.subject_id payload
    projection ← from_source payload.source
    check_integer next_attempt_at
    consume_attempt c.token.key stored current revision
        (fail_values stored.detail payload projection next_attempt_at) fail_attempt

  -- The controls that an extension and a release leave as they were.
  abbrev pub same_controls : SubscriptionHead → SubscriptionHead → Bool
  same_controls a b =
      same Lifecycle-discrete a.lifecycle_state b.lifecycle_state
      && same OptionNumber-discrete a.next_attempt_at b.next_attempt_at
      && (a.retry_count == b.retry_count)
      && bool_eq a.retry_blocked b.retry_blocked
      && bool_eq a.force_eligible_once b.force_eligible_once

  -- The check of a released row's controls.
  unfoldable pub verify_released : SubscriptionHead → SubscriptionHead → ℕ → RepositoryResult Unit
  verify_released before after revision =
      guard
        ((after.revision == revision)
          && (after.updated_at == max before.updated_at now)
          && same_controls after before
          && (after.max_retries == before.max_retries))
        corrupt_data

  -- The check of an extended row's controls.
  unfoldable pub verify_extended :
      ExecutionAttemptToken
      → ℕ
      → SubscriptionHead
      → SubscriptionHead
      → Attempt
      → ℕ
      → RepositoryResult Unit
  verify_extended token lease before after kept revision =
      guard
        (same Token-discrete kept.token token
          && (kept.lease_until == lease)
          && (after.revision == revision)
          && (after.updated_at == max before.updated_at now)
          && same_controls after before)
        corrupt_data

  unfoldable pub release : ExecutionAttemptToken → RepositoryResult Committed
  release token = do
    live ← load_live token
    let (stored, current) = live
    revision ← next_revision stored.detail.head.revision
    lease' ← repository_integer current.lease_until
    rows ← update_attempt token.key current now (set_release now) db.rows
    post ← load_stored_subscription sha256 rows token.key
    guard (is_idle post.controls) corrupt_data
    verify_released stored.detail.head post.detail.head revision
    verify_preserved_detail stored.detail post.detail
    verify_immutable_subscription_fields stored.detail post.detail
    ok (append_audit release_attempt now current post.detail rows db, post.detail)

  -- The UPDATE of an extension, the reload and its verification.
  unfoldable pub commit_extension :
      ExecutionAttemptToken
      → StoredSubscription
      → Attempt
      → ℕ
      → ℕ
      → RepositoryResult (Db × ℕ × Attempt)
  commit_extension token stored current lease revision = do
    rows ← update_attempt token.key current now (set_extend lease now) db.rows
    post ← load_stored_subscription sha256 rows token.key
    verify_preserved_detail stored.detail post.detail
    verify_immutable_subscription_fields stored.detail post.detail
    kept ← running_attempt post.controls
    verify_extended token lease stored.detail.head post.detail.head kept revision
    ok (append_audit extend_attempt now kept post.detail rows db, revision, kept)

  -- The result carries the revision and the attempt with its new lease.
  unfoldable pub extend_lease : ExecutionAttemptToken → ℕ → RepositoryResult (Db × ℕ × Attempt)
  unfolding commit_extension
  extend_lease token ttl = do
    live ← load_live token
    let (stored, current) = live
    lease ← absolute_time now ttl
    guard (ltb current.lease_until lease) (lease_not_extended token current.lease_until lease)
    revision ← next_revision stored.detail.head.revision
    lease' ← repository_integer current.lease_until
    commit_extension token stored current lease revision
