-- ===== src/Claim/Terminal.antt =====
-- What the operations on a live attempt share (src/storage/subscription_repo/claim.rs): the fence, the
-- exact UPDATE, and the checks after it.
pub mod Issues
pub mod Operations
pub mod Exact
pub mod Inversion
pub mod Fence
pub mod Effect
pub mod Extend
pub mod Release
pub mod Commands
pub mod Released
use tmdb_mteam_hub.Common.{
  ℕ, ◌+◌, List, Bool, true, false, not, ◌&&◌, if◌then◌else◌, ltb, leb, ◌==◌, max, Option, none,
  some, Text, same, Result, ok, err, ◌>>=◌, ◌>>◌, guard, ℕ_discrete,
}
use tmdb_mteam_hub.Model.{
  SubscriptionLifecycleState, SubscriptionExecutionState, SubscriptionAttentionTag,
  Lifecycle-discrete, Media-discrete,
}
use tmdb_mteam_hub.Repository.Operation.{SubscriptionKey, ExecutionAttemptToken, Attempt, i64_max}
use tmdb_mteam_hub.Repository.Errors.{
  RepositoryResult, corrupt_data, unavailable, internal, stale_attempt, lease_expired,
  revision_try_new,
}
use tmdb_mteam_hub.Repository.Payload.{SubscriptionPayload, Payload-discrete}
use tmdb_mteam_hub.Repository.Source.{SubscriptionProjection, Projection-discrete}
use tmdb_mteam_hub.Repository.Head.{
  SubscriptionHead, SubscriptionDetail, is_running, bool_eq, Key-discrete, Token-discrete,
  OptionText-discrete, OptionNumber-discrete, Tags-discrete,
}
use tmdb_mteam_hub.Claim.Table.{Row, Update, changed, unique_violation, check_violation, update_row}
use tmdb_mteam_hub.Claim.Load.{StoredSubscription, ExecutionControls, idle, running, persisted}
use tmdb_mteam_hub.Claim.Update.{runs_attempt}

abbrev pub require_controls :
    ExecutionControls → ExecutionAttemptToken → ℕ → RepositoryResult Attempt
require_controls idle attempted now = err (stale_attempt attempted none)
require_controls (running current) attempted now =
    if not (same Token-discrete current.token attempted)
    then err (stale_attempt attempted (some current.token))
    else if leb current.lease_until now
    then err (lease_expired attempted current.lease_until)
    else ok current

unfoldable pub require_live_attempt :
    StoredSubscription → ExecutionAttemptToken → ℕ → RepositoryResult Attempt
require_live_attempt stored attempted now = require_controls stored.controls attempted now

unfoldable pub next_revision : ℕ → RepositoryResult ℕ
next_revision current =
    if leb (current + 1) i64_max
    then persisted (revision_try_new (current + 1))
    else err corrupt_data

unfoldable pub schedule_from_repository_now : ℕ → Option ℕ → RepositoryResult (Option ℕ)
schedule_from_repository_now now none = ok none
schedule_from_repository_now now (some delay) =
    if leb (now + delay) i64_max then ok (some (now + delay)) else err unavailable

-- The WHERE clause of the three statements below, past the key.
unfoldable pub where_live : Attempt → ℕ → Row → Bool
where_live current now r = runs_attempt current r && ltb now current.lease_until

-- The SET clause of `EXTEND_LEASE_SQL`.
unfoldable pub set_extend : ℕ → ℕ → Row → Row
set_extend lease now r = record r {
  detail = record r.detail {
    head = record r.detail.head {
      revision = r.detail.head.revision + 1;
      updated_at = max r.detail.head.updated_at now;
    };
  };
  lease_until = some lease;
}

-- What `CONSUME_ATTEMPT_SQL` writes, apart from the time.
pub record Consumed : Type 0 where
  pub lifecycle_state : SubscriptionLifecycleState
  pub next_attempt_at : Option ℕ
  pub retry_count : ℕ
  pub retry_blocked : Bool
  pub attention_tags : List SubscriptionAttentionTag
  pub payload : SubscriptionPayload
  pub projection : SubscriptionProjection

-- The SET clause of `CONSUME_ATTEMPT_SQL`.
unfoldable pub set_consume : Consumed → ℕ → Row → Row
set_consume c now r = record {
  detail = record {
    head = record r.detail.head {
      revision = r.detail.head.revision + 1;
      lifecycle_state = c.lifecycle_state;
      execution_state = SubscriptionExecutionState.idle;
      next_attempt_at = c.next_attempt_at;
      retry_count = c.retry_count;
      retry_blocked = c.retry_blocked;
      force_eligible_once = false;
      updated_at = max r.detail.head.updated_at now;
    };
    projection = c.projection;
    attention_tags = c.attention_tags;
    payload = c.payload;
  };
  claimed_operation = none;
  attempt_id = none;
  lease_until = none;
}

-- The SET clause of `RELEASE_ATTEMPT_SQL`.
unfoldable pub set_release : ℕ → Row → Row
set_release now r = record r {
  detail = record r.detail {
    head = record r.detail.head {
      revision = r.detail.head.revision + 1;
      execution_state = SubscriptionExecutionState.idle;
      updated_at = max r.detail.head.updated_at now;
    };
  };
  claimed_operation = none;
  attempt_id = none;
  lease_until = none;
}

-- `expect_exact_attempt_update`, and the errors of the statement before it.
unfoldable pub expect_exact_attempt_update : Update → RepositoryResult (List Row)
expect_exact_attempt_update (changed n rows) = if n == 1 then ok rows else err internal
expect_exact_attempt_update unique_violation = err corrupt_data
expect_exact_attempt_update check_violation = err corrupt_data

-- One statement on the row that runs the attempt.
unfoldable pub update_attempt :
    SubscriptionKey → Attempt → ℕ → (Row → Row) → List Row → RepositoryResult (List Row)
unfolding expect_exact_attempt_update
update_attempt key current now set rows =
    expect_exact_attempt_update (update_row key (where_live current now) set rows)

unfoldable pub verify_immutable_subscription_head_fields :
    SubscriptionDetail → SubscriptionDetail → RepositoryResult Unit
verify_immutable_subscription_head_fields before after =
    guard
      (same Key-discrete b.key a.key
        && bool_eq b.active a.active
        && same OptionNumber-discrete b.inactive_at a.inactive_at
        && same OptionText-discrete b.last_seen_snapshot_id a.last_seen_snapshot_id
        && same Media-discrete b.media_kind a.media_kind
        && bool_eq b.schedulable a.schedulable
        && same OptionText-discrete b.blocked_reason a.blocked_reason
        && (b.max_retries == a.max_retries))
      corrupt_data
  where
    open before use {head as b}
    open after use {head as a}

unfoldable pub verify_immutable_subscription_fields :
    SubscriptionDetail → SubscriptionDetail → RepositoryResult Unit
unfolding verify_immutable_subscription_head_fields
verify_immutable_subscription_fields before after = do
  verify_immutable_subscription_head_fields before after
  guard (same Projection-discrete before.projection after.projection) corrupt_data

abbrev pub is_idle : ExecutionControls → Bool
is_idle idle = true
is_idle (running current) = false

unfoldable pub verify_terminal_post_write :
    StoredSubscription → SubscriptionDetail → ℕ → ℕ → Consumed → RepositoryResult Unit
unfolding verify_immutable_subscription_head_fields
verify_terminal_post_write post before revision updated_at c = do
  verify_immutable_subscription_head_fields before post.detail
  guard (is_idle post.controls) corrupt_data
  guard
      (not (is_running h.execution_state)
        && (h.revision == revision)
        && (h.updated_at == updated_at)
        && same Lifecycle-discrete h.lifecycle_state c.lifecycle_state
        && same OptionNumber-discrete h.next_attempt_at c.next_attempt_at
        && (h.retry_count == c.retry_count)
        && bool_eq h.retry_blocked c.retry_blocked
        && not h.force_eligible_once
        && same Tags-discrete post.detail.attention_tags c.attention_tags
        && same Projection-discrete post.detail.projection c.projection
        && same Payload-discrete post.detail.payload c.payload)
      corrupt_data
  where
    open post.detail use {head as h}
