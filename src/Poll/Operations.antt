-- ===== src/Poll/Operations.antt =====
-- The terminal writes of an account's poll (src/storage/subscription_repo/poll.rs). Each runs in
-- one immediate transaction: an error leaves the tables as they were.
use tmdb_mteam_hub.Common.{
  Bool, List, Text, false, guard, length, ltb, max, min, none, not, ok, some, text, true, ℕ, ◌&&◌,
  ◌++◌, ◌+◌, ◌==◌, ◌>>=◌, ◌>>◌,
}
use tmdb_mteam_hub.Repository.Operation.{PollAttemptToken, u32_max}
use tmdb_mteam_hub.Repository.Errors.{RepositoryResult, command_integer, internal, invalid_input}
use tmdb_mteam_hub.Repository.Retry.{next_poll_at}
use tmdb_mteam_hub.Repository.Poll.{
  ApplyCompleteSnapshotCommand, IncompleteSnapshotReason, RecordIncompleteSnapshotCommand,
  RecordPollFailureCommand, end_not_observed, item_limit_reached, maximum_page_count_reached,
  repeated_page,
}
use tmdb_mteam_hub.Claim.Table.{Db}
use tmdb_mteam_hub.Claim.Update.{is_number, is_text}
use tmdb_mteam_hub.Poll.Meta.{
  Meta, Store, TerminalMeta, require_consumed, require_current_poll, update_meta,
  validate_terminal_time,
}
use tmdb_mteam_hub.Poll.Existing.{PollFenceContext}
use tmdb_mteam_hub.Poll.Seen.{SeenEffects, apply_seen_records}
use tmdb_mteam_hub.Poll.Missing.{audit_missing, deactivate_missing, load_missing_for_deactivation}

-- The WHERE clause of the terminals, past the key.
unfoldable pub where_open : PollAttemptToken → Meta → Bool
where_open token m =
    is_number m.open_poll_generation token.generation
    && is_text m.open_snapshot_id token.snapshot_id

-- `failure_count.saturating_add(1)` on u32
abbrev pub next_failure : ℕ → ℕ
next_failure count = min (count + 1) u32_max

-- The SET clause of `record_poll_failure`.
unfoldable pub set_failed : ℕ → ℕ → ℕ → Text → Meta → Meta
set_failed at count next message m = record m {
  updated_at = max m.updated_at at;
  poll_failure_count = count;
  next_poll_at = next;
  last_poll_error = some message;
  open_poll_generation = none;
  open_snapshot_id = none;
}

-- `RecordPollFailureResult`
pub record RecordPollFailureResult : Type 0 where
  pub token : PollAttemptToken
  pub failure_count : ℕ
  pub next_poll_at : ℕ

-- The UPDATE that consumes a token, and its check.
unfoldable pub consume_poll :
    List Meta → Text → PollAttemptToken → (Meta → Meta) → RepositoryResult (List Meta)
unfolding where_open update_meta
consume_poll metas account token set = do
  result ← update_meta account (where_open token) set metas
  require_consumed result.1 result.0 account token
  ok result.1

unfoldable pub record_poll_failure :
    Store → RecordPollFailureCommand → RepositoryResult (Store × RecordPollFailureResult)
unfolding consume_poll set_failed
record_poll_failure s c = do
  failed_at ← command_integer "failed_at" c.failed_at
  generation ← command_integer "poll_generation" c.token.generation
  m ← require_current_poll s.metas c.account_key c.token
  validate_terminal_time m "failed_at" c.failed_at
  let count = next_failure m.failure_count
  let next = next_poll_at c.retry_policy c.failed_at count
  next' ← command_integer "next_poll_at" next
  metas ← consume_poll s.metas c.account_key c.token (set_failed c.failed_at count next c.message)
  ok (
    record s { metas = metas },
    record { token = c.token; failure_count = count; next_poll_at = next },
  )

unfoldable pub incomplete_reason_label : IncompleteSnapshotReason → Text
incomplete_reason_label item_limit_reached = text "item_limit_reached"
incomplete_reason_label maximum_page_count_reached = text "maximum_page_count_reached"
incomplete_reason_label repeated_page = text "repeated_page"
incomplete_reason_label end_not_observed = text "end_not_observed"

-- The SET clause of `record_incomplete_snapshot`.
unfoldable pub set_incomplete : RecordIncompleteSnapshotCommand → ℕ → ℕ → Meta → Meta
unfolding incomplete_reason_label
set_incomplete c count next m = record m {
  updated_at = max m.updated_at c.incomplete_at;
  poll_failure_count = count;
  next_poll_at = next;
  last_poll_error =
      some (text "incomplete snapshot: " ++ incomplete_reason_label c.observation.reason);
  last_incomplete = some (c.incomplete_at, c.observation);
  open_poll_generation = none;
  open_snapshot_id = none;
}

-- The SET clause of `apply_complete_snapshot`.
unfoldable pub set_completed : ApplyCompleteSnapshotCommand → Meta → Meta
set_completed c m = record m {
  bootstrap_completed = true;
  updated_at = max m.updated_at c.completed_at;
  last_poll_success_at = some c.completed_at;
  poll_failure_count = 0;
  next_poll_at = c.next_poll_at;
  last_poll_error = none;
  last_complete_snapshot_id = some c.token.snapshot_id;
  open_poll_generation = none;
  open_snapshot_id = none;
}

-- `RecordIncompleteSnapshotResult`
pub record RecordIncompleteSnapshotResult : Type 0 where
  pub token : PollAttemptToken
  pub effects : SeenEffects
  pub incomplete_at : ℕ
  pub failure_count : ℕ
  pub next_poll_at : ℕ

-- `ApplyCompleteSnapshotResult`
pub record ApplyCompleteSnapshotResult : Type 0 where
  pub token : PollAttemptToken
  pub effects : SeenEffects
  pub deactivated : ℕ
  pub completed_at : ℕ
  pub next_poll_at : ℕ

abbrev pub no_effects : SeenEffects
no_effects = record { inserted = 0; updated = 0; unchanged = 0; reactivated = 0 }

module _ (sha256 : List ℕ → List ℕ) where
  -- `record_incomplete_snapshot` once its token is current.
  unfoldable pub incomplete_current :
      Store
      → RecordIncompleteSnapshotCommand
      → TerminalMeta
      → RepositoryResult (Store × RecordIncompleteSnapshotResult)
  unfolding apply_seen_records consume_poll set_incomplete
  incomplete_current s c m = do
    validate_terminal_time m "incomplete_at" c.incomplete_at
    seen ←
        apply_seen_records sha256 c.account_key
          (record { token = c.token; is_complete = false; fenced_at = c.incomplete_at })
          c.incomplete_at s.db m.bootstrap_completed c.new_record_policy c.records no_effects
    let count = next_failure m.failure_count
    let next = next_poll_at c.retry_policy c.incomplete_at count
    next' ← command_integer "next_poll_at" next
    metas ← consume_poll s.metas c.account_key c.token (set_incomplete c count next)
    ok (
      record { metas = metas; db = seen.0 },
      record {
        token = c.token;
        effects = seen.1;
        incomplete_at = c.incomplete_at;
        failure_count = count;
        next_poll_at = next;
      },
    )

  unfoldable pub record_incomplete_snapshot :
      Store
      → RecordIncompleteSnapshotCommand
      → RepositoryResult (Store × RecordIncompleteSnapshotResult)
  unfolding incomplete_current
  record_incomplete_snapshot s c = do
    incomplete_at ← command_integer "incomplete_at" c.incomplete_at
    generation ← command_integer "poll_generation" c.token.generation
    m ← require_current_poll s.metas c.account_key c.token
    incomplete_current s c m

  -- The part of `apply_complete_snapshot` that changes the subscriptions.
  unfoldable pub apply_records :
      Db → ApplyCompleteSnapshotCommand → Bool → RepositoryResult (Db × SeenEffects × ℕ)
  unfolding apply_seen_records load_missing_for_deactivation deactivate_missing audit_missing
  apply_records db c bootstrap_completed = do
    let fence : PollFenceContext = record {
      token = c.token;
      is_complete = true;
      fenced_at = c.completed_at;
    }
    seen ←
        apply_seen_records sha256 c.account_key fence c.completed_at db bootstrap_completed
          c.new_record_policy c.records no_effects
    missing ←
        load_missing_for_deactivation sha256 seen.0.rows c.account_key c.token.snapshot_id
          c.completed_at
    result ← deactivate_missing c.account_key c.token.snapshot_id c.completed_at seen.0.rows
    guard (result.0 == length missing) internal
    logs ← audit_missing fence missing seen.0.logs
    ok (record { rows = result.1; logs = logs }, seen.1, result.0)

  unfoldable pub apply_complete_snapshot :
      Store → ApplyCompleteSnapshotCommand → RepositoryResult (Store × ApplyCompleteSnapshotResult)
  unfolding apply_records consume_poll set_completed
  apply_complete_snapshot s c = do
    completed_at ← command_integer "completed_at" c.completed_at
    next ← command_integer "next_poll_at" c.next_poll_at
    guard (not (ltb c.next_poll_at c.completed_at)) (invalid_input "next_poll_at")
    generation ← command_integer "poll_generation" c.token.generation
    m ← require_current_poll s.metas c.account_key c.token
    validate_terminal_time m "completed_at" c.completed_at
    applied ← apply_records s.db c m.bootstrap_completed
    metas ← consume_poll s.metas c.account_key c.token (set_completed c)
    ok (
      record { metas = metas; db = applied.0 },
      record {
        token = c.token;
        effects = applied.1;
        deactivated = applied.2;
        completed_at = c.completed_at;
        next_poll_at = c.next_poll_at;
      },
    )
