-- ===== src/Poll/Merged.antt =====
-- A row merged with what a snapshot shows of it, and the statements that write it
-- (src/storage/subscription_repo/poll.rs).
use tmdb_mteam_hub.Common.{
  Bool, List, Option, Text, [], err, false, if◌then◌else◌, is_some, max, min, none, not, ok, same,
  some, true, ℕ, ◌&&◌, ◌++◌, ◌+◌, ◌==◌, ◌>>=◌, ◌>>◌, ◌||◌, ◌∷◌,
}
use tmdb_mteam_hub.Model.{
  Execution-discrete, Lifecycle-discrete, Media-discrete, SubscriptionMediaKind, idle, movie,
  queued, skipped, tv,
}
use tmdb_mteam_hub.Repository.Operation.{i64_max}
use tmdb_mteam_hub.Repository.Errors.{RepositoryResult, check_number, command_integer, corrupt_data}
use tmdb_mteam_hub.Repository.Payload.{Payload-discrete, SubscriptionPayload}
use tmdb_mteam_hub.Repository.Source.{Projection-discrete, SubscriptionProjection}
use tmdb_mteam_hub.Repository.Head.{
  OptionNumber-discrete, OptionText-discrete, SubscriptionHead, bool_eq, has_tag, is_completed,
}
use tmdb_mteam_hub.Repository.Poll.{SnapshotRecord}
use tmdb_mteam_hub.Claim.Table.{
  Row, Update, changed, check_violation, find_row, row_key, same_operation, satisfies_checks,
  unique_violation,
}

abbrev pub is_tv : SubscriptionMediaKind → Bool
is_tv tv = true
is_tv movie = false

-- The kind of the merged row: a series, once it was seen as one.
unfoldable pub merged_kind : SubscriptionMediaKind → SubscriptionMediaKind → SubscriptionMediaKind
merged_kind before seen = if is_tv before || is_tv seen then tv else movie

unfoldable pub cleared_payload : SubscriptionPayload → SubscriptionPayload
cleared_payload p = record p {
  issues = [];
  candidates = [];
  tv = none;
  artifacts = record { downloads = []; links = [] };
}

-- `(condition).then_some(value)`
abbrev pub then_some : Bool → ℕ → Option ℕ
then_some true value = some value
then_some false value = none

unfoldable pub is_skipped : SubscriptionPayload → Row → Bool
is_skipped payload existing =
    is_some payload.skip_reason || has_tag skipped existing.detail.attention_tags

-- The merged row, before the revision and the time of the update are set.
unfoldable pub merged_row :
    Text → ℕ → SnapshotRecord → Row → SubscriptionPayload → SubscriptionProjection → Row
unfolding merged_kind is_skipped
merged_row snapshot_id at observed existing payload projection =
    let head = existing.detail.head in
    let kind = merged_kind head.media_kind observed.media_kind in
    let kind_changed = not (same Media-discrete head.media_kind kind) in
    let was_inactive = not head.active in
    let restarts = kind_changed || was_inactive in
    let state = if kind_changed then queued else head.lifecycle_state in
    let blocked = if kind_changed then false else head.retry_blocked in
    record {
      detail = record existing.detail {
        head = record head {
          active = true;
          inactive_at = none;
          last_seen_snapshot_id = some snapshot_id;
          media_kind = kind;
          schedulable = (if restarts then observed.schedulable else head.schedulable);
          blocked_reason = (if restarts then observed.blocked_reason else head.blocked_reason);
          lifecycle_state = state;
          execution_state = (if restarts then idle else head.execution_state);
          next_attempt_at =
              (if kind_changed
                then then_some (observed.schedulable && not (is_skipped payload existing)) at
                else if was_inactive
                then then_some
                    (observed.schedulable
                      && not (is_completed state)
                      && not blocked
                      && not (is_skipped payload existing))
                    at
                else head.next_attempt_at);
          retry_count = (if kind_changed then 0 else head.retry_count);
          retry_blocked = blocked;
          force_eligible_once = (if restarts then false else head.force_eligible_once);
        };
        projection = projection;
        payload = payload;
      };
      claimed_operation = (if restarts then none else existing.claimed_operation);
      attempt_id = (if restarts then none else existing.attempt_id);
      lease_until = (if restarts then none else existing.lease_until);
    }

-- The first three of the comparisons below.
unfoldable pub is_newly_seen : SubscriptionHead → Option Text → Bool
is_newly_seen h after =
    not h.active
    || is_some h.inactive_at
    || not (same OptionText-discrete h.last_seen_snapshot_id after)

-- The fields that the code compares to see whether the row changed.
unfoldable pub is_changed : Row → Row → Bool
unfolding is_newly_seen
is_changed r r' =
    is_newly_seen h h'.last_seen_snapshot_id
    || not (same Media-discrete h.media_kind h'.media_kind)
    || not (bool_eq h.schedulable h'.schedulable)
    || not (same OptionText-discrete h.blocked_reason h'.blocked_reason)
    || not (same Lifecycle-discrete h.lifecycle_state h'.lifecycle_state)
    || not (same Execution-discrete h.execution_state h'.execution_state)
    || not (same OptionNumber-discrete h.next_attempt_at h'.next_attempt_at)
    || not (h.retry_count == h'.retry_count)
    || not (bool_eq h.retry_blocked h'.retry_blocked)
    || not (bool_eq h.force_eligible_once h'.force_eligible_once)
    || not (same_operation r.claimed_operation r'.claimed_operation)
    || not (same OptionText-discrete r.attempt_id r'.attempt_id)
    || not (same OptionNumber-discrete r.lease_until r'.lease_until)
    || not (same Projection-discrete r.detail.projection r'.detail.projection)
    || not (same Payload-discrete r.detail.payload r'.detail.payload)
  where
    open r.detail use {head as h}
    open r'.detail use {head as h'}

unfoldable pub next_updated_at : ℕ → ℕ → ℕ
next_updated_at before at = max (min (before + 1) i64_max) at

-- The row that is written.
unfoldable pub revised_row : ℕ → ℕ → Row → Row
revised_row revision at r = record r {
  detail = record r.detail { head = record r.detail.head { revision = revision; updated_at = at } };
}

-- The SET clause of `UPDATE_SEEN_SQL`: the columns that it names.
unfoldable pub set_seen : Row → Row → Row
set_seen new r = record new {
  detail = record new.detail {
    head = record new.detail.head {
      key = r.detail.head.key;
      max_retries = r.detail.head.max_retries;
    };
    attention_tags = r.detail.attention_tags;
  };
}

-- `map_write_error` on the outcome of a statement.
unfoldable pub written : Update → RepositoryResult (ℕ × List Row)
written (changed n rows) = ok (n, rows)
written unique_violation = err corrupt_data
written check_violation = err corrupt_data

-- The values that a statement binds must fit an i64.
unfoldable pub check_bound_values : ℕ → Row → RepositoryResult Unit
check_bound_values expected new = do
  check_number (command_integer "payload.source.douban_sort_time")
      new.detail.projection.douban_sort_time
  expected' ← command_integer "expected_revision" expected
  revision ← command_integer "revision" new.detail.head.revision
  check_number (command_integer "next_attempt_at") new.detail.head.next_attempt_at
  check_number (command_integer "lease_until") new.lease_until
  updated ← command_integer "updated_at" new.detail.head.updated_at
  ok tt

-- `INSERT`: the primary key, the CHECK clauses and the index on attempt ids; a new row has no attempt.
unfoldable pub insert_found : Row → List Row → Option Row → Update
insert_found new rows (some r) = unique_violation
insert_found new rows none =
    if satisfies_checks new then changed 1 (rows ++ new ∷ []) else check_violation

unfoldable pub insert_row : Row → List Row → Update
unfolding insert_found
insert_row new rows = insert_found new rows (find_row (row_key new) rows)
