-- ===== src/Poll/Seen.antt =====
-- The merge of a snapshot's records into the table (src/storage/subscription_repo/poll.rs).
pub mod Rows
pub mod Step
pub mod Loop
use tmdb_mteam_hub.Common.{
  Bool, List, Option, Text, [], false, if◌then◌else◌, none, not, ok, same, some, text, true, ℕ,
  ◌&&◌, ◌++◌, ◌+◌, ◌==◌, ◌>>=◌, ◌>>◌, ◌∷◌,
}
use tmdb_mteam_hub.Poll.Merged.{
  check_bound_values, cleared_payload, insert_row, is_changed, merged_kind, merged_row,
  next_updated_at, revised_row, set_seen, then_some, written,
}
use tmdb_mteam_hub.Model.{Media-discrete, idle, queued, retry_blocked, skipped, tv}
use tmdb_mteam_hub.Repository.Operation.{SubscriptionKey}
use tmdb_mteam_hub.Repository.Errors.{
  RepositoryResult, check_number, check_optional, check_text, command_integer, key_try_new,
}
use tmdb_mteam_hub.Repository.Payload.{SubscriptionPayload}
use tmdb_mteam_hub.Repository.Payload.Keys.{validate_for}
use tmdb_mteam_hub.Repository.Source.{SubscriptionProjection, from_source}
use tmdb_mteam_hub.Repository.Head.{detail_validate}
use tmdb_mteam_hub.Repository.Poll.{NewRecordPolicy, SnapshotRecord, merge_snapshot_observation}
use tmdb_mteam_hub.Claim.Table.{AuditEntry, Db, Row, find_row, media_kind_changed, update_row}
use tmdb_mteam_hub.Poll.Meta.{require_single_write}
use tmdb_mteam_hub.Poll.Existing.{
  PollFenceContext, StoredExecutionAttempt, decode_existing, existing_attempt, increment_revision,
  supersede_audit,
}

-- `SeenEffects`
pub record SeenEffects : Type 0 where
  pub inserted : ℕ
  pub updated : ℕ
  pub unchanged : ℕ
  pub reactivated : ℕ

module _ (sha256 : List ℕ → List ℕ) (account : Text) (fence : PollFenceContext) (at : ℕ) where
  -- The payload after the merge.
  unfoldable pub merged_payload : SnapshotRecord → Row → RepositoryResult SubscriptionPayload
  unfolding merged_kind cleared_payload
  merged_payload observed existing = do
    let kind = merged_kind existing.detail.head.media_kind observed.media_kind
    merged ← merge_snapshot_observation existing.detail.payload observed.source at
    let payload =
        (if same Media-discrete existing.detail.head.media_kind kind
          then merged
          else cleared_payload merged)
    validate_for sha256 account observed.subject_id payload
    ok payload

  -- The attempt that a change of the kind supersedes.
  unfoldable pub superseded_attempt :
      SnapshotRecord → Row → RepositoryResult (Option StoredExecutionAttempt)
  unfolding merged_kind
  superseded_attempt observed existing =
      if same Media-discrete existing.detail.head.media_kind
        (merged_kind existing.detail.head.media_kind observed.media_kind)
      then ok none
      else existing_attempt existing

  -- The audit log after the update.
  unfoldable pub seen_logs :
      List AuditEntry
      → Row
      → Row
      → Option StoredExecutionAttempt
      → RepositoryResult (List AuditEntry)
  seen_logs logs existing new none = ok logs
  seen_logs logs existing new (some attempt) = do
    entry ← supersede_audit existing attempt fence media_kind_changed (record {
      revision = new.detail.head.revision;
      active = true;
      execution_state = idle;
      media_kind = new.detail.head.media_kind;
      blocked_reason = new.detail.head.blocked_reason;
      target_title = new.detail.projection.title;
    })
    ok (logs ++ entry ∷ [])

  -- The part of `update_existing_seen` for a row that changed; `after` is the merged row.
  unfoldable pub persist_seen :
      Db → SnapshotRecord → Row → Option StoredExecutionAttempt → Row → RepositoryResult Db
  unfolding seen_logs revised_row next_updated_at set_seen written check_bound_values
  persist_seen db observed existing attempt after = do
    let head = existing.detail.head
    revision ← increment_revision head.revision
    let new = revised_row revision (next_updated_at head.updated_at at) after
    detail_validate sha256 new.detail
    check_bound_values head.revision new
    result ← written (
        update_row (record { account_key = account; subject_id = observed.subject_id })
          (λ r. r.detail.head.revision == head.revision) (set_seen new) db.rows)
    require_single_write result.0
    logs ← seen_logs db.logs existing new attempt
    ok (record { rows = result.1; logs = logs })

  -- `update_existing_seen`: the database, and whether the row changed.
  unfoldable pub update_existing_seen : Db → SnapshotRecord → Row → RepositoryResult (Db × Bool)
  unfolding superseded_attempt merged_payload merged_row is_changed persist_seen
  update_existing_seen db observed existing = do
    attempt ← superseded_attempt observed existing
    payload ← merged_payload observed existing
    projection ← from_source payload.source
    let after = merged_row fence.token.snapshot_id at observed existing payload projection
    check_optional (check_text "blocked_reason") after.detail.head.blocked_reason
    if is_changed existing after
        then (persist_seen db observed existing attempt after >>= λ db'. ok (db', true))
        else ok (db, false)

  -- The payload and the tags of a new row.
  unfoldable pub new_payload : Bool → SnapshotRecord → SubscriptionPayload
  new_payload bootstrap_skipped observed = record {
    replacement_pending = false;
    replacement_prepared = false;
    source = observed.source;
    observation = record { created_at = at; first_seen_at = at; last_seen_at = at };
    issues = [];
    skip_reason =
        (if bootstrap_skipped then some (text "initial_bootstrap_existing_wish") else none);
    candidates = [];
    tv = none;
    artifacts = record { downloads = []; links = [] };
  }

  unfoldable pub new_row :
      Bool → NewRecordPolicy → SnapshotRecord → SubscriptionProjection → SubscriptionKey → Row
  unfolding new_payload
  new_row bootstrap_skipped policy observed projection key = record {
    detail = record {
      head = record {
        key = key;
        revision = 1;
        active = true;
        inactive_at = none;
        last_seen_snapshot_id = some fence.token.snapshot_id;
        media_kind = observed.media_kind;
        schedulable = observed.schedulable;
        blocked_reason = observed.blocked_reason;
        lifecycle_state = queued;
        execution_state = idle;
        next_attempt_at = then_some observed.schedulable at;
        retry_count = 0;
        max_retries = policy.max_retries;
        retry_blocked = false;
        force_eligible_once = false;
        updated_at = at;
      };
      projection = projection;
      attention_tags = (if bootstrap_skipped then skipped ∷ [] else []);
      payload = new_payload bootstrap_skipped observed;
    };
    claimed_operation = none;
    attempt_id = none;
    lease_until = none;
  }

  -- `insert_new_seen`
  unfoldable pub insert_new_seen :
      Db → Bool → NewRecordPolicy → SnapshotRecord → RepositoryResult Db
  unfolding new_row insert_row written
  insert_new_seen db bootstrap_mode policy observed = do
    let bootstrap_skipped = bootstrap_mode && policy.bootstrap_existing_as_skipped
    validate_for sha256 account observed.subject_id (new_payload bootstrap_skipped observed)
    projection ← from_source observed.source
    key ← key_try_new account observed.subject_id
    check_optional (check_text "blocked_reason") observed.blocked_reason
    let new = new_row bootstrap_skipped policy observed projection key
    detail_validate sha256 new.detail
    check_number (command_integer "payload.source.douban_sort_time") projection.douban_sort_time
    check_number (command_integer "next_attempt_at") new.detail.head.next_attempt_at
    result ← written (insert_row new db.rows)
    require_single_write result.0
    ok (record db { rows = result.1 })

  unfoldable pub count_updated : Bool → Bool → SeenEffects → SeenEffects
  count_updated false was_inactive e = record e { unchanged = e.unchanged + 1 }
  count_updated true was_inactive e = record e {
    updated = e.updated + 1;
    reactivated = e.reactivated + (if was_inactive then 1 else 0);
  }

  -- One round of the loop of `apply_seen_records`; the row was found, or not.
  unfoldable pub apply_seen_found :
      Db
      → Bool
      → NewRecordPolicy
      → SnapshotRecord
      → SeenEffects
      → Option Row
      → RepositoryResult (Db × SeenEffects)
  unfolding insert_new_seen update_existing_seen count_updated
  apply_seen_found db bootstrap_completed policy observed effects none = do
    db' ← insert_new_seen db (not bootstrap_completed) policy observed
    ok (db', record effects { inserted = effects.inserted + 1 })
  apply_seen_found db bootstrap_completed policy observed effects (some r) = do
    existing ← decode_existing sha256 r
    result ← update_existing_seen db observed existing
    ok (result.0, count_updated result.1 (not existing.detail.head.active) effects)

  -- `apply_seen_records`
  unfoldable pub apply_seen_records :
      Db
      → Bool
      → NewRecordPolicy
      → List SnapshotRecord
      → SeenEffects
      → RepositoryResult (Db × SeenEffects)
  unfolding apply_seen_found
  apply_seen_records db bootstrap_completed policy [] effects = ok (db, effects)
  apply_seen_records db bootstrap_completed policy (observed ∷ records) effects =
      apply_seen_found db bootstrap_completed policy observed effects
        (find_row (record { account_key = account; subject_id = observed.subject_id }) db.rows)
      >>= λ result. apply_seen_records result.0 bootstrap_completed policy records result.1
