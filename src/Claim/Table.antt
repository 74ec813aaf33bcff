-- ===== src/Claim/Table.antt =====
-- The table `wanted_subscription_records` with its CHECK clauses and its unique index
-- (src/storage/schema_v5.rs), the audit log (src/storage/subscription_repo/execution_audit.rs), and
-- one row's update. A row's JSON columns hold the decoded values; that serde_json reads back what it
-- wrote is taken for granted.
pub mod Rows
pub mod Changes
pub mod Consistent
use tmdb_mteam_hub.Common.{
  ℕ, List, [], ◌∷◌, ◌++◌, Bool, true, false, not, ◌&&◌, ◌||◌, if◌then◌else◌, ltb, leb, ◌==◌, Option,
  none, some, is_some, is_none, Text, text_eq, find, any, same, not_spaces, as_bytes, length,
}
use tmdb_mteam_hub.Model.{SubscriptionLifecycleState, SubscriptionMediaKind}
use tmdb_mteam_hub.Repository.Operation.{
  SubscriptionKey, key_eq, PollAttemptToken, ExecutionOperation, Operation-discrete, for_lifecycle,
}
use tmdb_mteam_hub.Repository.Head.{
  SubscriptionHead, SubscriptionDetail, is_completed, is_running, bool_eq, retries_exhausted,
}

pub record Row : Type 0 where
  pub detail : SubscriptionDetail
  pub claimed_operation : Option ExecutionOperation
  pub attempt_id : Option Text
  pub lease_until : Option ℕ

pub data AuditAction : Type 0 where
  claim_attempt reclaim_attempt extend_attempt finish_attempt fail_attempt release_attempt :
      AuditAction
  supersede_attempt : AuditAction

pub data PollSupersedeReason : Type 0 where
  missing_from_complete_snapshot media_kind_changed : PollSupersedeReason

-- What `related_json` says of a poll that superseded an attempt.
pub record PollSupersede : Type 0 where
  pub reason : PollSupersedeReason
  pub lease_live_at_fence : Bool
  pub token : PollAttemptToken
  pub is_complete : Bool
  pub revision_before : ℕ
  pub active_before : Bool
  pub active_after : Bool
  pub media_kind_before : SubscriptionMediaKind
  pub media_kind_after : SubscriptionMediaKind
  pub blocked_reason_before : Option Text
  pub blocked_reason_after : Option Text

-- An entry of `operation_logs`; of `related_json` the attempt, the lease, the row's revision, and
-- the poll that superseded the attempt.
pub record AuditEntry : Type 0 where
  pub account_key : Text
  pub created_at : ℕ
  pub action : AuditAction
  pub target_id : Text
  pub target_title : Text
  pub attempt_id : Text
  pub operation : ExecutionOperation
  pub lease_until : ℕ
  pub row_revision : ℕ
  pub superseded : Option PollSupersede

pub record Db : Type 0 where
  pub rows : List Row
  pub logs : List AuditEntry

abbrev pub row_key : Row → SubscriptionKey
row_key r = r.detail.head.key

abbrev pub at_key : SubscriptionKey → Row → Bool
at_key key r = key_eq (row_key r) key

unfoldable pub find_row : SubscriptionKey → List Row → Option Row
find_row key rows = find (at_key key) rows

-- The primary key is unique, so an UPDATE by it writes one row at most.
unfoldable pub write_row : SubscriptionKey → Row → List Row → List Row
write_row key new [] = []
write_row key new (r ∷ rows) =
    let rest = write_row key new rows in if at_key key r then new ∷ rows else r ∷ rest

-- `wanted_records_attempt_v5_uidx`: another row has the attempt id.
unfoldable pub attempt_taken : SubscriptionKey → Option Text → List Row → Bool
attempt_taken key none rows = false
attempt_taken key (some id) rows =
    any
      (λ r.
        not (at_key key r) && elim r.attempt_id [ none ↦ false | some other ↦ text_eq other id ])
      rows

abbrev pub same_operation : Option ExecutionOperation → Option ExecutionOperation → Bool
same_operation none none = true
same_operation (some a) (some b) = same Operation-discrete a b
same_operation _ _ = false

abbrev pub at_most : Option ℕ → ℕ → Bool
at_most none bound = true
at_most (some n) bound = leb n bound

abbrev pub absent_or {ℓ} : {A : Type ℓ} → (A → Bool) → Option A → Bool
absent_or test none = true
absent_or test (some a) = test a

-- The CHECK clauses of one column, less those that numbers, Booleans and enumerations satisfy anyway
-- and those on the JSON columns.
unfoldable pub check_each_column : Row → Bool
check_each_column r =
    not_spaces r.detail.head.key.account_key
    && not_spaces r.detail.head.key.subject_id
    && absent_or not_spaces r.detail.head.last_seen_snapshot_id
    && absent_or not_spaces r.detail.head.blocked_reason
    && ltb 0 r.detail.head.revision
    && absent_or (λ id. not_spaces id && leb (length (as_bytes id)) 256) r.attempt_id
    && not_spaces r.detail.projection.title
    && absent_or (λ year. leb 1 year && leb year 9999) r.detail.projection.release_year

-- The CHECK that the attempt columns are there exactly for a running row.
unfoldable pub check_controls : Row → Bool
check_controls r =
    if is_running r.detail.head.execution_state
    then is_some r.claimed_operation && is_some r.attempt_id && is_some r.lease_until
    else is_none r.claimed_operation && is_none r.attempt_id && is_none r.lease_until

-- The CHECK clauses over several columns, in their order.
unfoldable pub check_together : Row → Bool
unfolding check_controls
check_together r =
    not (bool_eq h.active (is_some h.inactive_at))
    && at_most h.inactive_at h.updated_at
    && not (bool_eq h.schedulable (is_some h.blocked_reason))
    && check_controls r
    && (not (is_running h.execution_state)
        || (h.active && h.schedulable && not (is_completed h.lifecycle_state)))
    && (not (is_running h.execution_state)
        || same_operation r.claimed_operation (for_lifecycle h.lifecycle_state))
    && (h.active || (not (is_running h.execution_state) && is_none h.next_attempt_at))
    && (h.active || not h.schedulable)
    && (h.schedulable || is_none h.next_attempt_at)
    && (not (is_completed h.lifecycle_state) || is_none h.next_attempt_at)
    && bool_eq h.retry_blocked (retries_exhausted h.max_retries h.retry_count)
    && (not h.force_eligible_once
        || (h.active
            && h.schedulable
            && not (is_completed h.lifecycle_state)
            && is_some h.next_attempt_at))
  where
    open r.detail use {head as h}

-- The CHECK clauses of the table.
unfoldable pub satisfies_checks : Row → Bool
unfolding check_each_column check_together
satisfies_checks r = check_each_column r && check_together r

-- The outcome of an UPDATE: the number of changed rows and the new rows, or the violated constraint.
pub data Update : Type 0 where
  changed : ℕ → List Row → Update
  unique_violation check_violation : Update

unfoldable pub update_found :
    SubscriptionKey → (Row → Bool) → (Row → Row) → List Row → Option Row → Update
update_found key where_clause set rows none = changed 0 rows
update_found key where_clause set rows (some r) =
    if not (where_clause r)
    then changed 0 rows
    else if not (satisfies_checks (set r))
    then check_violation
    else if attempt_taken key (set r).attempt_id rows
    then unique_violation
    else changed 1 (write_row key (set r) rows)

-- `UPDATE … SET set WHERE account_key = … AND subject_id = … AND where_clause`
unfoldable pub update_row : SubscriptionKey → (Row → Bool) → (Row → Row) → List Row → Update
unfolding update_found
update_row key where_clause set rows = update_found key where_clause set rows (find_row key rows)
