-- ===== src/Poll/Missing.antt =====
-- The rows that a complete snapshot does not have: their validation, their deactivation, and the audit
-- of the attempts that it supersedes (src/storage/subscription_repo/poll.rs).
pub mod Rows
use tmdb_mteam_hub.Common.{
  ℕ, suc, ◌+◌, List, ◌∷◌, ◌++◌, Bool, false, not, ◌&&◌, if◌then◌else◌, ltb, leb, ◌==◌, max, Option,
  none, some, Text, text_eq, text_lt, ok, err, ◌>>=◌, ◌>>◌, guard, retain, [],
}
use tmdb_mteam_hub.Model.{idle}
use tmdb_mteam_hub.Repository.Operation.{i64_max}
use tmdb_mteam_hub.Repository.Errors.{RepositoryResult, corrupt_data, invalid_input}
use tmdb_mteam_hub.Claim.Table.{
  Row, AuditEntry, missing_from_complete_snapshot, row_key, satisfies_checks,
}
use tmdb_mteam_hub.Poll.Existing.{
  PollFenceContext, StoredExecutionAttempt, inactive_reason, decode_existing, existing_attempt,
  increment_revision, supersede_audit,
}

abbrev pub is_seen : Text → Option Text → Bool
is_seen snapshot_id none = false
is_seen snapshot_id (some id) = text_eq id snapshot_id

-- The WHERE clause of `READ_MISSING_EXISTING_SQL` and of `DEACTIVATE_MISSING_SQL`.
unfoldable pub where_missing : Text → Text → Row → Bool
where_missing account snapshot_id r =
    text_eq r.detail.head.key.account_key account
    && r.detail.head.active
    && not (is_seen snapshot_id r.detail.head.last_seen_snapshot_id)

-- `ORDER BY subject_id`
unfoldable pub insert_by_subject : Row → List Row → List Row
insert_by_subject r [] = r ∷ []
insert_by_subject r (x ∷ rows) =
    let rest = insert_by_subject r rows in
    if text_lt (row_key r).subject_id (row_key x).subject_id then r ∷ x ∷ rows else x ∷ rest

unfoldable pub order_by_subject : List Row → List Row
unfolding insert_by_subject
order_by_subject [] = []
order_by_subject (r ∷ rows) = insert_by_subject r (order_by_subject rows)

-- The SET clause of `DEACTIVATE_MISSING_SQL`.
unfoldable pub set_deactivated : ℕ → Row → Row
set_deactivated at r = record r {
  detail = record r.detail {
    head = record r.detail.head {
      revision = r.detail.head.revision + 1;
      active = false;
      inactive_at = some at;
      schedulable = false;
      blocked_reason = some inactive_reason;
      execution_state = idle;
      next_attempt_at = none;
      force_eligible_once = false;
      updated_at = max r.detail.head.updated_at at;
    };
  };
  claimed_operation = none;
  attempt_id = none;
  lease_until = none;
}

-- One row of the UPDATE, with the result on the rows after it. A violated CHECK is corrupt data.
unfoldable pub deactivate_row :
    Text → Text → ℕ → Row → ℕ × List Row → RepositoryResult (ℕ × List Row)
unfolding where_missing set_deactivated
deactivate_row account snapshot_id at r rest =
    if not (where_missing account snapshot_id r)
    then ok (rest.0, r ∷ rest.1)
    else if satisfies_checks (set_deactivated at r)
    then ok (suc rest.0, set_deactivated at r ∷ rest.1)
    else err corrupt_data

-- The UPDATE of all the rows: how many changed, and the new rows.
unfoldable pub deactivate_missing : Text → Text → ℕ → List Row → RepositoryResult (ℕ × List Row)
unfolding deactivate_row
deactivate_missing account snapshot_id at [] = ok (0, [])
deactivate_missing account snapshot_id at (r ∷ rows) =
    deactivate_missing account snapshot_id at rows >>= λ rest.
    deactivate_row account snapshot_id at r rest

module _ (sha256 : List ℕ → List ℕ) where
  -- The loop of `load_missing_for_deactivation`.
  unfoldable pub validate_missing : ℕ → List Row → RepositoryResult (List Row)
  unfolding decode_existing
  validate_missing completed_at [] = ok []
  validate_missing completed_at (r ∷ rows) =
      let rest = validate_missing completed_at rows in
      do
        existing ← decode_existing sha256 r
        guard (not (leb i64_max existing.detail.head.revision)) corrupt_data
        guard (not (ltb completed_at existing.detail.payload.observation.last_seen_at))
            (invalid_input "completed_at")
        more ← rest
        ok (existing ∷ more)

  -- `load_missing_for_deactivation`
  unfoldable pub load_missing_for_deactivation :
      List Row → Text → Text → ℕ → RepositoryResult (List Row)
  unfolding validate_missing order_by_subject
  load_missing_for_deactivation rows account snapshot_id completed_at =
      validate_missing completed_at
        (order_by_subject (retain (where_missing account snapshot_id) rows))

-- The audit of one missing row.
unfoldable pub missing_logs :
    PollFenceContext
    → Row
    → List AuditEntry
    → Option StoredExecutionAttempt
    → RepositoryResult (List AuditEntry)
unfolding supersede_audit increment_revision
missing_logs fence existing logs none = ok logs
missing_logs fence existing logs (some attempt) = do
  revision ← increment_revision existing.detail.head.revision
  entry ← supersede_audit existing attempt fence missing_from_complete_snapshot (record {
    revision = revision;
    active = false;
    execution_state = idle;
    media_kind = existing.detail.head.media_kind;
    blocked_reason = some inactive_reason;
    target_title = existing.detail.projection.title;
  })
  ok (logs ++ entry ∷ [])

-- The loop over the missing rows in `apply_complete_snapshot`.
unfoldable pub audit_missing :
    PollFenceContext → List Row → List AuditEntry → RepositoryResult (List AuditEntry)
unfolding missing_logs existing_attempt
audit_missing fence [] logs = ok logs
audit_missing fence (existing ∷ missing) logs = existing_attempt existing >>= λ attempt.
    missing_logs fence existing logs attempt >>= λ logs'. audit_missing fence missing logs'
