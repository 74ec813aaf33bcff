-- ===== src/Claim/Table/Changes.antt =====
-- The change that one operation makes to the table and to the audit log.
use tmdb_mteam_hub.Common.{ℕ, ◌≡◌, ap, ◌∙◌, ◌<◌, [], ◌∷◌, ◌++◌, Bool, false, none, some}
use tmdb_mteam_hub.Model.{SubscriptionExecutionState}
use tmdb_mteam_hub.Repository.Operation.{SubscriptionKey, key_eq, ExecutionAttemptToken}
use tmdb_mteam_hub.Claim.Table.{Row, Db, AuditAction, AuditEntry, row_key, find_row}
use tmdb_mteam_hub.Claim.Table.Rows.{
  Written, find_row-key, find_row-write_row, find_row-write_row-other,
}

-- A row that runs the token's attempt, with a lease that has not ended.
abbrev pub Holds : ExecutionAttemptToken → ℕ → Row → Type 0
Holds token now r =
    (r.detail.head.execution_state ≡ SubscriptionExecutionState.running)
    × (r.claimed_operation ≡ some token.operation)
    × (r.attempt_id ≡ some token.attempt_id)
    × ((lease : ℕ) × (r.lease_until ≡ some lease) × (now < lease))

-- A row that nobody runs.
abbrev pub IsFree : Row → Type 0
IsFree r =
    (r.detail.head.execution_state ≡ SubscriptionExecutionState.idle)
    × (r.claimed_operation ≡ none)
    × (r.attempt_id ≡ none)
    × (r.lease_until ≡ none)

-- The row of `key` before and after one operation; every other row is as it was.
abbrev pub Replaces : SubscriptionKey → Row → Row → Db → Db → Type 0
Replaces key r r' db db' =
    (find_row key db.rows ≡ some r)
    × (find_row key db'.rows ≡ some r')
    × ((other : SubscriptionKey)
        → key_eq key other ≡ false
        → find_row other db'.rows ≡ find_row other db.rows)

-- One entry of the audit log, about the token's attempt and the row's new revision.
abbrev pub Logs : ExecutionAttemptToken → AuditAction → ℕ → Row → Db → Db → Type 0
Logs token action now r' db db' =
    (entry : AuditEntry) × (db'.logs ≡ db.logs ++ entry ∷ [])
    × (entry.action ≡ action)
    × (entry.created_at ≡ now)
    × (entry.attempt_id ≡ token.attempt_id)
    × (entry.operation ≡ token.operation)
    × (entry.row_revision ≡ r'.detail.head.revision)

pub Written-Replaces :
    (key : SubscriptionKey) (where_clause : Row → Bool) (set : Row → Row) (db db' : Db)
    → ((r : Row) → row_key (set r) ≡ row_key r)
    → (w : Written key where_clause set db.rows db'.rows) → Replaces key w.0 (set w.0) db db'
Written-Replaces key where_clause set db db' keeps (r, found, tested, checks, free, rows) =
    let at : row_key (set r) ≡ key = keeps r ∙ find_row-key key db.rows r found in
    (
      found,
      ap (find_row key) rows ∙ find_row-write_row key (set r) db.rows r at found,
      λ other ne.
          ap (find_row other) rows ∙ find_row-write_row-other key other (set r) db.rows at ne,
    )
