-- ===== src/Claim/Update.antt =====
-- The two statements of a claim, and the loop that allocates an attempt id
-- (src/storage/subscription_repo/claim.rs).
use tmdb_mteam_hub.Common.{
  ℕ, zero, suc, ◌+◌, List, Bool, true, false, not, ◌&&◌, if◌then◌else◌, leb, ◌==◌, max, Option,
  none, some, is_some, Text, text_eq, ok, err, ◌>>=◌,
}
use tmdb_mteam_hub.Model.{SubscriptionLifecycleState, SubscriptionExecutionState}
use tmdb_mteam_hub.Repository.Operation.{SubscriptionKey, ExecutionOperation, Attempt, i64_max}
use tmdb_mteam_hub.Repository.Errors.{RepositoryResult, corrupt_data, unavailable, internal}
use tmdb_mteam_hub.Repository.Head.{is_running}
use tmdb_mteam_hub.Claim.Table.{
  Row, Update, changed, unique_violation, check_violation, update_row, same_operation,
}

-- `checked_add`, and the filter on `i64::MAX`.
unfoldable pub absolute_time : ℕ → ℕ → RepositoryResult ℕ
absolute_time now seconds =
    if leb (now + seconds) i64_max then ok (now + seconds) else err unavailable

abbrev pub is_meta : ExecutionOperation → Bool
is_meta ExecutionOperation.meta = true
is_meta _ = false

-- `COALESCE(next_attempt_at, now)`, and `next_attempt_at.or(Some(now))`
abbrev pub coalesce : Option ℕ → ℕ → Option ℕ
coalesce none now = some now
coalesce (some t) now = some t

abbrev pub claimed_lifecycle :
    ExecutionOperation → SubscriptionLifecycleState → SubscriptionLifecycleState
claimed_lifecycle operation state =
    if is_meta operation then SubscriptionLifecycleState.meta else state

-- The SET clause of `CLAIM_IDLE_SQL`.
unfoldable pub set_claim : ExecutionOperation → Text → ℕ → ℕ → Row → Row
set_claim operation id lease now r = record r {
  detail = record r.detail {
    head = record r.detail.head {
      revision = r.detail.head.revision + 1;
      lifecycle_state = claimed_lifecycle operation r.detail.head.lifecycle_state;
      next_attempt_at =
          (if is_meta operation
            then coalesce r.detail.head.next_attempt_at now
            else r.detail.head.next_attempt_at);
      execution_state = SubscriptionExecutionState.running;
      updated_at = max r.detail.head.updated_at now;
    };
  };
  claimed_operation = some operation;
  attempt_id = some id;
  lease_until = some lease;
}

-- The WHERE clause of `CLAIM_IDLE_SQL`, past the key.
unfoldable pub where_idle : ℕ → Row → Bool
where_idle revision r =
    (r.detail.head.revision == revision)
    && not (is_running r.detail.head.execution_state)
    && not (is_some r.claimed_operation)
    && not (is_some r.attempt_id)
    && not (is_some r.lease_until)

-- The SET clause of `RECLAIM_EXPIRED_SQL`.
unfoldable pub set_reclaim : ExecutionOperation → Text → ℕ → ℕ → Row → Row
set_reclaim operation id lease now r = record r {
  detail = record r.detail {
    head = record r.detail.head {
      revision = r.detail.head.revision + 1;
      lifecycle_state = claimed_lifecycle operation r.detail.head.lifecycle_state;
      updated_at = max r.detail.head.updated_at now;
    };
  };
  claimed_operation = some operation;
  attempt_id = some id;
  lease_until = some lease;
}

abbrev pub is_text : Option Text → Text → Bool
is_text none t = false
is_text (some s) t = text_eq s t

abbrev pub is_number : Option ℕ → ℕ → Bool
is_number none n = false
is_number (some m) n = m == n

-- A row that runs the attempt.
unfoldable pub runs_attempt : Attempt → Row → Bool
runs_attempt a r =
    is_running r.detail.head.execution_state
    && same_operation r.claimed_operation (some a.token.operation)
    && is_text r.attempt_id a.token.attempt_id
    && is_number r.lease_until a.lease_until

-- The WHERE clause of `RECLAIM_EXPIRED_SQL`, past the key.
unfoldable pub where_expired : ℕ → Attempt → ℕ → Row → Bool
unfolding runs_attempt
where_expired revision previous now r =
    (r.detail.head.revision == revision) && runs_attempt previous r && leb previous.lease_until now

-- The statement that the claim executes.
unfoldable pub claim_update :
    SubscriptionKey → ℕ → ExecutionOperation → Option Attempt → ℕ → ℕ → List Row → Text → Update
claim_update key revision operation none lease now rows id =
    update_row key (where_idle revision) (set_claim operation id lease now) rows
claim_update key revision operation (some previous) lease now rows id =
    update_row key (where_expired revision previous now) (set_reclaim operation id lease now) rows

abbrev pub is_previous : Option Attempt → Text → Bool
is_previous none id = false
is_previous (some previous) id = text_eq previous.token.attempt_id id

-- The outcome of one UPDATE: `next` is the next round of the loop.
unfoldable pub allocated :
    Text → RepositoryResult (Text × List Row) → Update → RepositoryResult (Text × List Row)
allocated id next (changed n rows) = if n == 1 then ok (id, rows) else err internal
allocated id next unique_violation = next
allocated id next check_violation = err corrupt_data

-- The loop that allocates an attempt id: `left` rounds are left, and `round` were made.
unfoldable pub allocate :
    (ℕ → RepositoryResult Text)
    → Option Attempt
    → (Text → Update)
    → ℕ
    → ℕ
    → RepositoryResult (Text × List Row)
unfolding allocated
allocate ids previous update zero round = err unavailable
allocate ids previous update (suc left) round =
    let next = allocate ids previous update left (suc round) in
    do id ← ids round; if is_previous previous id then next else allocated id next (update id)
