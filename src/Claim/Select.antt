-- ===== src/Claim/Select.antt =====
-- The selection of a candidate by the queries of src/storage/subscription_repo/claim.rs.
use tmdb_mteam_hub.Common.{
  ℕ, List, [], ◌∷◌, Bool, true, false, not, ◌&&◌, ◌||◌, if◌then◌else◌, ltb, ◌==◌, Option, none,
  some, is_some, is_none, Text, text_eq, text_lt, ok, err, ◌>>=◌,
}
use tmdb_mteam_hub.Model.{SubscriptionLifecycleState, queued, skipped}
use tmdb_mteam_hub.Repository.Operation.{ExecutionOperation}
use tmdb_mteam_hub.Repository.Errors.{RepositoryResult, corrupt_data, key_try_new}
use tmdb_mteam_hub.Repository.Head.{SubscriptionHead, is_completed, is_running, has_tag}
use tmdb_mteam_hub.Claim.Table.{Row, same_operation}
use tmdb_mteam_hub.Claim.Load.{
  StoredSubscription, ExecutionControls, idle, running, load_stored_subscription, persisted,
}
use tmdb_mteam_hub.Claim.Classify.{
  ClaimEligibility, expired, forced, normal, Classification, eligible, rejected, is_due, classify,
}

-- The gates that the three candidate queries share.
abbrev pub is_open : SubscriptionHead → Bool
is_open h =
    h.active && h.schedulable && is_none h.blocked_reason && not (is_completed h.lifecycle_state)

abbrev pub in_account : Text → Row → Bool
in_account account r = text_eq r.detail.head.key.account_key account

-- `EXPIRED_CANDIDATE_SQL`
unfoldable pub expired_candidate : Text → ℕ → Row → Bool
expired_candidate account now r =
    in_account account r && is_running r.detail.head.execution_state && is_due r.lease_until now

-- `FORCE_CANDIDATE_SQL`
unfoldable pub force_candidate : Text → Row → Bool
force_candidate account r =
    in_account account r
    && is_open r.detail.head
    && not (is_running r.detail.head.execution_state)
    && r.detail.head.force_eligible_once
    && is_some r.detail.head.next_attempt_at

-- `DUE_CANDIDATE_SQL`
unfoldable pub due_candidate : Text → ℕ → Row → Bool
due_candidate account now r =
    in_account account r
    && is_open r.detail.head
    && not (is_running r.detail.head.execution_state)
    && not r.detail.head.force_eligible_once
    && not r.detail.head.retry_blocked
    && not (has_tag skipped r.detail.attention_tags)
    && is_none r.detail.payload.skip_reason
    && is_due r.detail.head.next_attempt_at now

abbrev pub is_meta_state : SubscriptionLifecycleState → Bool
is_meta_state queued = true
is_meta_state SubscriptionLifecycleState.meta = true
is_meta_state _ = false

-- `METADATA_CANDIDATE_SQL`
unfoldable pub metadata_candidate : Text → ℕ → Row → Bool
metadata_candidate account now r =
    in_account account r
    && r.detail.head.active
    && r.detail.head.schedulable
    && is_none r.detail.head.blocked_reason
    && is_meta_state r.detail.head.lifecycle_state
    && ((not (is_running r.detail.head.execution_state)
          && not r.detail.head.retry_blocked
          && (is_none r.detail.head.next_attempt_at || is_due r.detail.head.next_attempt_at now))
        || (is_running r.detail.head.execution_state
            && same_operation r.claimed_operation (some ExecutionOperation.meta)
            && is_due r.lease_until now))

abbrev pub or_zero : Option ℕ → ℕ
or_zero none = 0
or_zero (some n) = n

-- `ORDER BY lease_until, subject_id`
unfoldable pub lease_order : Row → Row → Bool
lease_order a b =
    ltb (or_zero a.lease_until) (or_zero b.lease_until)
    || ((or_zero a.lease_until == or_zero b.lease_until)
        && text_lt a.detail.head.key.subject_id b.detail.head.key.subject_id)

-- `ORDER BY next_attempt_at, updated_at, subject_id`, with an absent time first.
unfoldable pub due_order : Row → Row → Bool
due_order a b =
    ltb (or_zero a.detail.head.next_attempt_at) (or_zero b.detail.head.next_attempt_at)
    || ((or_zero a.detail.head.next_attempt_at == or_zero b.detail.head.next_attempt_at)
        && (ltb a.detail.head.updated_at b.detail.head.updated_at
            || ((a.detail.head.updated_at == b.detail.head.updated_at)
                && text_lt a.detail.head.key.subject_id b.detail.head.key.subject_id)))

abbrev pub smaller : (Row → Row → Bool) → Row → Option Row → Row
smaller order r none = r
smaller order r (some s) = if order s r then s else r

-- `SELECT subject_id … WHERE p ORDER BY order LIMIT 1`
unfoldable pub first_row : (Row → Bool) → (Row → Row → Bool) → List Row → Option Row
first_row p order [] = none
first_row p order (r ∷ rows) =
    let rest = first_row p order rows in if p r then some (smaller order r rest) else rest

pub data CandidateBranch : Type 0 where
  expired_branch forced_branch normal_branch : CandidateBranch

-- `CandidateBranch::matches`
unfoldable pub branch_matches : CandidateBranch → ClaimEligibility → Bool
branch_matches expired_branch (expired a) = true
branch_matches forced_branch (forced o) = true
branch_matches normal_branch (normal o) = true
branch_matches _ _ = false

-- The two checks that a query's row passes the typed contract.
unfoldable pub expect_branch : CandidateBranch → Classification → RepositoryResult ClaimEligibility
unfolding branch_matches
expect_branch branch (rejected reason) = err corrupt_data
expect_branch branch (eligible e) = if not (branch_matches branch e) then err corrupt_data else ok e

module _ (sha256 : List ℕ → List ℕ) (rows : List Row) (account : Text) (now : ℕ) where
  abbrev pub Selected : Type 0
  Selected = Option (StoredSubscription × ClaimEligibility)

  unfoldable pub load_candidate : CandidateBranch → Row → RepositoryResult Selected
  unfolding expect_branch
  load_candidate branch r = do
    key ← persisted (key_try_new account r.detail.head.key.subject_id)
    stored ← load_stored_subscription sha256 rows key
    classification ← classify stored now
    eligibility ← expect_branch branch classification
    ok (some (stored, eligibility))

  -- One round of the loop over the branches.
  unfoldable pub select_or_else :
      CandidateBranch → Option Row → RepositoryResult Selected → RepositoryResult Selected
  unfolding load_candidate
  select_or_else branch none next = next
  select_or_else branch (some r) next = load_candidate branch r

  unfoldable pub select_due_candidate : RepositoryResult Selected
  unfolding select_or_else
  select_due_candidate =
      select_or_else expired_branch (first_row (expired_candidate account now) lease_order rows) (
        select_or_else forced_branch (first_row (force_candidate account) due_order rows) (
          select_or_else normal_branch (first_row (due_candidate account now) due_order rows)
            (ok none)))

  abbrev pub metadata_eligibility : ExecutionControls → ClaimEligibility
  metadata_eligibility (running previous) = expired previous
  metadata_eligibility idle = normal ExecutionOperation.meta

  unfoldable pub load_metadata : Option Row → RepositoryResult Selected
  load_metadata none = ok none
  load_metadata (some r) = do
    key ← key_try_new account r.detail.head.key.subject_id
    stored ← load_stored_subscription sha256 rows key
    ok (some (stored, metadata_eligibility stored.controls))

  unfoldable pub select_metadata : RepositoryResult Selected
  unfolding load_metadata
  select_metadata = load_metadata (first_row (metadata_candidate account now) due_order rows)
