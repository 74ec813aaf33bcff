-- ===== src/Claim/Classify.antt =====
-- `classify` and the selection of a candidate (src/storage/subscription_repo/claim.rs).
use tmdb_mteam_hub.Common.{
  ℕ, Bool, false, not, ◌||◌, if◌then◌else◌, ltb, leb, Option, none, some, is_some, Text, same, ok,
  err,
}
use tmdb_mteam_hub.Model.{skipped}
use tmdb_mteam_hub.Repository.Operation.{
  ExecutionOperation, Operation-discrete, for_lifecycle, Attempt,
}
use tmdb_mteam_hub.Repository.Errors.{RepositoryResult, corrupt_data}
use tmdb_mteam_hub.Repository.Head.{SubscriptionDetail, is_completed, has_tag}
use tmdb_mteam_hub.Claim.Load.{StoredSubscription, ExecutionControls, idle, running}

pub data ClaimRejection : Type 0 where
  inactive completed retry_blocked is_skipped : ClaimRejection
  unschedulable : Text → ClaimRejection
  live_attempt : Attempt → ClaimRejection
  not_due : Option ℕ → ClaimRejection

pub data ClaimEligibility : Type 0 where
  expired : Attempt → ClaimEligibility
  forced : ExecutionOperation → ClaimEligibility
  normal : ExecutionOperation → ClaimEligibility

pub data Classification : Type 0 where
  eligible : ClaimEligibility → Classification
  rejected : ClaimRejection → Classification

-- `ClaimEligibility::operation`
unfoldable pub eligible_operation : ClaimEligibility → ExecutionOperation
eligible_operation (expired previous) = previous.token.operation
eligible_operation (forced operation) = operation
eligible_operation (normal operation) = operation

-- `ClaimEligibility::previous`
unfoldable pub eligible_previous : ClaimEligibility → Option Attempt
eligible_previous (expired previous) = some previous
eligible_previous (forced operation) = none
eligible_previous (normal operation) = none

abbrev pub is_due : Option ℕ → ℕ → Bool
is_due none now = false
is_due (some due) now = leb due now

unfoldable pub classify_idle : SubscriptionDetail → ExecutionOperation → ℕ → Classification
classify_idle d operation now =
    if d.head.force_eligible_once
    then eligible (forced operation)
    else if d.head.retry_blocked
    then rejected retry_blocked
    else if has_tag skipped d.attention_tags || is_some d.payload.skip_reason
    then rejected is_skipped
    else if not (is_due d.head.next_attempt_at now)
    then rejected (not_due d.head.next_attempt_at)
    else eligible (normal operation)

unfoldable pub classify_controls :
    SubscriptionDetail
    → ExecutionOperation
    → ExecutionControls
    → ℕ
    → RepositoryResult Classification
unfolding classify_idle
classify_controls d operation (running previous) now =
    if not (same Operation-discrete previous.token.operation operation)
    then err corrupt_data
    else if ltb now previous.lease_until
    then ok (rejected (live_attempt previous))
    else ok (eligible (expired previous))
classify_controls d operation idle now = ok (classify_idle d operation now)

abbrev pub unschedulable_result : Option Text → RepositoryResult Classification
unschedulable_result none = err corrupt_data
unschedulable_result (some reason) = ok (rejected (unschedulable reason))

unfoldable pub classify_operation :
    StoredSubscription → Option ExecutionOperation → ℕ → RepositoryResult Classification
unfolding classify_controls
classify_operation s none now = err corrupt_data
classify_operation s (some operation) now = classify_controls s.detail operation s.controls now

unfoldable pub classify : StoredSubscription → ℕ → RepositoryResult Classification
unfolding classify_operation
classify s now =
    if not h.active
    then ok (rejected inactive)
    else if is_completed h.lifecycle_state
    then ok (rejected completed)
    else if not h.schedulable
    then unschedulable_result h.blocked_reason
    else classify_operation s (for_lifecycle h.lifecycle_state) now
  where
    open s.detail use {head as h}
