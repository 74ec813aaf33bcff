-- ===== src/Claim/Passes.antt =====
-- The UPDATE of a claim on a row that `classify` finds eligible
-- (src/storage/subscription_repo/claim.rs): the table's CHECK clauses let it through.
use tmdb_mteam_hub.Common.{ℕ, ◌+◌, ◌≡◌, refl, List, true, some, Text, if◌then◌else◌}
use tmdb_mteam_hub.Model.{SubscriptionExecutionState}
use tmdb_mteam_hub.Repository.Operation.{SubscriptionKey, ExecutionOperation}
use tmdb_mteam_hub.Claim.Table.{
  Row, Update, changed, unique_violation, write_row, attempt_taken, satisfies_checks,
}
use tmdb_mteam_hub.Claim.Load.{running}
use tmdb_mteam_hub.Claim.Classify.{ClaimEligibility, eligible_operation}
use tmdb_mteam_hub.Claim.Update.{set_claim, set_reclaim}

set_claim-id :
    (operation : ExecutionOperation) (id : Text) (lease now : ℕ) (r : Row)
    → (set_claim operation id lease now r).attempt_id ≡ some id
unfolding set_claim
set_claim-id operation id lease now r = refl

set_reclaim-id :
    (operation : ExecutionOperation) (id : Text) (lease now : ℕ) (r : Row)
    → (set_reclaim operation id lease now r).attempt_id ≡ some id
unfolding set_reclaim
set_reclaim-id operation id lease now r = refl

-- The outcome of a claim's UPDATE on the row r: unless another row has the id, r is replaced by a row
-- that runs the attempt.
abbrev pub Passes : SubscriptionKey → ClaimEligibility → ℕ → List Row → Text → Row → Update → Type 0
Passes key e lease rows id r u =
    (r' : Row) × (satisfies_checks r' ≡ true)
    × (r'.detail.head.execution_state ≡ SubscriptionExecutionState.running)
    × (r'.claimed_operation ≡ some (eligible_operation e))
    × (r'.attempt_id ≡ some id)
    × (r'.lease_until ≡ some lease)
    × (r'.detail.head.revision ≡ r.detail.head.revision + 1)
    × (u ≡ (
        if attempt_taken key (some id) rows
        then unique_violation
        else changed 1 (write_row key r' rows)))
