-- ===== src/Claim/Checks.antt =====
-- The SET clauses of a claim (src/storage/subscription_repo/claim.rs) under the CHECK clauses.
use tmdb_mteam_hub.Claim.Eligible.{Open}
use tmdb_mteam_hub.Common.{
  ℕ, ◌≡◌, refl, true, false, leb, some, Text, ok, same_refl, not_spaces, nonblank-not_spaces, arith,
  length, as_bytes, ◌&&◌,
}
use tmdb_mteam_hub.Model.{SubscriptionExecutionState, SubscriptionLifecycleState}
use tmdb_mteam_hub.Repository.Operation.{ExecutionOperation, Operation-discrete, for_lifecycle}
use tmdb_mteam_hub.Repository.Errors.{attempt_id_try_new, validated_text}
use tmdb_mteam_hub.Repository.Head.{is_completed}
use tmdb_mteam_hub.Claim.Table.{
  Row, check_controls, check_each_column, check_together, same_operation,
}
use tmdb_mteam_hub.Claim.Update.{set_claim, set_reclaim, claimed_lifecycle}

claimed_lifecycle-open :
    (operation : ExecutionOperation) (state : SubscriptionLifecycleState)
    → is_completed state ≡ false
    → for_lifecycle state ≡ some operation
    → (is_completed (claimed_lifecycle operation state) ≡ false)
      × (for_lifecycle (claimed_lifecycle operation state) ≡ some operation)
unfolding for_lifecycle
claimed_lifecycle-open ExecutionOperation.meta state going h = (refl, refl)
claimed_lifecycle-open ExecutionOperation.search state going h = (going, h)
claimed_lifecycle-open ExecutionOperation.progress state going h = (going, h)
claimed_lifecycle-open ExecutionOperation.link state going h = (going, h)

same_operation_refl : (o : ExecutionOperation) → same_operation (some o) (some o) ≡ true
same_operation_refl o = same_refl Operation-discrete o

-- An id that the code accepts satisfies the CHECK clauses of the column.
pub valid_id :
    (id id' : Text)
    → attempt_id_try_new id ≡ ok id'
    → (not_spaces id && leb (length (as_bytes id)) 256) ≡ true
unfolding attempt_id_try_new validated_text
valid_id id id' h =
    let letters : not_spaces id ≡ true = nonblank-not_spaces id (ground arith) in
    rw letters (ground arith)

pub set_claim-each :
    (operation : ExecutionOperation) (id : Text) (lease now : ℕ) (r : Row)
    → (not_spaces id && leb (length (as_bytes id)) 256) ≡ true
    → check_each_column r ≡ true
    → check_each_column (set_claim operation id lease now r) ≡ true
unfolding check_each_column set_claim
set_claim-each operation id lease now r valid h = rw valid (ground arith)

pub set_reclaim-each :
    (operation : ExecutionOperation) (id : Text) (lease now : ℕ) (r : Row)
    → (not_spaces id && leb (length (as_bytes id)) 256) ≡ true
    → check_each_column r ≡ true
    → check_each_column (set_reclaim operation id lease now r) ≡ true
unfolding check_each_column set_reclaim
set_reclaim-each operation id lease now r valid h = rw valid (ground arith)

pub set_claim-together :
    (operation : ExecutionOperation) (id : Text) (lease now : ℕ) (r : Row)
    → Open r.detail.head operation
    → check_together r ≡ true
    → check_together (set_claim operation id lease now r) ≡ true
unfolding check_together check_controls set_claim
set_claim-together operation id lease now r (active, schedulable, going, expected) h =
    let (going', expected') =
      claimed_lifecycle-open operation r.detail.head.lifecycle_state going expected in
    rw (active, schedulable, going', expected', same_operation_refl operation) (ground arith)

pub set_reclaim-together :
    (operation : ExecutionOperation) (id : Text) (lease now : ℕ) (r : Row)
    → Open r.detail.head operation
    → r.detail.head.execution_state ≡ SubscriptionExecutionState.running
    → check_together r ≡ true
    → check_together (set_reclaim operation id lease now r) ≡ true
unfolding check_together check_controls set_reclaim
set_reclaim-together operation id lease now r (active, schedulable, going, expected) state h =
    let (going', expected') =
      claimed_lifecycle-open operation r.detail.head.lifecycle_state going expected in
    rw (active, schedulable, going', expected', state, same_operation_refl operation) (ground arith)
