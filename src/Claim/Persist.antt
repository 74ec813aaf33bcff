-- ===== src/Claim/Persist.antt =====
-- `persist_claim`, `claim_due` and `claim_one` (src/storage/subscription_repo/claim.rs). An operation
-- runs in one immediate transaction: an error leaves the database as it was.
use tmdb_mteam_hub.Common.{
  ℕ, ◌+◌, List, [], ◌∷◌, ◌++◌, Bool, not, ◌&&◌, if◌then◌else◌, ◌==◌, max, Option, none, some, Text,
  text_eq, same, ok, err, ◌>>=◌, ◌>>◌, guard,
}
use tmdb_mteam_hub.Model.{Lifecycle-discrete}
use tmdb_mteam_hub.Repository.Operation.{
  SubscriptionKey, ExecutionOperation, Operation-discrete, for_lifecycle, Attempt, i64_max,
}
use tmdb_mteam_hub.Repository.Errors.{RepositoryResult, corrupt_data, repository_integer}
use tmdb_mteam_hub.Repository.Payload.{Payload-discrete}
use tmdb_mteam_hub.Repository.Source.{Projection-discrete}
use tmdb_mteam_hub.Repository.Head.{
  SubscriptionHead, SubscriptionDetail, is_running, bool_eq, Key-discrete, OptionNumber-discrete,
  Tags-discrete,
}
use tmdb_mteam_hub.Claim.Table.{Row, Db, AuditEntry, AuditAction, claim_attempt, reclaim_attempt}
use tmdb_mteam_hub.Claim.Load.{
  StoredSubscription, ExecutionControls, idle, running, load_stored_subscription,
}
use tmdb_mteam_hub.Claim.Classify.{
  ClaimEligibility, ClaimRejection, Classification, eligible, rejected, classify,
  eligible_operation, eligible_previous,
}
use tmdb_mteam_hub.Claim.Select.{select_due_candidate, select_metadata}
use tmdb_mteam_hub.Claim.Update.{
  absolute_time, is_meta, coalesce, claimed_lifecycle, claim_update, allocate,
}

-- The clock's reading and the ids that the source of attempt ids gives, in their order.
pub record ClaimDependencies : Type 0 where
  pub now : ℕ
  pub attempt_ids : ℕ → RepositoryResult Text

-- `MAX_ATTEMPT_ID_ATTEMPTS`
abbrev pub max_attempt_id_attempts : ℕ
max_attempt_id_attempts = 8

-- `ClaimedSubscription`
pub record ClaimedSubscription : Type 0 where
  pub detail : SubscriptionDetail
  pub attempt : Attempt
  pub replaced_expired_attempt : Option Attempt

abbrev pub expect_same_operation :
    ExecutionOperation → Option ExecutionOperation → RepositoryResult Unit
expect_same_operation operation none = err corrupt_data
expect_same_operation operation (some expected) =
    guard (same Operation-discrete operation expected) corrupt_data

abbrev pub check_replaced : SubscriptionHead → Attempt → Option Attempt → RepositoryResult Unit
check_replaced head attempt none = ok tt
check_replaced head attempt (some old) = do
  guard (same Key-discrete old.token.key head.key) corrupt_data
  guard (not (text_eq old.token.attempt_id attempt.token.attempt_id)) corrupt_data
  guard (same Operation-discrete old.token.operation attempt.token.operation) corrupt_data

-- `ClaimedSubscription::try_new`
unfoldable pub claimed_try_new :
    SubscriptionDetail → Attempt → Option Attempt → RepositoryResult ClaimedSubscription
claimed_try_new detail attempt replaced = do
  guard (same Key-discrete detail.head.key attempt.token.key) corrupt_data
  guard (is_running detail.head.execution_state) corrupt_data
  expect_same_operation attempt.token.operation (for_lifecycle detail.head.lifecycle_state)
  check_replaced detail.head attempt replaced
  ok (record { detail = detail; attempt = attempt; replaced_expired_attempt = replaced })

-- The post-write checks of `persist_claim` on the row's controls.
unfoldable pub verify_claim_head :
    SubscriptionHead → ExecutionOperation → ℕ → SubscriptionHead → RepositoryResult Unit
verify_claim_head before operation now post = do
  guard (post.revision == before.revision + 1) corrupt_data
  guard
      (same OptionNumber-discrete post.next_attempt_at (
          if is_meta operation then coalesce before.next_attempt_at now else before.next_attempt_at)
        && bool_eq post.force_eligible_once before.force_eligible_once
        && (post.updated_at == max before.updated_at now)
        && same Lifecycle-discrete post.lifecycle_state
            (claimed_lifecycle operation before.lifecycle_state))
      corrupt_data

-- `verify_preserved_detail`; `persist_claim` makes the same check.
unfoldable pub verify_preserved_detail :
    SubscriptionDetail → SubscriptionDetail → RepositoryResult Unit
verify_preserved_detail before after =
    guard
      (same Payload-discrete before.payload after.payload
        && same Projection-discrete before.projection after.projection
        && same Tags-discrete before.attention_tags after.attention_tags)
      corrupt_data

-- The attempt that the reloaded row runs.
abbrev pub running_attempt : ExecutionControls → RepositoryResult Attempt
running_attempt idle = err corrupt_data
running_attempt (running a) = ok a

-- `append_claim_audit`, and the parts that the other audits share.
unfoldable pub audit : AuditAction → ℕ → Attempt → SubscriptionDetail → AuditEntry
audit action now a d = record {
  account_key = d.head.key.account_key;
  created_at = now;
  action = action;
  target_id = d.head.key.subject_id;
  target_title = d.projection.title;
  attempt_id = a.token.attempt_id;
  operation = a.token.operation;
  lease_until = a.lease_until;
  row_revision = d.head.revision;
  superseded = none;
}

abbrev pub claim_action : Option Attempt → AuditAction
claim_action none = claim_attempt
claim_action (some previous) = reclaim_attempt

pub data ClaimOneResult : Type 0 where
  claimed : ClaimedSubscription → ClaimOneResult
  not_claimed : ClaimRejection → ClaimOneResult

module _ (sha256 : List ℕ → List ℕ) (deps : ClaimDependencies) where
  open deps use {now, attempt_ids}

  -- The part of `persist_claim` after its UPDATE.
  unfoldable pub verify_claim :
      Db
      → StoredSubscription
      → ExecutionOperation
      → Option Attempt
      → ℕ
      → Text × List Row
      → RepositoryResult (Db × ClaimedSubscription)
  unfolding audit
  verify_claim db stored operation previous lease chosen = do
    let head = stored.detail.head
    post ← load_stored_subscription sha256 chosen.1 head.key
    verify_claim_head head operation now post.detail.head
    verify_preserved_detail stored.detail post.detail
    current ← running_attempt post.controls
    guard
        (text_eq current.token.attempt_id chosen.0
          && same Operation-discrete current.token.operation operation
          && (current.lease_until == lease))
        corrupt_data
    subscription ← claimed_try_new post.detail current previous
    ok (
      record {
        rows = chosen.1;
        logs = db.logs ++ audit (claim_action previous) now current post.detail ∷ [];
      },
      subscription,
    )

  unfoldable pub persist_claim :
      Db → StoredSubscription → ClaimEligibility → ℕ → RepositoryResult (Db × ClaimedSubscription)
  unfolding allocate claim_update verify_claim
  persist_claim db stored eligibility ttl = do
    let head = stored.detail.head
    let operation = eligible_operation eligibility
    let previous = eligible_previous eligibility
    revision ← repository_integer head.revision
    guard (not (revision == i64_max)) corrupt_data
    lease ← absolute_time now ttl
    chosen ←
        allocate attempt_ids previous
          (claim_update head.key head.revision operation previous lease now db.rows)
          max_attempt_id_attempts 0
    verify_claim db stored operation previous lease chosen

  unfoldable pub claim_classified :
      Db → StoredSubscription → ℕ → Classification → RepositoryResult (Db × ClaimOneResult)
  unfolding persist_claim
  claim_classified db stored ttl (rejected reason) = ok (db, not_claimed reason)
  claim_classified db stored ttl (eligible eligibility) = do
    result ← persist_claim db stored eligibility ttl
    ok (result.0, claimed result.1)

  unfoldable pub claim_one : Db → SubscriptionKey → ℕ → RepositoryResult (Db × ClaimOneResult)
  unfolding claim_classified
  claim_one db key ttl = do
    now' ← repository_integer now
    stored ← load_stored_subscription sha256 db.rows key
    classification ← classify stored now
    claim_classified db stored ttl classification

  unfoldable pub claim_selected :
      Db
      → ℕ
      → Option (StoredSubscription × ClaimEligibility)
      → RepositoryResult (Db × Option ClaimedSubscription)
  unfolding persist_claim
  claim_selected db ttl none = ok (db, none)
  claim_selected db ttl (some (stored, eligibility)) = do
    result ← persist_claim db stored eligibility ttl
    ok (result.0, some result.1)

  unfoldable pub claim_due :
      Db → Text → Bool → ℕ → RepositoryResult (Db × Option ClaimedSubscription)
  unfolding claim_selected
  claim_due db account metadata_only ttl = do
    now' ← repository_integer now
    selected ←
        (if metadata_only
          then select_metadata sha256 db.rows account now
          else select_due_candidate sha256 db.rows account now)
    claim_selected db ttl selected
