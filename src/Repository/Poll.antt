-- ===== src/Repository/Poll.antt =====
-- The poll contract: snapshot records, the policy of new records, the commands and their checks, and
-- the merge of an observation into a payload (src/subscription/repository.rs).
use tmdb_mteam_hub.Common.{
  ℕ, List, [], ◌∷◌, Bool, true, false, not, ◌&&◌, if◌then◌else◌, ltb, ◌==◌, Option, none, some,
  Text, contains, insert_set, ok, err, ◌>>=◌, ◌>>◌, guard,
}
use tmdb_mteam_hub.Model.{SubscriptionMediaKind}
use tmdb_mteam_hub.Repository.Operation.{PollAttemptToken}
use tmdb_mteam_hub.Repository.Errors.{RepositoryResult, invalid_input, validated_text, check_text}
use tmdb_mteam_hub.Repository.Payload.{WantedSource, SubscriptionPayload}
use tmdb_mteam_hub.Repository.Payload.Validate.{validate}
use tmdb_mteam_hub.Repository.Source.{from_source, merge_source_observation}
use tmdb_mteam_hub.Repository.Retry.{PollRetryPolicy}

-- `PollGeneration::try_new`
unfoldable pub poll_generation_try_new : ℕ → RepositoryResult ℕ
poll_generation_try_new value =
    if value == 0 then err (invalid_input "poll_generation") else ok value

pub record SnapshotRecord : Type 0 where
  pub subject_id : Text
  pub media_kind : SubscriptionMediaKind
  pub schedulable : Bool
  pub blocked_reason : Option Text
  pub source : WantedSource

unfoldable pub validate_schedulability : Bool → Option Text → RepositoryResult Unit
validate_schedulability true none = ok tt
validate_schedulability false (some reason) = ok tt
validate_schedulability true (some reason) = err (invalid_input "blocked_reason")
validate_schedulability false none = err (invalid_input "blocked_reason")

-- `SnapshotRecord::validate`
unfoldable pub snapshot_record_validate : SnapshotRecord → RepositoryResult Unit
unfolding validate_schedulability
snapshot_record_validate r = do
  check_text "subject_id" r.subject_id
  projection ← from_source r.source
  validate_schedulability r.schedulable r.blocked_reason

-- `validate_snapshot_records`; `subjects` are the subjects before.
unfoldable pub validate_snapshot_records : List Text → List SnapshotRecord → RepositoryResult Unit
unfolding snapshot_record_validate
validate_snapshot_records subjects [] = ok tt
validate_snapshot_records subjects (r ∷ records) =
    let rest = validate_snapshot_records (insert_set r.subject_id subjects) records in
    do
      snapshot_record_validate r
      guard (not (contains r.subject_id subjects)) (invalid_input "records")
      rest

pub record NewRecordPolicy : Type 0 where
  pub max_retries : ℕ
  pub bootstrap_existing_as_skipped : Bool

-- `NewRecordPolicy::try_new`
unfoldable pub new_record_policy_try_new : ℕ → Bool → RepositoryResult NewRecordPolicy
new_record_policy_try_new max skipped =
    if max == 0
    then err (invalid_input "max_retries")
    else ok (record { max_retries = max; bootstrap_existing_as_skipped = skipped })

pub record BeginPollCommand : Type 0 where
  pub account_key : Text
  pub attempted_at : ℕ

-- `BeginPollCommand::try_new`
unfoldable pub begin_poll_try_new : Text → ℕ → RepositoryResult BeginPollCommand
begin_poll_try_new account at = do
  account' ← validated_text "account_key" account
  ok (record { account_key = account'; attempted_at = at })

pub record ApplyCompleteSnapshotCommand : Type 0 where
  pub account_key : Text
  pub token : PollAttemptToken
  pub completed_at : ℕ
  pub next_poll_at : ℕ
  pub new_record_policy : NewRecordPolicy
  pub records : List SnapshotRecord

-- `ApplyCompleteSnapshotCommand::try_new`
unfoldable pub complete_try_new :
    ApplyCompleteSnapshotCommand → RepositoryResult ApplyCompleteSnapshotCommand
unfolding validate_snapshot_records
complete_try_new c = do
  guard (not (ltb c.next_poll_at c.completed_at)) (invalid_input "next_poll_at")
  validate_snapshot_records [] c.records
  check_text "account_key" c.account_key
  ok c

pub data IncompleteSnapshotReason : Type 0 where
  item_limit_reached maximum_page_count_reached repeated_page end_not_observed :
      IncompleteSnapshotReason

pub record IncompleteSnapshotObservation : Type 0 where
  pub fetched_pages : ℕ
  pub truncated_by_limit : Bool
  pub end_observed : Bool
  pub reason : IncompleteSnapshotReason

abbrev pub is_item_limit : IncompleteSnapshotReason → Bool
is_item_limit item_limit_reached = true
is_item_limit _ = false

-- `IncompleteSnapshotObservation::try_new`
unfoldable pub incomplete_observation_try_new :
    IncompleteSnapshotObservation → RepositoryResult IncompleteSnapshotObservation
incomplete_observation_try_new o = do
  guard (not o.end_observed) (invalid_input "end_observed")
  guard (not (is_item_limit o.reason && not o.truncated_by_limit))
      (invalid_input "truncated_by_limit")
  ok o

pub record RecordIncompleteSnapshotCommand : Type 0 where
  pub account_key : Text
  pub token : PollAttemptToken
  pub incomplete_at : ℕ
  pub observation : IncompleteSnapshotObservation
  pub new_record_policy : NewRecordPolicy
  pub records : List SnapshotRecord
  pub retry_policy : PollRetryPolicy

-- `RecordIncompleteSnapshotCommand::try_new`
unfoldable pub incomplete_try_new :
    RecordIncompleteSnapshotCommand → RepositoryResult RecordIncompleteSnapshotCommand
unfolding validate_snapshot_records
incomplete_try_new c = do
  validate_snapshot_records [] c.records
  check_text "account_key" c.account_key
  ok c

pub record RecordPollFailureCommand : Type 0 where
  pub account_key : Text
  pub token : PollAttemptToken
  pub failed_at : ℕ
  pub message : Text
  pub retry_policy : PollRetryPolicy

-- `RecordPollFailureCommand::try_new`
unfoldable pub poll_failure_try_new :
    RecordPollFailureCommand → RepositoryResult RecordPollFailureCommand
poll_failure_try_new c = do
  check_text "account_key" c.account_key
  check_text "message" c.message
  ok c

-- `SubscriptionPayload::merge_snapshot_observation`
unfoldable pub merge_snapshot_observation :
    SubscriptionPayload → WantedSource → ℕ → RepositoryResult SubscriptionPayload
merge_snapshot_observation p observed at = do
  validate p
  seen ← from_source observed
  guard (not (ltb at p.observation.last_seen_at)) (invalid_input "observed_at")
  let merged = merge_source_observation p.source observed
  projection ← from_source merged
  let next = record p { source = merged; observation = record p.observation { last_seen_at = at } }
  validate next
  ok next
