-- ===== src/Claim/Terminal/Commands.antt =====
-- The commands that end an attempt (src/subscription/repository.rs), and the values that their
-- statement binds (src/storage/subscription_repo/claim.rs).
use tmdb_mteam_hub.Common.{ℕ, Bool, true, false, Option, none, some, Text, ok, ◌>>=◌, ◌>>◌}
use tmdb_mteam_hub.Repository.Operation.{
  ExecutionAttemptToken, FinishExecutionDisposition, disposition_operation,
}
use tmdb_mteam_hub.Repository.Errors.{
  RepositoryResult, validated_text, schedule_delay_try_new, repository_integer,
}
use tmdb_mteam_hub.Repository.Delta.{
  ExecutionPayloadDelta, replacement_prepared, replacement_cleaned,
  validate_execution_result_operation,
}
use tmdb_mteam_hub.Claim.Terminal.{schedule_from_repository_now}

pub record FinishExecutionCommand : Type 0 where
  pub token : ExecutionAttemptToken
  pub disposition : FinishExecutionDisposition
  pub payload_delta : ExecutionPayloadDelta

-- `FinishExecutionCommand::try_new`
unfoldable pub finish_try_new :
    ExecutionAttemptToken
    → FinishExecutionDisposition
    → ExecutionPayloadDelta
    → RepositoryResult FinishExecutionCommand
finish_try_new token disposition delta = do
  validate_execution_result_operation token (disposition_operation disposition) delta
  ok (record { token = token; disposition = disposition; payload_delta = delta })

pub record FailExecutionCommand : Type 0 where
  pub token : ExecutionAttemptToken
  pub error_type : Text
  pub message : Text
  pub retry_after : ℕ
  pub payload_delta : ExecutionPayloadDelta

-- `FailExecutionCommand::try_new`
unfoldable pub fail_try_new :
    ExecutionAttemptToken
    → Text
    → Text
    → ℕ
    → ExecutionPayloadDelta
    → RepositoryResult FailExecutionCommand
fail_try_new token error_type message retry_after delta = do
  validate_execution_result_operation token token.operation delta
  error_type' ← validated_text "execution_failure.error_type" error_type
  message' ← validated_text "execution_failure.message" message
  retry_after' ← schedule_delay_try_new retry_after
  ok (record {
    token = token;
    error_type = error_type';
    message = message';
    retry_after = retry_after';
    payload_delta = delta;
  })

abbrev pub is_replacement_step : ExecutionPayloadDelta → Bool
is_replacement_step (replacement_prepared downloads) = true
is_replacement_step replacement_cleaned = true
is_replacement_step _ = false

-- An `Option<u64>` that a statement binds.
abbrev pub check_integer : Option ℕ → RepositoryResult Unit
check_integer none = ok tt
check_integer (some n) = do n' ← repository_integer n; ok tt

-- The schedule of a failed attempt.
unfoldable pub retry_schedule : Bool → ℕ → ℕ → RepositoryResult (Option ℕ)
retry_schedule true now delay = ok none
retry_schedule false now delay = schedule_from_repository_now now (some delay)
