-- ===== src/Repository/Operation.antt =====
-- Execution operations, attempts and their tokens, and the durations that commands carry
-- (src/subscription/repository.rs).
use tmdb_mteam_hub.Common.{
  ℕ, ◌-◌, ◌^◌, Bool, true, false, ◌&&◌, Option, none, some, Text, text, text_eq,
}
use tmdb_mteam_hub.Model.{
  SubscriptionLifecycleState, queued, searching, downloading, linking, completed,
}

-- `i64::MAX`
abbrev pub i64_max : ℕ
i64_max = 2 ^ 63 - 1

-- `u32::MAX`
abbrev pub u32_max : ℕ
u32_max = 2 ^ 32 - 1

pub record SubscriptionKey : Type 0 where
  pub account_key : Text
  pub subject_id : Text

unfoldable pub key_eq : SubscriptionKey → SubscriptionKey → Bool
key_eq a b = text_eq a.account_key b.account_key && text_eq a.subject_id b.subject_id

pub data ExecutionOperation : Type 0 where
  meta search progress link : ExecutionOperation

unfoldable pub Operation-discrete : Discrete ExecutionOperation
Operation-discrete = hlevel

-- `ExecutionOperation::as_str`
unfoldable pub operation_label : ExecutionOperation → Text
operation_label ExecutionOperation.meta = text "movie_meta"
operation_label search = text "movie_search"
operation_label progress = text "movie_progress"
operation_label link = text "movie_link"

unfoldable pub for_lifecycle : SubscriptionLifecycleState → Option ExecutionOperation
for_lifecycle queued = some ExecutionOperation.meta
for_lifecycle SubscriptionLifecycleState.meta = some ExecutionOperation.meta
for_lifecycle searching = some search
for_lifecycle downloading = some progress
for_lifecycle linking = some link
for_lifecycle completed = none

-- The fence of every later extend, finish, fail and release.
pub record ExecutionAttemptToken : Type 0 where
  pub key : SubscriptionKey
  pub attempt_id : Text
  pub operation : ExecutionOperation

-- The fence of a poll's terminal writes.
pub record PollAttemptToken : Type 0 where
  pub generation : ℕ
  pub snapshot_id : Text

-- An attempt with its lease: `PersistedAttempt`, `CurrentExecutionAttempt` and `ExpiredAttempt`.
pub record Attempt : Type 0 where
  pub token : ExecutionAttemptToken
  pub lease_until : ℕ

-- A `FinishExecutionDisposition`; a delay is in seconds.
pub data FinishExecutionDisposition : Type 0 where
  meta_ready search_pushed progress_downloaded link_more_required link_completed :
      FinishExecutionDisposition
  search_waiting progress_pending link_pending_download link_planned :
      ℕ → FinishExecutionDisposition

unfoldable pub disposition_operation : FinishExecutionDisposition → ExecutionOperation
disposition_operation meta_ready = ExecutionOperation.meta
disposition_operation (search_waiting d) = search
disposition_operation search_pushed = search
disposition_operation (progress_pending d) = progress
disposition_operation progress_downloaded = progress
disposition_operation (link_pending_download d) = link
disposition_operation (link_planned d) = link
disposition_operation link_more_required = link
disposition_operation link_completed = link

unfoldable pub next_lifecycle : FinishExecutionDisposition → SubscriptionLifecycleState
next_lifecycle meta_ready = searching
next_lifecycle (search_waiting d) = searching
next_lifecycle link_more_required = searching
next_lifecycle search_pushed = downloading
next_lifecycle (progress_pending d) = downloading
next_lifecycle (link_pending_download d) = downloading
next_lifecycle progress_downloaded = linking
next_lifecycle (link_planned d) = linking
next_lifecycle link_completed = completed

unfoldable pub next_delay : FinishExecutionDisposition → Option ℕ
next_delay meta_ready = some 0
next_delay search_pushed = some 0
next_delay progress_downloaded = some 0
next_delay link_more_required = some 0
next_delay (search_waiting d) = some d
next_delay (progress_pending d) = some d
next_delay (link_pending_download d) = some d
next_delay (link_planned d) = some d
next_delay link_completed = none

unfoldable pub waits_for_release : FinishExecutionDisposition → Bool
waits_for_release (search_waiting d) = true
waits_for_release _ = false
