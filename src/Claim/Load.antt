-- ===== src/Claim/Load.antt =====
-- Reading one row inside a transaction (src/storage/subscription_repo.rs, claim.rs): what is decoded
-- is validated again, and every fault is corrupt data.
pub mod Decoded
use tmdb_mteam_hub.Common.{
  ℕ, List, [], ◌∷◌, Bool, true, false, not, ◌&&◌, ◌||◌, if◌then◌else◌, ltb, leb, ◌==◌, Option, none,
  some, is_some, is_none, Text, is_blank, contains_nul, same, Result, ok, err, ◌>>=◌, ◌>>◌, guard,
  map_err, as_bytes, length,
}
use tmdb_mteam_hub.Model.{SubscriptionExecutionState}
use tmdb_mteam_hub.Repository.Operation.{
  SubscriptionKey, ExecutionOperation, Operation-discrete, for_lifecycle, Attempt,
  ExecutionAttemptToken, u32_max,
}
use tmdb_mteam_hub.Repository.Errors.{
  RepositoryError, RepositoryResult, corrupt_data, not_found, validated_text, check_text,
  check_optional, key_try_new, revision_try_new, attempt_id_try_new,
}
use tmdb_mteam_hub.Repository.Source.{SubscriptionProjection, year_in_range}
use tmdb_mteam_hub.Repository.Head.{
  SubscriptionHead, SubscriptionDetail, head_validate, detail_validate, unique_tags,
  validate_attention_tags,
}
use tmdb_mteam_hub.Claim.Table.{Row, Db, find_row}

-- `persisted_validation`
abbrev pub persisted {ℓ} : {A : Type ℓ} → Result RepositoryError A → Result RepositoryError A
persisted r = map_err (λ e. corrupt_data) r

-- `checked_required_text`
unfoldable pub checked_required_text : Text → RepositoryResult Unit
checked_required_text value = do
  guard (not (is_blank value)) corrupt_data
  guard (not (contains_nul value)) corrupt_data

-- `checked_text`
unfoldable pub checked_text : Text → RepositoryResult Unit
checked_text value = guard (not (contains_nul value)) corrupt_data

-- `RawHeadRow::try_into_head`
unfoldable pub decode_head : SubscriptionHead → RepositoryResult Unit
decode_head h = do
  key ← persisted (key_try_new h.key.account_key h.key.subject_id)
  revision ← persisted (revision_try_new h.revision)
  persisted (check_optional (check_text "snapshot_id") h.last_seen_snapshot_id)
  persisted (check_optional (check_text "blocked_reason") h.blocked_reason)
  guard (leb h.retry_count u32_max && leb h.max_retries u32_max) corrupt_data
  persisted (head_validate h)

-- `RawSummaryRow::try_into_summary`
unfoldable pub decode_summary : SubscriptionDetail → RepositoryResult Unit
unfolding decode_head checked_required_text checked_text
decode_summary d = do
  checked_required_text d.projection.title
  checked_text d.projection.poster_url
  check_optional checked_text d.projection.category_text
  guard (year_in_range d.projection.release_year) corrupt_data
  decode_head d.head
  guard (unique_tags d.attention_tags) corrupt_data
  persisted (do head_validate d.head; validate_attention_tags d.attention_tags)

-- `RawDetailRow::try_into_detail`
unfoldable pub decode_detail :
    (List ℕ → List ℕ) → SubscriptionDetail → RepositoryResult SubscriptionDetail
unfolding decode_summary
decode_detail sha256 d = do decode_summary d; persisted (detail_validate sha256 d); ok d

-- `ExecutionControls`
pub data ExecutionControls : Type 0 where
  idle : ExecutionControls
  running : Attempt → ExecutionControls

pub record StoredSubscription : Type 0 where
  pub detail : SubscriptionDetail
  pub controls : ExecutionControls

-- The check of a running row's operation against its lifecycle state.
unfoldable pub expect_operation :
    ExecutionOperation → Option ExecutionOperation → RepositoryResult Unit
expect_operation operation none = err corrupt_data
expect_operation operation (some expected) =
    guard (same Operation-discrete operation expected) corrupt_data

unfoldable pub decode_running :
    SubscriptionHead → ExecutionOperation → Text → ℕ → RepositoryResult ExecutionControls
unfolding expect_operation checked_required_text
decode_running head operation attempt_id lease_until = do
  checked_required_text attempt_id
  id ← persisted (attempt_id_try_new attempt_id)
  expect_operation operation (for_lifecycle head.lifecycle_state)
  guard (is_some head.next_attempt_at) corrupt_data
  ok (
      running (record {
        token = record { key = head.key; attempt_id = id; operation = operation };
        lease_until = lease_until;
      }))

-- The `match` on the execution state and the attempt columns.
unfoldable pub decode_controls :
    SubscriptionHead
    → SubscriptionExecutionState
    → Option ExecutionOperation
    → Option Text
    → Option ℕ
    → RepositoryResult ExecutionControls
unfolding decode_running
decode_controls head SubscriptionExecutionState.idle none none none = ok idle
decode_controls head SubscriptionExecutionState.running (some operation) (some id) (some lease) =
    decode_running head operation id lease
decode_controls head _ _ _ _ = err corrupt_data

module _ (sha256 : List ℕ → List ℕ) where
  unfoldable pub decode_row : Row → RepositoryResult StoredSubscription
  unfolding decode_detail decode_controls
  decode_row r = do
    detail ← decode_detail sha256 r.detail
    controls ←
        decode_controls detail.head detail.head.execution_state r.claimed_operation r.attempt_id
          r.lease_until
    ok (record { detail = detail; controls = controls })

  unfoldable pub load_found : SubscriptionKey → Option Row → RepositoryResult StoredSubscription
  unfolding decode_row
  load_found key none = err (not_found key)
  load_found key (some r) = decode_row r

  -- `load_stored_subscription`
  unfoldable pub load_stored_subscription :
      List Row → SubscriptionKey → RepositoryResult StoredSubscription
  unfolding load_found
  load_stored_subscription rows key = load_found key (find_row key rows)
