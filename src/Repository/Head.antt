-- ===== src/Repository/Head.antt =====
-- The typed columns of a subscription and their joint validation
-- (src/subscription/repository.rs).
use tmdb_mteam_hub.Common.{
  ℕ, List, [], ◌∷◌, Bool, true, false, not, ◌&&◌, ◌||◌, ltb, leb, Option, is_some, is_none, Text,
  any, same, ◌>>=◌, ◌>>◌, guard, ℕ_discrete,
}
use tmdb_mteam_hub.Model.{
  SubscriptionLifecycleState, SubscriptionExecutionState, SubscriptionAttentionTag,
  SubscriptionMediaKind, completed, running, idle, movie, Attention-discrete, Media-discrete,
}
use tmdb_mteam_hub.Repository.Operation.{SubscriptionKey, ExecutionAttemptToken}
use tmdb_mteam_hub.Repository.Errors.{RepositoryResult, corrupt_data, invalid_input}
use tmdb_mteam_hub.Repository.Payload.{SubscriptionPayload}
use tmdb_mteam_hub.Repository.Payload.Keys.{validate_for}
use tmdb_mteam_hub.Repository.Source.{SubscriptionProjection, from_source, Projection-discrete}

pub record SubscriptionHead : Type 0 where
  pub key : SubscriptionKey
  pub revision : ℕ
  pub active : Bool
  pub inactive_at : Option ℕ
  pub last_seen_snapshot_id : Option Text
  pub media_kind : SubscriptionMediaKind
  pub schedulable : Bool
  pub blocked_reason : Option Text
  pub lifecycle_state : SubscriptionLifecycleState
  pub execution_state : SubscriptionExecutionState
  pub next_attempt_at : Option ℕ
  pub retry_count : ℕ
  pub max_retries : ℕ
  pub retry_blocked : Bool
  pub force_eligible_once : Bool
  pub updated_at : ℕ

abbrev pub is_completed : SubscriptionLifecycleState → Bool
is_completed completed = true
is_completed _ = false

abbrev pub is_running : SubscriptionExecutionState → Bool
is_running running = true
is_running idle = false

abbrev pub bool_eq : Bool → Bool → Bool
bool_eq true b = b
bool_eq false b = not b

-- The state of `retry_blocked` that the counters demand.
unfoldable pub retries_exhausted : ℕ → ℕ → Bool
retries_exhausted max count = ltb 0 max && leb max count

-- `SubscriptionHead::validate`
unfoldable pub head_validate : SubscriptionHead → RepositoryResult Unit
unfolding retries_exhausted
head_validate h = do
  guard (not (bool_eq h.active (is_some h.inactive_at))) corrupt_data
  guard (not (bool_eq h.schedulable (is_some h.blocked_reason))) corrupt_data
  guard (h.active || (not (is_running h.execution_state) && is_none h.next_attempt_at)) corrupt_data
  guard (h.schedulable || is_none h.next_attempt_at) corrupt_data
  guard (not (is_completed h.lifecycle_state) || is_none h.next_attempt_at) corrupt_data
  guard
      (not (is_running h.execution_state)
        || (h.active && h.schedulable && not (is_completed h.lifecycle_state)))
      corrupt_data
  guard (bool_eq h.retry_blocked (retries_exhausted h.max_retries h.retry_count)) corrupt_data
  guard
      (not h.force_eligible_once
        || (h.active
            && h.schedulable
            && not (is_completed h.lifecycle_state)
            && is_some h.next_attempt_at))
      corrupt_data

-- `SubscriptionDetail` with its `SubscriptionSummary`.
pub record SubscriptionDetail : Type 0 where
  pub head : SubscriptionHead
  pub projection : SubscriptionProjection
  pub attention_tags : List SubscriptionAttentionTag
  pub payload : SubscriptionPayload

-- `Vec::contains`
abbrev pub has_tag : SubscriptionAttentionTag → List SubscriptionAttentionTag → Bool
has_tag t tags = any (same Attention-discrete t) tags

abbrev pub unique_tags : List SubscriptionAttentionTag → Bool
unique_tags [] = true
unique_tags (t ∷ tags) = not (has_tag t tags) && unique_tags tags

unfoldable pub validate_attention_tags : List SubscriptionAttentionTag → RepositoryResult Unit
validate_attention_tags tags = guard (unique_tags tags) (invalid_input "attention_tags")

unfoldable pub validate_payload_media_kind :
    SubscriptionMediaKind → SubscriptionPayload → RepositoryResult Unit
validate_payload_media_kind kind payload =
    guard (not (same Media-discrete kind movie && is_some payload.tv)) (invalid_input "payload.tv")

-- `SubscriptionProjection::validate_against`
unfoldable pub validate_against :
    SubscriptionProjection → SubscriptionPayload → RepositoryResult Unit
validate_against projection payload = do
  expected ← from_source payload.source
  guard (same Projection-discrete projection expected) corrupt_data

-- `SubscriptionDetail::try_new`, with `SubscriptionSummary::validate`.
unfoldable pub detail_validate : (List ℕ → List ℕ) → SubscriptionDetail → RepositoryResult Unit
unfolding validate_attention_tags validate_payload_media_kind validate_against
detail_validate sha256 d = do
  head_validate d.head
  validate_attention_tags d.attention_tags
  validate_for sha256 d.head.key.account_key d.head.key.subject_id d.payload
  validate_payload_media_kind d.head.media_kind d.payload
  validate_against d.projection d.payload

unfoldable pub Key-discrete : Discrete SubscriptionKey
unfolding ℕ_discrete
Key-discrete = hlevel ℕ_discrete

unfoldable pub OptionText-discrete : Discrete (Option Text)
unfolding ℕ_discrete
OptionText-discrete = hlevel ℕ_discrete

unfoldable pub OptionNumber-discrete : Discrete (Option ℕ)
unfolding ℕ_discrete
OptionNumber-discrete = hlevel ℕ_discrete

unfoldable pub Tags-discrete : Discrete (List SubscriptionAttentionTag)
Tags-discrete = hlevel

unfoldable pub Token-discrete : Discrete ExecutionAttemptToken
unfolding ℕ_discrete
Token-discrete = hlevel ℕ_discrete
