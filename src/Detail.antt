-- ===== src/Detail.antt =====
-- An optimistic update of a subscription's detail: update_detail of
-- src/storage/subscription_repo.rs, with its command of src/subscription/repository.rs.
use tmdb_mteam_hub.Common.{
  Bool, List, Option, all, err, guard, if◌then◌else◌, leb, max, none, not, ok, same, some, ℕ, ◌&&◌,
  ◌+◌, ◌==◌, ◌>>=◌, ◌>>◌, ◌||◌,
}
use tmdb_mteam_hub.Model.{SubscriptionAttentionTag}
use tmdb_mteam_hub.Repository.Operation.{SubscriptionKey, i64_max}
use tmdb_mteam_hub.Repository.Errors.{
  RepositoryError, RepositoryResult, check_number, command_integer, corrupt_data,
  execution_gate_conflict, internal, invalid_input, not_found, revision_conflict,
}
use tmdb_mteam_hub.Repository.Payload.{SubscriptionPayload}
use tmdb_mteam_hub.Repository.Payload.Keys.{validate_for}
use tmdb_mteam_hub.Repository.Source.{SubscriptionProjection, from_source}
use tmdb_mteam_hub.Repository.Head.{
  OptionText-discrete, SubscriptionDetail, has_tag, is_running, validate_attention_tags,
  validate_payload_media_kind,
}
use tmdb_mteam_hub.Claim.Table.{
  Db, Row, Update, changed, check_violation, find_row, unique_violation, update_row,
}
use tmdb_mteam_hub.Claim.Load.{decode_detail}
pub mod Swap
pub mod Exclusive
mod Examples

pub record UpdateSubscriptionDetailCommand : Type 0 where
  pub key : SubscriptionKey
  pub expected_revision : ℕ
  pub updated_at : ℕ
  pub attention_tags : List SubscriptionAttentionTag
  pub payload : SubscriptionPayload

-- The SET clause of `UPDATE_DETAIL_SQL`.
unfoldable pub set_detail : UpdateSubscriptionDetailCommand → SubscriptionProjection → Row → Row
set_detail command projection r = record r {
  detail = record r.detail {
    head = record r.detail.head {
      revision = r.detail.head.revision + 1;
      updated_at = max r.detail.head.updated_at command.updated_at;
    };
    projection = projection;
    attention_tags = command.attention_tags;
    payload = command.payload;
  };
}

-- The tags as sets.
unfoldable pub same_tags : List SubscriptionAttentionTag → List SubscriptionAttentionTag → Bool
same_tags a b = all (λ t. has_tag t b) a && all (λ t. has_tag t a) b

-- What a running row does not let go through: other tags, or another reason to skip.
unfoldable pub gate_open : SubscriptionDetail → UpdateSubscriptionDetailCommand → Bool
unfolding same_tags OptionText-discrete
gate_open current command =
    not (is_running current.head.execution_state)
    || (same_tags current.attention_tags command.attention_tags
        && same OptionText-discrete current.payload.skip_reason command.payload.skip_reason)

-- A statement that changed no row.
unfoldable pub resolve_miss : SubscriptionKey → ℕ → Option Row → RepositoryError
resolve_miss key expected none = not_found key
resolve_miss key expected (some r) = revision_conflict key expected r.detail.head.revision

unfoldable pub expect_detail_update :
    SubscriptionKey → ℕ → List Row → Update → RepositoryResult (List Row)
unfolding resolve_miss
expect_detail_update key expected rows unique_violation = err corrupt_data
expect_detail_update key expected rows check_violation = err corrupt_data
expect_detail_update key expected rows (changed n rows') =
    if n == 0
    then err (resolve_miss key expected (find_row key rows))
    else if n == 1
    then ok rows'
    else err internal

module _ (sha256 : List ℕ → List ℕ) where
  -- `UpdateSubscriptionDetailCommand::try_new`
  unfoldable pub update_detail_try_new :
      SubscriptionKey
      → ℕ
      → ℕ
      → List SubscriptionAttentionTag
      → SubscriptionPayload
      → RepositoryResult UpdateSubscriptionDetailCommand
  unfolding validate_attention_tags
  update_detail_try_new key expected at tags payload = do
    validate_for sha256 key.account_key key.subject_id payload
    guard (leb payload.observation.last_seen_at at) (invalid_input "updated_at")
    projection ← from_source payload.source
    validate_attention_tags tags
    ok (record {
      key = key;
      expected_revision = expected;
      updated_at = at;
      attention_tags = tags;
      payload = payload;
    })

  -- `load_detail`
  unfoldable pub load_detail_found :
      SubscriptionKey → Option Row → RepositoryResult SubscriptionDetail
  unfolding decode_detail
  load_detail_found key none = err (not_found key)
  load_detail_found key (some r) = decode_detail sha256 r.detail

  unfoldable pub load_detail : List Row → SubscriptionKey → RepositoryResult SubscriptionDetail
  unfolding load_detail_found
  load_detail rows key = load_detail_found key (find_row key rows)

  -- The transaction, behind the checks of the command.
  unfoldable pub swap_detail :
      Db
      → UpdateSubscriptionDetailCommand
      → SubscriptionProjection
      → RepositoryResult (Db × SubscriptionDetail)
  unfolding load_detail gate_open validate_payload_media_kind expect_detail_update set_detail
  swap_detail db command projection = do
    current ← load_detail db.rows command.key
    guard (current.head.revision == command.expected_revision)
        (revision_conflict command.key command.expected_revision current.head.revision)
    validate_payload_media_kind current.head.media_kind command.payload
    guard (gate_open current command) (execution_gate_conflict command.key)
    rows ← expect_detail_update command.key command.expected_revision db.rows (
        update_row command.key (λ r. r.detail.head.revision == command.expected_revision)
          (set_detail command projection) db.rows)
    detail ← load_detail rows command.key
    ok (record db { rows = rows }, detail)

  -- `update_detail`
  unfoldable pub update_detail :
      Db → UpdateSubscriptionDetailCommand → RepositoryResult (Db × SubscriptionDetail)
  unfolding command_integer check_number swap_detail
  update_detail db command = do
    expected ← command_integer "expected_revision" command.expected_revision
    guard (not (expected == i64_max)) (invalid_input "expected_revision")
    updated ← command_integer "updated_at" command.updated_at
    projection ← from_source command.payload.source
    check_number (command_integer "payload.source.douban_sort_time") projection.douban_sort_time
    swap_detail db command projection
