-- ===== src/Backfill.antt =====
-- The repair of titles that were stored before the detail title was: backfill_metadata_titles of
-- src/storage/subscription_repo.rs.
use tmdb_mteam_hub.Common.{
  Bool, List, Option, Text, [], any, err, false, guard, if◌then◌else◌, is_empty, is_none, map, none,
  not, ok, retain, some, trim, ℕ, ◌&&◌, ◌+◌, ◌==◌, ◌>>=◌, ◌>>◌, ◌∷◌,
}
use tmdb_mteam_hub.Repository.Operation.{SubscriptionKey, i64_max}
use tmdb_mteam_hub.Repository.Errors.{
  RepositoryResult, command_integer, corrupt_data, internal, key_try_new,
}
use tmdb_mteam_hub.Repository.Payload.{SubscriptionPayload}
use tmdb_mteam_hub.Repository.Source.{SubscriptionProjection, from_source}
use tmdb_mteam_hub.Repository.Head.{SubscriptionDetail}
use tmdb_mteam_hub.Claim.Table.{
  Db, Row, Update, changed, check_violation, row_key, unique_violation, update_row,
}
use tmdb_mteam_hub.Detail.{load_detail}
pub mod Keeps
mod Examples

-- `length(trim(value)) > 0` in SQL, where `trim` takes spaces away.
abbrev pub has_letters : Text → Bool
has_letters value = any (λ c. not (c == 0x20)) value

abbrev pub is_some_and {ℓ} : {A : Type ℓ} → (A → Bool) → Option A → Bool
is_some_and test none = false
is_some_and test (some a) = test a

-- The WHERE of the candidates.
unfoldable pub lacks_title : Row → Bool
lacks_title r =
    is_none r.detail.payload.source.detail_title
    && is_some_and has_letters r.detail.payload.source.original_title

-- The SET clause: the title, the payload and the revision.
unfoldable pub set_title : SubscriptionProjection → SubscriptionPayload → Row → Row
set_title projection payload r = record r {
  detail = record r.detail {
    head = record r.detail.head { revision = r.detail.head.revision + 1 };
    projection = record r.detail.projection { title = projection.title };
    payload = payload;
  };
}

abbrev pub titled : Text → SubscriptionPayload → SubscriptionPayload
titled title payload = record payload {
  source = record payload.source { detail_title = some title };
}

unfoldable pub expect_title_update : Update → RepositoryResult (List Row)
expect_title_update (changed n rows) = if n == 1 then ok rows else err corrupt_data
expect_title_update unique_violation = err corrupt_data
expect_title_update check_violation = err corrupt_data

-- The write of one title, with the number of changed rows.
unfoldable pub write_title :
    List Row → SubscriptionKey → SubscriptionDetail → Text → RepositoryResult (List Row × ℕ)
unfolding expect_title_update
write_title rows key current title = do
  projection ← from_source (titled title current.payload).source
  rows' ← expect_title_update (
      update_row key (λ r. r.detail.head.revision == current.head.revision)
        (set_title projection (titled title current.payload)) rows)
  ok (rows', 1)

-- `unwrap` of the original title, which the candidates have.
unfoldable pub repair_title :
    List Row → SubscriptionKey → SubscriptionDetail → Option Text → RepositoryResult (List Row × ℕ)
unfolding write_title
repair_title rows key current none = err internal
repair_title rows key current (some original) =
    let repaired = write_title rows key current (trim original) in
    if is_empty (trim original) then ok (rows, 0) else repaired

module _ (sha256 : List ℕ → List ℕ) where
  -- The body of the loop.
  unfoldable pub backfill_one : List Row → SubscriptionKey → RepositoryResult (List Row × ℕ)
  unfolding repair_title
  backfill_one rows candidate = do
    key ← key_try_new candidate.account_key candidate.subject_id
    current ← load_detail sha256 rows key
    revision ← command_integer "revision" current.head.revision
    guard (not (revision == i64_max)) corrupt_data
    repair_title rows key current current.payload.source.original_title

  unfoldable pub backfill_loop : List SubscriptionKey → List Row → RepositoryResult (List Row × ℕ)
  unfolding backfill_one
  backfill_loop [] rows = ok (rows, 0)
  backfill_loop (key ∷ keys) rows = backfill_one rows key >>= λ done.
      backfill_loop keys done.0 >>= λ others. ok (others.0, done.1 + others.1)

  -- `backfill_metadata_titles`
  unfoldable pub backfill_metadata_titles : Db → RepositoryResult (Db × ℕ)
  unfolding lacks_title backfill_loop
  backfill_metadata_titles db = do
    repaired ← backfill_loop (map row_key (retain lacks_title db.rows)) db.rows
    ok (record db { rows = repaired.0 }, repaired.1)
