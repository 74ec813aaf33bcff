-- ===== src/Poll/Opening.antt =====
-- The begin of an account's poll (src/storage/subscription_repo/poll.rs), in one immediate
-- transaction: an error leaves the tables as they were.
use tmdb_mteam_hub.Common.{
  List, Option, Text, false, guard, leb, max, none, not, ok, some, ℕ, ◌+◌, ◌==◌, ◌>>=◌, ◌>>◌,
}
use tmdb_mteam_hub.Repository.Operation.{PollAttemptToken, i64_max}
use tmdb_mteam_hub.Repository.Errors.{
  RepositoryResult, command_integer, corrupt_data, invalid_input,
}
use tmdb_mteam_hub.Repository.Poll.{BeginPollCommand, poll_generation_try_new}
use tmdb_mteam_hub.Poll.Meta.{
  Meta, Store, find_meta, insert_meta, require_single_write, stable_snapshot_id, state_version,
  update_meta, validate_state_version,
}

-- `load_poll_schedule`: an account without a row was never polled.
unfoldable pub load_poll_schedule : List Meta → Text → Option ℕ
load_poll_schedule metas account = elim (find_meta account metas) [
  | none ↦ none
  | some m ↦ some m.next_poll_at
]

abbrev pub latest : Option ℕ → ℕ → ℕ
latest none bound = bound
latest (some t) bound = max t bound

-- `BeginMeta::validate_command_time`
unfoldable pub validate_command_time : Meta → ℕ → RepositoryResult Unit
unfolding validate_state_version
validate_command_time m at = do
  validate_state_version m.state_version
  guard
      (leb
        (latest m.last_poll_success_at
          (latest m.last_poll_attempt_at (max m.created_at m.updated_at)))
        at)
      (invalid_input "attempted_at")

-- The SET clause of the UPDATE in `begin_poll`.
unfoldable pub set_begun : ℕ → ℕ → Text → Meta → Meta
set_begun at generation snapshot_id m = record m {
  updated_at = max m.updated_at at;
  last_poll_attempt_at = some at;
  poll_generation = generation;
  open_poll_generation = some generation;
  open_snapshot_id = some snapshot_id;
}

-- The row that `begin_poll` inserts for a new account.
unfoldable pub new_meta : Text → ℕ → Text → Meta
new_meta account at snapshot_id = record {
  account_key = account;
  state_version = state_version;
  bootstrap_completed = false;
  created_at = at;
  updated_at = at;
  last_poll_attempt_at = some at;
  last_poll_success_at = none;
  poll_failure_count = 0;
  next_poll_at = at;
  last_poll_error = none;
  poll_generation = 1;
  open_poll_generation = some 1;
  open_snapshot_id = some snapshot_id;
  last_incomplete = none;
  last_complete_snapshot_id = none;
}

-- `BeginPollResult`
pub record BeginPollResult : Type 0 where
  pub token : PollAttemptToken
  pub attempted_at : ℕ

module _ (sha256 : List ℕ → List ℕ) where
  -- The `match` of `begin_poll`: the rows, the generation and the snapshot id.
  unfoldable pub begin_found :
      List Meta → BeginPollCommand → Option Meta → RepositoryResult (List Meta × ℕ × Text)
  unfolding validate_command_time set_begun new_meta
  begin_found metas c none = do
    snapshot_id ← stable_snapshot_id sha256 c.account_key 1
    result ← insert_meta (new_meta c.account_key c.attempted_at snapshot_id) metas
    require_single_write result.0
    ok (result.1, 1, snapshot_id)
  begin_found metas c (some m) = do
    validate_command_time m c.attempted_at
    guard (not (leb i64_max m.poll_generation)) corrupt_data
    snapshot_id ← stable_snapshot_id sha256 c.account_key (m.poll_generation + 1)
    result ←
        update_meta c.account_key (λ x. x.poll_generation == m.poll_generation)
          (set_begun c.attempted_at (m.poll_generation + 1) snapshot_id) metas
    require_single_write result.0
    ok (result.1, m.poll_generation + 1, snapshot_id)

  unfoldable pub begin_poll : Store → BeginPollCommand → RepositoryResult (Store × BeginPollResult)
  unfolding begin_found
  begin_poll s c = do
    at ← command_integer "attempted_at" c.attempted_at
    begun ← begin_found s.metas c (find_meta c.account_key s.metas)
    generation ← poll_generation_try_new begun.1
    ok (
      record s { metas = begun.0 },
      record {
        token = record { generation = generation; snapshot_id = begun.2 };
        attempted_at = c.attempted_at;
      },
    )
