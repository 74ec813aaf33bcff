-- ===== src/Poll/Terminal.antt =====
-- The terminal writes of a poll as one operation, and what each of them consumes.
use tmdb_mteam_hub.Common.{
  Bool, List, Text, leb, ltb, none, not, ok, some, true, ℕ, ◌&&◌, ◌>>=◌, ◌≡◌,
}
use tmdb_mteam_hub.Repository.Operation.{PollAttemptToken, i64_max}
use tmdb_mteam_hub.Repository.Errors.{RepositoryResult}
use tmdb_mteam_hub.Repository.Poll.{
  ApplyCompleteSnapshotCommand, RecordIncompleteSnapshotCommand, RecordPollFailureCommand,
}
use tmdb_mteam_hub.Poll.Meta.{Meta, Store, find_meta, meta_satisfies, state_version}
use tmdb_mteam_hub.Poll.Meta.Rows.{ReplacesMeta}
use tmdb_mteam_hub.Poll.Operations.{
  apply_complete_snapshot, record_incomplete_snapshot, record_poll_failure,
}

-- A terminal write of a poll.
pub data TerminalPoll : Type 0 where
  failure : RecordPollFailureCommand → TerminalPoll
  incomplete : RecordIncompleteSnapshotCommand → TerminalPoll
  complete : ApplyCompleteSnapshotCommand → TerminalPoll

abbrev pub poll_account : TerminalPoll → Text
poll_account (failure c) = c.account_key
poll_account (incomplete c) = c.account_key
poll_account (complete c) = c.account_key

abbrev pub poll_token : TerminalPoll → PollAttemptToken
poll_token (failure c) = c.token
poll_token (incomplete c) = c.token
poll_token (complete c) = c.token

-- The numbers of the command fit an i64, and a complete snapshot's next poll is not before it.
abbrev pub values_fit : TerminalPoll → Bool
values_fit (failure c) = leb c.failed_at i64_max && leb c.token.generation i64_max
values_fit (incomplete c) = leb c.incomplete_at i64_max && leb c.token.generation i64_max
values_fit (complete c) =
    leb c.completed_at i64_max
    && leb c.next_poll_at i64_max
    && not (ltb c.next_poll_at c.completed_at)
    && leb c.token.generation i64_max

unfoldable pub execute_poll : (List ℕ → List ℕ) → Store → TerminalPoll → RepositoryResult Store
unfolding record_poll_failure record_incomplete_snapshot apply_complete_snapshot
execute_poll sha256 s (failure c) = do r ← record_poll_failure s c; ok r.0
execute_poll sha256 s (incomplete c) = do r ← record_incomplete_snapshot sha256 s c; ok r.0
execute_poll sha256 s (complete c) = do r ← apply_complete_snapshot sha256 s c; ok r.0

-- The account's row had the token open, and has no token open afterwards.
abbrev pub ConsumesPoll : Text → PollAttemptToken → Store → Store → Type 0
ConsumesPoll account token s s' =
    (m m' : Meta) × (find_meta account s.metas ≡ some m)
    × (m.open_poll_generation ≡ some token.generation)
    × (m.open_snapshot_id ≡ some token.snapshot_id)
    × (m.state_version ≡ state_version)
    × (m.poll_generation ≡ token.generation)
    × (meta_satisfies m' ≡ true)
    × (m'.open_poll_generation ≡ none)
    × (m'.open_snapshot_id ≡ none)
    × (m'.poll_generation ≡ m.poll_generation)
    × (m'.state_version ≡ m.state_version)
    × ReplacesMeta account m' s.metas s'.metas
