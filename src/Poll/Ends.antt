-- ===== src/Poll/Ends.antt =====
-- A poll that was begun can be ended.
use tmdb_mteam_hub.Poll.Meta.Rows.{KeepsColumns, ReplacesMeta}
use tmdb_mteam_hub.Common.{◌+◌, ◌≡◌, none, some, ok, min}
use tmdb_mteam_hub.Repository.Operation.{u32_max}
use tmdb_mteam_hub.Repository.Retry.{next_poll_at}
use tmdb_mteam_hub.Repository.Poll.{RecordPollFailureCommand}
use tmdb_mteam_hub.Poll.Meta.{Meta, Store, find_meta}
use tmdb_mteam_hub.Poll.Operations.{record_poll_failure}

-- An account's row before and after a failed poll: the failure is counted, the error kept, the next
-- poll set by the policy for the count, and no token is open.
abbrev pub Fails : RecordPollFailureCommand → Meta → Meta → Type 0
Fails end m m'' =
    (m''.poll_failure_count ≡ min (m.poll_failure_count + 1) u32_max)
    × (m''.next_poll_at
        ≡ next_poll_at end.retry_policy end.failed_at (min (m.poll_failure_count + 1) u32_max))
    × (m''.last_poll_error ≡ some end.message)
    × (m''.open_poll_generation ≡ none)
    × (m''.open_snapshot_id ≡ none)
    × (m''.updated_at ≡ end.failed_at)
    × (m''.last_poll_attempt_at ≡ m.last_poll_attempt_at)
    × (m''.poll_generation ≡ m.poll_generation)
    × KeepsColumns m m''

-- What the end of a poll as failed finds and writes: the account's row m becomes m'', and the rows of
-- other accounts and the subscriptions are as they were. The result tells the count and the time.
abbrev pub Failed : RecordPollFailureCommand → Store → Meta → Meta → Store → Type 0
Failed end s' m m'' s'' =
    (find_meta end.account_key s'.metas ≡ some m)
    × (record_poll_failure s' end
        ≡ ok (
          s'',
          record {
            token = end.token;
            failure_count = m''.poll_failure_count;
            next_poll_at = m''.next_poll_at;
          },
        ))
    × Fails end m m''
    × ReplacesMeta end.account_key m'' s'.metas s''.metas
    × (s''.db ≡ s'.db)
