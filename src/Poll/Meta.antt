-- ===== src/Poll/Meta.antt =====
-- The table subscription_meta (src/storage/schema_v5.rs) and the open poll token of an account
-- (src/storage/subscription_repo/poll.rs).
pub mod Rows
use tmdb_mteam_hub.Common.{
  ℕ, ◌-◌, ◌^◌, List, [], ◌∷◌, ◌++◌, Bool, true, false, not, ◌&&◌, ◌||◌, if◌then◌else◌, ltb, leb,
  ◌==◌, max, Option, none, some, is_some, is_none, Text, text, text_eq, as_bytes, to_be_bytes, hex,
  length, any, find, same, ok, err, ◌>>=◌, ◌>>◌, guard, ℕ_discrete, String, not_spaces,
}
use tmdb_mteam_hub.Repository.Operation.{PollAttemptToken, u32_max}
use tmdb_mteam_hub.Repository.Errors.{
  RepositoryResult, corrupt_data, internal, invalid_input, stale_poll, validated_text,
}
use tmdb_mteam_hub.Repository.Head.{bool_eq}
use tmdb_mteam_hub.Repository.Poll.{
  IncompleteSnapshotReason, IncompleteSnapshotObservation, poll_generation_try_new,
}
use tmdb_mteam_hub.Claim.Load.{persisted}
use tmdb_mteam_hub.Claim.Table.{Db, at_most, absent_or}

-- A row; `last_incomplete` holds the five columns last_incomplete_*, which are there together.
pub record Meta : Type 0 where
  pub account_key : Text
  pub state_version : ℕ
  pub bootstrap_completed : Bool
  pub created_at : ℕ
  pub updated_at : ℕ
  pub last_poll_attempt_at : Option ℕ
  pub last_poll_success_at : Option ℕ
  pub poll_failure_count : ℕ
  pub next_poll_at : ℕ
  pub last_poll_error : Option Text
  pub poll_generation : ℕ
  pub open_poll_generation : Option ℕ
  pub open_snapshot_id : Option Text
  pub last_incomplete : Option (ℕ × IncompleteSnapshotObservation)
  pub last_complete_snapshot_id : Option Text

-- The tables that a poll reads and writes.
pub record Store : Type 0 where
  pub metas : List Meta
  pub db : Db

-- `STATE_VERSION`
abbrev pub state_version : ℕ
state_version = 1

unfoldable pub find_meta : Text → List Meta → Option Meta
find_meta account metas = find (λ m. text_eq m.account_key account) metas

unfoldable pub write_meta : Text → Meta → List Meta → List Meta
write_meta account new [] = []
write_meta account new (m ∷ metas) =
    let rest = write_meta account new metas in
    if text_eq m.account_key account then new ∷ metas else m ∷ rest

abbrev pub at_least : Option ℕ → ℕ → Bool
at_least none bound = true
at_least (some n) bound = leb bound n

-- The order of the last success against the last attempt, once no poll is open.
unfoldable pub check_success : Meta → Option ℕ → Option ℕ → Bool
check_success m none success = true
check_success m (some attempt) none = true
check_success m (some attempt) (some success) =
    is_some m.open_poll_generation
    || ((m.poll_failure_count == 0) && leb attempt success)
    || (ltb 0 m.poll_failure_count && leb success attempt)

abbrev pub check_open : Option ℕ → ℕ → Bool
check_open none current = true
check_open (some g) current = ltb 0 g && (g == current)

abbrev pub check_error : Option Text → ℕ → Bool
check_error none count = count == 0
check_error (some message) count = ltb 0 count && not_spaces message

-- The CHECK clauses of one column; what numbers and Booleans always satisfy is left out.
unfoldable pub check_meta_columns : Meta → Bool
check_meta_columns m =
    not_spaces m.account_key
    && ltb 0 m.state_version
    && absent_or (ltb 0) m.open_poll_generation
    && absent_or not_spaces m.open_snapshot_id
    && absent_or not_spaces m.last_complete_snapshot_id

-- The CHECK clauses over several columns, in their order.
unfoldable pub check_meta_together : Meta → Bool
unfolding check_success
check_meta_together m =
    leb m.created_at m.updated_at
    && (at_least m.last_poll_attempt_at m.created_at && at_most m.last_poll_attempt_at m.updated_at)
    && (at_least m.last_poll_success_at m.created_at && at_most m.last_poll_success_at m.updated_at)
    && check_success m m.last_poll_attempt_at m.last_poll_success_at
    && bool_eq (is_none m.open_poll_generation) (is_none m.open_snapshot_id)
    && check_open m.open_poll_generation m.poll_generation
    && check_error m.last_poll_error m.poll_failure_count

-- The CHECK clauses of the table.
unfoldable pub meta_satisfies : Meta → Bool
unfolding check_meta_columns check_meta_together
meta_satisfies m = check_meta_columns m && check_meta_together m

-- One UPDATE by the primary key, with the number of changed rows; a violated CHECK is corrupt data.
unfoldable pub update_meta_found :
    Text
    → (Meta → Bool)
    → (Meta → Meta)
    → List Meta
    → Option Meta
    → RepositoryResult (ℕ × List Meta)
update_meta_found account where_clause set metas none = ok (0, metas)
update_meta_found account where_clause set metas (some m) =
    if not (where_clause m)
    then ok (0, metas)
    else if not (meta_satisfies (set m))
    then err corrupt_data
    else ok (1, write_meta account (set m) metas)

unfoldable pub update_meta :
    Text → (Meta → Bool) → (Meta → Meta) → List Meta → RepositoryResult (ℕ × List Meta)
unfolding update_meta_found
update_meta account where_clause set metas =
    update_meta_found account where_clause set metas (find_meta account metas)

-- An INSERT of a row whose key no row has.
unfoldable pub insert_meta : Meta → List Meta → RepositoryResult (ℕ × List Meta)
insert_meta m metas = if meta_satisfies m then ok (1, metas ++ m ∷ []) else err corrupt_data

unfoldable pub validate_state_version : ℕ → RepositoryResult Unit
validate_state_version value = guard (value == state_version) corrupt_data

-- `require_single_write`
unfoldable pub require_single_write : ℕ → RepositoryResult Unit
require_single_write changed = guard (changed == 1) internal

-- `RawTerminalMeta::current_token`, on the columns poll_generation, open_poll_generation and
-- open_snapshot_id.
unfoldable pub token_of_columns :
    ℕ → Option ℕ → Option Text → RepositoryResult (Option PollAttemptToken)
token_of_columns current none none = ok none
token_of_columns current (some generation) (some id) = do
  guard (generation == current) corrupt_data
  generation' ← persisted (poll_generation_try_new generation)
  id' ← persisted (validated_text "snapshot_id" id)
  ok (some (record { generation = generation'; snapshot_id = id' }))
token_of_columns current _ _ = err corrupt_data

unfoldable pub current_token : Meta → RepositoryResult (Option PollAttemptToken)
unfolding token_of_columns
current_token m = token_of_columns m.poll_generation m.open_poll_generation m.open_snapshot_id

unfoldable pub OptionToken-discrete : Discrete (Option PollAttemptToken)
unfolding ℕ_discrete
OptionToken-discrete = hlevel ℕ_discrete

-- `TerminalMeta`
pub record TerminalMeta : Type 0 where
  pub created_at : ℕ
  pub updated_at : ℕ
  pub last_poll_attempt_at : ℕ
  pub failure_count : ℕ
  pub bootstrap_completed : Bool

unfoldable pub terminal_meta : Meta → Option ℕ → RepositoryResult TerminalMeta
terminal_meta m none = err corrupt_data
terminal_meta m (some attempt) = do
  guard (leb m.poll_failure_count u32_max) corrupt_data
  ok (record {
    created_at = m.created_at;
    updated_at = m.updated_at;
    last_poll_attempt_at = attempt;
    failure_count = m.poll_failure_count;
    bootstrap_completed = m.bootstrap_completed;
  })

unfoldable pub require_current_found :
    Text → PollAttemptToken → Option Meta → RepositoryResult TerminalMeta
unfolding current_token terminal_meta validate_state_version
require_current_found account attempted none = err (stale_poll account attempted none)
require_current_found account attempted (some m) = do
  validate_state_version m.state_version
  current ← current_token m
  guard (same OptionToken-discrete current (some attempted)) (stale_poll account attempted current)
  terminal_meta m m.last_poll_attempt_at

-- `require_current_poll`
unfoldable pub require_current_poll :
    List Meta → Text → PollAttemptToken → RepositoryResult TerminalMeta
unfolding require_current_found
require_current_poll metas account attempted =
    require_current_found account attempted (find_meta account metas)

-- `TerminalMeta::validate_terminal_time`
unfoldable pub validate_terminal_time : TerminalMeta → String → ℕ → RepositoryResult Unit
validate_terminal_time m field at =
    guard (leb (max (max m.created_at m.updated_at) m.last_poll_attempt_at) at)
      (invalid_input field)

-- `read_current_token`
unfoldable pub read_current_found : Option Meta → RepositoryResult (Option PollAttemptToken)
unfolding current_token
read_current_found none = ok none
read_current_found (some m) = current_token m

-- `require_consumed`, with the rows after the UPDATE.
unfoldable pub require_consumed : List Meta → ℕ → Text → PollAttemptToken → RepositoryResult Unit
unfolding read_current_found
require_consumed metas changed account attempted =
    if changed == 1
    then ok tt
    else if ltb 1 changed
    then err internal
    else (read_current_found (find_meta account metas) >>= λ current. err (
        if same OptionToken-discrete current (some attempted)
        then internal
        else stale_poll account attempted current))

-- The bytes that `stable_snapshot_id` feeds to the digest: `SNAPSHOT_ID_DOMAIN`, the framed account
-- and the generation.
unfoldable pub snapshot_id_input : Text → ℕ → List ℕ
snapshot_id_input account generation =
    text "tmdb-mteam-hub/wanted-poll-snapshot/v1"
    ++ (0
        ∷ (to_be_bytes (length (as_bytes account)) ++ (as_bytes account ++ to_be_bytes generation)))

unfoldable pub stable_snapshot_id : (List ℕ → List ℕ) → Text → ℕ → RepositoryResult Text
unfolding snapshot_id_input
stable_snapshot_id sha256 account generation =
    validated_text "snapshot_id"
      (text "wanted-poll-v1-" ++ hex (sha256 (snapshot_id_input account generation)))
