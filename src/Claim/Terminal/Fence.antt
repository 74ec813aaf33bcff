-- ===== src/Claim/Terminal/Fence.antt =====
-- The fence of the operations that end an attempt, with the rest of the database.
use tmdb_mteam_hub.Common.{
  ℕ, ◌+◌, ◌≡◌, refl, sym, ap, subst, ◌∙◌, List, true, leb, max, none, ok, err, arith,
}
use tmdb_mteam_hub.Repository.Operation.{ExecutionAttemptToken, Attempt, i64_max}
use tmdb_mteam_hub.Repository.Errors.{RepositoryResult, repository_integer, stale_attempt}
use tmdb_mteam_hub.Repository.Head.{SubscriptionDetail}
use tmdb_mteam_hub.Claim.Table.{
  Row, Db, AuditAction, finish_attempt, fail_attempt, release_attempt, row_key, satisfies_checks,
}
use tmdb_mteam_hub.Claim.Table.Changes.{Holds, IsFree, Replaces, Logs, Written-Replaces}
use tmdb_mteam_hub.Claim.Columns.{is_text-eq, is_number-eq, same_operation-eq, is_running-eq}
use tmdb_mteam_hub.Claim.Load.{StoredSubscription, idle, load_stored_subscription}
use tmdb_mteam_hub.Claim.Load.Decoded.{load-decodes}
use tmdb_mteam_hub.Claim.Persist.{audit}
use tmdb_mteam_hub.Claim.Update.{runs_attempt}
use tmdb_mteam_hub.Claim.Terminal.{where_live, require_live_attempt, set_consume, set_release}
use tmdb_mteam_hub.Claim.Terminal.Operations.{
  Committed, load_live, finish, fail, release, extend_lease,
}
use tmdb_mteam_hub.Claim.Terminal.Commands.{FinishExecutionCommand, FailExecutionCommand}
use tmdb_mteam_hub.Claim.Terminal.Exact.{Settled}
use tmdb_mteam_hub.Claim.Terminal.Inversion.{release-Settled, finish-Settled, fail-Settled}

-- The commands that end an attempt.
pub data TerminalCommand : Type 0 where
  finish_command : FinishExecutionCommand → TerminalCommand
  fail_command : FailExecutionCommand → TerminalCommand
  release_command : ExecutionAttemptToken → TerminalCommand

unfoldable pub token_of : TerminalCommand → ExecutionAttemptToken
token_of (finish_command f) = f.token
token_of (fail_command f) = f.token
token_of (release_command t) = t

unfoldable pub action_of : TerminalCommand → AuditAction
action_of (finish_command f) = finish_attempt
action_of (fail_command f) = fail_attempt
action_of (release_command t) = release_attempt

-- The end of the token's attempt: its row, freed, under the next revision, with an audit entry.
abbrev pub Ends : ExecutionAttemptToken → AuditAction → ℕ → Db → Db → SubscriptionDetail → Type 0
Ends token action now db db' detail =
    (r r' : Row) × Holds token now r
    × IsFree r'
    × (r'.detail.head.revision ≡ r.detail.head.revision + 1)
    × (r'.detail.head.updated_at ≡ max r.detail.head.updated_at now)
    × (r'.detail ≡ detail)
    × (satisfies_checks r' ≡ true)
    × Replaces token.key r r' db db'
    × Logs token action now r' db db'

pub where_live-Holds :
    (a : Attempt) (now : ℕ) (r : Row) → where_live a now r ≡ true → Holds a.token now r
unfolding where_live runs_attempt
where_live-Holds a now r h = (
  is_running-eq r.detail.head.execution_state (ground arith),
  same_operation-eq r.claimed_operation a.token.operation (ground arith),
  is_text-eq r.attempt_id a.token.attempt_id (ground arith),
  (a.lease_until, is_number-eq r.lease_until a.lease_until (ground arith), ground arith),
)

module _ (sha256 : List ℕ → List ℕ) where
  unfoldable pub execute : ℕ → Db → TerminalCommand → RepositoryResult Committed
  execute now db (finish_command f) = finish sha256 now db f
  execute now db (fail_command f) = fail sha256 now db f
  execute now db (release_command t) = release sha256 now db t

  -- A commit of any command: its SET clause frees the row, and gives it the next revision.
  record Ended (now : ℕ) (db db' : Db) (command : TerminalCommand) (detail : SubscriptionDetail)
      : Type 0 where
    set : Row → Row
    settled : Settled sha256 now (token_of command) (action_of command) set db db' detail
    keeps : (r : Row) → row_key (set r) ≡ row_key r
    frees : (r : Row) → IsFree (set r)
    next :
        (r : Row)
        → ((set r).detail.head.revision ≡ r.detail.head.revision + 1)
          × ((set r).detail.head.updated_at ≡ max r.detail.head.updated_at now)

  execute-Ended :
      (now : ℕ) (db db' : Db) (command : TerminalCommand) (detail : SubscriptionDetail)
      → execute now db command ≡ ok (db', detail)
      → Ended now db db' command detail
  unfolding execute token_of action_of set_consume set_release
  execute-Ended now db db' (finish_command f) detail h =
      let (c, s, w) = finish-Settled sha256 now db db' detail f h in
      record {
        set = set_consume c now;
        settled = s;
        keeps = λ r. refl;
        frees = λ r. (refl, refl, refl, refl);
        next = λ r. (refl, refl);
      }
  execute-Ended now db db' (fail_command f) detail h =
      let (c, s, w) = fail-Settled sha256 now db db' detail f h in
      record {
        set = set_consume c now;
        settled = s;
        keeps = λ r. refl;
        frees = λ r. (refl, refl, refl, refl);
        next = λ r. (refl, refl);
      }
  execute-Ended now db db' (release_command t) detail h = record {
    set = set_release now;
    settled = release-Settled sha256 now db db' detail t h;
    keeps = λ r. refl;
    frees = λ r. (refl, refl, refl, refl);
    next = λ r. (refl, refl);
  }

  -- A finish, a failure or a release that commits has found its token's attempt running with a live
  -- lease. It frees that row, under the next revision and a time that does not go back, and the new row
  -- satisfies the CHECK clauses; it writes one audit entry, of the token and the new revision, and leaves every other row as it was.
  pub execute-Exclusive :
      (now : ℕ) (db db' : Db) (command : TerminalCommand) (detail : SubscriptionDetail)
      → execute now db command ≡ ok (db', detail)
      → Ends (token_of command) (action_of command) now db db' detail
  unfolding audit
  execute-Exclusive now db db' command detail h =
      let ended = execute-Ended now db db' command detail h in
      let s = ended.settled in
      let token = token_of command in
      let (controls, of_token, alive) = s.live in
      let r = s.written.0 in
      let (found, found', others) =
        Written-Replaces token.key (where_live s.current now) ended.set db db' ended.keeps
          s.written in
      let (p, at, same_detail, of_controls) =
        load-decodes sha256 db'.rows token.key s.post s.reloads in
      let post_detail : s.post.detail ≡ (ended.set r).detail = cc in
      (
        r,
        ended.set r,
        subst (λ t. Holds t now r) of_token (where_live-Holds s.current now r s.written.2),
        ended.frees r,
        (ended.next r).0,
        (ended.next r).1,
        sym (s.carries ∙ post_detail),
        s.written.3,
        (found, found', others),
        (
          audit (action_of command) now s.current s.post.detail,
          s.logged,
          refl,
          refl,
          ap (λ t. t.attempt_id) of_token,
          ap (λ t. t.operation) of_token,
          ap (λ d. d.head.revision) post_detail,
        ),
      )

  load_live-stale :
      (now : ℕ) (db : Db) (token : ExecutionAttemptToken) (post : StoredSubscription)
      → leb now i64_max ≡ true
      → load_stored_subscription sha256 db.rows token.key ≡ ok post
      → post.controls ≡ idle
      → load_live sha256 now db token ≡ err (stale_attempt token none)
  unfolding load_live repository_integer require_live_attempt
  load_live-stale now db token post h loads ended = rw (h, loads, ended) refl

  -- After a command has ended its token's attempt, a further finish, failure, release or extension
  -- with that token is refused as stale at every clock reading that SQLite can hold.
  pub execute-Stale :
      (now later : ℕ) (db db' : Db) (first second : TerminalCommand) (detail : SubscriptionDetail)
      (ttl : ℕ)
      → execute now db first ≡ ok (db', detail)
      → token_of second ≡ token_of first
      → leb later i64_max ≡ true
      → (execute later db' second ≡ err (stale_attempt (token_of first) none))
        × (extend_lease sha256 later db' (token_of first) ttl
            ≡ err (stale_attempt (token_of first) none))
  unfolding execute token_of finish fail release extend_lease
  execute-Stale now later db db' first second detail ttl h same_token bounded =
      let s = (execute-Ended now db db' first detail h).settled in
      let stale = load_live-stale later db' (token_of first) s.post bounded s.reloads s.ended in
      (refused second (ap (load_live sha256 later db') same_token ∙ stale), rw stale refl)
    where
      refused :
          (c : TerminalCommand)
          → load_live sha256 later db' (token_of c) ≡ err (stale_attempt (token_of first) none)
          → execute later db' c ≡ err (stale_attempt (token_of first) none)
      refused (finish_command f) e = rw e refl
      refused (fail_command f) e = rw e refl
      refused (release_command t) e = rw e refl
