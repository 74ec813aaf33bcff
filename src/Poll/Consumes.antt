-- ===== src/Poll/Consumes.antt =====
-- Every terminal write of a poll that commits consumes the open token.
use tmdb_mteam_hub.Common.{
  >>=-eq-ok, List, Text, ap, false, guard, ltb, not, ok, ok-injective, refl, subst, ℕ, ◌>>=◌, ◌≡◌,
}
use tmdb_mteam_hub.Poll.Terminal.{
  ConsumesPoll, TerminalPoll, complete, execute_poll, failure, incomplete, poll_account, poll_token,
}
use tmdb_mteam_hub.Poll.Fence.{consumed}
use tmdb_mteam_hub.Repository.Operation.{PollAttemptToken}
use tmdb_mteam_hub.Repository.Errors.{RepositoryResult, command_integer, invalid_input}
use tmdb_mteam_hub.Repository.Retry.{next_poll_at}
use tmdb_mteam_hub.Repository.Poll.{
  ApplyCompleteSnapshotCommand, RecordIncompleteSnapshotCommand, RecordPollFailureCommand,
}
use tmdb_mteam_hub.Poll.Meta.{
  Meta, Store, TerminalMeta, require_current_poll, validate_terminal_time,
}
use tmdb_mteam_hub.Poll.Existing.{PollFenceContext}
use tmdb_mteam_hub.Claim.Table.{Db}
use tmdb_mteam_hub.Poll.Seen.{SeenEffects, apply_seen_records}
use tmdb_mteam_hub.Poll.Operations.{
  ApplyCompleteSnapshotResult, RecordIncompleteSnapshotResult, RecordPollFailureResult,
  apply_complete_snapshot, apply_records, consume_poll, incomplete_current, next_failure,
  no_effects, record_incomplete_snapshot, record_poll_failure, set_completed, set_failed,
  set_incomplete,
}

failure-Consumes :
    (s : Store) (c : RecordPollFailureCommand) (r : Store × RecordPollFailureResult)
    → record_poll_failure s c ≡ ok r
    → ConsumesPoll c.account_key c.token s r.0
unfolding record_poll_failure set_failed
failure-Consumes s c r h =
    let (a, e, h1) = >>=-eq-ok (command_integer "failed_at" c.failed_at) _ h in
    let (g, e1, h2) = >>=-eq-ok (command_integer "poll_generation" c.token.generation) _ h1 in
    let (t, e2, h3) = >>=-eq-ok (require_current_poll s.metas c.account_key c.token) _ h2 in
    let (u, e3, h4) = >>=-eq-ok (validate_terminal_time t "failed_at" c.failed_at) _ h3 in
    let count = next_failure t.failure_count in
    let next = next_poll_at c.retry_policy c.failed_at count in
    let (n, e4, h5) = >>=-eq-ok (command_integer "next_poll_at" next) _ h4 in
    let set = set_failed c.failed_at count next c.message in
    let (metas, e5, h6) = >>=-eq-ok (consume_poll s.metas c.account_key c.token set) _ h5 in
    subst (λ p. ConsumesPoll c.account_key c.token s p.0) (ok-injective h6)
      (consumed s (record s { metas = metas }) c.account_key c.token set t
        (λ m. (refl, refl, refl, refl, refl)) e2 e5)

current-Consumes :
    (sha256 : List ℕ → List ℕ) (s : Store) (c : RecordIncompleteSnapshotCommand) (t : TerminalMeta)
    (r : Store × RecordIncompleteSnapshotResult)
    → require_current_poll s.metas c.account_key c.token ≡ ok t
    → incomplete_current sha256 s c t ≡ ok r
    → ConsumesPoll c.account_key c.token s r.0
unfolding incomplete_current set_incomplete
current-Consumes sha256 s c t r current h =
    let (u, e1, h1) = >>=-eq-ok (validate_terminal_time t "incomplete_at" c.incomplete_at) _ h in
    let fence : PollFenceContext = record {
      token = c.token;
      is_complete = false;
      fenced_at = c.incomplete_at;
    } in
    let (seen, e2, h2) =
      >>=-eq-ok
        (apply_seen_records sha256 c.account_key fence c.incomplete_at s.db t.bootstrap_completed
          c.new_record_policy c.records no_effects)
        _ h1 in
    let count = next_failure t.failure_count in
    let next = next_poll_at c.retry_policy c.incomplete_at count in
    let (n, e4, h5) = >>=-eq-ok (command_integer "next_poll_at" next) _ h2 in
    let set = set_incomplete c count next in
    let (metas, e5, h6) = >>=-eq-ok (consume_poll s.metas c.account_key c.token set) _ h5 in
    subst (λ p. ConsumesPoll c.account_key c.token s p.0) (ok-injective h6)
      (consumed s (record { metas = metas; db = seen.0 }) c.account_key c.token set t
        (λ m. (refl, refl, refl, refl, refl)) current e5)

incomplete-Consumes :
    (sha256 : List ℕ → List ℕ) (s : Store) (c : RecordIncompleteSnapshotCommand)
    (r : Store × RecordIncompleteSnapshotResult)
    → record_incomplete_snapshot sha256 s c ≡ ok r
    → ConsumesPoll c.account_key c.token s r.0
unfolding record_incomplete_snapshot
incomplete-Consumes sha256 s c r h =
    let (a, e, h1) = >>=-eq-ok (command_integer "incomplete_at" c.incomplete_at) _ h in
    let (g, e1, h2) = >>=-eq-ok (command_integer "poll_generation" c.token.generation) _ h1 in
    let (t, e2, h3) = >>=-eq-ok (require_current_poll s.metas c.account_key c.token) _ h2 in
    current-Consumes sha256 s c t r e2 h3

-- What a complete snapshot that commits has done, step by step.
pub complete-Parts :
    (sha256 : List ℕ → List ℕ) (s : Store) (c : ApplyCompleteSnapshotCommand)
    (r : Store × ApplyCompleteSnapshotResult)
    → apply_complete_snapshot sha256 s c ≡ ok r
    → (t : TerminalMeta) × (applied : Db × SeenEffects × ℕ) × (metas : List Meta)
      × (require_current_poll s.metas c.account_key c.token ≡ ok t)
      × (apply_records sha256 s.db c t.bootstrap_completed ≡ ok applied)
      × (consume_poll s.metas c.account_key c.token (set_completed c) ≡ ok metas)
      × (record { metas = metas; db = applied.0 } ≡ r.0)
      × (applied.2 ≡ r.1.deactivated)
unfolding apply_complete_snapshot
complete-Parts sha256 s c r h =
    let (a, e, h1) = >>=-eq-ok (command_integer "completed_at" c.completed_at) _ h in
    let (n, e1, h2) = >>=-eq-ok (command_integer "next_poll_at" c.next_poll_at) _ h1 in
    let (u, e2, h3) =
      >>=-eq-ok (guard (not (ltb c.next_poll_at c.completed_at)) (invalid_input "next_poll_at")) _
        h2 in
    let (g, e3, h4) = >>=-eq-ok (command_integer "poll_generation" c.token.generation) _ h3 in
    let (t, e4, h5) = >>=-eq-ok (require_current_poll s.metas c.account_key c.token) _ h4 in
    let (u2, e5, h6) = >>=-eq-ok (validate_terminal_time t "completed_at" c.completed_at) _ h5 in
    let (applied, e6, h7) = >>=-eq-ok (apply_records sha256 s.db c t.bootstrap_completed) _ h6 in
    let (metas, e7, h8) =
      >>=-eq-ok (consume_poll s.metas c.account_key c.token (set_completed c)) _ h7 in
    let same_result = ok-injective h8 in
    (
      t,
      applied,
      metas,
      e4,
      e6,
      e7,
      ap (λ p. p.0) same_result,
      ap (λ p. p.1.deactivated) same_result,
    )

complete-Consumes :
    (sha256 : List ℕ → List ℕ) (s : Store) (c : ApplyCompleteSnapshotCommand)
    (r : Store × ApplyCompleteSnapshotResult)
    → apply_complete_snapshot sha256 s c ≡ ok r
    → ConsumesPoll c.account_key c.token s r.0
unfolding set_completed
complete-Consumes sha256 s c r h =
    let (t, applied, metas, current, run, consume, same_store, same_count) =
      complete-Parts sha256 s c r h in
    subst (ConsumesPoll c.account_key c.token s) same_store (
      consumed s (record { metas = metas; db = applied.0 }) c.account_key c.token (set_completed c)
        t (λ m. (refl, refl, refl, refl, refl)) current consume)

kept :
    {A : Type 0} (account : Text) (token : PollAttemptToken) (s s' : Store)
    (run : RepositoryResult (Store × A))
    → ((r : Store × A) → run ≡ ok r → ConsumesPoll account token s r.0)
    → (do r ← run; ok r.0) ≡ ok s'
    → ConsumesPoll account token s s'
kept account token s s' run consumes h =
    let (r, e, h1) = >>=-eq-ok run _ h in
    subst (ConsumesPoll account token s) (ok-injective h1) (consumes r e)

pub execute_poll-Consumes :
    (sha256 : List ℕ → List ℕ) (s s' : Store) (command : TerminalPoll)
    → execute_poll sha256 s command ≡ ok s'
    → ConsumesPoll (poll_account command) (poll_token command) s s'
unfolding execute_poll
execute_poll-Consumes sha256 s s' (failure c) h =
    kept c.account_key c.token s s' (record_poll_failure s c) (failure-Consumes s c) h
execute_poll-Consumes sha256 s s' (incomplete c) h =
    kept c.account_key c.token s s' (record_incomplete_snapshot sha256 s c)
      (incomplete-Consumes sha256 s c) h
execute_poll-Consumes sha256 s s' (complete c) h =
    kept c.account_key c.token s s' (apply_complete_snapshot sha256 s c)
      (complete-Consumes sha256 s c) h
