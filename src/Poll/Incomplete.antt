-- ===== src/Poll/Incomplete.antt =====
-- What an incomplete snapshot does to the subscriptions and to the account's row.
use tmdb_mteam_hub.Common.{
  ℕ, ◌≡◌, refl, sym, ap, ◌∙◌, subst, List, true, false, some, none, inl, ok, >>=-eq-ok,
  ok-injective,
}
use tmdb_mteam_hub.Repository.Operation.{SubscriptionKey}
use tmdb_mteam_hub.Repository.Errors.{command_integer}
use tmdb_mteam_hub.Repository.Retry.{next_poll_at}
use tmdb_mteam_hub.Repository.Poll.{RecordIncompleteSnapshotCommand}
use tmdb_mteam_hub.Claim.Table.{Db, find_row}
use tmdb_mteam_hub.Poll.Meta.{
  Meta, Store, TerminalMeta, find_meta, require_current_poll, validate_terminal_time,
}
use tmdb_mteam_hub.Poll.Meta.Rows.{ReplacesMeta, Written-ReplacesMeta}
use tmdb_mteam_hub.Poll.Existing.{PollFenceContext}
use tmdb_mteam_hub.Poll.Seen.{SeenEffects, apply_seen_records}
use tmdb_mteam_hub.Poll.Seen.Rows.{SeenAt}
use tmdb_mteam_hub.Poll.Seen.Loop.{listed, apply_seen_records-Sees}
use tmdb_mteam_hub.Poll.Operations.{
  RecordIncompleteSnapshotResult, set_incomplete, where_open, next_failure, no_effects,
  incomplete_current, record_incomplete_snapshot, consume_poll,
}
use tmdb_mteam_hub.Poll.Fence.{consume_poll-Written, current-count}

-- What an incomplete snapshot that commits has done, step by step.
pub incomplete-Parts :
    (sha256 : List ℕ → List ℕ) (s : Store) (c : RecordIncompleteSnapshotCommand) (t : TerminalMeta)
    (r : Store × RecordIncompleteSnapshotResult)
    → incomplete_current sha256 s c t ≡ ok r
    → (seen : Db × SeenEffects) × (metas : List Meta) × (apply_seen_records sha256 c.account_key
          (record { token = c.token; is_complete = false; fenced_at = c.incomplete_at })
          c.incomplete_at
          s.db
          t.bootstrap_completed
          c.new_record_policy
          c.records
          no_effects
        ≡ ok seen)
      × (consume_poll s.metas c.account_key c.token (
            set_incomplete c
              (next_failure t.failure_count)
              (next_poll_at c.retry_policy c.incomplete_at (next_failure t.failure_count)))
          ≡ ok metas)
      × (record { metas = metas; db = seen.0 } ≡ r.0)
unfolding incomplete_current
incomplete-Parts sha256 s c t r h =
    let (u, e1, h1) = >>=-eq-ok (validate_terminal_time t "incomplete_at" c.incomplete_at) _ h in
    let fence : PollFenceContext = record {
      token = c.token;
      is_complete = false;
      fenced_at = c.incomplete_at;
    } in
    let (seen, e2, h2) =
      >>=-eq-ok
        (apply_seen_records sha256 c.account_key fence c.incomplete_at s.db t.bootstrap_completed
          c.new_record_policy c.records no_effects)
        _ h1 in
    let count = next_failure t.failure_count in
    let next = next_poll_at c.retry_policy c.incomplete_at count in
    let (n, e4, h5) = >>=-eq-ok (command_integer "next_poll_at" next) _ h2 in
    let (metas, e5, h6) =
      >>=-eq-ok (consume_poll s.metas c.account_key c.token (set_incomplete c count next)) _ h5 in
    (seen, metas, e2, e5, ap (λ p. p.0) (ok-injective h6))

-- The account's row after an incomplete snapshot.
abbrev pub Pauses : RecordIncompleteSnapshotCommand → Store → Store → Type 0
Pauses c s s' =
    (m m' : Meta) × (find_meta c.account_key s.metas ≡ some m)
    × ReplacesMeta c.account_key m' s.metas s'.metas
    × (m'.bootstrap_completed ≡ m.bootstrap_completed)
    × (m'.last_poll_success_at ≡ m.last_poll_success_at)
    × (m'.last_complete_snapshot_id ≡ m.last_complete_snapshot_id)
    × (m'.last_incomplete ≡ some (c.incomplete_at, c.observation))
    × (m'.poll_failure_count ≡ next_failure m.poll_failure_count)
    × (m'.next_poll_at
        ≡ next_poll_at c.retry_policy c.incomplete_at (next_failure m.poll_failure_count))
    × (m'.open_snapshot_id ≡ none)

-- An incomplete snapshot that commits: a listed subject has an active row that carries the snapshot's
-- id, and every other row is as it was, so that no row is deactivated. The account's row keeps its
-- bootstrap mark, its last success and its last complete snapshot, records the observation,
-- counts a failure, has its next poll by the backoff for that count, and has no token open.
pub record_incomplete_snapshot-Observes :
    (sha256 : List ℕ → List ℕ) (s s' : Store) (c : RecordIncompleteSnapshotCommand)
    (r : RecordIncompleteSnapshotResult)
    → record_incomplete_snapshot sha256 s c ≡ ok (s', r)
    → ((key : SubscriptionKey)
        → (listed c.account_key key c.records ≡ true → SeenAt key c.token.snapshot_id s'.db.rows)
          × (listed c.account_key key c.records ≡ false
              → find_row key s'.db.rows ≡ find_row key s.db.rows))
      × Pauses c s s'
unfolding record_incomplete_snapshot set_incomplete
record_incomplete_snapshot-Observes sha256 s s' c r h =
    let (a, e, h1) = >>=-eq-ok (command_integer "incomplete_at" c.incomplete_at) _ h in
    let (g, e1, h2) = >>=-eq-ok (command_integer "poll_generation" c.token.generation) _ h1 in
    let (t, e2, h3) = >>=-eq-ok (require_current_poll s.metas c.account_key c.token) _ h2 in
    let (seen, metas, looped, consume, same_store) = incomplete-Parts sha256 s c t (s', r) h3 in
    let fence : PollFenceContext = record {
      token = c.token;
      is_complete = false;
      fenced_at = c.incomplete_at;
    } in
    let rows : seen.0.rows ≡ s'.db.rows = ap (λ x. x.db.rows) same_store in
    let loop = λ (key : SubscriptionKey).
      apply_seen_records-Sees sha256 c.account_key fence c.incomplete_at t.bootstrap_completed
        c.new_record_policy key s.db c.records no_effects seen looped in
    let set =
      set_incomplete c (next_failure t.failure_count)
        (next_poll_at c.retry_policy c.incomplete_at (next_failure t.failure_count)) in
    let w = consume_poll-Written s.metas metas c.account_key c.token set consume in
    let count = current-count s.metas c.account_key c.token w.0 t w.1 e2 in
    (
      λ key. (
        λ k. subst (SeenAt key c.token.snapshot_id) rows ((loop key).0 (inl k)),
        λ k. ap (find_row key) (sym rows) ∙ (loop key).1 k,
      ),
      subst (Pauses c s) same_store (
        w.0,
        set w.0,
        w.1,
        Written-ReplacesMeta c.account_key (where_open c.token) set s.metas metas (λ x. refl) w,
        refl,
        refl,
        refl,
        refl,
        ap next_failure count,
        ap (λ n. next_poll_at c.retry_policy c.incomplete_at (next_failure n)) count,
        refl,
      ),
    )
