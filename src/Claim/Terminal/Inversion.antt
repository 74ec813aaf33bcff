-- ===== src/Claim/Terminal/Inversion.antt =====
-- The transactions that end an attempt, taken apart: what a commit has read, tested and written.
use tmdb_mteam_hub.Common.{
  guard-true, ℕ, ◌+◌, ◌≡◌, refl, sym, subst, List, true, ltb, max, Option, ok, guard, >>=-eq-ok,
  ok-injective,
}
use tmdb_mteam_hub.Repository.Operation.{ExecutionAttemptToken, Attempt, next_delay, u32_max}
use tmdb_mteam_hub.Repository.Errors.{corrupt_data, repository_integer}
use tmdb_mteam_hub.Repository.Payload.{SubscriptionPayload}
use tmdb_mteam_hub.Repository.Payload.Keys.{validate_for}
use tmdb_mteam_hub.Repository.Source.{SubscriptionProjection, from_source}
use tmdb_mteam_hub.Repository.Delta.{apply_to_latest}
use tmdb_mteam_hub.Repository.Head.{SubscriptionDetail, retries_exhausted}
use tmdb_mteam_hub.Claim.Table.{Db, AuditAction, finish_attempt, fail_attempt, release_attempt}
use tmdb_mteam_hub.Claim.Load.{
  StoredSubscription, ExecutionControls, idle, running, load_stored_subscription,
}
use tmdb_mteam_hub.Claim.Persist.{verify_preserved_detail}
use tmdb_mteam_hub.Claim.Terminal.{
  update_attempt, next_revision, schedule_from_repository_now, Consumed, set_consume, set_release,
  is_idle, verify_terminal_post_write, verify_immutable_subscription_fields,
  verify_immutable_subscription_head_fields,
}
use tmdb_mteam_hub.Claim.Terminal.Issues.{clear_execution_issue, replace_execution_issue}
use tmdb_mteam_hub.Claim.Terminal.Operations.{
  load_live, consume_attempt, finish, fail, release, verify_released, finish_values, fail_values,
}
use tmdb_mteam_hub.Claim.Terminal.Commands.{
  FinishExecutionCommand, FailExecutionCommand, retry_schedule, check_integer,
}
use tmdb_mteam_hub.Claim.Terminal.Exact.{update_attempt-Written, load_live-IsLive, Settled}

is_idle-idle : (controls : ExecutionControls) → is_idle controls ≡ true → controls ≡ idle
is_idle-idle idle h = refl
is_idle-idle (running a) h = cc

verified-idle :
    (post : StoredSubscription) (before : SubscriptionDetail) (revision updated_at : ℕ)
    (c : Consumed)
    → verify_terminal_post_write post before revision updated_at c ≡ ok tt
    → post.controls ≡ idle
unfolding verify_terminal_post_write
verified-idle post before revision updated_at c h =
    let (u, e, h1) = >>=-eq-ok (verify_immutable_subscription_head_fields before post.detail) _ h in
    let (v, e1, h2) = >>=-eq-ok (guard (is_idle post.controls) corrupt_data) _ h1 in
    is_idle-idle post.controls (guard-true (is_idle post.controls) corrupt_data e1)

module _ (sha256 : List ℕ → List ℕ) (now : ℕ) (db db' : Db) (detail : SubscriptionDetail) where
  pub release-Settled :
      (token : ExecutionAttemptToken)
      → release sha256 now db token ≡ ok (db', detail)
      → Settled sha256 now token release_attempt (set_release now) db db' detail
  unfolding release
  release-Settled token h =
      let (live, e, h1) = >>=-eq-ok (load_live sha256 now db token) _ h in
      let (revision, e1, h2) = >>=-eq-ok (next_revision live.0.detail.head.revision) _ h1 in
      let (lease', e2, h3) = >>=-eq-ok (repository_integer live.1.lease_until) _ h2 in
      let (rows, e3, h4) =
        >>=-eq-ok (update_attempt token.key live.1 now (set_release now) db.rows) _ h3 in
      let (post, e4, h5) = >>=-eq-ok (load_stored_subscription sha256 rows token.key) _ h4 in
      let (u, e5, h6) = >>=-eq-ok (guard (is_idle post.controls) corrupt_data) _ h5 in
      let (u', e6, h7) =
        >>=-eq-ok (verify_released sha256 now db live.0.detail.head post.detail.head revision) _
          h6 in
      let (u'', e7, h8) = >>=-eq-ok (verify_preserved_detail live.0.detail post.detail) _ h7 in
      let (u3, e8, h9) =
        >>=-eq-ok (verify_immutable_subscription_fields live.0.detail post.detail) _ h8 in
      let (loads, is_live) = load_live-IsLive sha256 now db token live.0 live.1 e in
      subst (λ p. Settled sha256 now token release_attempt (set_release now) db p.0 p.1)
        (ok-injective h9)
        (record {
          stored = live.0;
          current = live.1;
          loads = loads;
          live = is_live;
          written = update_attempt-Written token.key live.1 now (set_release now) db.rows rows e3;
          post = post;
          reloads = e4;
          ended = is_idle-idle post.controls (guard-true (is_idle post.controls) corrupt_data e5);
          carries = refl;
          logged = refl;
        })

  consume_attempt-Settled :
      (token : ExecutionAttemptToken) (stored : StoredSubscription) (current : Attempt)
      (revision : ℕ) (c : Consumed) (action : AuditAction)
      → load_live sha256 now db token ≡ ok (stored, current)
      → consume_attempt sha256 now db token.key stored current revision c action ≡ ok (db', detail)
      → (s : Settled sha256 now token action (set_consume c now) db db' detail) × (s.stored
          ≡ stored)
  unfolding consume_attempt
  consume_attempt-Settled token stored current revision c action e h =
      let (lease', e2, h3) = >>=-eq-ok (repository_integer current.lease_until) _ h in
      let (u, e1, h2) = >>=-eq-ok (check_integer c.projection.douban_sort_time) _ h3 in
      let (rows, e3, h4) =
        >>=-eq-ok (update_attempt token.key current now (set_consume c now) db.rows) _ h2 in
      let (post, e4, h5) = >>=-eq-ok (load_stored_subscription sha256 rows token.key) _ h4 in
      let (u', e5, h6) =
        >>=-eq-ok
          (verify_terminal_post_write post stored.detail revision
            (max stored.detail.head.updated_at now) c)
          _ h5 in
      let (loads, is_live) = load_live-IsLive sha256 now db token stored current e in
      subst
        (λ p.
          (s : Settled sha256 now token action (set_consume c now) db p.0 p.1) × (s.stored
            ≡ stored))
        (ok-injective h6)
        (
          record {
            stored = stored;
            current = current;
            loads = loads;
            live = is_live;
            written =
                update_attempt-Written token.key current now (set_consume c now) db.rows rows e3;
            post = post;
            reloads = e4;
            ended =
                verified-idle post stored.detail revision (max stored.detail.head.updated_at now) c
                  e5;
            carries = refl;
            logged = refl;
          },
          refl,
        )

  -- What a finish writes, of the command and the row that it read.
  abbrev pub FinishWrites : FinishExecutionCommand → SubscriptionDetail → Consumed → Type 0
  FinishWrites f before c =
      (applied : SubscriptionPayload) × (projection : SubscriptionProjection) × (next : Option ℕ)
      × (apply_to_latest sha256 f.payload_delta f.token.key before.payload ≡ ok applied)
      × (from_source applied.source ≡ ok projection)
      × (schedule_from_repository_now now (next_delay f.disposition) ≡ ok next)
      × (c
          ≡ finish_values f before (clear_execution_issue applied f.token.operation) projection
              next)

  pub finish-Settled :
      (f : FinishExecutionCommand)
      → finish sha256 now db f ≡ ok (db', detail)
      → (c : Consumed) × (s : Settled sha256 now f.token finish_attempt
          (set_consume c now)
          db
          db'
          detail)
        × FinishWrites f s.stored.detail c
  unfolding finish clear_execution_issue
  finish-Settled f h =
      let (live, e, h1) = >>=-eq-ok (load_live sha256 now db f.token) _ h in
      let (revision, e1, h2) = >>=-eq-ok (next_revision live.0.detail.head.revision) _ h1 in
      let (applied, e2, h3) =
        >>=-eq-ok (apply_to_latest sha256 f.payload_delta f.token.key live.0.detail.payload) _ h2 in
      let (u, e3, h4) =
        >>=-eq-ok
          (validate_for sha256 f.token.key.account_key f.token.key.subject_id
            (clear_execution_issue applied f.token.operation))
          _ h3 in
      let (projection, e4, h5) =
        >>=-eq-ok (from_source (clear_execution_issue applied f.token.operation).source) _ h4 in
      let (next, e5, h6) =
        >>=-eq-ok (schedule_from_repository_now now (next_delay f.disposition)) _ h5 in
      let (u', e6, h7) = >>=-eq-ok (check_integer next) _ h6 in
      let c =
        finish_values f live.0.detail (clear_execution_issue applied f.token.operation) projection
          next in
      let (s, k) = consume_attempt-Settled f.token live.0 live.1 revision c finish_attempt e h7 in
      (
        c,
        s,
        subst (λ st. FinishWrites f st.detail c) (sym k)
            (applied, projection, next, e2, e4, e5, refl),
      )

  -- What a failure writes, of the command and the row that it read.
  abbrev pub FailWrites : FailExecutionCommand → SubscriptionDetail → Consumed → Type 0
  FailWrites f before c =
      (applied : SubscriptionPayload) × (projection : SubscriptionProjection) × (next : Option ℕ)
      × (ltb before.head.retry_count u32_max ≡ true)
      × (apply_to_latest sha256 f.payload_delta f.token.key before.payload ≡ ok applied)
      × (from_source applied.source ≡ ok projection)
      × (retry_schedule (retries_exhausted before.head.max_retries (before.head.retry_count + 1))
            now f.retry_after
          ≡ ok next)
      × (c
          ≡ fail_values before
              (replace_execution_issue applied f.token.operation f.error_type f.message now)
              projection next)

  pub fail-Settled :
      (f : FailExecutionCommand)
      → fail sha256 now db f ≡ ok (db', detail)
      → (c : Consumed) × (s : Settled sha256 now f.token fail_attempt
          (set_consume c now)
          db
          db'
          detail)
        × FailWrites f s.stored.detail c
  unfolding fail replace_execution_issue clear_execution_issue
  fail-Settled f h =
      let (live, e, h1) = >>=-eq-ok (load_live sha256 now db f.token) _ h in
      let before = live.0.detail in
      let (revision, e1, h2) = >>=-eq-ok (next_revision live.0.detail.head.revision) _ h1 in
      let (u, e2, h3) = >>=-eq-ok (guard (ltb before.head.retry_count u32_max) corrupt_data) _ h2 in
      let (next, e3, h4) =
        >>=-eq-ok
          (retry_schedule (retries_exhausted before.head.max_retries (before.head.retry_count + 1))
            now f.retry_after)
          _ h3 in
      let (applied, e4, h5) =
        >>=-eq-ok (apply_to_latest sha256 f.payload_delta f.token.key before.payload) _ h4 in
      let payload = replace_execution_issue applied f.token.operation f.error_type f.message now in
      let (u', e5, h6) =
        >>=-eq-ok (validate_for sha256 f.token.key.account_key f.token.key.subject_id payload) _
          h5 in
      let (projection, e6, h7) = >>=-eq-ok (from_source payload.source) _ h6 in
      let (u'', e7, h8) = >>=-eq-ok (check_integer next) _ h7 in
      let c = fail_values before payload projection next in
      let (s, k) = consume_attempt-Settled f.token live.0 live.1 revision c fail_attempt e h8 in
      (
        c,
        s,
        subst (λ st. FailWrites f st.detail c) (sym k)
            (applied, projection, next, guard-true _ corrupt_data e2, e4, e6, e3, refl),
      )
