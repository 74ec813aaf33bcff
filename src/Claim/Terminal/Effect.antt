-- ===== src/Claim/Terminal/Effect.antt =====
-- What a finish and a failure make of the row: its lifecycle, its schedule, its retries and its issues.
use tmdb_mteam_hub.Common.{
  ℕ, ◌+◌, ◌≡◌, refl, sym, ap, subst, ◌∙◌, List, [], ◌∷◌, ◌++◌, Bool, true, false, not,
  if◌then◌else◌, ltb, leb, Option, none, some, any, retain, same, same_iff, ok, guard, >>=-eq-ok,
  ok-injective, arith,
}
use tmdb_mteam_hub.Model.{
  SubscriptionLifecycleState, queued, searching, downloading, linking, completed,
}
use tmdb_mteam_hub.Repository.Operation.{
  Operation-discrete, for_lifecycle, ExecutionAttemptToken, FinishExecutionDisposition, meta_ready,
  search_waiting, search_pushed, progress_pending, progress_downloaded, link_pending_download,
  link_planned, link_more_required, link_completed, disposition_operation, next_lifecycle,
  next_delay, operation_label, u32_max,
}
use tmdb_mteam_hub.Repository.Errors.{invalid_input}
use tmdb_mteam_hub.Repository.Payload.{Issue}
use tmdb_mteam_hub.Repository.Source.{from_source}
use tmdb_mteam_hub.Repository.Delta.{ExecutionPayloadDelta, validate_execution_result_operation}
use tmdb_mteam_hub.Repository.Head.{SubscriptionDetail, retries_exhausted}
use tmdb_mteam_hub.Claim.Table.{Row, Db}
use tmdb_mteam_hub.Claim.Load.Decoded.{load-decodes, ControlsOf}
use tmdb_mteam_hub.Claim.Terminal.{where_live, schedule_from_repository_now, set_consume}
use tmdb_mteam_hub.Claim.Terminal.Issues.{
  is_execution_issue, clear_execution_issue, replace_execution_issue,
}
use tmdb_mteam_hub.Claim.Terminal.Operations.{finish_values, fail_values, finish, fail}
use tmdb_mteam_hub.Claim.Terminal.Commands.{
  FinishExecutionCommand, FailExecutionCommand, finish_try_new, retry_schedule,
}
use tmdb_mteam_hub.Claim.Terminal.Inversion.{finish-Settled, fail-Settled}
use tmdb_mteam_hub.Claim.Table.Changes.{Replaces, Written-Replaces}

-- The lifecycle diagram: what a successful attempt may turn a state into.
pub data LifecycleStep : SubscriptionLifecycleState → SubscriptionLifecycleState → Type 0 where
  queued_ready : LifecycleStep queued searching
  meta_is_ready : LifecycleStep SubscriptionLifecycleState.meta searching
  keep_searching : LifecycleStep searching searching
  pushed : LifecycleStep searching downloading
  keep_downloading : LifecycleStep downloading downloading
  downloaded : LifecycleStep downloading linking
  download_again : LifecycleStep linking downloading
  keep_linking : LifecycleStep linking linking
  search_again : LifecycleStep linking searching
  done : LifecycleStep linking completed

lifecycle_step :
    (state : SubscriptionLifecycleState) (d : FinishExecutionDisposition)
    → for_lifecycle state ≡ some (disposition_operation d)
    → LifecycleStep state (next_lifecycle d)
unfolding for_lifecycle disposition_operation next_lifecycle
lifecycle_step queued meta_ready h = queued_ready
lifecycle_step SubscriptionLifecycleState.meta meta_ready h = meta_is_ready
lifecycle_step searching (search_waiting n) h = keep_searching
lifecycle_step searching search_pushed h = pushed
lifecycle_step downloading (progress_pending n) h = keep_downloading
lifecycle_step downloading progress_downloaded h = downloaded
lifecycle_step linking (link_pending_download n) h = download_again
lifecycle_step linking (link_planned n) h = keep_linking
lifecycle_step linking link_more_required h = search_again
lifecycle_step linking link_completed h = done
lifecycle_step state d h = cc

-- The time that a delay sets.
abbrev pub deadline : ℕ → Option ℕ → Option ℕ
deadline now none = none
deadline now (some delay) = some (now + delay)

schedule-deadline :
    (now : ℕ) (delay next : Option ℕ)
    → schedule_from_repository_now now delay ≡ ok next
    → next ≡ deadline now delay
unfolding schedule_from_repository_now
schedule-deadline now none next h = cc
schedule-deadline now (some d) next h = ground arith

retry_schedule-deadline :
    (blocked : Bool) (now delay : ℕ) (next : Option ℕ)
    → retry_schedule blocked now delay ≡ ok next
    → next ≡ (if blocked then none else some (now + delay))
unfolding retry_schedule
retry_schedule-deadline true now delay next h = cc
retry_schedule-deadline false now delay next h = schedule-deadline now (some delay) next h

finish_try_new-operation :
    (token : ExecutionAttemptToken) (d : FinishExecutionDisposition) (delta : ExecutionPayloadDelta)
    (f : FinishExecutionCommand)
    → finish_try_new token d delta ≡ ok f
    → disposition_operation f.disposition ≡ f.token.operation
unfolding finish_try_new validate_execution_result_operation
finish_try_new-operation token d delta f h =
    let (u, e, h1) =
      >>=-eq-ok (validate_execution_result_operation token (disposition_operation d) delta) _ h in
    let (u', e', h2) =
      >>=-eq-ok
        (guard (same Operation-discrete token.operation (disposition_operation d))
          (invalid_input "execution_disposition"))
        _ e in
    let k : token.operation ≡ disposition_operation d =
      (same_iff Operation-discrete token.operation (disposition_operation d)).0 (ground arith) in
    subst (λ x. disposition_operation x.disposition ≡ x.token.operation) (ok-injective h1) (sym k)

any-retain {ℓ} :
    {A : Type ℓ} (p : A → Bool) (xs : List A) → any p (retain (λ x. not (p x)) xs) ≡ false
any-retain p [] = refl
any-retain p (x ∷ xs) = ground (arith, any-retain p xs)

fits_u32 : (n m : ℕ) → ltb n u32_max ≡ true → m ≡ n + 1 → leb m 0xffffffff ≡ true
fits_u32 n m h e = ground arith

-- What a finish makes of the token's row.
abbrev pub Finishes : FinishExecutionCommand → ℕ → Db → Db → Type 0
Finishes f now db db' =
    (r r' : Row) × Replaces f.token.key r r' db db'
    × LifecycleStep r.detail.head.lifecycle_state r'.detail.head.lifecycle_state
    × (r'.detail.head.lifecycle_state ≡ next_lifecycle f.disposition)
    × (r'.detail.head.next_attempt_at ≡ deadline now (next_delay f.disposition))
    × (r'.detail.head.retry_count ≡ 0)
    × (r'.detail.head.retry_blocked ≡ false)
    × (r'.detail.head.force_eligible_once ≡ false)
    × (any (is_execution_issue f.token.operation) r'.detail.payload.issues ≡ false)
    × (from_source r'.detail.payload.source ≡ ok r'.detail.projection)

-- What a failure makes of the token's row.
abbrev pub Fails : FailExecutionCommand → ℕ → Db → Db → Type 0
Fails f now db db' =
    (r r' : Row) × Replaces f.token.key r r' db db'
    × (r'.detail.head.lifecycle_state ≡ r.detail.head.lifecycle_state)
    × (r'.detail.head.retry_count ≡ r.detail.head.retry_count + 1)
    × (leb r'.detail.head.retry_count 0xffffffff ≡ true)
    × (r'.detail.head.retry_blocked
        ≡ retries_exhausted r.detail.head.max_retries r'.detail.head.retry_count)
    × (r'.detail.head.next_attempt_at
        ≡ (if r'.detail.head.retry_blocked then none else some (now + f.retry_after)))
    × (r'.detail.head.force_eligible_once ≡ false)
    × ((kept : List Issue) × (new : Issue) × (any (is_execution_issue f.token.operation) kept
          ≡ false)
        × (new.error_type ≡ some f.error_type)
        × (new.message ≡ f.message)
        × (new.occurred_at ≡ some now)
        × (new.operation ≡ some (operation_label f.token.operation))
        × (r'.detail.payload.issues ≡ kept ++ new ∷ []))

module _ (sha256 : List ℕ → List ℕ) (now : ℕ) (db db' : Db) (detail : SubscriptionDetail) where
  -- A finish that commits moves the row of its token along the lifecycle diagram, to the state of the
  -- command's disposition. It sets the schedule from the disposition's delay, clears the retries and
  -- the forced turn, and leaves no issue of the operation; the projection is that of the new source.
  pub finish-Effect :
      (token : ExecutionAttemptToken) (d : FinishExecutionDisposition)
      (delta : ExecutionPayloadDelta) (f : FinishExecutionCommand)
      → finish_try_new token d delta ≡ ok f
      → finish sha256 now db f ≡ ok (db', detail)
      → Finishes f now db db'
  unfolding set_consume finish_values clear_execution_issue
  finish-Effect token d delta f valid h =
      let (c, s, (applied, projection, next, e1, e2, e3, ec)) =
        finish-Settled sha256 now db db' detail f h in
      let r = s.written.0 in
      let (found, found', others) =
        Written-Replaces f.token.key (where_live s.current now) (set_consume c now) db db'
          (λ x. refl) s.written in
      let (p, at, same_detail, of_controls) =
        load-decodes sha256 db.rows f.token.key s.stored s.loads in
      let (running', o, i, l, k, op) = subst (ControlsOf p.detail.head p) s.live.0 of_controls in
      let same_row : p ≡ r = cc in
      let state : for_lifecycle r.detail.head.lifecycle_state
          ≡ some (disposition_operation f.disposition) =
        ap (λ x. for_lifecycle x.detail.head.lifecycle_state) (sym same_row)
        ∙ op
        ∙ ap (λ t. some t.operation) s.live.1
        ∙ ap some (sym (finish_try_new-operation token d delta f valid)) in
      let lifecycle : c.lifecycle_state ≡ next_lifecycle f.disposition =
        ap (λ x. x.lifecycle_state) ec in
      (
        r,
        set_consume c now r,
        (found, found', others),
        subst (LifecycleStep r.detail.head.lifecycle_state) (sym lifecycle)
            (lifecycle_step r.detail.head.lifecycle_state f.disposition state),
        lifecycle,
        ap (λ x. x.next_attempt_at) ec ∙ schedule-deadline now (next_delay f.disposition) next e3,
        ap (λ x. x.retry_count) ec,
        ap (λ x. x.retry_blocked) ec,
        refl,
        ap (λ x. any (is_execution_issue f.token.operation) x.payload.issues) ec
            ∙ any-retain (is_execution_issue f.token.operation) applied.issues,
        ap (λ x. from_source x.payload.source) ec ∙ e2 ∙ ap (λ x. ok x.projection) (sym ec),
      )

  -- A failure that commits keeps the row's lifecycle state and counts one more retry, which fits an
  -- `u32`. When the retries are then exhausted, the row is blocked and has no further schedule;
  -- otherwise its schedule is the command's delay from now. The forced turn is spent, and the issues
  -- of the operation are replaced by one with the command's error type and message.
  pub fail-Effect :
      (f : FailExecutionCommand) → fail sha256 now db f ≡ ok (db', detail) → Fails f now db db'
  unfolding set_consume fail_values replace_execution_issue clear_execution_issue
  fail-Effect f h =
      let (c, s, (applied, projection, next, bound, e1, e2, e3, ec)) =
        fail-Settled sha256 now db db' detail f h in
      let r = s.written.0 in
      let (found, found', others) =
        Written-Replaces f.token.key (where_live s.current now) (set_consume c now) db db'
          (λ x. refl) s.written in
      let (p, at, same_detail, of_controls) =
        load-decodes sha256 db.rows f.token.key s.stored s.loads in
      let before : s.stored.detail ≡ r.detail = cc in
      let count : c.retry_count ≡ r.detail.head.retry_count + 1 =
        ap (λ x. x.retry_count) ec ∙ ap (λ x. x.head.retry_count + 1) before in
      let blocked : c.retry_blocked ≡ retries_exhausted r.detail.head.max_retries c.retry_count =
        ap (λ x. x.retry_blocked) ec
        ∙ ap (λ x. retries_exhausted x.head.max_retries (x.head.retry_count + 1)) before
        ∙ ap (retries_exhausted r.detail.head.max_retries) (sym count) in
      (
        r,
        set_consume c now r,
        (found, found', others),
        ap (λ x. x.lifecycle_state) ec ∙ ap (λ x. x.head.lifecycle_state) before,
        count,
        fits_u32 s.stored.detail.head.retry_count c.retry_count bound (ap (λ x. x.retry_count) ec),
        blocked,
        ap (λ x. x.next_attempt_at) ec
            ∙ retry_schedule-deadline
                (retries_exhausted s.stored.detail.head.max_retries
                  (s.stored.detail.head.retry_count + 1))
                now f.retry_after next e3
            ∙ ap (λ b. if b then none else some (now + f.retry_after))
                (sym (ap (λ x. x.retry_blocked) ec)),
        refl,
        (
          retain (λ i. not (is_execution_issue f.token.operation i)) applied.issues,
          _,
          any-retain (is_execution_issue f.token.operation) applied.issues,
          refl,
          refl,
          refl,
          refl,
          ap (λ x. x.payload.issues) ec,
        ),
      )
