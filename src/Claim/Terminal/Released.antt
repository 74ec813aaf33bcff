-- ===== src/Claim/Terminal/Released.antt =====
-- The row of a released attempt loads, satisfies the CHECK clauses, and passes the checks after the
-- write (src/storage/subscription_repo/claim.rs).
use tmdb_mteam_hub.Common.{
  ℕ, ◌+◌, ◌≡◌, refl, List, Bool, true, false, ltb, leb, ◌==◌, max, none, same_refl, ok, >>=-eq-ok,
  text_eq_refl, arith,
}
use tmdb_mteam_hub.Model.{SubscriptionExecutionState, Lifecycle-discrete, Media-discrete}
use tmdb_mteam_hub.Repository.Operation.{Attempt, Operation-discrete, i64_max}
use tmdb_mteam_hub.Repository.Errors.{repository_integer, revision_try_new}
use tmdb_mteam_hub.Repository.Payload.{Payload-discrete}
use tmdb_mteam_hub.Repository.Source.{Projection-discrete}
use tmdb_mteam_hub.Repository.Head.{
  SubscriptionHead, SubscriptionDetail, head_validate, bool_eq, detail_validate, Key-discrete,
  OptionText-discrete, OptionNumber-discrete, Tags-discrete,
}
use tmdb_mteam_hub.Claim.Table.{
  Row, Db, row_key, satisfies_checks, check_controls, check_each_column, check_together,
}
use tmdb_mteam_hub.Claim.Load.{
  decode_head, decode_summary, decode_detail, decode_controls, decode_row, StoredSubscription,
  ExecutionControls, idle, running,
}
use tmdb_mteam_hub.Claim.Load.Decoded.{ControlsOf}
use tmdb_mteam_hub.Claim.Update.{runs_attempt}
use tmdb_mteam_hub.Claim.Persist.{verify_preserved_detail}
use tmdb_mteam_hub.Claim.Terminal.{
  next_revision, where_live, set_release, verify_immutable_subscription_fields,
  verify_immutable_subscription_head_fields,
}
use tmdb_mteam_hub.Claim.Terminal.Operations.{verify_released}

abbrev pub released_head : ℕ → SubscriptionHead → SubscriptionHead
released_head now h = record h {
  revision = h.revision + 1;
  execution_state = SubscriptionExecutionState.idle;
  updated_at = max h.updated_at now;
}

abbrev pub released_detail : ℕ → SubscriptionDetail → SubscriptionDetail
released_detail now d = record d { head = released_head now d.head }

revision_fits : (n : ℕ) → revision_try_new (n + 1) ≡ ok (n + 1)
unfolding revision_try_new
revision_fits n = ground arith

head_validate-released :
    (now : ℕ) (h : SubscriptionHead)
    → head_validate h ≡ ok tt
    → head_validate (released_head now h) ≡ ok tt
unfolding head_validate
head_validate-released now h k = ground arith

decode_head-validates : (h : SubscriptionHead) → decode_head h ≡ ok tt → head_validate h ≡ ok tt
unfolding decode_head
decode_head-validates h k = ground arith

decode_head-released :
    (now : ℕ) (h : SubscriptionHead)
    → decode_head h ≡ ok tt
    → decode_head (released_head now h) ≡ ok tt
unfolding decode_head
decode_head-released now h k =
    ground (arith, head_validate-released now h, revision_fits h.revision)

decode_summary-released :
    (now : ℕ) (d : SubscriptionDetail)
    → decode_summary d ≡ ok tt
    → decode_summary (released_detail now d) ≡ ok tt
unfolding decode_summary
decode_summary-released now d k =
    ground (arith, decode_head-released now d.head, head_validate-released now d.head)

module _ (sha256 : List ℕ → List ℕ) where
  detail_validate-released :
      (now : ℕ) (d : SubscriptionDetail)
      → detail_validate sha256 d ≡ ok tt
      → detail_validate sha256 (released_detail now d) ≡ ok tt
  unfolding detail_validate
  detail_validate-released now d k = ground (arith, head_validate-released now d.head)

  decode_detail-released :
      (now : ℕ) (d d' : SubscriptionDetail)
      → decode_detail sha256 d ≡ ok d'
      → decode_detail sha256 (released_detail now d) ≡ ok (released_detail now d)
  unfolding decode_detail
  decode_detail-released now d d' k =
      ground (arith, decode_summary-released now d, detail_validate-released now d)

  pub decode_row-released :
      (now : ℕ) (r : Row) (s : StoredSubscription)
      → decode_row sha256 r ≡ ok s
      → decode_row sha256 (set_release now r)
        ≡ ok (record { detail = released_detail now r.detail; controls = idle })
  unfolding decode_row set_release decode_controls
  decode_row-released now r s h =
      let (d, e, h1) = >>=-eq-ok (decode_detail sha256 r.detail) _ h in
      rw (decode_detail-released now r.detail d e) refl

bool_eq_refl : (b : Bool) → bool_eq b b ≡ true
bool_eq_refl true = refl
bool_eq_refl false = refl

number_eq_refl : (n : ℕ) → (n == n) ≡ true
number_eq_refl n = ground arith

pub verify_preserved_detail-released :
    (now : ℕ) (d : SubscriptionDetail) → verify_preserved_detail d (released_detail now d) ≡ ok tt
unfolding verify_preserved_detail
verify_preserved_detail-released now d =
    rw
      (
        same_refl Payload-discrete d.payload,
        same_refl Projection-discrete d.projection,
        same_refl Tags-discrete d.attention_tags,
      )
      refl

pub verify_immutable-released :
    (now : ℕ) (d : SubscriptionDetail)
    → verify_immutable_subscription_fields d (released_detail now d) ≡ ok tt
unfolding verify_immutable_subscription_fields verify_immutable_subscription_head_fields
verify_immutable-released now d = ground (
  arith,
  same_refl Key-discrete d.head.key,
  bool_eq_refl d.head.active,
  same_refl OptionNumber-discrete d.head.inactive_at,
  same_refl OptionText-discrete d.head.last_seen_snapshot_id,
  same_refl Media-discrete d.head.media_kind,
  bool_eq_refl d.head.schedulable,
  same_refl OptionText-discrete d.head.blocked_reason,
  same_refl Projection-discrete d.projection,
)

pub verify_released-holds :
    (sha256 : List ℕ → List ℕ) (now : ℕ) (db : Db) (h : SubscriptionHead)
    → verify_released sha256 now db h (released_head now h) (h.revision + 1) ≡ ok tt
unfolding verify_released
verify_released-holds sha256 now db h = ground (
  arith,
  same_refl Lifecycle-discrete h.lifecycle_state,
  same_refl OptionNumber-discrete h.next_attempt_at,
  bool_eq_refl h.retry_blocked,
  bool_eq_refl h.force_eligible_once,
)

check_each_column-released :
    (now : ℕ) (r : Row) → check_each_column r ≡ true → check_each_column (set_release now r) ≡ true
unfolding check_each_column set_release
check_each_column-released now r h = ground arith

check_controls-released : (now : ℕ) (r : Row) → check_controls (set_release now r) ≡ true
unfolding check_controls set_release
check_controls-released now r = refl

check_together-released :
    (now : ℕ) (r : Row) → check_together r ≡ true → check_together (set_release now r) ≡ true
unfolding check_together set_release
check_together-released now r h = rw (check_controls-released now r) (ground arith)

pub satisfies_checks-released :
    (now : ℕ) (r : Row) → satisfies_checks r ≡ true → satisfies_checks (set_release now r) ≡ true
unfolding satisfies_checks
satisfies_checks-released now r h =
    ground (arith, check_each_column-released now r, check_together-released now r)

pub runs_live :
    (r : Row) (a : Attempt) (now : ℕ)
    → ControlsOf r.detail.head r (running a)
    → ltb now a.lease_until ≡ true
    → where_live a now r ≡ true
unfolding where_live runs_attempt
runs_live r a now (state, o, i, l, k, op) live =
    ground (arith, same_refl Operation-discrete a.token.operation, text_eq_refl a.token.attempt_id)

pub free_id : (now : ℕ) (r : Row) → (set_release now r).attempt_id ≡ none
unfolding set_release
free_id now r = refl

pub same_key : (now : ℕ) (r : Row) → row_key (set_release now r) ≡ row_key r
unfolding set_release
same_key now r = refl

released_detail-set_release :
    (now : ℕ) (r : Row) → (set_release now r).detail ≡ released_detail now r.detail
unfolding set_release
released_detail-set_release now r = refl

pub stored_eq :
    (s : StoredSubscription) (d : SubscriptionDetail) (c : ExecutionControls)
    → s.detail ≡ d
    → s.controls ≡ c
    → s ≡ record { detail = d; controls = c }
stored_eq s d c h k = cc

pub next_revision-fits : (n : ℕ) → leb (n + 1) i64_max ≡ true → next_revision n ≡ ok (n + 1)
unfolding next_revision
next_revision-fits n h = rw (h, revision_fits n) refl

pub integer_fits : (n : ℕ) → leb n i64_max ≡ true → repository_integer n ≡ ok n
unfolding repository_integer
integer_fits n h = rw h refl
