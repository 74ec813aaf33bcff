-- ===== src/Claim/Load/Decoded.antt =====
-- What a row that loads is: the columns themselves, and a consistent set of attempt columns.
use tmdb_mteam_hub.Common.{
  ℕ, ◌≡◌, refl, sym, ap, subst, ◌∙◌, List, Option, none, some, is_some, same_iff, ok, guard,
  >>=-eq-ok, ok-injective, arith, Text,
}
use tmdb_mteam_hub.Model.{SubscriptionExecutionState}
use tmdb_mteam_hub.Repository.Operation.{
  SubscriptionKey, ExecutionOperation, Operation-discrete, for_lifecycle, Attempt,
}
use tmdb_mteam_hub.Repository.Errors.{corrupt_data, attempt_id_try_new, validated_text}
use tmdb_mteam_hub.Repository.Head.{SubscriptionHead, SubscriptionDetail}
use tmdb_mteam_hub.Claim.Table.{Row, find_row}
use tmdb_mteam_hub.Claim.Table.Rows.{find_row-key}
use tmdb_mteam_hub.Claim.Load.{
  persisted, decode_detail, decode_summary, ExecutionControls, idle, running, StoredSubscription,
  expect_operation, decode_running, decode_controls, decode_row, load_found,
  load_stored_subscription, checked_required_text,
}

pub attempt_id_same : (id id' : Text) → persisted (attempt_id_try_new id) ≡ ok id' → id' ≡ id
unfolding attempt_id_try_new validated_text
attempt_id_same id id' h = ground arith

expect_operation-eq :
    (operation : ExecutionOperation) (expected : Option ExecutionOperation)
    → expect_operation operation expected ≡ ok tt
    → expected ≡ some operation
unfolding expect_operation
expect_operation-eq operation none h = cc
expect_operation-eq operation (some o) h = ground (arith, same_iff Operation-discrete operation o)

-- The attempt columns of a row, as the controls tell them.
abbrev pub ControlsOf : SubscriptionHead → Row → ExecutionControls → Type 0
ControlsOf head r idle =
    (head.execution_state ≡ SubscriptionExecutionState.idle)
    × (r.claimed_operation ≡ none)
    × (r.attempt_id ≡ none)
    × (r.lease_until ≡ none)
ControlsOf head r (running a) =
    (head.execution_state ≡ SubscriptionExecutionState.running)
    × (r.claimed_operation ≡ some a.token.operation)
    × (r.attempt_id ≡ some a.token.attempt_id)
    × (r.lease_until ≡ some a.lease_until)
    × (a.token.key ≡ head.key)
    × (for_lifecycle head.lifecycle_state ≡ some a.token.operation)

decode_running-ControlsOf :
    (head : SubscriptionHead) (operation : ExecutionOperation) (id : Text) (lease : ℕ)
    (controls : ExecutionControls)
    → decode_running head operation id lease ≡ ok controls
    → (a : Attempt) × (controls ≡ running a)
      × (a.token.operation ≡ operation)
      × (a.token.attempt_id ≡ id)
      × (a.lease_until ≡ lease)
      × (a.token.key ≡ head.key)
      × (for_lifecycle head.lifecycle_state ≡ some operation)
unfolding decode_running
decode_running-ControlsOf head operation id lease controls h =
    let (u, e, h1) = >>=-eq-ok (checked_required_text id) _ h in
    let (id', e1, h2) = >>=-eq-ok (persisted (attempt_id_try_new id)) _ h1 in
    let (u', e2, h3) =
      >>=-eq-ok (expect_operation operation (for_lifecycle head.lifecycle_state)) _ h2 in
    let (u'', e3, h4) = >>=-eq-ok (guard (is_some head.next_attempt_at) corrupt_data) _ h3 in
    (
      _,
      sym (ok-injective h4),
      refl,
      attempt_id_same id id' e1,
      refl,
      refl,
      expect_operation-eq operation (for_lifecycle head.lifecycle_state) e2,
    )

decode_controls-ControlsOf :
    (head : SubscriptionHead) (r : Row) (state : SubscriptionExecutionState)
    (operation : Option ExecutionOperation) (id : Option Text) (lease : Option ℕ)
    (controls : ExecutionControls)
    → head.execution_state ≡ state
    → r.claimed_operation ≡ operation
    → r.attempt_id ≡ id
    → r.lease_until ≡ lease
    → decode_controls head state operation id lease ≡ ok controls
    → ControlsOf head r controls
unfolding decode_controls
decode_controls-ControlsOf head r SubscriptionExecutionState.idle none none none controls e e1 e2 e3
      h =
    subst (ControlsOf head r) (ok-injective h) (e, e1, e2, e3)
decode_controls-ControlsOf head r SubscriptionExecutionState.running (some o) (some i) (some l)
      controls e e1 e2 e3 h =
    let (a, k, ko, ki, kl, kk, kf) = decode_running-ControlsOf head o i l controls h in
    subst (ControlsOf head r) (sym k) (
      e,
      e1 ∙ ap some (sym ko),
      e2 ∙ ap some (sym ki),
      e3 ∙ ap some (sym kl),
      kk,
      kf ∙ ap some (sym ko),
    )
decode_controls-ControlsOf head r state operation id lease controls e e1 e2 e3 h = cc

module _ (sha256 : List ℕ → List ℕ) where
  pub decode_detail-same : (d d' : SubscriptionDetail) → decode_detail sha256 d ≡ ok d' → d' ≡ d
  unfolding decode_detail
  decode_detail-same d d' h = let (u, e, h1) = >>=-eq-ok (decode_summary d) _ h in ground arith

  pub decode_row-ControlsOf :
      (r : Row) (s : StoredSubscription)
      → decode_row sha256 r ≡ ok s
      → (s.detail ≡ r.detail) × ControlsOf r.detail.head r s.controls
  unfolding decode_row
  decode_row-ControlsOf r s h =
      let (d, e, h1) = >>=-eq-ok (decode_detail sha256 r.detail) _ h in
      let (c, e1, h2) =
        >>=-eq-ok
          (decode_controls d.head d.head.execution_state r.claimed_operation r.attempt_id
            r.lease_until)
          _ h1 in
      let same_detail = decode_detail-same r.detail d e in
      subst (λ p. (p.detail ≡ r.detail) × ControlsOf r.detail.head r p.controls) (ok-injective h2)
        (
          same_detail,
          subst (λ x. ControlsOf x.head r c) same_detail
              (decode_controls-ControlsOf d.head r d.head.execution_state r.claimed_operation
                r.attempt_id r.lease_until c refl refl refl refl e1),
        )

  load_found-decodes :
      (key : SubscriptionKey) (found : Option Row) (s : StoredSubscription)
      → load_found sha256 key found ≡ ok s
      → (r : Row) × (found ≡ some r) × (decode_row sha256 r ≡ ok s)
  unfolding load_found
  load_found-decodes key none s h = cc
  load_found-decodes key (some r) s h = (r, refl, h)

  -- The row that a load that succeeds has decoded.
  pub load-row :
      (rows : List Row) (key : SubscriptionKey) (s : StoredSubscription)
      → load_stored_subscription sha256 rows key ≡ ok s
      → (r : Row) × (find_row key rows ≡ some r) × (decode_row sha256 r ≡ ok s)
  unfolding load_stored_subscription
  load-row rows key s h = load_found-decodes key (find_row key rows) s h

  -- What a load that succeeds has found.
  pub load-decodes :
      (rows : List Row) (key : SubscriptionKey) (s : StoredSubscription)
      → load_stored_subscription sha256 rows key ≡ ok s
      → (r : Row) × (find_row key rows ≡ some r)
        × (s.detail ≡ r.detail)
        × ControlsOf r.detail.head r s.controls
  unfolding load_stored_subscription
  load-decodes rows key s h =
      let (r, e, k) = load_found-decodes key (find_row key rows) s h in
      let (d, c) = decode_row-ControlsOf r s k in (r, e, d, c)

  -- A loaded subscription has the key that it was loaded by.
  pub load_key :
      (rows : List Row) (key : SubscriptionKey) (stored : StoredSubscription)
      → load_stored_subscription sha256 rows key ≡ ok stored
      → stored.detail.head.key ≡ key
  load_key rows key stored h =
      let (r, found, same_detail, controls) = load-decodes rows key stored h in
      ap (λ d. d.head.key) same_detail ∙ find_row-key key rows r found
