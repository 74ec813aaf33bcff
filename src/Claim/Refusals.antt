-- ===== src/Claim/Refusals.antt =====
-- Claims that are refused: the row runs an attempt with a live lease.
use tmdb_mteam_hub.Common.{
  ℕ, ◌≡◌, refl, sym, ap, subst, ◌∙◌, List, true, ltb, leb, some, same_refl, ok, arith,
}
use tmdb_mteam_hub.Model.{SubscriptionExecutionState}
use tmdb_mteam_hub.Repository.Operation.{
  SubscriptionKey, Operation-discrete, for_lifecycle, Attempt, i64_max,
}
use tmdb_mteam_hub.Repository.Errors.{repository_integer}
use tmdb_mteam_hub.Repository.Head.{SubscriptionDetail}
use tmdb_mteam_hub.Claim.Table.{Row, Db}
use tmdb_mteam_hub.Claim.Load.{
  StoredSubscription, ExecutionControls, running, load_stored_subscription,
}
use tmdb_mteam_hub.Claim.Load.Decoded.{ControlsOf, decode_row-ControlsOf, load-row}
use tmdb_mteam_hub.Claim.Candidates.{Valid, decode_row-Valid, completed-none}
use tmdb_mteam_hub.Claim.Classify.{
  rejected, live_attempt, classify, classify_operation, classify_controls,
}
use tmdb_mteam_hub.Claim.Persist.{ClaimDependencies, not_claimed, claim_classified, claim_one}

running_columns :
    (r : Row) (s : StoredSubscription) (a : Attempt)
    → s.detail ≡ r.detail
    → ControlsOf r.detail.head r (running a)
    → (s.detail.head.execution_state ≡ SubscriptionExecutionState.running)
      × (for_lifecycle s.detail.head.lifecycle_state ≡ some a.token.operation)
running_columns r s a same_detail (state, o, i, l, k, op) = (
  ap (λ d. d.head.execution_state) same_detail ∙ state,
  ap (λ d. for_lifecycle d.head.lifecycle_state) same_detail ∙ op,
)

live_rejected :
    (d : SubscriptionDetail) (controls : ExecutionControls) (a : Attempt) (now : ℕ)
    → Valid d.head
    → controls ≡ running a
    → (d.head.execution_state ≡ SubscriptionExecutionState.running)
      × (for_lifecycle d.head.lifecycle_state ≡ some a.token.operation)
    → ltb now a.lease_until ≡ true
    → classify (record { detail = d; controls = controls }) now ≡ ok (rejected (live_attempt a))
unfolding classify classify_operation classify_controls
live_rejected d controls a now v runs columns live =
    ground
      (arith, completed-none d.head.lifecycle_state, same_refl Operation-discrete a.token.operation)

module _ (sha256 : List ℕ → List ℕ) (deps : ClaimDependencies) where
  -- A claim of a subscription whose row runs an attempt with a live lease is refused, with that
  -- attempt, and changes nothing, if the clock's reading fits an `i64`.
  pub claim_one-live :
      (db : Db) (key : SubscriptionKey) (ttl : ℕ) (stored : StoredSubscription) (a : Attempt)
      → leb deps.now i64_max ≡ true
      → load_stored_subscription sha256 db.rows key ≡ ok stored
      → stored.controls ≡ running a
      → ltb deps.now a.lease_until ≡ true
      → claim_one sha256 deps db key ttl ≡ ok (db, not_claimed (live_attempt a))
  unfolding claim_one claim_classified repository_integer
  claim_one-live db key ttl stored a bounded loads runs live =
      rw (bounded, loads, classify_live) refl
    where
      classify_live : classify stored deps.now ≡ ok (rejected (live_attempt a))
      classify_live =
          let (r, found, decoded) = load-row sha256 db.rows key stored loads in
          let (same_detail, controls) = decode_row-ControlsOf sha256 r stored decoded in
          live_rejected stored.detail stored.controls a deps.now
            (subst (λ d. Valid d.head) (sym same_detail) (decode_row-Valid sha256 r stored decoded))
            runs
            (running_columns r stored a same_detail
              (subst (ControlsOf r.detail.head r) runs controls))
            live
