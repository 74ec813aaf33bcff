-- ===== src/Claim/Eligible.antt =====
-- What `classify` has tested of a row that it finds eligible
-- (src/storage/subscription_repo/claim.rs).
use tmdb_mteam_hub.Common.{
  ℕ, ◌≡◌, ◌≤◌, refl, sym, ap, true, false, Option, none, some, ok, same_iff, arith,
}
use tmdb_mteam_hub.Repository.Operation.{ExecutionOperation, Operation-discrete, for_lifecycle}
use tmdb_mteam_hub.Repository.Head.{SubscriptionHead, SubscriptionDetail, is_completed}
use tmdb_mteam_hub.Claim.Table.{same_operation}
use tmdb_mteam_hub.Claim.Load.{ExecutionControls, idle, running, StoredSubscription}
use tmdb_mteam_hub.Claim.Classify.{
  ClaimEligibility, expired, forced, normal, eligible, classify, classify_operation,
  classify_controls, classify_idle, eligible_operation,
}

-- A head that a claim may take.
abbrev pub Open : SubscriptionHead → ExecutionOperation → Type 0
Open h operation =
    (h.active ≡ true)
    × (h.schedulable ≡ true)
    × (is_completed h.lifecycle_state ≡ false)
    × (for_lifecycle h.lifecycle_state ≡ some operation)

-- What an eligible row's attempt columns are: nobody runs it, or the attempt does whose lease ended.
abbrev pub Takes : StoredSubscription → ClaimEligibility → ℕ → Type 0
Takes s (expired previous) now = (s.controls ≡ running previous) × (previous.lease_until ≤ now)
Takes s (forced operation) now = s.controls ≡ idle
Takes s (normal operation) now = s.controls ≡ idle

classify_controls-Takes :
    (d : SubscriptionDetail) (operation : ExecutionOperation) (c : ExecutionControls) (now : ℕ)
    (e : ClaimEligibility)
    → classify_controls d operation c now ≡ ok (eligible e)
    → (eligible_operation e ≡ operation) × Takes (record { detail = d; controls = c }) e now
unfolding classify_controls classify_idle eligible_operation
classify_controls-Takes d operation idle now (expired a) h = ground arith
classify_controls-Takes d operation idle now (forced o) h = (ground arith, refl)
classify_controls-Takes d operation idle now (normal o) h = (ground arith, refl)
classify_controls-Takes d operation (running p) now (expired a) h = (
  ground (arith, same_iff Operation-discrete p.token.operation operation),
  (ground arith, ground arith),
)
classify_controls-Takes d operation (running p) now (forced o) h = ground arith
classify_controls-Takes d operation (running p) now (normal o) h = ground arith

classify_operation-Takes :
    (s : StoredSubscription) (expected : Option ExecutionOperation) (now : ℕ) (e : ClaimEligibility)
    → classify_operation s expected now ≡ ok (eligible e)
    → (expected ≡ some (eligible_operation e)) × Takes s e now
unfolding classify_operation
classify_operation-Takes s none now e h = cc
classify_operation-Takes s (some operation) now e h =
    let (same_operation, takes) = classify_controls-Takes s.detail operation s.controls now e h in
    (ap some (sym same_operation), takes)

pub classify-Open :
    (s : StoredSubscription) (now : ℕ) (e : ClaimEligibility)
    → classify s now ≡ ok (eligible e)
    → Open s.detail.head (eligible_operation e) × Takes s e now
unfolding classify
classify-Open s now e h =
    let last : classify_operation s (for_lifecycle s.detail.head.lifecycle_state) now
        ≡ ok (eligible e) =
      ground arith in
    let (operation, takes) =
      classify_operation-Takes s (for_lifecycle s.detail.head.lifecycle_state) now e last in
    ((ground arith, ground arith, ground arith, operation), takes)
