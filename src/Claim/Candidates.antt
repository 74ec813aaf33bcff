-- ===== src/Claim/Candidates.antt =====
-- The candidate queries against the typed policy `classify`: on a row that loads they agree.
use tmdb_mteam_hub.Common.{
  Option-cases, ℕ, ◌≡◌, refl, sym, subst, List, Bool, true, false, not, ◌&&◌, Option, is_some,
  is_none, Text, same_refl, ok, err, >>=-eq-ok, arith,
}
use tmdb_mteam_hub.Model.{SubscriptionLifecycleState, completed}
use tmdb_mteam_hub.Repository.Operation.{
  ExecutionOperation, Operation-discrete, for_lifecycle, Attempt,
}
use tmdb_mteam_hub.Repository.Errors.{RepositoryResult}
use tmdb_mteam_hub.Repository.Head.{
  SubscriptionHead, SubscriptionDetail, head_validate, is_completed, is_running, detail_validate,
}
use tmdb_mteam_hub.Claim.Table.{Row}
use tmdb_mteam_hub.Claim.Load.{
  StoredSubscription, ExecutionControls, idle, running, decode_row, decode_detail, decode_summary,
  persisted,
}
use tmdb_mteam_hub.Claim.Load.Decoded.{ControlsOf, decode_row-ControlsOf}
use tmdb_mteam_hub.Claim.Classify.{
  Classification, eligible, rejected, classify, classify_operation, classify_controls,
  classify_idle,
}
use tmdb_mteam_hub.Claim.Select.{
  in_account, expired_candidate, force_candidate, due_candidate, CandidateBranch, expired_branch,
  forced_branch, normal_branch, branch_matches,
}

-- What `SubscriptionHead::validate` promises to the queries.
abbrev pub Valid : SubscriptionHead → Type 0
Valid h =
    (h.schedulable ≡ is_none h.blocked_reason)
    × ((is_running h.execution_state ≡ true)
        → (h.active && h.schedulable && not (is_completed h.lifecycle_state)) ≡ true)
    × ((h.force_eligible_once ≡ true) → is_some h.next_attempt_at ≡ true)

head_validate-Valid : (h : SubscriptionHead) → head_validate h ≡ ok tt → Valid h
unfolding head_validate
head_validate-Valid h k = (ground arith, λ r. ground arith, λ f. ground arith)

persisted-ok : (r : RepositoryResult Unit) → persisted r ≡ ok tt → r ≡ ok tt
persisted-ok r h = ground arith

pub completed-none : (s : SubscriptionLifecycleState) → is_completed s ≡ is_none (for_lifecycle s)
unfolding for_lifecycle
completed-none completed = refl
completed-none SubscriptionLifecycleState.queued = refl
completed-none SubscriptionLifecycleState.meta = refl
completed-none SubscriptionLifecycleState.searching = refl
completed-none SubscriptionLifecycleState.downloading = refl
completed-none SubscriptionLifecycleState.linking = refl

-- The row that a branch's query selects.
abbrev pub selects : CandidateBranch → Text → ℕ → Row → Bool
selects expired_branch account now r = expired_candidate account now r
selects forced_branch account now r = force_candidate account r
selects normal_branch account now r = due_candidate account now r

-- The typed policy finds the row eligible in the branch.
abbrev pub is_eligible : CandidateBranch → RepositoryResult Classification → Bool
is_eligible branch (ok (eligible e)) = branch_matches branch e
is_eligible branch (ok (rejected reason)) = false
is_eligible branch (err e) = false

-- `classify` of an idle row.
idle_agrees :
    (branch : CandidateBranch) (account : Text) (now : ℕ) (r : Row)
    (operation : Option ExecutionOperation)
    → Valid r.detail.head
    → ControlsOf r.detail.head r idle
    → for_lifecycle r.detail.head.lifecycle_state ≡ operation
    → in_account account r ≡ true
    → is_eligible branch (classify (record { detail = r.detail; controls = idle }) now)
      ≡ selects branch account now r
unfolding expired_candidate force_candidate due_candidate classify classify_operation
    classify_controls classify_idle branch_matches
idle_agrees expired_branch account now r operation v c e a =
    ground (arith, completed-none r.detail.head.lifecycle_state, Option-cases operation)
idle_agrees forced_branch account now r operation v c e a =
    ground (arith, completed-none r.detail.head.lifecycle_state, Option-cases operation)
idle_agrees normal_branch account now r operation v c e a =
    ground (arith, completed-none r.detail.head.lifecycle_state, Option-cases operation)

-- `classify` of a running row.
running_agrees :
    (branch : CandidateBranch) (account : Text) (now : ℕ) (r : Row) (a : Attempt)
    → Valid r.detail.head
    → ControlsOf r.detail.head r (running a)
    → in_account account r ≡ true
    → is_eligible branch (classify (record { detail = r.detail; controls = running a }) now)
      ≡ selects branch account now r
unfolding expired_candidate force_candidate due_candidate classify classify_operation
    classify_controls branch_matches
running_agrees expired_branch account now r a v c e = ground (
  arith,
  completed-none r.detail.head.lifecycle_state,
  same_refl Operation-discrete a.token.operation,
)
running_agrees forced_branch account now r a v c e = ground (
  arith,
  completed-none r.detail.head.lifecycle_state,
  same_refl Operation-discrete a.token.operation,
)
running_agrees normal_branch account now r a v c e = ground (
  arith,
  completed-none r.detail.head.lifecycle_state,
  same_refl Operation-discrete a.token.operation,
)

loaded_agrees :
    (branch : CandidateBranch) (account : Text) (now : ℕ) (r : Row) (controls : ExecutionControls)
    → Valid r.detail.head
    → ControlsOf r.detail.head r controls
    → in_account account r ≡ true
    → is_eligible branch (classify (record { detail = r.detail; controls = controls }) now)
      ≡ selects branch account now r
loaded_agrees branch account now r idle v c a =
    idle_agrees branch account now r (for_lifecycle r.detail.head.lifecycle_state) v c refl a
loaded_agrees branch account now r (running x) v c a = running_agrees branch account now r x v c a

module _ (sha256 : List ℕ → List ℕ) where
  decode_detail-Valid : (d d' : SubscriptionDetail) → decode_detail sha256 d ≡ ok d' → Valid d.head
  unfolding decode_detail detail_validate
  decode_detail-Valid d d' h =
      let (u, e, h1) = >>=-eq-ok (decode_summary d) _ h in
      let (u1, e1, h2) = >>=-eq-ok (persisted (detail_validate sha256 d)) _ h1 in
      let (u2, e2, h3) =
        >>=-eq-ok (head_validate d.head) _ (persisted-ok (detail_validate sha256 d) e1) in
      head_validate-Valid d.head e2

  pub decode_row-Valid :
      (r : Row) (s : StoredSubscription) → decode_row sha256 r ≡ ok s → Valid r.detail.head
  unfolding decode_row
  decode_row-Valid r s h =
      let (d, e, h1) = >>=-eq-ok (decode_detail sha256 r.detail) _ h in
      decode_detail-Valid r.detail d e

  -- On a row of the account that loads, the candidate query of each branch selects the row exactly if
  -- `classify` finds it eligible in that branch: the queries and the typed policy never disagree.
  pub classify-candidate :
      (branch : CandidateBranch) (account : Text) (now : ℕ) (r : Row) (s : StoredSubscription)
      → decode_row sha256 r ≡ ok s
      → in_account account r ≡ true
      → is_eligible branch (classify s now) ≡ selects branch account now r
  classify-candidate branch account now r s h a =
      let (same_detail, controls) = decode_row-ControlsOf sha256 r s h in
      subst
        (λ d.
          is_eligible branch (classify (record { detail = d; controls = s.controls }) now)
          ≡ selects branch account now r)
        (sym same_detail)
        (loaded_agrees branch account now r s.controls (decode_row-Valid r s h) controls a)
