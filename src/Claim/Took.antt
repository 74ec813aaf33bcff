-- ===== src/Claim/Took.antt =====
-- What the UPDATE of a claim has tested: who ran the row before.
use tmdb_mteam_hub.Common.{
  ℕ, zero, suc, ◌+◌, ◌≡◌, refl, ap, subst, ◌≤◌, List, Bool, true, false, if◌then◌else◌, ◌==◌,
  Option, none, some, is_some, Text, text_eq, ok, err, >>=-eq-ok, ok-injective, arith, Bool-cases,
  inl, inr,
}
use tmdb_mteam_hub.Model.{SubscriptionExecutionState}
use tmdb_mteam_hub.Repository.Operation.{SubscriptionKey, ExecutionOperation, Attempt}
use tmdb_mteam_hub.Repository.Errors.{RepositoryResult, internal}
use tmdb_mteam_hub.Claim.Table.{Row, Update, changed, unique_violation, check_violation, row_key}
use tmdb_mteam_hub.Claim.Table.Rows.{Written, update_row-Written}
use tmdb_mteam_hub.Claim.Table.Changes.{IsFree}
use tmdb_mteam_hub.Claim.Columns.{
  is_text-eq, is_number-eq, same_operation-eq, is_running-eq, not_running,
}
use tmdb_mteam_hub.Claim.Load.{ExecutionControls, idle, running}
use tmdb_mteam_hub.Claim.Persist.{running_attempt}
use tmdb_mteam_hub.Claim.Update.{
  absolute_time, set_claim, where_idle, set_reclaim, runs_attempt, where_expired, claim_update,
  is_previous, allocated, allocate,
}

-- The row of a claim before it: nobody runs it, or an attempt does whose lease has ended, and whose
-- id is not the new one.
abbrev pub Before : ℕ → Text → Option Attempt → Row → Type 0
Before now id none r = IsFree r
Before now id (some a) r =
    (r.detail.head.execution_state ≡ SubscriptionExecutionState.running)
    × (r.claimed_operation ≡ some a.token.operation)
    × (r.attempt_id ≡ some a.token.attempt_id)
    × (r.lease_until ≡ some a.lease_until)
    × (a.lease_until ≤ now)
    × (text_eq a.token.attempt_id id ≡ false)

-- The one UPDATE of a claim, whichever statement makes it.
pub record Took (key : SubscriptionKey) (operation : ExecutionOperation) (previous : Option Attempt)
    (lease now : ℕ) (rows rows' : List Row) (id : Text) : Type 0 where
  pub where_clause : Row → Bool
  pub set : Row → Row
  pub written : Written key where_clause set rows rows'
  pub before : is_previous previous id ≡ false → Before now id previous written.0
  pub keeps : (r : Row) → row_key (set r) ≡ row_key r
  pub next : (r : Row) → (set r).detail.head.revision ≡ r.detail.head.revision + 1
  pub ids :
      (r : Row)
      → ((set r).claimed_operation ≡ some operation)
        × ((set r).attempt_id ≡ some id)
        × ((set r).lease_until ≡ some lease)

is_none-eq : {A : Type 0} (o : Option A) → is_some o ≡ false → o ≡ none
is_none-eq none h = refl
is_none-eq (some a) h = cc

where_idle-IsFree : (revision : ℕ) (r : Row) → where_idle revision r ≡ true → IsFree r
unfolding where_idle
where_idle-IsFree revision r h = (
  not_running r.detail.head.execution_state (ground arith),
  is_none-eq r.claimed_operation (ground arith),
  is_none-eq r.attempt_id (ground arith),
  is_none-eq r.lease_until (ground arith),
)

where_expired-Before :
    (revision : ℕ) (a : Attempt) (now : ℕ) (id : Text) (r : Row)
    → where_expired revision a now r ≡ true
    → text_eq a.token.attempt_id id ≡ false
    → Before now id (some a) r
unfolding where_expired runs_attempt
where_expired-Before revision a now id r h ne = (
  is_running-eq r.detail.head.execution_state (ground arith),
  same_operation-eq r.claimed_operation a.token.operation (ground arith),
  is_text-eq r.attempt_id a.token.attempt_id (ground arith),
  is_number-eq r.lease_until a.lease_until (ground arith),
  ground arith,
  ne,
)

pub claim_update-Took :
    (key : SubscriptionKey) (revision : ℕ) (operation : ExecutionOperation)
    (previous : Option Attempt) (lease now : ℕ) (rows rows' : List Row) (id : Text) (n : ℕ)
    → claim_update key revision operation previous lease now rows id ≡ changed n rows'
    → (n == 1) ≡ true
    → Took key operation previous lease now rows rows' id
unfolding claim_update set_claim set_reclaim
claim_update-Took key revision operation none lease now rows rows' id n h k =
    let w =
      update_row-Written key (where_idle revision) (set_claim operation id lease now) rows rows' n h
        k in
    record {
      where_clause = where_idle revision;
      set = set_claim operation id lease now;
      written = w;
      before = λ ne. where_idle-IsFree revision w.0 w.2;
      keeps = λ r. refl;
      next = λ r. refl;
      ids = λ r. (refl, refl, refl);
    }
claim_update-Took key revision operation (some a) lease now rows rows' id n h k =
    let w =
      update_row-Written key (where_expired revision a now) (set_reclaim operation id lease now)
        rows rows' n h k in
    record {
      where_clause = where_expired revision a now;
      set = set_reclaim operation id lease now;
      written = w;
      before = λ ne. where_expired-Before revision a now id w.0 w.2 ne;
      keeps = λ r. refl;
      next = λ r. refl;
      ids = λ r. (refl, refl, refl);
    }

-- One UPDATE changed one row, with an id that is not the previous one.
abbrev Chosen : Option Attempt → (Text → Update) → Text × List Row → Type 0
Chosen previous update p =
    (is_previous previous p.0 ≡ false)
    × ((n : ℕ) × (update p.0 ≡ changed n p.1) × ((n == 1) ≡ true))

if-ok :
    (b : Bool) (x p : Text × List Row)
    → (if b then ok x else err internal) ≡ ok p
    → (b ≡ true) × (x ≡ p)
if-ok true x p h = (refl, ok-injective h)
if-ok false x p h = cc

allocated-Chosen :
    (previous : Option Attempt) (update : Text → Update) (id : Text) (p : Text × List Row)
    (next : RepositoryResult (Text × List Row)) (u : Update)
    → is_previous previous id ≡ false
    → update id ≡ u
    → (next ≡ ok p → Chosen previous update p)
    → allocated id next u ≡ ok p
    → Chosen previous update p
unfolding allocated
allocated-Chosen previous update id p next (changed n new) other e rest h =
    let (one, k) = if-ok (n == 1) (id, new) p h in
    subst (Chosen previous update) k (other, (n, e, one))
allocated-Chosen previous update id p next unique_violation other e rest h = rest h
allocated-Chosen previous update id p next check_violation other e rest h = cc

pub allocate-Chosen :
    (ids : ℕ → RepositoryResult Text) (previous : Option Attempt) (update : Text → Update)
    (left round : ℕ) (p : Text × List Row)
    → allocate ids previous update left round ≡ ok p
    → Chosen previous update p
unfolding allocate
allocate-Chosen ids previous update zero round p h = cc
allocate-Chosen ids previous update (suc left) round p h =
    let (id, e, h1) = >>=-eq-ok (ids round) _ h in
    let rest = allocate-Chosen ids previous update left (suc round) p in
    elim (Bool-cases (is_previous previous id)) [
      | inl same_id ↦ rest (ground arith)
      | inr other ↦
          allocated-Chosen previous update id p (allocate ids previous update left (suc round))
            (update id) other refl rest (ground arith)
    ]

pub absolute_time-sum : (now ttl lease : ℕ) → absolute_time now ttl ≡ ok lease → lease ≡ now + ttl
unfolding absolute_time
absolute_time-sum now ttl lease h = ground arith

pub running_attempt-running :
    (controls : ExecutionControls) (a : Attempt)
    → running_attempt controls ≡ ok a
    → controls ≡ running a
running_attempt-running idle a h = cc
running_attempt-running (running b) a h = ap running (ok-injective h)
