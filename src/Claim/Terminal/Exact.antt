-- ===== src/Claim/Terminal/Exact.antt =====
-- The exact UPDATE of a live attempt, and the transaction around it, taken apart.
use tmdb_mteam_hub.Common.{
  ℕ, ◌≡◌, refl, ◌∙◌, List, true, ltb, ok, ok-injective, [], ◌∷◌, ◌++◌, subst, >>=-eq-ok, arith,
  same_iff,
}
use tmdb_mteam_hub.Repository.Operation.{SubscriptionKey, ExecutionAttemptToken, Attempt}
use tmdb_mteam_hub.Repository.Errors.{repository_integer}
use tmdb_mteam_hub.Repository.Head.{Token-discrete, SubscriptionDetail}
use tmdb_mteam_hub.Claim.Table.{
  Row, Db, AuditAction, Update, changed, unique_violation, check_violation, update_row,
}
use tmdb_mteam_hub.Claim.Table.Rows.{Written, update_row-Written}
use tmdb_mteam_hub.Claim.Load.{
  StoredSubscription, ExecutionControls, idle, running, load_stored_subscription,
}
use tmdb_mteam_hub.Claim.Persist.{audit}
use tmdb_mteam_hub.Claim.Terminal.{
  require_live_attempt, require_controls, where_live, update_attempt, expect_exact_attempt_update,
}
use tmdb_mteam_hub.Claim.Terminal.Operations.{load_live}

pub update_attempt-Written :
    (key : SubscriptionKey) (current : Attempt) (now : ℕ) (set : Row → Row) (rows rows' : List Row)
    → update_attempt key current now set rows ≡ ok rows'
    → Written key (where_live current now) set rows rows'
unfolding update_attempt expect_exact_attempt_update
update_attempt-Written key current now set rows rows' h =
    go (update_row key (where_live current now) set rows) refl h
  where
    go :
        (u : Update)
        → update_row key (where_live current now) set rows ≡ u
        → expect_exact_attempt_update u ≡ ok rows'
        → Written key (where_live current now) set rows rows'
    go (changed n new) e k =
        update_row-Written key (where_live current now) set rows rows' n (e ∙ ground arith)
          (ground arith)
    go unique_violation e k = cc
    go check_violation e k = cc

-- The row runs the token's attempt, and its lease has not ended.
abbrev pub IsLive : StoredSubscription → ExecutionAttemptToken → ℕ → Attempt → Type 0
IsLive stored token now current =
    (stored.controls ≡ running current)
    × (current.token ≡ token)
    × (ltb now current.lease_until ≡ true)

require_controls-IsLive :
    (controls : ExecutionControls) (token : ExecutionAttemptToken) (now : ℕ) (current : Attempt)
    → require_controls controls token now ≡ ok current
    → (controls ≡ running current) × (current.token ≡ token) × (ltb now current.lease_until ≡ true)
require_controls-IsLive idle token now current h = cc
require_controls-IsLive (running a) token now current h =
    ground (arith, same_iff Token-discrete a.token token)

module _ (sha256 : List ℕ → List ℕ) (now : ℕ) (db : Db) where
  pub load_live-IsLive :
      (token : ExecutionAttemptToken) (stored : StoredSubscription) (current : Attempt)
      → load_live sha256 now db token ≡ ok (stored, current)
      → (load_stored_subscription sha256 db.rows token.key ≡ ok stored)
        × IsLive stored token now current
  unfolding load_live require_live_attempt
  load_live-IsLive token stored current h =
      let (n, e, h1) = >>=-eq-ok (repository_integer now) _ h in
      let (s, e1, h2) = >>=-eq-ok (load_stored_subscription sha256 db.rows token.key) _ h1 in
      let (c, e2, h3) = >>=-eq-ok (require_controls s.controls token now) _ h2 in
      subst
        (λ p.
          (load_stored_subscription sha256 db.rows token.key ≡ ok p.0) × IsLive p.0 token now p.1)
        (ok-injective h3) (e1, require_controls-IsLive s.controls token now c e2)

-- A commit that ends the token's attempt by the SET clause `set`.
pub record Settled (sha256 : List ℕ → List ℕ) (now : ℕ) (token : ExecutionAttemptToken)
    (action : AuditAction) (set : Row → Row) (db db' : Db) (detail : SubscriptionDetail)
    : Type 0 where
  pub stored : StoredSubscription
  pub current : Attempt
  pub loads : load_stored_subscription sha256 db.rows token.key ≡ ok stored
  pub live : IsLive stored token now current
  pub written : Written token.key (where_live current now) set db.rows db'.rows
  pub post : StoredSubscription
  pub reloads : load_stored_subscription sha256 db'.rows token.key ≡ ok post
  pub ended : post.controls ≡ idle
  pub carries : detail ≡ post.detail
  pub logged : db'.logs ≡ db.logs ++ audit action now current post.detail ∷ []
