-- ===== src/Claim/Terminal/Extend.antt =====
-- What an extension of a lease has tested and written.
use tmdb_mteam_hub.Common.{
  guard-true, ℕ, ◌+◌, ◌≡◌, refl, ap, subst, ◌<◌, List, true, false, ltb, some, ok, guard, >>=-eq-ok,
  ok-injective, arith, same_iff,
}
use tmdb_mteam_hub.Model.{SubscriptionExecutionState}
use tmdb_mteam_hub.Repository.Operation.{ExecutionAttemptToken, Attempt}
use tmdb_mteam_hub.Repository.Errors.{lease_not_extended, repository_integer}
use tmdb_mteam_hub.Repository.Head.{SubscriptionHead, Token-discrete}
use tmdb_mteam_hub.Claim.Table.{Row, Db, extend_attempt, attempt_taken, satisfies_checks, find_row}
use tmdb_mteam_hub.Claim.Table.Rows.{Written}
use tmdb_mteam_hub.Claim.Table.Changes.{Holds, Replaces, Logs, Written-Replaces}
use tmdb_mteam_hub.Claim.Columns.{is_number-eq}
use tmdb_mteam_hub.Claim.Load.{StoredSubscription, load_stored_subscription}
use tmdb_mteam_hub.Claim.Load.Decoded.{load-decodes}
use tmdb_mteam_hub.Claim.Persist.{audit, running_attempt, verify_preserved_detail}
use tmdb_mteam_hub.Claim.Update.{runs_attempt, absolute_time}
use tmdb_mteam_hub.Claim.Took.{absolute_time-sum}
use tmdb_mteam_hub.Claim.Terminal.{
  where_live, next_revision, set_extend, update_attempt, verify_immutable_subscription_fields,
}
use tmdb_mteam_hub.Claim.Terminal.Operations.{
  append_audit, load_live, verify_extended, commit_extension, extend_lease,
}
use tmdb_mteam_hub.Claim.Terminal.Exact.{update_attempt-Written, load_live-IsLive}
use tmdb_mteam_hub.Claim.Terminal.Fence.{where_live-Holds}

-- An extension of the token's lease to `lease`; the attempt stays the row's.
abbrev pub Extends : ExecutionAttemptToken → ℕ → ℕ → Db → Db → Type 0
Extends token now lease db db' =
    (r r' : Row) × Holds token now r
    × ((old : ℕ) × (r.lease_until ≡ some old) × (old < lease))
    × (r'.lease_until ≡ some lease)
    × (r'.attempt_id ≡ r.attempt_id)
    × (r'.claimed_operation ≡ r.claimed_operation)
    × (r'.detail.head.execution_state ≡ SubscriptionExecutionState.running)
    × (r'.detail.head.lifecycle_state ≡ r.detail.head.lifecycle_state)
    × (r'.detail.payload ≡ r.detail.payload)
    × (r'.detail.head.revision ≡ r.detail.head.revision + 1)
    × (attempt_taken token.key r'.attempt_id db.rows ≡ false)
    × (satisfies_checks r' ≡ true)
    × Replaces token.key r r' db db'
    × Logs token extend_attempt now r' db db'

extended-token :
    (sha256 : List ℕ → List ℕ) (now : ℕ) (db : Db) (token : ExecutionAttemptToken) (lease : ℕ)
    (before after : SubscriptionHead) (kept : Attempt) (revision : ℕ)
    → verify_extended sha256 now db token lease before after kept revision ≡ ok tt
    → kept.token ≡ token
unfolding verify_extended
extended-token sha256 now db token lease before after kept revision h =
    (same_iff Token-discrete kept.token token).0 (ground arith)

lease_of :
    (a : Attempt) (now : ℕ) (r : Row)
    → where_live a now r ≡ true
    → r.lease_until ≡ some a.lease_until
unfolding where_live runs_attempt
lease_of a now r h = is_number-eq r.lease_until a.lease_until (ground arith)

less : (a b : ℕ) → ltb a b ≡ true → a < b
less a b h = ground arith

module _ (sha256 : List ℕ → List ℕ) where
  Written-Extends :
      (now : ℕ) (db : Db) (token : ExecutionAttemptToken) (lease : ℕ) (current kept : Attempt)
      (rows : List Row) (post : StoredSubscription)
      → (w : Written token.key (where_live current now) (set_extend lease now) db.rows rows)
      → current.token ≡ token
      → ltb current.lease_until lease ≡ true
      → load_stored_subscription sha256 rows token.key ≡ ok post
      → kept.token ≡ token
      → Extends token now lease db (append_audit extend_attempt now kept post.detail rows db)
  unfolding set_extend audit
  Written-Extends now db token lease current kept rows post w of_token longer loads kept_token =
      let r = w.0 in
      let r' = set_extend lease now r in
      let db' : Db = append_audit extend_attempt now kept post.detail rows db in
      let held = where_live-Holds current now r w.2 in
      let (p, at, same_detail, of_controls) = load-decodes sha256 rows token.key post loads in
      let replaced =
        Written-Replaces token.key (where_live current now) (set_extend lease now) db db'
          (λ x. refl) w in
      let found' : find_row token.key rows ≡ some r' = replaced.1 in
      let post_detail : post.detail ≡ r'.detail = cc in
      (
        r,
        r',
        subst (λ t. Holds t now r) of_token held,
        (current.lease_until, lease_of current now r w.2, less current.lease_until lease longer),
        refl,
        refl,
        refl,
        held.0,
        refl,
        refl,
        refl,
        w.4,
        w.3,
        replaced,
        (
          audit extend_attempt now kept post.detail,
          refl,
          refl,
          refl,
          ap (λ t. t.attempt_id) kept_token,
          ap (λ t. t.operation) kept_token,
          ap (λ d. d.head.revision) post_detail,
        ),
      )

  commit-Extends :
      (now : ℕ) (db db' : Db) (token : ExecutionAttemptToken) (stored : StoredSubscription)
      (current : Attempt) (lease rev revision : ℕ) (a : Attempt)
      → current.token ≡ token
      → ltb current.lease_until lease ≡ true
      → commit_extension sha256 now db token stored current lease rev ≡ ok (db', revision, a)
      → Extends token now lease db db'
  unfolding commit_extension
  commit-Extends now db db' token stored current lease rev revision a of_token longer h =
      let (rows, e5, h6) =
        >>=-eq-ok (update_attempt token.key current now (set_extend lease now) db.rows) _ h in
      let (post, e6, h7) = >>=-eq-ok (load_stored_subscription sha256 rows token.key) _ h6 in
      let (u1, e7, h8) = >>=-eq-ok (verify_preserved_detail stored.detail post.detail) _ h7 in
      let (u2, e8, h9) =
        >>=-eq-ok (verify_immutable_subscription_fields stored.detail post.detail) _ h8 in
      let (kept, e9, h10) = >>=-eq-ok (running_attempt post.controls) _ h9 in
      let (u3, e10, h11) =
        >>=-eq-ok
          (verify_extended sha256 now db token lease stored.detail.head post.detail.head kept rev) _
          h10 in
      subst (λ p. Extends token now lease db p.0) (ok-injective h11)
        (Written-Extends now db token lease current kept rows post
          (update_attempt-Written token.key current now (set_extend lease now) db.rows rows e5)
          of_token longer e6
          (extended-token sha256 now db token lease stored.detail.head post.detail.head kept rev
            e10))

  -- An extension that commits has found the token's attempt with a live lease, and the new lease, the
  -- clock plus the requested time, ends later than the old one. The row keeps its attempt, its
  -- lifecycle state and its payload, under the next revision; one audit entry is written, and
  -- every other row is as it was.
  pub extend_lease-Extends :
      (now : ℕ) (db db' : Db) (token : ExecutionAttemptToken) (ttl revision : ℕ) (a : Attempt)
      → extend_lease sha256 now db token ttl ≡ ok (db', revision, a)
      → Extends token now (now + ttl) db db'
  unfolding extend_lease
  extend_lease-Extends now db db' token ttl revision a h =
      let (live, e, h1) = >>=-eq-ok (load_live sha256 now db token) _ h in
      let (lease, e1, h2) = >>=-eq-ok (absolute_time now ttl) _ h1 in
      let (u, e2, h3) =
        >>=-eq-ok
          (guard (ltb live.1.lease_until lease) (lease_not_extended token live.1.lease_until lease))
          _ h2 in
      let (rev, e3, h4) = >>=-eq-ok (next_revision live.0.detail.head.revision) _ h3 in
      let (lease', e4, h5) = >>=-eq-ok (repository_integer live.1.lease_until) _ h4 in
      let (loads, (controls, of_token, alive)) =
        load_live-IsLive sha256 now db token live.0 live.1 e in
      subst (λ l. Extends token now l db db') (absolute_time-sum now ttl lease e1)
        (commit-Extends now db db' token live.0 live.1 lease rev revision a of_token
          (guard-true _ _ e2) h5)
