-- ===== src/Claim/Exclusive.antt =====
-- What a claim has tested and written: who ran the row before, and who runs it after.
use tmdb_mteam_hub.Common.{
  some-injective, ℕ, ◌+◌, ◌≡◌, refl, sym, ap, subst, ◌∙◌, List, [], ◌∷◌, ◌++◌, true, false, not,
  ◌&&◌, ◌==◌, Option, some, Text, text_eq, same, ok, guard, >>=-eq-ok, ok-injective,
}
use tmdb_mteam_hub.Model.{SubscriptionExecutionState}
use tmdb_mteam_hub.Repository.Operation.{
  SubscriptionKey, ExecutionOperation, Operation-discrete, Attempt, i64_max, for_lifecycle,
}
use tmdb_mteam_hub.Repository.Errors.{corrupt_data, repository_integer}
use tmdb_mteam_hub.Repository.Head.{SubscriptionDetail, is_running, Key-discrete}
use tmdb_mteam_hub.Claim.Table.{Row, Db, find_row, attempt_taken, satisfies_checks}
use tmdb_mteam_hub.Claim.Table.Rows.{find_row-key}
use tmdb_mteam_hub.Claim.Table.Changes.{Replaces, Logs, Written-Replaces}
use tmdb_mteam_hub.Claim.Load.{StoredSubscription, running, load_stored_subscription}
use tmdb_mteam_hub.Claim.Load.Decoded.{load-decodes, load_key, ControlsOf}
use tmdb_mteam_hub.Claim.Classify.{
  ClaimEligibility, Classification, eligible, rejected, classify, eligible_operation,
  eligible_previous,
}
use tmdb_mteam_hub.Claim.Persist.{
  ClaimDependencies, max_attempt_id_attempts, ClaimedSubscription, claimed_try_new, check_replaced,
  expect_same_operation, verify_claim_head, verify_preserved_detail, running_attempt, audit,
  claim_action, verify_claim, persist_claim, ClaimOneResult, claimed, claim_classified, claim_one,
}
use tmdb_mteam_hub.Claim.Update.{absolute_time, claim_update, is_previous, allocate}
use tmdb_mteam_hub.Claim.Took.{
  Before, Took, claim_update-Took, allocate-Chosen, absolute_time-sum, running_attempt-running,
}

-- A claim of the row of `key`, with a lease of `ttl` seconds.
abbrev pub Claims : SubscriptionKey → ℕ → ℕ → Db → Db → ClaimedSubscription → Type 0
Claims key now ttl db db' c =
    (r r' : Row) × Before now c.attempt.token.attempt_id c.replaced_expired_attempt r
    × (attempt_taken key (some c.attempt.token.attempt_id) db.rows ≡ false)
    × (satisfies_checks r' ≡ true)
    × (r'.detail.head.execution_state ≡ SubscriptionExecutionState.running)
    × (r'.claimed_operation ≡ some c.attempt.token.operation)
    × (r'.attempt_id ≡ some c.attempt.token.attempt_id)
    × (r'.lease_until ≡ some (now + ttl))
    × (c.attempt.lease_until ≡ now + ttl)
    × (c.attempt.token.key ≡ key)
    × (r'.detail.head.revision ≡ r.detail.head.revision + 1)
    × (r'.detail ≡ c.detail)
    × Replaces key r r' db db'
    × Logs c.attempt.token (claim_action c.replaced_expired_attempt) now r' db db'

claimed_try_new-same :
    (detail : SubscriptionDetail) (attempt : Attempt) (replaced : Option Attempt)
    (c : ClaimedSubscription)
    → claimed_try_new detail attempt replaced ≡ ok c
    → record { detail = detail; attempt = attempt; replaced_expired_attempt = replaced } ≡ c
unfolding claimed_try_new
claimed_try_new-same detail attempt replaced c h =
    let (u, e, h1) =
      >>=-eq-ok (guard (same Key-discrete detail.head.key attempt.token.key) corrupt_data) _ h in
    let (u1, e1, h2) =
      >>=-eq-ok (guard (is_running detail.head.execution_state) corrupt_data) _ h1 in
    let (u2, e2, h3) =
      >>=-eq-ok
        (expect_same_operation attempt.token.operation (for_lifecycle detail.head.lifecycle_state))
        _ h2 in
    let (u3, e3, h4) = >>=-eq-ok (check_replaced detail.head attempt replaced) _ h3 in
    ok-injective h4

claimed_pair :
    (p q : Db × ClaimedSubscription)
    → ◌≡◌ {A = Db × ClaimOneResult} (p.0, claimed p.1) (q.0, claimed q.1)
    → p ≡ q
claimed_pair p q h = cc

module _ (sha256 : List ℕ → List ℕ) (deps : ClaimDependencies) where
  taken-Claims :
      (key : SubscriptionKey) (operation : ExecutionOperation) (previous : Option Attempt)
      (lease ttl : ℕ) (db : Db) (rows : List Row) (id : Text) (post : StoredSubscription)
      (current : Attempt)
      → (took : Took key operation previous lease deps.now db.rows rows id)
      → is_previous previous id ≡ false
      → lease ≡ deps.now + ttl
      → load_stored_subscription sha256 rows key ≡ ok post
      → post.controls ≡ running current
      → Claims key deps.now ttl db
          (record {
            rows = rows;
            logs = db.logs ++ audit (claim_action previous) deps.now current post.detail ∷ [];
          })
          (record { detail = post.detail; attempt = current; replaced_expired_attempt = previous })
  unfolding audit
  taken-Claims key operation previous lease ttl db rows id post current took other sum loads runs =
      let r = took.written.0 in
      let r' = took.set r in
      let db' : Db = record {
        rows = rows;
        logs = db.logs ++ audit (claim_action previous) deps.now current post.detail ∷ [];
      } in
      let replaced =
        Written-Replaces key took.where_clause took.set db db' took.keeps took.written in
      let (p, at, same_detail, of_controls) = load-decodes sha256 rows key post loads in
      let (state, o, i, l, k, op) = subst (ControlsOf p.detail.head p) runs of_controls in
      let found' : find_row key rows ≡ some r' = replaced.1 in
      let same_row : p ≡ r' = some-injective at found' in
      let takes : r'.attempt_id ≡ some current.token.attempt_id =
        ap (λ x. x.attempt_id) (sym same_row) ∙ i in
      let same_id : id ≡ current.token.attempt_id = some-injective (took.ids r).1 takes in
      let post_detail : post.detail ≡ r'.detail = same_detail ∙ ap (λ x. x.detail) same_row in
      (
        r,
        r',
        subst (λ t. Before deps.now t previous r) same_id (took.before other),
        ap (λ x. attempt_taken key x db.rows) (sym takes) ∙ took.written.4,
        took.written.3,
        ap (λ x. x.detail.head.execution_state) (sym same_row) ∙ state,
        ap (λ x. x.claimed_operation) (sym same_row) ∙ o,
        takes,
        (took.ids r).2 ∙ ap some sum,
        some-injective (ap (λ x. x.lease_until) (sym same_row) ∙ l) ((took.ids r).2 ∙ ap some sum),
        k ∙ find_row-key key rows p at,
        took.next r,
        sym post_detail,
        replaced,
        (
          audit (claim_action previous) deps.now current post.detail,
          refl,
          refl,
          refl,
          refl,
          refl,
          ap (λ d. d.head.revision) post_detail,
        ),
      )

  committed :
      (key : SubscriptionKey) (ttl : ℕ) (db db0 db' : Db) (c0 c' c : ClaimedSubscription)
      (previous : Option Attempt)
      → Claims key deps.now ttl db db0 c0
      → c0 ≡ c'
      → ◌≡◌ {A = Db × ClaimedSubscription} (db0, c') (db', c)
      → c0.replaced_expired_attempt ≡ previous
      → Claims key deps.now ttl db db' c × (c.replaced_expired_attempt ≡ previous)
  committed key ttl db db0 db' c0 c' c previous k e h p =
      subst (λ q. Claims key deps.now ttl db q.0 q.1 × (q.1.replaced_expired_attempt ≡ previous)) h
        (
          subst (Claims key deps.now ttl db db0) e k,
          ap (λ x. x.replaced_expired_attempt) (sym e) ∙ p,
        )

  verify_claim-Claims :
      (db db' : Db) (stored : StoredSubscription) (operation : ExecutionOperation)
      (previous : Option Attempt) (lease ttl : ℕ) (chosen : Text × List Row)
      (c : ClaimedSubscription)
      → Took stored.detail.head.key operation previous lease deps.now db.rows chosen.1 chosen.0
      → is_previous previous chosen.0 ≡ false
      → lease ≡ deps.now + ttl
      → verify_claim sha256 deps db stored operation previous lease chosen ≡ ok (db', c)
      → Claims stored.detail.head.key deps.now ttl db db' c
        × (c.replaced_expired_attempt ≡ previous)
  unfolding verify_claim
  verify_claim-Claims db db' stored operation previous lease ttl chosen c took other sum h =
      let head = stored.detail.head in
      let (post, e4, h4) = >>=-eq-ok (load_stored_subscription sha256 chosen.1 head.key) _ h in
      let (u1, e5, h5) =
        >>=-eq-ok (verify_claim_head head operation deps.now post.detail.head) _ h4 in
      let (u2, e6, h6) = >>=-eq-ok (verify_preserved_detail stored.detail post.detail) _ h5 in
      let (current, e7, h7) = >>=-eq-ok (running_attempt post.controls) _ h6 in
      let (u3, e8, h8) =
        >>=-eq-ok
          (guard
            (text_eq current.token.attempt_id chosen.0
              && same Operation-discrete current.token.operation operation
              && (current.lease_until == lease))
            corrupt_data)
          _ h7 in
      let (c', e9, h9) = >>=-eq-ok (claimed_try_new post.detail current previous) _ h8 in
      let k =
        taken-Claims head.key operation previous lease ttl db chosen.1 chosen.0 post current took
          other sum e4 (running_attempt-running post.controls current e7) in
      committed head.key ttl db _ db' _ c' c previous k
        (claimed_try_new-same post.detail current previous c' e9) (ok-injective h9) refl

  pub persist_claim-Claims :
      (db db' : Db) (stored : StoredSubscription) (e : ClaimEligibility) (ttl : ℕ)
      (c : ClaimedSubscription)
      → persist_claim sha256 deps db stored e ttl ≡ ok (db', c)
      → Claims stored.detail.head.key deps.now ttl db db' c
        × (c.replaced_expired_attempt ≡ eligible_previous e)
  unfolding persist_claim
  persist_claim-Claims db db' stored e ttl c h =
      let head = stored.detail.head in
      let operation = eligible_operation e in
      let previous = eligible_previous e in
      let (rev', e0, h0) = >>=-eq-ok (repository_integer head.revision) _ h in
      let (u, e1, h1) = >>=-eq-ok (guard (not (rev' == i64_max)) corrupt_data) _ h0 in
      let (lease, e2, h2) = >>=-eq-ok (absolute_time deps.now ttl) _ h1 in
      let update = claim_update head.key head.revision operation previous lease deps.now db.rows in
      let (chosen, e3, h3) =
        >>=-eq-ok (allocate deps.attempt_ids previous update max_attempt_id_attempts 0) _ h2 in
      let (other, (n, changed_n, one)) =
        allocate-Chosen deps.attempt_ids previous update max_attempt_id_attempts 0 chosen e3 in
      let took =
        claim_update-Took head.key head.revision operation previous lease deps.now db.rows chosen.1
          chosen.0 n changed_n one in
      verify_claim-Claims db db' stored operation previous lease ttl chosen c took other
        (absolute_time-sum deps.now ttl lease e2) h3

  classified-Claims :
      (db db' : Db) (stored : StoredSubscription) (ttl : ℕ) (classification : Classification)
      (c : ClaimedSubscription)
      → claim_classified sha256 deps db stored ttl classification ≡ ok (db', claimed c)
      → Claims stored.detail.head.key deps.now ttl db db' c
  unfolding claim_classified
  classified-Claims db db' stored ttl (rejected reason) c h = cc
  classified-Claims db db' stored ttl (eligible e) c h =
      let (p, e1, h1) = >>=-eq-ok (persist_claim sha256 deps db stored e ttl) _ h in
      let (k, l) = persist_claim-Claims db p.0 stored e ttl p.1 e1 in
      subst (λ q. Claims stored.detail.head.key deps.now ttl db q.0 q.1)
        (claimed_pair p (db', c) (ok-injective h1)) k

  -- A claim of one subscription that commits has found its row free, or running an attempt whose lease
  -- has ended and whose id is not the new one. No other row has the new attempt's id, and
  -- the new row satisfies the CHECK clauses. Afterwards the
  -- row runs the new attempt until the clock plus the lease time, under the next revision; one
  -- audit entry tells of the attempt, and every other row is as it was.
  pub claim_one-Claims :
      (db db' : Db) (key : SubscriptionKey) (ttl : ℕ) (c : ClaimedSubscription)
      → claim_one sha256 deps db key ttl ≡ ok (db', claimed c)
      → Claims key deps.now ttl db db' c
  unfolding claim_one
  claim_one-Claims db db' key ttl c h =
      let (n, e, h1) = >>=-eq-ok (repository_integer deps.now) _ h in
      let (stored, e1, h2) = >>=-eq-ok (load_stored_subscription sha256 db.rows key) _ h1 in
      let (classification, e2, h3) = >>=-eq-ok (classify stored deps.now) _ h2 in
      subst (λ k. Claims k deps.now ttl db db' c) (load_key sha256 db.rows key stored e1)
        (classified-Claims db db' stored ttl classification c h3)
