-- ===== src/Claim/Due.antt =====
-- `claim_due`: the row that it claims is one of its account.
use tmdb_mteam_hub.Common.{
  ℕ, ◌≡◌, ap, subst, ◌∙◌, List, Bool, true, false, if◌then◌else◌, Option, none, some, Text, Result,
  ok, err, >>=-eq-ok, ok-injective, arith,
}
use tmdb_mteam_hub.Repository.Operation.{SubscriptionKey}
use tmdb_mteam_hub.Repository.Errors.{
  RepositoryResult, RepositoryError, key_try_new, validated_text, repository_integer,
}
use tmdb_mteam_hub.Claim.Table.{Row, Db}
use tmdb_mteam_hub.Claim.Load.{StoredSubscription, persisted, load_stored_subscription}
use tmdb_mteam_hub.Claim.Load.Decoded.{load_key}
use tmdb_mteam_hub.Claim.Classify.{ClaimEligibility, classify}
use tmdb_mteam_hub.Claim.Select.{
  CandidateBranch, expect_branch, first_row, expired_candidate, force_candidate, due_candidate,
  metadata_candidate, lease_order, due_order, load_candidate, select_or_else, select_due_candidate,
  load_metadata, select_metadata, expired_branch, forced_branch, normal_branch,
}
use tmdb_mteam_hub.Claim.Persist.{
  ClaimDependencies, ClaimedSubscription, persist_claim, claim_selected, claim_due,
}
use tmdb_mteam_hub.Claim.Exclusive.{Claims, persist_claim-Claims}

key_try_new-account :
    (account subject : Text) (key : SubscriptionKey)
    → key_try_new account subject ≡ ok key
    → key.account_key ≡ account
unfolding key_try_new validated_text
key_try_new-account account subject key h = ground arith

persisted-eq-ok {ℓ} :
    {A : Type ℓ} (r : Result RepositoryError A) (a : A) → persisted r ≡ ok a → r ≡ ok a
persisted-eq-ok (ok x) a h = h
persisted-eq-ok (err e) a h = cc

module _ (sha256 : List ℕ → List ℕ) (rows : List Row) (account : Text) (now : ℕ) where
  -- A selection in the account.
  abbrev InAccount : Option (StoredSubscription × ClaimEligibility) → Type 0
  InAccount none = Unit
  InAccount (some (stored, e)) = stored.detail.head.key.account_key ≡ account

  abbrev Safe : RepositoryResult (Option (StoredSubscription × ClaimEligibility)) → Type 0
  Safe r = (o : Option (StoredSubscription × ClaimEligibility)) → r ≡ ok o → InAccount o

  stored_account :
      (subject : Text) (key : SubscriptionKey) (stored : StoredSubscription)
      → key_try_new account subject ≡ ok key
      → load_stored_subscription sha256 rows key ≡ ok stored
      → stored.detail.head.key.account_key ≡ account
  stored_account subject key stored h k =
      ap (λ x. x.account_key) (load_key sha256 rows key stored k)
      ∙ key_try_new-account account subject key h

  load_candidate-Safe :
      (branch : CandidateBranch) (r : Row) → Safe (load_candidate sha256 rows account now branch r)
  unfolding load_candidate
  load_candidate-Safe branch r o h =
      let (key, e, h1) =
        >>=-eq-ok (persisted (key_try_new account r.detail.head.key.subject_id)) _ h in
      let (stored, e1, h2) = >>=-eq-ok (load_stored_subscription sha256 rows key) _ h1 in
      let (classification, e2, h3) = >>=-eq-ok (classify stored now) _ h2 in
      let (eligibility, e3, h4) = >>=-eq-ok (expect_branch branch classification) _ h3 in
      subst InAccount (ok-injective h4)
        (stored_account r.detail.head.key.subject_id key stored (persisted-eq-ok _ key e) e1)

  or_else-Safe :
      (branch : CandidateBranch) (found : Option Row)
      (next : RepositoryResult (Option (StoredSubscription × ClaimEligibility)))
      → Safe next
      → Safe (select_or_else sha256 rows account now branch found next)
  unfolding select_or_else
  or_else-Safe branch none next k = k
  or_else-Safe branch (some r) next k = load_candidate-Safe branch r

  select_due-Safe : Safe (select_due_candidate sha256 rows account now)
  unfolding select_due_candidate
  select_due-Safe =
      or_else-Safe expired_branch (first_row (expired_candidate account now) lease_order rows) _ (
        or_else-Safe forced_branch (first_row (force_candidate account) due_order rows) _ (
          or_else-Safe normal_branch (first_row (due_candidate account now) due_order rows)
            (ok none) (λ o h. subst InAccount (ok-injective h) tt)))

  load_metadata-Safe : (found : Option Row) → Safe (load_metadata sha256 rows account now found)
  unfolding load_metadata
  load_metadata-Safe none o h = subst InAccount (ok-injective h) tt
  load_metadata-Safe (some r) o h =
      let (key, e, h1) = >>=-eq-ok (key_try_new account r.detail.head.key.subject_id) _ h in
      let (stored, e1, h2) = >>=-eq-ok (load_stored_subscription sha256 rows key) _ h1 in
      subst InAccount (ok-injective h2)
        (stored_account r.detail.head.key.subject_id key stored e e1)

  select_metadata-Safe : Safe (select_metadata sha256 rows account now)
  unfolding select_metadata
  select_metadata-Safe =
      load_metadata-Safe (first_row (metadata_candidate account now) due_order rows)

  pub selected-Safe :
      (metadata_only : Bool)
      → Safe (
          if metadata_only
          then select_metadata sha256 rows account now
          else select_due_candidate sha256 rows account now)
  selected-Safe true = select_metadata-Safe
  selected-Safe false = select_due-Safe

some_pair :
    (p q : Db × ClaimedSubscription)
    → ◌≡◌ {A = Db × Option ClaimedSubscription} (p.0, some p.1) (q.0, some q.1)
    → p ≡ q
some_pair p q h = cc

module _ (sha256 : List ℕ → List ℕ) (deps : ClaimDependencies) where
  claim_selected-Claims :
      (db db' : Db) (account : Text) (ttl : ℕ)
      (selected : Option (StoredSubscription × ClaimEligibility)) (c : ClaimedSubscription)
      → InAccount sha256 db.rows account deps.now selected
      → claim_selected sha256 deps db ttl selected ≡ ok (db', some c)
      → (key : SubscriptionKey) × (key.account_key ≡ account) × Claims key deps.now ttl db db' c
  unfolding claim_selected
  claim_selected-Claims db db' account ttl none c a h = cc
  claim_selected-Claims db db' account ttl (some (stored, e)) c a h =
      let (p, e1, h1) = >>=-eq-ok (persist_claim sha256 deps db stored e ttl) _ h in
      let (k, l) = persist_claim-Claims sha256 deps db p.0 stored e ttl p.1 e1 in
      (
        stored.detail.head.key,
        a,
        subst (λ q. Claims stored.detail.head.key deps.now ttl db q.0 q.1)
            (some_pair p (db', c) (ok-injective h1)) k,
      )

  -- A claim of the next due subscription, when one is claimed, takes a row of the given account, under
  -- the same conditions and with the same effect as the claim of one subscription.
  pub claim_due-Claims :
      (db db' : Db) (account : Text) (metadata_only : Bool) (ttl : ℕ) (c : ClaimedSubscription)
      → claim_due sha256 deps db account metadata_only ttl ≡ ok (db', some c)
      → (key : SubscriptionKey) × (key.account_key ≡ account) × Claims key deps.now ttl db db' c
  unfolding claim_due
  claim_due-Claims db db' account metadata_only ttl c h =
      let (n, e, h1) = >>=-eq-ok (repository_integer deps.now) _ h in
      let (selected, e1, h2) =
        >>=-eq-ok
          (if metadata_only
            then select_metadata sha256 db.rows account deps.now
            else select_due_candidate sha256 db.rows account deps.now)
          _ h1 in
      claim_selected-Claims db db' account ttl selected c
        (selected-Safe sha256 db.rows account deps.now metadata_only selected e1) h2
