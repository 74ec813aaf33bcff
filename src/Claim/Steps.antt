-- ===== src/Claim/Steps.antt =====
-- The operations as steps of the database, and the invariant of what they reach.
pub mod Invariant
use tmdb_mteam_hub.Common.{ℕ, ◌≡◌, List, Bool, Option, some, Text, Result, ok}
use tmdb_mteam_hub.Repository.Operation.{SubscriptionKey, ExecutionAttemptToken, Attempt}
use tmdb_mteam_hub.Repository.Head.{SubscriptionDetail}
use tmdb_mteam_hub.Claim.Table.{Db}
use tmdb_mteam_hub.Claim.Persist.{
  ClaimDependencies, ClaimedSubscription, claimed, claim_one, claim_due,
}
use tmdb_mteam_hub.Claim.Terminal.Operations.{extend_lease}
use tmdb_mteam_hub.Claim.Terminal.Fence.{TerminalCommand, execute}

-- One operation that commits a change, with any clock reading and any source of attempt ids.
pub data Step (sha256 : List ℕ → List ℕ) : Db → Db → Type 0 where
  claims_one :
      {db db' : Db} (deps : ClaimDependencies) (key : SubscriptionKey) (ttl : ℕ)
      (c : ClaimedSubscription)
      → claim_one sha256 deps db key ttl ≡ ok (db', claimed c)
      → Step sha256 db db'
  claims_due :
      {db db' : Db} (deps : ClaimDependencies) (account : Text) (metadata_only : Bool) (ttl : ℕ)
      (c : ClaimedSubscription)
      → claim_due sha256 deps db account metadata_only ttl ≡ ok (db', some c)
      → Step sha256 db db'
  extends :
      {db db' : Db} (now : ℕ) (token : ExecutionAttemptToken) (ttl revision : ℕ) (a : Attempt)
      → extend_lease sha256 now db token ttl ≡ ok (db', revision, a)
      → Step sha256 db db'
  ends :
      {db db' : Db} (now : ℕ) (command : TerminalCommand) (detail : SubscriptionDetail)
      → execute sha256 now db command ≡ ok (db', detail)
      → Step sha256 db db'

-- Any number of steps.
pub data Steps (sha256 : List ℕ → List ℕ) : Db → Db → Type 0 where
  here : {db : Db} → Steps sha256 db db
  step : {db db' db'' : Db} → Step sha256 db db' → Steps sha256 db' db'' → Steps sha256 db db''
