-- ===== src/Claim/Columns.antt =====
-- What the tests of the WHERE clauses say of a row's columns.
use tmdb_mteam_hub.Common.{
  ℕ, ◌≡◌, refl, true, false, Option, none, some, Text, text_eq_iff, same_iff, arith,
}
use tmdb_mteam_hub.Model.{SubscriptionExecutionState}
use tmdb_mteam_hub.Repository.Operation.{ExecutionOperation, Operation-discrete}
use tmdb_mteam_hub.Repository.Head.{is_running}
use tmdb_mteam_hub.Claim.Table.{same_operation}
use tmdb_mteam_hub.Claim.Update.{is_text, is_number}

pub is_text-eq : (o : Option Text) (t : Text) → is_text o t ≡ true → o ≡ some t
is_text-eq none t h = cc
is_text-eq (some s) t h = ground (arith, text_eq_iff s t)

pub is_number-eq : (o : Option ℕ) (n : ℕ) → is_number o n ≡ true → o ≡ some n
is_number-eq none n h = cc
is_number-eq (some m) n h = ground arith

pub same_operation-eq :
    (o : Option ExecutionOperation) (p : ExecutionOperation)
    → same_operation o (some p) ≡ true
    → o ≡ some p
same_operation-eq none p h = cc
same_operation-eq (some o) p h = ground (arith, same_iff Operation-discrete o p)

pub is_running-eq :
    (s : SubscriptionExecutionState) → is_running s ≡ true → s ≡ SubscriptionExecutionState.running
is_running-eq SubscriptionExecutionState.running h = refl
is_running-eq SubscriptionExecutionState.idle h = cc

pub not_running :
    (s : SubscriptionExecutionState) → is_running s ≡ false → s ≡ SubscriptionExecutionState.idle
not_running SubscriptionExecutionState.idle h = refl
not_running SubscriptionExecutionState.running h = cc
