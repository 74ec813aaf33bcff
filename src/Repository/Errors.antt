-- ===== src/Repository/Errors.antt =====
-- Repository errors, with their messages left out, and the checks of texts and durations
-- (src/subscription/repository.rs).
use tmdb_mteam_hub.Common.{
  ℕ, Option, none, some, String, Text, List, [], ◌∷◌, is_blank, contains_nul, if◌then◌else◌, ltb,
  ◌==◌, leb, as_bytes, length, Result, ok, err, ◌>>=◌, ◌>>◌,
}
use tmdb_mteam_hub.Repository.Operation.{
  SubscriptionKey, ExecutionAttemptToken, PollAttemptToken, i64_max,
}

pub data RepositoryError : Type 0 where
  invalid_input : String → RepositoryError
  not_found : SubscriptionKey → RepositoryError
  revision_conflict : SubscriptionKey → ℕ → ℕ → RepositoryError
  execution_gate_conflict : SubscriptionKey → RepositoryError
  stale_attempt : ExecutionAttemptToken → Option ExecutionAttemptToken → RepositoryError
  lease_expired : ExecutionAttemptToken → ℕ → RepositoryError
  lease_not_extended : ExecutionAttemptToken → ℕ → ℕ → RepositoryError
  stale_poll : Text → PollAttemptToken → Option PollAttemptToken → RepositoryError
  unavailable corrupt_data internal : RepositoryError

abbrev pub RepositoryResult : Type 0 → Type 0
RepositoryResult A = Result RepositoryError A

unfoldable pub validated_text : String → Text → RepositoryResult Text
validated_text field value =
    if is_blank value
    then err (invalid_input field)
    else if contains_nul value
    then err (invalid_input field)
    else ok value

unfoldable pub validate_text_bytes : String → Text → RepositoryResult Unit
validate_text_bytes field value = if contains_nul value then err (invalid_input field) else ok tt

-- `Option<Text>`: the check of a value that is there.
unfoldable pub check_optional : (Text → RepositoryResult Unit) → Option Text → RepositoryResult Unit
check_optional check none = ok tt
check_optional check (some value) = check value

-- A `validated_text` whose value is dropped.
unfoldable pub check_text : String → Text → RepositoryResult Unit
unfolding validated_text
check_text field value = do valid ← validated_text field value; ok tt

-- A loop that stops at the first error.
unfoldable pub for_each {ℓ} :
    {A : Type ℓ} → (A → RepositoryResult Unit) → List A → RepositoryResult Unit
for_each check [] = ok tt
for_each check (x ∷ xs) = let rest = for_each check xs in do check x; rest

-- `SubscriptionKey::try_new`
unfoldable pub key_try_new : Text → Text → RepositoryResult SubscriptionKey
unfolding validated_text
key_try_new account subject = do
  account' ← validated_text "account_key" account
  subject' ← validated_text "subject_id" subject
  ok (record { account_key = account'; subject_id = subject' })

-- `Revision::try_new`
unfoldable pub revision_try_new : ℕ → RepositoryResult ℕ
revision_try_new value = if value == 0 then err (invalid_input "revision") else ok value

-- `ExecutionAttemptId::try_new`
unfoldable pub attempt_id_try_new : Text → RepositoryResult Text
unfolding validated_text
attempt_id_try_new value = do
  value' ← validated_text "attempt_id" value
  if ltb 256 (length (as_bytes value')) then err (invalid_input "attempt_id") else ok value'

-- `ExecutionLeaseTtl::try_new`
unfoldable pub lease_ttl_try_new : ℕ → RepositoryResult ℕ
lease_ttl_try_new seconds =
    if seconds == 0
    then err (invalid_input "lease_ttl_secs")
    else if ltb i64_max seconds
    then err (invalid_input "lease_ttl_secs")
    else ok seconds

-- `ExecutionScheduleDelay::try_new`
unfoldable pub schedule_delay_try_new : ℕ → RepositoryResult ℕ
schedule_delay_try_new seconds =
    if ltb i64_max seconds then err (invalid_input "schedule_delay_secs") else ok seconds

-- `repository_integer`: a value that SQLite can hold.
unfoldable pub repository_integer : ℕ → RepositoryResult ℕ
repository_integer value = if leb value i64_max then ok value else err unavailable

-- `command_integer`: the same limit, on a command's value.
unfoldable pub command_integer : String → ℕ → RepositoryResult ℕ
command_integer field value = if leb value i64_max then ok value else err (invalid_input field)

-- `Option::map` of a check, and `transpose`.
unfoldable pub check_number : (ℕ → RepositoryResult ℕ) → Option ℕ → RepositoryResult Unit
check_number check none = ok tt
check_number check (some value) = do valid ← check value; ok tt
