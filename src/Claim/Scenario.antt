-- ===== src/Claim/Scenario.antt =====
-- A subscription that is claimed and run (src/storage/subscription_repo/claim.rs), as concrete data.
use tmdb_mteam_hub.Common.{ℕ, List, [], ◌∷◌, ◌++◌, true, false, none, some, text, ok}
use tmdb_mteam_hub.Model.{SubscriptionExecutionState, searching, movie}
use tmdb_mteam_hub.Repository.Operation.{
  SubscriptionKey, search, ExecutionAttemptToken, Attempt, search_pushed,
}
use tmdb_mteam_hub.Repository.Payload.{WantedSource, SubscriptionPayload}
use tmdb_mteam_hub.Repository.Head.{SubscriptionHead, SubscriptionDetail}
use tmdb_mteam_hub.Claim.Table.{Row, Db, AuditAction, claim_attempt}
use tmdb_mteam_hub.Claim.Load.{ExecutionControls, StoredSubscription}
use tmdb_mteam_hub.Claim.Persist.{audit, ClaimDependencies, ClaimedSubscription}
use tmdb_mteam_hub.Claim.Update.{set_claim}
use tmdb_mteam_hub.Claim.Terminal.{set_release, set_extend, set_consume}
use tmdb_mteam_hub.Claim.Terminal.Operations.{finish_values, fail_values}
use tmdb_mteam_hub.Claim.Terminal.Commands.{FinishExecutionCommand, FailExecutionCommand}
use tmdb_mteam_hub.Claim.Terminal.Issues.{replace_execution_issue}
use tmdb_mteam_hub.Repository.Delta.{searched}

abbrev pub no_digest : List ℕ → List ℕ
no_digest bytes = []

abbrev pub key : SubscriptionKey
key = record { account_key = text "a"; subject_id = text "s" }

abbrev pub source : WantedSource
source = record {
  title = text "T";
  detail_title = none;
  release_year = some 1999;
  poster_url = [];
  cover_url = [];
  original_title = none;
  aka = [];
  languages = [];
  countries = [];
  genres = [];
  directors = [];
  actors = [];
  date_published = none;
  duration = none;
  summary = none;
  rating_value = none;
  rating_count = none;
  category_text = none;
  tags = [];
  douban_date = none;
  douban_sort_time = none;
  douban_return_order = none;
}

abbrev pub payload : SubscriptionPayload
payload = record {
  replacement_pending = false;
  replacement_prepared = false;
  source = source;
  observation = record { created_at = 1; first_seen_at = 1; last_seen_at = 1 };
  issues = [];
  skip_reason = none;
  candidates = [];
  tv = none;
  artifacts = record { downloads = []; links = [] };
}

abbrev pub head : SubscriptionExecutionState → ℕ → SubscriptionHead
head state revision = record {
  key = key;
  revision = revision;
  active = true;
  inactive_at = none;
  last_seen_snapshot_id = none;
  media_kind = movie;
  schedulable = true;
  blocked_reason = none;
  lifecycle_state = searching;
  execution_state = state;
  next_attempt_at = some 50;
  retry_count = 0;
  max_retries = 3;
  retry_blocked = false;
  force_eligible_once = false;
  updated_at = 60;
}

abbrev pub detail : SubscriptionExecutionState → ℕ → SubscriptionDetail
detail state revision = record {
  head = head state revision;
  projection = record {
    title = text "T";
    release_year = some 1999;
    poster_url = [];
    category_text = none;
    douban_sort_time = none;
  };
  attention_tags = [];
  payload = payload;
}

abbrev pub token : ExecutionAttemptToken
token = record { key = key; attempt_id = text "x"; operation = search }

abbrev pub attempt : Attempt
attempt = record { token = token; lease_until = 200 }

-- The clock shows 100, and the source of ids gives one id.
abbrev pub deps : ClaimDependencies
deps = record { now = 100; attempt_ids = λ n. ok (text "x") }

abbrev pub idle_row : Row
idle_row = record {
  detail = detail SubscriptionExecutionState.idle 7;
  claimed_operation = none;
  attempt_id = none;
  lease_until = none;
}

abbrev pub idle_db : Db
idle_db = record { rows = idle_row ∷ []; logs = [] }

abbrev pub running_row : Row
running_row = set_claim search (text "x") 200 100 idle_row

abbrev pub running_db : Db
running_db = record {
  rows = running_row ∷ [];
  logs = audit claim_attempt 100 attempt running_row.detail ∷ [];
}

abbrev pub subscription : ClaimedSubscription
subscription = record {
  detail = running_row.detail;
  attempt = attempt;
  replaced_expired_attempt = none;
}

abbrev pub stored : ExecutionControls → Row → StoredSubscription
stored controls r = record { detail = r.detail; controls = controls }

-- The database after an operation on the running attempt.
abbrev pub after : AuditAction → ℕ → Attempt → Row → Db
after action now a r = record {
  rows = r ∷ [];
  logs = running_db.logs ++ audit action now a r.detail ∷ [];
}

abbrev pub longer : Attempt
longer = record { token = token; lease_until = 450 }

abbrev pub released_row : Row
released_row = set_release 150 running_row

abbrev pub extended_row : Row
extended_row = set_extend 450 150 running_row

abbrev pub pushed : FinishExecutionCommand
pushed = record { token = token; disposition = search_pushed; payload_delta = searched none [] }

abbrev pub finished_row : Row
finished_row =
    set_consume
      (finish_values pushed running_row.detail payload running_row.detail.projection (some 150)) 150
      running_row

abbrev pub broken : FailExecutionCommand
broken = record {
  token = token;
  error_type = text "e";
  message = text "m";
  retry_after = 60;
  payload_delta = searched none [];
}

abbrev pub failed_row : Row
failed_row =
    set_consume
      (fail_values running_row.detail
        (replace_execution_issue payload search (text "e") (text "m") 150)
        running_row.detail.projection (some 210))
      150 running_row
