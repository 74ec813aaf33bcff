-- ===== src/Poll/Steps.antt =====
-- Polls, claims and operations on attempts in any order, as steps of the tables.
pub mod Generation
use tmdb_mteam_hub.Common.{ℕ, ◌+◌, ◌≤◌, ◌<◌, ◌≡◌, ◌≢◌, ◌∙◌, List, ok, ◌>>=◌}
use tmdb_mteam_hub.Repository.Poll.{BeginPollCommand}
use tmdb_mteam_hub.Claim.Steps.{Steps}
use tmdb_mteam_hub.Poll.Meta.{Store}
use tmdb_mteam_hub.Poll.Opening.{BeginPollResult, begin_poll}
use tmdb_mteam_hub.Poll.Terminal.{TerminalPoll, execute_poll}

-- One operation that commits: a begin of a poll, a terminal write of one, or any number of the claims
-- and operations on attempts, which leave the accounts' rows alone.
pub data StoreStep (sha256 : List ℕ → List ℕ) : Store → Store → Type 0 where
  begins :
      {s s' : Store} (c : BeginPollCommand) (r : BeginPollResult)
      → begin_poll sha256 s c ≡ ok (s', r)
      → StoreStep sha256 s s'
  settles :
      {s s' : Store} (command : TerminalPoll)
      → execute_poll sha256 s command ≡ ok s'
      → StoreStep sha256 s s'
  works : {s s' : Store} → s'.metas ≡ s.metas → Steps sha256 s.db s'.db → StoreStep sha256 s s'

pub data StoreSteps (sha256 : List ℕ → List ℕ) : Store → Store → Type 0 where
  here : {s : Store} → StoreSteps sha256 s s
  step :
      {s s' s'' : Store}
      → StoreStep sha256 s s'
      → StoreSteps sha256 s' s''
      → StoreSteps sha256 s s''
