-- ===== src/Poll/Stale.antt =====
-- A terminal write with a token that is not the open one is refused.
use tmdb_mteam_hub.Common.{
  ==_iff, Bool-cases, List, Option, String, Text, ap, arith, err, false, inl, inr, leb, ltb, none,
  not, ok, same, same_iff, some, true, ℕ, ◌==◌, ◌∙◌, ◌≡◌, ◌≢◌,
}
use tmdb_mteam_hub.Poll.Terminal.{
  TerminalPoll, complete, execute_poll, failure, incomplete, poll_account, poll_token, values_fit,
}
use tmdb_mteam_hub.Poll.Consumes.{execute_poll-Consumes}
use tmdb_mteam_hub.Repository.Operation.{PollAttemptToken, i64_max}
use tmdb_mteam_hub.Repository.Errors.{RepositoryError, command_integer, stale_poll}
use tmdb_mteam_hub.Poll.Meta.{
  Meta, OptionToken-discrete, Store, current_token, find_meta, require_current_found,
  require_current_poll, state_version, token_of_columns, validate_state_version,
}
use tmdb_mteam_hub.Poll.Operations.{
  apply_complete_snapshot, record_incomplete_snapshot, record_poll_failure,
}

pub integer_fits : (field : String) (v : ℕ) → leb v i64_max ≡ true → command_integer field v ≡ ok v
unfolding command_integer
integer_fits field v h = rw h

-- A terminal whose numbers fit is refused with the error of the fence.
pub refused :
    (sha256 : List ℕ → List ℕ) (s : Store) (command : TerminalPoll) (e : RepositoryError)
    → values_fit command ≡ true
    → require_current_poll s.metas (poll_account command) (poll_token command) ≡ err e
    → execute_poll sha256 s command ≡ err e
unfolding execute_poll record_poll_failure record_incomplete_snapshot apply_complete_snapshot
refused sha256 s (failure c) e h k = rw (
  integer_fits "failed_at" c.failed_at (ground arith),
  integer_fits "poll_generation" c.token.generation (ground arith),
  k,
)
refused sha256 s (incomplete c) e h k = rw (
  integer_fits "incomplete_at" c.incomplete_at (ground arith),
  integer_fits "poll_generation" c.token.generation (ground arith),
  k,
)
refused sha256 s (complete c) e h k =
    let ordered : not (ltb c.next_poll_at c.completed_at) ≡ true = ground arith in
    rw (
      integer_fits "completed_at" c.completed_at (ground arith),
      integer_fits "next_poll_at" c.next_poll_at (ground arith),
      ordered,
      integer_fits "poll_generation" c.token.generation (ground arith),
      k,
    )

-- A token that is not the open one is refused.
pub not_current :
    (metas : List Meta) (account : Text) (token : PollAttemptToken) (m : Meta)
    (current : Option PollAttemptToken)
    → find_meta account metas ≡ some m
    → m.state_version ≡ state_version
    → current_token m ≡ ok current
    → current ≢ some token
    → require_current_poll metas account token ≡ err (stale_poll account token current)
unfolding require_current_poll require_current_found validate_state_version
not_current metas account token m current found version is ne =
    let known : (m.state_version == state_version) ≡ true = (==_iff m.state_version 1).1 version in
    let other : same OptionToken-discrete current (some token) ≡ false =
      elim (Bool-cases (same OptionToken-discrete current (some token))) [
        | inl e ↦ absurd (ne ((same_iff OptionToken-discrete current (some token)).0 e))
        | inr e ↦ e
      ] in
    rw (found, known, is, other)

-- After a terminal write of an account's poll has committed, every terminal write of the account, with
-- the same or any other token, is refused as stale with no open token, if its numbers fit.
pub execute_poll-Stale :
    (sha256 : List ℕ → List ℕ) (s s' : Store) (command later : TerminalPoll)
    → execute_poll sha256 s command ≡ ok s'
    → poll_account later ≡ poll_account command
    → values_fit later ≡ true
    → execute_poll sha256 s' later ≡ err (stale_poll (poll_account later) (poll_token later) none)
unfolding current_token token_of_columns
execute_poll-Stale sha256 s s' command later h same_account fits =
    let (m, m', found, g, id, version, generation, checks, open', id', gen', version', replaced) =
      execute_poll-Consumes sha256 s s' command h in
    let found' : find_meta (poll_account later) s'.metas ≡ some m' =
      ap (λ a. find_meta a s'.metas) same_account ∙ replaced.0 in
    refused sha256 s' later (stale_poll (poll_account later) (poll_token later) none) fits (
      not_current s'.metas (poll_account later) (poll_token later) m' none found'
        (version' ∙ version) (rw (open', id')) (λ e. cc))
