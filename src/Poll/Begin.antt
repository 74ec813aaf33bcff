-- ===== src/Poll/Begin.antt =====
-- `begin_poll`: the token that it opens, and what the open token refuses.
use tmdb_mteam_hub.Common.{
  ==_iff, >>=-eq-ok, List, Option, String, Text, ap, arith, err, guard, guard-true, leb, leb→le,
  max, none, not, ok, ok-injective, refl, some, some-injective, subst, sym, true, ℕ, ◌+◌, ◌==◌, ◌∙◌,
  ◌≡◌, ◌≢◌, ◌≤◌, false,
}
use tmdb_mteam_hub.Poll.Terminal.{TerminalPoll, execute_poll, poll_account, poll_token, values_fit}
use tmdb_mteam_hub.Poll.Opening.{
  BeginPollResult, begin_found, begin_poll, latest, new_meta, set_begun, validate_command_time,
}
use tmdb_mteam_hub.Poll.Stale.{not_current, refused}
use tmdb_mteam_hub.Repository.Operation.{i64_max}
use tmdb_mteam_hub.Repository.Errors.{
  command_integer, corrupt_data, invalid_input, stale_poll, validated_text,
}
use tmdb_mteam_hub.Repository.Poll.{BeginPollCommand, poll_generation_try_new}
use tmdb_mteam_hub.Poll.Meta.{
  Meta, Store, current_token, find_meta, insert_meta, meta_satisfies, require_single_write,
  stable_snapshot_id, state_version, token_of_columns, update_meta, validate_state_version,
}
use tmdb_mteam_hub.Poll.Meta.Rows.{
  ReplacesMeta, Written-ReplacesMeta, find_meta-append, find_meta-append-other, insert_meta-Written,
  update_meta-Written, KeepsColumns,
}

-- A row that was there goes on: its generation is counted up, and what tells of the polls before and
-- of the next one is kept.
abbrev pub Continues : Meta → Meta → Type 0
Continues m m' =
    (m'.poll_generation ≡ m.poll_generation + 1)
    × KeepsColumns m m'
    × (m'.poll_failure_count ≡ m.poll_failure_count)
    × (m'.next_poll_at ≡ m.next_poll_at)
    × (m'.last_poll_error ≡ m.last_poll_error)

-- The row of a new account: the first generation, and no poll before.
abbrev pub Starts : BeginPollCommand → Meta → Type 0
Starts c m' =
    (m'.account_key ≡ c.account_key)
    × (m'.poll_generation ≡ 1)
    × (m'.bootstrap_completed ≡ false)
    × (m'.created_at ≡ c.attempted_at)
    × (m'.last_poll_success_at ≡ none)
    × (m'.poll_failure_count ≡ 0)
    × (m'.next_poll_at ≡ c.attempted_at)
    × (m'.last_poll_error ≡ none)
    × (m'.last_incomplete ≡ none)
    × (m'.last_complete_snapshot_id ≡ none)

-- A row of an account before and after a begin.
abbrev pub Follows : BeginPollCommand → Option Meta → Meta → Type 0
Follows c none m' = Starts c m'
Follows c (some m) m' = Continues m m'

-- The account's row has the token open, and follows the row before.
abbrev pub Begins : BeginPollCommand → BeginPollResult → Store → Store → Type 0
Begins c r s s' =
    (m' : Meta) × ReplacesMeta c.account_key m' s.metas s'.metas
    × (meta_satisfies m' ≡ true)
    × (m'.state_version ≡ state_version)
    × (m'.poll_generation ≡ r.token.generation)
    × (current_token m' ≡ ok (some r.token))
    × (m'.last_poll_attempt_at ≡ some c.attempted_at)
    × (m'.updated_at ≡ c.attempted_at)
    × (r.attempted_at ≡ c.attempted_at)
    × (s'.db ≡ s.db)
    × Follows c (find_meta c.account_key s.metas) m'

valid_again :
    (field : String) (value result : Text)
    → validated_text field value ≡ ok result
    → validated_text field result ≡ ok result
unfolding validated_text
valid_again field value result h = ground arith

snapshot_valid :
    (sha256 : List ℕ → List ℕ) (account id : Text) (generation : ℕ)
    → stable_snapshot_id sha256 account generation ≡ ok id
    → validated_text "snapshot_id" id ≡ ok id
unfolding stable_snapshot_id
snapshot_valid sha256 account id generation h = valid_again "snapshot_id" _ id h

-- The columns of an open token are read back.
opened :
    (m : Meta) (generation : ℕ) (id : Text)
    → m.poll_generation ≡ generation
    → m.open_poll_generation ≡ some generation
    → m.open_snapshot_id ≡ some id
    → poll_generation_try_new generation ≡ ok generation
    → validated_text "snapshot_id" id ≡ ok id
    → current_token m ≡ ok (some (record { generation = generation; snapshot_id = id }))
unfolding current_token token_of_columns
opened m generation id g o i valid_g valid_id =
    let at : (generation == generation) ≡ true = (==_iff generation generation).1 refl in
    rw (g, o, i, at, valid_g, valid_id)

-- What `begin_found` gives: the new row, in place of the old one or as a new one.
abbrev Begun : List Meta → BeginPollCommand → Option Meta → List Meta → ℕ → Text → Type 0
Begun metas c found metas' generation id =
    (m' : Meta) × ReplacesMeta c.account_key m' metas metas'
    × (meta_satisfies m' ≡ true)
    × (m'.state_version ≡ state_version)
    × (m'.poll_generation ≡ generation)
    × (m'.open_poll_generation ≡ some generation)
    × (m'.open_snapshot_id ≡ some id)
    × (m'.last_poll_attempt_at ≡ some c.attempted_at)
    × (m'.updated_at ≡ c.attempted_at)
    × (validated_text "snapshot_id" id ≡ ok id)
    × Follows c found m'

begin_version :
    (m : Meta) (at : ℕ) (u : Unit)
    → validate_command_time m at ≡ ok u
    → m.state_version ≡ state_version
unfolding validate_command_time validate_state_version
begin_version m at u h =
    let (u1, e, h1) = >>=-eq-ok (guard (m.state_version == state_version) corrupt_data) _ h in
    (==_iff m.state_version state_version).0 (guard-true _ corrupt_data e)

latest-le : (o : Option ℕ) (bound at : ℕ) → latest o bound ≤ at → bound ≤ at
latest-le none bound at h = h
latest-le (some t) bound at h = omega (arith, h)

-- The time of a begin is not before the row's last update.
begin_time :
    (m : Meta) (at : ℕ) (u : Unit) → validate_command_time m at ≡ ok u → max m.updated_at at ≡ at
unfolding validate_command_time
begin_time m at u h =
    let (u1, e, h1) = >>=-eq-ok (validate_state_version m.state_version) _ h in
    let bound = max m.created_at m.updated_at in
    let before = latest m.last_poll_attempt_at bound in
    let all = latest m.last_poll_success_at before in
    let le : all ≤ at = leb→le all at (guard-true (leb all at) (invalid_input "attempted_at") h1) in
    let lower =
      latest-le m.last_poll_attempt_at bound at (latest-le m.last_poll_success_at before at le) in
    omega (arith, lower)

begin_found-Begun :
    (sha256 : List ℕ → List ℕ) (metas : List Meta) (c : BeginPollCommand) (found : Option Meta)
    (r : List Meta × ℕ × Text)
    → find_meta c.account_key metas ≡ found
    → begin_found sha256 metas c found ≡ ok r
    → Begun metas c found r.0 r.1 r.2
unfolding begin_found new_meta set_begun require_single_write validate_command_time
    validate_state_version
begin_found-Begun sha256 metas c none r f h =
    let (id, e, h1) = >>=-eq-ok (stable_snapshot_id sha256 c.account_key 1) _ h in
    let new = new_meta c.account_key c.attempted_at id in
    let (result, e1, h2) = >>=-eq-ok (insert_meta new metas) _ h1 in
    let (u, e2, h3) = >>=-eq-ok (require_single_write result.0) _ h2 in
    let (checks, rows) = insert_meta-Written new metas result.0 result.1 e1 in
    subst (λ p. Begun metas c none p.0 p.1 p.2) (ok-injective h3)
      (
        new,
        (
          ap (find_meta c.account_key) rows ∙ find_meta-append c.account_key new metas refl f,
          λ other ne.
              ap (find_meta other) rows
              ∙ find_meta-append-other c.account_key other new metas refl ne,
        ),
        checks,
        refl,
        refl,
        refl,
        refl,
        refl,
        refl,
        snapshot_valid sha256 c.account_key id 1 e,
        (refl, refl, refl, refl, refl, refl, refl, refl, refl, refl),
      )
begin_found-Begun sha256 metas c (some m) r f h =
    let (u, e, h1) = >>=-eq-ok (validate_command_time m c.attempted_at) _ h in
    let (u1, e1, h2) = >>=-eq-ok (guard (not (leb i64_max m.poll_generation)) corrupt_data) _ h1 in
    let next = m.poll_generation + 1 in
    let (id, e2, h3) = >>=-eq-ok (stable_snapshot_id sha256 c.account_key next) _ h2 in
    let where_clause = λ (x : Meta). x.poll_generation == m.poll_generation in
    let set = set_begun c.attempted_at next id in
    let (result, e3, h4) = >>=-eq-ok (update_meta c.account_key where_clause set metas) _ h3 in
    let (u2, e4, h5) = >>=-eq-ok (require_single_write result.0) _ h4 in
    let w =
      update_meta-Written c.account_key where_clause set metas result.0 result.1 e3
        (guard-true _ _ e4) in
    let same_row : w.0 ≡ m = some-injective w.1 f in
    subst (λ p. Begun metas c (some m) p.0 p.1 p.2) (ok-injective h5)
      (
        set w.0,
        Written-ReplacesMeta c.account_key where_clause set metas result.1 (λ x. refl) w,
        w.3,
        ap (λ x. x.state_version) same_row ∙ begin_version m c.attempted_at u e,
        refl,
        refl,
        refl,
        refl,
        begin_time w.0 c.attempted_at u
            (subst (λ x. validate_command_time x c.attempted_at ≡ ok u) (sym same_row) e),
        snapshot_valid sha256 c.account_key id next e2,
        subst (λ x. Continues x (set w.0)) same_row
            (
              ap (λ y. y.poll_generation + 1) (sym same_row),
              (refl, refl, refl, refl, refl, refl, refl),
              refl,
              refl,
              refl,
            ),
      )

-- The generation that a row which was there is given.
pub Follows-generation :
    (c : BeginPollCommand) (found : Option Meta) (m m' : Meta)
    → Follows c found m'
    → found ≡ some m
    → m'.poll_generation ≡ m.poll_generation + 1
Follows-generation c none m m' h k = absurd (cc)
Follows-generation c (some x) m m' h k =
    h.0 ∙ ap (λ y. y.poll_generation + 1) (some-injective refl k)

valid_generation :
    (generation valid : ℕ)
    → poll_generation_try_new generation ≡ ok valid
    → (generation ≡ valid) × (poll_generation_try_new valid ≡ ok valid)
unfolding poll_generation_try_new
valid_generation generation valid h = (ground arith, ground arith)

-- A begin of a poll that commits opens a token on the account's row, which satisfies the CHECK clauses.
-- The token has the generation of the row, and the code reads it back. The attempt's time is
-- recorded. In a row that was there the generation is counted up, and every other column is as it
-- was: what the polls before left, the failure count and the time of the next poll among them. The
-- row of a new account has the first generation, no poll before, and is due at the attempt's time.
-- The rows of other accounts and the subscriptions are as they were.
pub begin_poll-Begins :
    (sha256 : List ℕ → List ℕ) (s s' : Store) (c : BeginPollCommand) (r : BeginPollResult)
    → begin_poll sha256 s c ≡ ok (s', r)
    → Begins c r s s'
unfolding begin_poll
begin_poll-Begins sha256 s s' c r h =
    let (at, e, h1) = >>=-eq-ok (command_integer "attempted_at" c.attempted_at) _ h in
    let found = find_meta c.account_key s.metas in
    let (begun, e1, h2) = >>=-eq-ok (begin_found sha256 s.metas c found) _ h1 in
    let (valid, e2, h3) = >>=-eq-ok (poll_generation_try_new begun.1) _ h2 in
    let (m', replaced, checks, version, g, o, i, attempt, updated, id, next) =
      begin_found-Begun sha256 s.metas c found begun refl e1 in
    let (same_generation, again) = valid_generation begun.1 valid e2 in
    subst (λ p. Begins c p.1 s p.0) (ok-injective h3)
      (
        m',
        replaced,
        checks,
        version,
        g ∙ same_generation,
        opened m' valid begun.2 (g ∙ same_generation) (o ∙ ap some same_generation) i again id,
        attempt,
        updated,
        refl,
        refl,
        next,
      )

-- After a begin of a poll has committed, every terminal write of the account with another token is
-- refused as stale, with the open token, if its numbers fit.
pub begin_poll-Stale :
    (sha256 : List ℕ → List ℕ) (s s' : Store) (c : BeginPollCommand) (r : BeginPollResult)
    (later : TerminalPoll)
    → begin_poll sha256 s c ≡ ok (s', r)
    → poll_account later ≡ c.account_key
    → poll_token later ≢ r.token
    → values_fit later ≡ true
    → execute_poll sha256 s' later
      ≡ err (stale_poll (poll_account later) (poll_token later) (some r.token))
begin_poll-Stale sha256 s s' c r later h same_account other fits =
    let (m', replaced, checks, version, g, current, at, updated, told, same_db, next) =
      begin_poll-Begins sha256 s s' c r h in
    let found' : find_meta (poll_account later) s'.metas ≡ some m' =
      ap (λ a. find_meta a s'.metas) same_account ∙ replaced.0 in
    refused sha256 s' later (stale_poll (poll_account later) (poll_token later) (some r.token)) fits
      (not_current s'.metas (poll_account later) (poll_token later) m' (some r.token) found' version
        current (λ e. other (sym (some-injective refl e))))
