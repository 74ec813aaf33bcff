-- ===== src/Poll/Fence.antt =====
-- The fence of a poll: what a current token and a consumed one say of the row.
use tmdb_mteam_hub.Common.{
  ==_iff, >>=-eq-ok, List, Option, Text, ap, arith, guard, guard-true, leb, none, ok, ok-injective,
  refl, same, same_iff, some, some-injective, subst, sym, text_eq_iff, true, ℕ, ◌==◌, ◌∙◌, ◌≡◌,
}
use tmdb_mteam_hub.Poll.Terminal.{ConsumesPoll}
use tmdb_mteam_hub.Repository.Operation.{PollAttemptToken, u32_max}
use tmdb_mteam_hub.Repository.Errors.{corrupt_data, stale_poll, validated_text}
use tmdb_mteam_hub.Repository.Poll.{poll_generation_try_new}
use tmdb_mteam_hub.Poll.Meta.{
  Meta, OptionToken-discrete, Store, TerminalMeta, current_token, find_meta, require_consumed,
  require_current_found, require_current_poll, state_version, terminal_meta, token_of_columns,
  update_meta, validate_state_version,
}
use tmdb_mteam_hub.Poll.Meta.Rows.{
  Written-ReplacesMeta, WrittenMeta, require_consumed-one, update_meta-Written,
}
use tmdb_mteam_hub.Claim.Load.{persisted}
use tmdb_mteam_hub.Poll.Operations.{consume_poll, where_open}

where_open-open :
    (token : PollAttemptToken) (g : Option ℕ) (id : Option Text) (m : Meta)
    → m.open_poll_generation ≡ g
    → m.open_snapshot_id ≡ id
    → where_open token m ≡ true
    → (g ≡ some token.generation) × (id ≡ some token.snapshot_id)
unfolding where_open
where_open-open token (some g) (some id) m e f h = ground (arith, text_eq_iff id token.snapshot_id)
where_open-open token none id m e f h = ground arith
where_open-open token (some g) none m e f h = ground arith

pub consume_poll-Written :
    (metas metas' : List Meta) (account : Text) (token : PollAttemptToken) (set : Meta → Meta)
    → consume_poll metas account token set ≡ ok metas'
    → WrittenMeta account (where_open token) set metas metas'
unfolding consume_poll
consume_poll-Written metas metas' account token set h =
    let (result, e, h1) = >>=-eq-ok (update_meta account (where_open token) set metas) _ h in
    let (u, e1, h2) = >>=-eq-ok (require_consumed result.1 result.0 account token) _ h1 in
    subst (WrittenMeta account (where_open token) set metas) (ok-injective h2) (
      update_meta-Written account (where_open token) set metas result.0 result.1 e
        (require_consumed-one result.1 result.0 account token e1))

-- The row of a current token has the version that the code knows.
pub current-version :
    (metas : List Meta) (account : Text) (token : PollAttemptToken) (m : Meta) (t : TerminalMeta)
    → find_meta account metas ≡ some m
    → require_current_poll metas account token ≡ ok t
    → m.state_version ≡ state_version
unfolding require_current_poll require_current_found validate_state_version
current-version metas account token m t found h =
    let (u, e, h1) =
      >>=-eq-ok (guard (m.state_version == state_version) corrupt_data) _ (rw found at h) in
    (==_iff m.state_version state_version).0 (guard-true _ corrupt_data e)

columns-generation :
    (current : ℕ) (g : Option ℕ) (id : Option Text) (token : PollAttemptToken)
    → token_of_columns current g id ≡ ok (some token)
    → current ≡ token.generation
unfolding token_of_columns poll_generation_try_new
columns-generation current none none token h = ground arith
columns-generation current none (some id) token h = ground arith
columns-generation current (some g) none token h = ground arith
columns-generation current (some g) (some id) token h =
    let (u, e, h1) = >>=-eq-ok (guard (g == current) corrupt_data) _ h in
    let (g', e1, h2) = >>=-eq-ok (persisted (poll_generation_try_new g)) _ h1 in
    let (id', e2, h3) = >>=-eq-ok (persisted (validated_text "snapshot_id" id)) _ h2 in
    let same_token = some-injective refl (ok-injective h3) in
    let kept : g ≡ g' = ground arith in
    sym ((==_iff g current).0 (guard-true _ corrupt_data e))
    ∙ kept
    ∙ ap (λ t. t.generation) same_token

-- A current token has the generation of the account's row.
pub current-generation :
    (metas : List Meta) (account : Text) (token : PollAttemptToken) (m : Meta) (t : TerminalMeta)
    → find_meta account metas ≡ some m
    → require_current_poll metas account token ≡ ok t
    → m.poll_generation ≡ token.generation
unfolding require_current_poll require_current_found current_token
current-generation metas account token m t found h =
    let (u, e, h1) = >>=-eq-ok (validate_state_version m.state_version) _ (rw found at h) in
    let (current, e1, h2) = >>=-eq-ok (current_token m) _ h1 in
    let (u1, e2, h3) =
      >>=-eq-ok
        (guard (same OptionToken-discrete current (some token)) (stale_poll account token current))
        _ h2 in
    let is : current ≡ some token =
      (same_iff OptionToken-discrete current (some token)).0 (guard-true _ _ e2) in
    columns-generation m.poll_generation m.open_poll_generation m.open_snapshot_id token
      (e1 ∙ ap ok is)

terminal-count :
    (m : Meta) (attempt : Option ℕ) (t : TerminalMeta)
    → terminal_meta m attempt ≡ ok t
    → t.failure_count ≡ m.poll_failure_count
unfolding terminal_meta
terminal-count m none t h = ground arith
terminal-count m (some attempt) t h =
    let (u, e, h1) = >>=-eq-ok (guard (leb m.poll_failure_count u32_max) corrupt_data) _ h in
    ap (λ x. x.failure_count) (sym (ok-injective h1))

-- The failures that a terminal counts on are those of the account's row.
pub current-count :
    (metas : List Meta) (account : Text) (token : PollAttemptToken) (m : Meta) (t : TerminalMeta)
    → find_meta account metas ≡ some m
    → require_current_poll metas account token ≡ ok t
    → t.failure_count ≡ m.poll_failure_count
unfolding require_current_poll require_current_found
current-count metas account token m t found h =
    let (u, e, h1) = >>=-eq-ok (validate_state_version m.state_version) _ (rw found at h) in
    let (current, e1, h2) = >>=-eq-ok (current_token m) _ h1 in
    let (u1, e2, h3) =
      >>=-eq-ok
        (guard (same OptionToken-discrete current (some token)) (stale_poll account token current))
        _ h2 in
    terminal-count m m.last_poll_attempt_at t h3

-- What the SET clause of a terminal does to the columns of the token.
abbrev pub Closes : (Meta → Meta) → Type 0
Closes set =
    (m : Meta)
    → ((set m).account_key ≡ m.account_key)
      × ((set m).open_poll_generation ≡ none)
      × ((set m).open_snapshot_id ≡ none)
      × ((set m).poll_generation ≡ m.poll_generation)
      × ((set m).state_version ≡ m.state_version)

pub consumed :
    (s s' : Store) (account : Text) (token : PollAttemptToken) (set : Meta → Meta)
    (t : TerminalMeta)
    → Closes set
    → require_current_poll s.metas account token ≡ ok t
    → consume_poll s.metas account token set ≡ ok s'.metas
    → ConsumesPoll account token s s'
consumed s s' account token set t closes current h =
    let w = consume_poll-Written s.metas s'.metas account token set h in
    let m = w.0 in
    let (g, id) = where_open-open token m.open_poll_generation m.open_snapshot_id m refl refl w.2 in
    (
      m,
      set m,
      w.1,
      g,
      id,
      current-version s.metas account token m t w.1 current,
      current-generation s.metas account token m t w.1 current,
      w.3,
      (closes m).1,
      (closes m).2,
      (closes m).3,
      (closes m).4,
      Written-ReplacesMeta account (where_open token) set s.metas s'.metas (λ x. (closes x).0) w,
    )
