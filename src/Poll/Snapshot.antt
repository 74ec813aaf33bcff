-- ===== src/Poll/Snapshot.antt =====
-- What a complete snapshot does to the subscriptions and to the account's row.
use tmdb_mteam_hub.Common.{
  ℕ, ◌≡◌, ◌≢◌, ◌⊎◌, refl, sym, ap, ◌∙◌, subst, List, Bool, true, false, none, some, inl, ok, guard,
  >>=-eq-ok, ok-injective, if◌then◌else◌, length, ◌==◌,
}
use tmdb_mteam_hub.Repository.Operation.{SubscriptionKey}
use tmdb_mteam_hub.Repository.Errors.{internal}
use tmdb_mteam_hub.Repository.Poll.{ApplyCompleteSnapshotCommand}
use tmdb_mteam_hub.Claim.Table.{Row, Db, find_row}
use tmdb_mteam_hub.Claim.Table.Rows.{find_row-key}
use tmdb_mteam_hub.Poll.Meta.{Meta, Store}
use tmdb_mteam_hub.Poll.Meta.Rows.{ReplacesMeta, Written-ReplacesMeta}
use tmdb_mteam_hub.Poll.Existing.{PollFenceContext}
use tmdb_mteam_hub.Poll.Seen.{SeenEffects, apply_seen_records}
use tmdb_mteam_hub.Poll.Seen.Rows.{SeenAt}
use tmdb_mteam_hub.Poll.Missing.{
  where_missing, set_deactivated, deactivate_missing, load_missing_for_deactivation, audit_missing,
}
use tmdb_mteam_hub.Poll.Operations.{
  ApplyCompleteSnapshotResult, set_completed, where_open, no_effects, apply_records,
  apply_complete_snapshot,
}
use tmdb_mteam_hub.Poll.Fence.{consume_poll-Written}
use tmdb_mteam_hub.Poll.Consumes.{complete-Parts}
use tmdb_mteam_hub.Poll.Seen.Loop.{listed, apply_seen_records-Sees}
use tmdb_mteam_hub.Poll.Missing.Rows.{
  deactivated, LeftOut, find_row-deactivate_missing, kept-LeftOut, SeenAt-deactivated, listed_row,
}

pub apply_records-Parts :
    (sha256 : List ℕ → List ℕ) (db : Db) (c : ApplyCompleteSnapshotCommand) (bootstrap : Bool)
    (r : Db × SeenEffects × ℕ)
    → apply_records sha256 db c bootstrap ≡ ok r
    → (seen : Db × SeenEffects) × (result : ℕ × List Row) × (apply_seen_records sha256 c.account_key
          (record { token = c.token; is_complete = true; fenced_at = c.completed_at })
          c.completed_at
          db
          bootstrap
          c.new_record_policy
          c.records
          no_effects
        ≡ ok seen)
      × (deactivate_missing c.account_key c.token.snapshot_id c.completed_at seen.0.rows
          ≡ ok result)
      × (result.1 ≡ r.0.rows)
unfolding apply_records
apply_records-Parts sha256 db c bootstrap r h =
    let fence : PollFenceContext = record {
      token = c.token;
      is_complete = true;
      fenced_at = c.completed_at;
    } in
    let (seen, e, h1) =
      >>=-eq-ok
        (apply_seen_records sha256 c.account_key fence c.completed_at db bootstrap
          c.new_record_policy c.records no_effects)
        _ h in
    let (missing, e1, h2) =
      >>=-eq-ok
        (load_missing_for_deactivation sha256 seen.0.rows c.account_key c.token.snapshot_id
          c.completed_at)
        _ h1 in
    let (result, e2, h3) =
      >>=-eq-ok (deactivate_missing c.account_key c.token.snapshot_id c.completed_at seen.0.rows) _
        h2 in
    let (u, e3, h4) = >>=-eq-ok (guard (result.0 == length missing) internal) _ h3 in
    let (logs, e4, h5) = >>=-eq-ok (audit_missing fence missing seen.0.logs) _ h4 in
    (seen, result, e, e2, ap (λ p. p.0.rows) (ok-injective h5))

-- The account's row after a complete snapshot.
abbrev pub Completes : ApplyCompleteSnapshotCommand → Store → Store → Type 0
Completes c s s' =
    (m m' : Meta) × ReplacesMeta c.account_key m' s.metas s'.metas
    × (m'.bootstrap_completed ≡ true)
    × (m'.poll_failure_count ≡ 0)
    × (m'.last_poll_success_at ≡ some c.completed_at)
    × (m'.next_poll_at ≡ c.next_poll_at)
    × (m'.last_complete_snapshot_id ≡ some c.token.snapshot_id)
    × (m'.open_snapshot_id ≡ none)
    × (m'.poll_generation ≡ m.poll_generation)

-- The subscriptions after a complete snapshot.
abbrev pub Refreshes : ApplyCompleteSnapshotCommand → List Row → List Row → Type 0
Refreshes c rows rows' =
    (key : SubscriptionKey)
    → (listed c.account_key key c.records ≡ true → SeenAt key c.token.snapshot_id rows')
      × ((r : Row)
          → listed c.account_key key c.records ≡ false
          → key.account_key ≡ c.account_key
          → find_row key rows ≡ some r
          → (r' : Row) × (find_row key rows' ≡ some r')
            × LeftOut c.account_key c.token.snapshot_id c.completed_at r r')
      × (listed c.account_key key c.records ≡ false
          → (key.account_key ≢ c.account_key) ⊎ (find_row key rows ≡ none)
          → find_row key rows' ≡ find_row key rows)

-- A complete snapshot that commits: a listed subject has an active row that carries the snapshot's id.
-- Of the other subjects of the account, a row that was active under another id becomes
-- inactive, idle and free, under the next revision and with its payload, and every other row is
-- as it was; the rows of other accounts are as they were. The account is bootstrapped, its failures
-- are cleared, its next poll is the command's, and no token is open.
pub apply_complete_snapshot-Refreshes :
    (sha256 : List ℕ → List ℕ) (s s' : Store) (c : ApplyCompleteSnapshotCommand)
    (r : ApplyCompleteSnapshotResult)
    → apply_complete_snapshot sha256 s c ≡ ok (s', r)
    → Refreshes c s.db.rows s'.db.rows × Completes c s s'
unfolding set_completed
apply_complete_snapshot-Refreshes sha256 s s' c r h =
    let (t, applied, metas, current, run, consume, same_store, same_count) =
      complete-Parts sha256 s c (s', r) h in
    let (seen, result, looped, left, same_rows) =
      apply_records-Parts sha256 s.db c t.bootstrap_completed applied run in
    let rows' : result.1 ≡ s'.db.rows = same_rows ∙ ap (λ x. x.db.rows) same_store in
    let id = c.token.snapshot_id in
    let fence : PollFenceContext = record {
      token = c.token;
      is_complete = true;
      fenced_at = c.completed_at;
    } in
    let loop = λ (key : SubscriptionKey).
      apply_seen_records-Sees sha256 c.account_key fence c.completed_at t.bootstrap_completed
        c.new_record_policy key s.db c.records no_effects seen looped in
    let row = λ (key : SubscriptionKey).
      ap (find_row key) (sym rows')
      ∙ find_row-deactivate_missing c.account_key id c.completed_at key seen.0.rows result left in
    let w = consume_poll-Written s.metas metas c.account_key c.token (set_completed c) consume in
    (
      λ key. (
        λ e.
            SeenAt-deactivated c.account_key id c.completed_at key seen.0.rows s'.db.rows
              ((loop key).0 (inl e)) (row key),
        λ x e at_account found. (
          (if where_missing c.account_key id x then set_deactivated c.completed_at x else x),
          row key ∙ ap (deactivated c.account_key id c.completed_at) ((loop key).1 e ∙ found),
          kept-LeftOut c.account_key id c.completed_at x
              (ap (λ k. k.account_key) (find_row-key key s.db.rows x found) ∙ at_account),
        ),
        λ e other.
            row key
            ∙ ap (deactivated c.account_key id c.completed_at) ((loop key).1 e)
            ∙ listed_row c.account_key id c.completed_at key s.db.rows other,
      ),
      subst (Completes c s) same_store (
        w.0,
        set_completed c w.0,
        Written-ReplacesMeta c.account_key (where_open c.token) (set_completed c) s.metas metas
            (λ x. refl) w,
        refl,
        refl,
        refl,
        refl,
        refl,
        refl,
        refl,
      ),
    )
