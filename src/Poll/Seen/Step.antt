-- ===== src/Poll/Seen/Step.antt =====
-- What one record of a snapshot does to the table: the row of its subject is seen.
use tmdb_mteam_hub.Common.{
  ℕ, ◌≡◌, refl, sym, ap, ◌∙◌, subst, List, Bool, false, not, ◌&&◌, ◌==◌, Option, none, some, Text,
  same_iff, Bool-cases, inl, inr, ok, guard-true, >>=-eq-ok, ok-injective, arith,
}
use tmdb_mteam_hub.Repository.Operation.{SubscriptionKey}
use tmdb_mteam_hub.Repository.Errors.{
  check_text, check_optional, key_try_new, validated_text, command_integer, check_number,
}
use tmdb_mteam_hub.Repository.Payload.Keys.{validate_for}
use tmdb_mteam_hub.Repository.Source.{from_source}
use tmdb_mteam_hub.Repository.Head.{detail_validate, OptionText-discrete}
use tmdb_mteam_hub.Repository.Poll.{SnapshotRecord, NewRecordPolicy}
use tmdb_mteam_hub.Claim.Table.{Row, Db, row_key, find_row, attempt_taken, update_row}
use tmdb_mteam_hub.Claim.Table.Rows.{
  find_row-key, find_row-write_row, find_row-write_row-other, update_row-Written,
}
use tmdb_mteam_hub.Poll.Meta.{require_single_write}
use tmdb_mteam_hub.Poll.Existing.{
  PollFenceContext, StoredExecutionAttempt, decode_existing, increment_revision,
}
use tmdb_mteam_hub.Poll.Seen.{
  SeenEffects, superseded_attempt, merged_payload, seen_logs, persist_seen, update_existing_seen,
  new_payload, new_row, insert_new_seen, apply_seen_found,
}
use tmdb_mteam_hub.Poll.Merged.{
  merged_row, is_changed, is_newly_seen, revised_row, next_updated_at, set_seen, written,
  check_bound_values, insert_row,
}
use tmdb_mteam_hub.Poll.Seen.Rows.{
  IsSeen, key_of, Sees, decode_existing-same, find_row-append, find_row-append-other,
  insert_found-Written, written-changed,
}

key_try_new-same :
    (account subject : Text) (key : SubscriptionKey)
    → key_try_new account subject ≡ ok key
    → key ≡ record { account_key = account; subject_id = subject }
unfolding key_try_new validated_text
key_try_new-same account subject key h = ground arith

set_seen-key : (new r : Row) → row_key (set_seen new r) ≡ row_key r
unfolding set_seen
set_seen-key new r = refl

-- A merged row that did not change was active, with the snapshot's id.
unchanged-IsSeen :
    (snapshot_id : Text) (r r' : Row)
    → r'.detail.head.last_seen_snapshot_id ≡ some snapshot_id
    → is_changed r r' ≡ false
    → IsSeen snapshot_id r
unfolding is_changed is_newly_seen
unchanged-IsSeen snapshot_id r r' seen h =
    let before = r.detail.head.last_seen_snapshot_id in
    let after = r'.detail.head.last_seen_snapshot_id in
    let first : is_newly_seen r.detail.head after ≡ false = ground arith in
    (ground arith, (same_iff OptionText-discrete before after).0 (ground arith) ∙ seen)

module _ (sha256 : List ℕ → List ℕ) (account : Text) (fence : PollFenceContext) (at : ℕ) where
  abbrev pub Step : Db → SnapshotRecord → Db → Type 0
  Step db observed db' = Sees (key_of account observed) fence.token.snapshot_id db.rows db'.rows

  inserted :
      (db : Db) (observed : SnapshotRecord) (new : Row) (result : ℕ × List Row)
      → row_key new ≡ key_of account observed
      → IsSeen fence.token.snapshot_id new
      → new.attempt_id ≡ none
      → written (insert_row new db.rows) ≡ ok result
      → Step db observed (record db { rows = result.1 })
  unfolding insert_row attempt_taken
  inserted db observed new result at_key seen no_attempt h =
      let (absent, valid, rows) =
        insert_found-Written new db.rows (find_row (row_key new) db.rows) result h in
      let key = key_of account observed in
      let absent' : find_row key db.rows ≡ none =
        ap (λ k. find_row k db.rows) (sym at_key) ∙ absent in
      inl (
        new,
        (
          ap (find_row key) (sym rows) ∙ find_row-append key new db.rows at_key absent',
          λ other ne.
              ap (find_row other) (sym rows)
              ∙ find_row-append-other key other new db.rows at_key ne,
          valid,
          ap (λ a. attempt_taken key a db.rows) no_attempt,
        ),
        seen,
      )

  insert_new_seen-Step :
      (db db' : Db) (mode : Bool) (policy : NewRecordPolicy) (observed : SnapshotRecord)
      → insert_new_seen sha256 account fence at db mode policy observed ≡ ok db'
      → Step db observed db'
  unfolding insert_new_seen new_row
  insert_new_seen-Step db db' mode policy observed h =
      let skipped = mode && policy.bootstrap_existing_as_skipped in
      let payload = new_payload sha256 account fence at skipped observed in
      let (u, e, h1) = >>=-eq-ok (validate_for sha256 account observed.subject_id payload) _ h in
      let (projection, e1, h2) = >>=-eq-ok (from_source observed.source) _ h1 in
      let (key, e2, h3) = >>=-eq-ok (key_try_new account observed.subject_id) _ h2 in
      let (u3, e3, h4) =
        >>=-eq-ok (check_optional (check_text "blocked_reason") observed.blocked_reason) _ h3 in
      let new = new_row sha256 account fence at skipped policy observed projection key in
      let (u4, e4, h5) = >>=-eq-ok (detail_validate sha256 new.detail) _ h4 in
      let (u5, e5, h6) =
        >>=-eq-ok
          (check_number (command_integer "payload.source.douban_sort_time")
            projection.douban_sort_time)
          _ h5 in
      let (u6, e6, h7) =
        >>=-eq-ok (check_number (command_integer "next_attempt_at") new.detail.head.next_attempt_at)
          _ h6 in
      let (result, e7, h8) = >>=-eq-ok (written (insert_row new db.rows)) _ h7 in
      let (u8, e8, h9) = >>=-eq-ok (require_single_write result.0) _ h8 in
      subst (Step db observed) (ok-injective h9) (
        inserted db observed new result (key_try_new-same account observed.subject_id key e2)
          (refl, refl) refl e7)

  persist_seen-Step :
      (db db' : Db) (observed : SnapshotRecord) (existing after : Row)
      (attempt : Option StoredExecutionAttempt)
      → IsSeen fence.token.snapshot_id after
      → persist_seen sha256 account fence at db observed existing attempt after ≡ ok db'
      → Step db observed db'
  unfolding persist_seen revised_row require_single_write set_seen
  persist_seen-Step db db' observed existing after attempt seen h =
      let head = existing.detail.head in
      let (revision, e, h1) = >>=-eq-ok (increment_revision head.revision) _ h in
      let new = revised_row revision (next_updated_at head.updated_at at) after in
      let (u1, e1, h2) = >>=-eq-ok (detail_validate sha256 new.detail) _ h1 in
      let (u2, e2, h3) = >>=-eq-ok (check_bound_values head.revision new) _ h2 in
      let key = key_of account observed in
      let where_clause = λ (r : Row). r.detail.head.revision == head.revision in
      let update = update_row key where_clause (set_seen new) db.rows in
      let (result, e3, h4) = >>=-eq-ok (written update) _ h3 in
      let (u4, e4, h5) = >>=-eq-ok (require_single_write result.0) _ h4 in
      let (logs, e5, h6) =
        >>=-eq-ok (seen_logs sha256 account fence at db.logs existing new attempt) _ h5 in
      let w =
        update_row-Written key where_clause (set_seen new) db.rows result.1 result.0
          (written-changed update result e3) (guard-true _ _ e4) in
      let at_key : row_key (set_seen new w.0) ≡ key =
        set_seen-key new w.0 ∙ find_row-key key db.rows w.0 w.1 in
      subst (Step db observed) (ok-injective h6) (
        inl (
          set_seen new w.0,
          (
            ap (find_row key) w.5
                ∙ find_row-write_row key (set_seen new w.0) db.rows w.0 at_key w.1,
            λ other ne.
                ap (find_row other) w.5
                ∙ find_row-write_row-other key other (set_seen new w.0) db.rows at_key ne,
            w.3,
            w.4,
          ),
          seen,
        ))

  update_existing_seen-Step :
      (db : Db) (observed : SnapshotRecord) (existing : Row) (r : Db × Bool)
      → find_row (key_of account observed) db.rows ≡ some existing
      → update_existing_seen sha256 account fence at db observed existing ≡ ok r
      → Step db observed r.0
  unfolding update_existing_seen merged_row
  update_existing_seen-Step db observed existing r found h =
      let (attempt, e, h1) =
        >>=-eq-ok (superseded_attempt sha256 account fence at observed existing) _ h in
      let (payload, e1, h2) =
        >>=-eq-ok (merged_payload sha256 account fence at observed existing) _ h1 in
      let (projection, e2, h3) = >>=-eq-ok (from_source payload.source) _ h2 in
      let after = merged_row fence.token.snapshot_id at observed existing payload projection in
      let (u, e3, h4) =
        >>=-eq-ok (check_optional (check_text "blocked_reason") after.detail.head.blocked_reason) _
          h3 in
      elim (Bool-cases (is_changed existing after)) [
        | inl new ↦
            let (db', e5, h5) =
              >>=-eq-ok (persist_seen sha256 account fence at db observed existing attempt after) _
                (rw new at h4) in
            subst (λ p. Step db observed p.0) (ok-injective h5)
              (persist_seen-Step db db' observed existing after attempt (refl, refl) e5)
        | inr old ↦
            let kept : db ≡ r.0 = ap (λ p. p.0) (ok-injective (rw old at h4)) in
            subst (Step db observed) kept (
              inr (
                refl,
                (existing, found, unchanged-IsSeen fence.token.snapshot_id existing after refl old),
              ))
      ]

  pub apply_seen_found-Step :
      (db : Db) (bootstrap : Bool) (policy : NewRecordPolicy) (observed : SnapshotRecord)
      (effects : SeenEffects) (found : Option Row) (r : Db × SeenEffects)
      → find_row (key_of account observed) db.rows ≡ found
      → apply_seen_found sha256 account fence at db bootstrap policy observed effects found ≡ ok r
      → Step db observed r.0
  unfolding apply_seen_found
  apply_seen_found-Step db bootstrap policy observed effects none r f h =
      let (db', e, h1) =
        >>=-eq-ok (insert_new_seen sha256 account fence at db (not bootstrap) policy observed) _
          h in
      subst (λ p. Step db observed p.0) (ok-injective h1)
        (insert_new_seen-Step db db' (not bootstrap) policy observed e)
  apply_seen_found-Step db bootstrap policy observed effects (some x) r f h =
      let (existing, e, h1) = >>=-eq-ok (decode_existing sha256 x) _ h in
      let (p, e1, h2) =
        >>=-eq-ok (update_existing_seen sha256 account fence at db observed existing) _ h1 in
      subst (λ q. Step db observed q.0) (ok-injective h2)
        (update_existing_seen-Step db observed existing p
          (f ∙ ap some (decode_existing-same sha256 x existing e)) e1)
