-- ===== src/Claim/Terminal/Release.antt =====
-- A release of a live attempt commits: its checks after the write never fail.
use tmdb_mteam_hub.Common.{
  some-injective, ℕ, ◌+◌, ◌≡◌, refl, sym, ap, subst, ◌∙◌, List, true, ltb, leb, some, same_refl, ok,
  arith,
}
use tmdb_mteam_hub.Repository.Operation.{SubscriptionKey, ExecutionAttemptToken, Attempt, i64_max}
use tmdb_mteam_hub.Repository.Head.{Token-discrete}
use tmdb_mteam_hub.Claim.Table.{
  Row, Db, release_attempt, find_row, write_row, attempt_taken, satisfies_checks, update_found,
  update_row,
}
use tmdb_mteam_hub.Claim.Table.Rows.{find_row-key, find_row-write_row}
use tmdb_mteam_hub.Claim.Load.{
  decode_row, StoredSubscription, idle, running, load_found, load_stored_subscription,
}
use tmdb_mteam_hub.Claim.Load.Decoded.{ControlsOf, load-row, decode_row-ControlsOf}
use tmdb_mteam_hub.Claim.Terminal.{
  where_live, require_live_attempt, set_release, update_attempt, expect_exact_attempt_update,
}
use tmdb_mteam_hub.Claim.Terminal.Operations.{load_live, release, append_audit}
use tmdb_mteam_hub.Claim.Terminal.Released.{
  released_detail, decode_row-released, verify_preserved_detail-released, verify_immutable-released,
  verify_released-holds, satisfies_checks-released, runs_live, free_id, same_key, stored_eq,
  next_revision-fits, integer_fits,
}

-- The UPDATE of a release on the row that runs the attempt.
update_released :
    (key : SubscriptionKey) (a : Attempt) (now : ℕ) (rows : List Row) (r : Row)
    → find_row key rows ≡ some r
    → where_live a now r ≡ true
    → satisfies_checks r ≡ true
    → update_attempt key a now (set_release now) rows ≡ ok (write_row key (set_release now r) rows)
unfolding update_attempt expect_exact_attempt_update update_row update_found attempt_taken
update_released key a now rows r found live checks =
    rw (found, live, satisfies_checks-released now r checks, free_id now r) refl

module _ (sha256 : List ℕ → List ℕ) (now : ℕ) (db : Db) (r : Row) (a : Attempt) where
  abbrev at_row : StoredSubscription
  at_row = record { detail = r.detail; controls = running a }

  load_live-live :
      load_stored_subscription sha256 db.rows a.token.key ≡ ok at_row
      → ltb now a.lease_until ≡ true
      → leb now i64_max ≡ true
      → load_live sha256 now db a.token ≡ ok (at_row, a)
  unfolding load_live require_live_attempt
  load_live-live loads live clock =
      rw (integer_fits now clock, loads) (ground (arith, same_refl Token-discrete a.token))

  reload :
      (s : StoredSubscription)
      → find_row a.token.key db.rows ≡ some r
      → decode_row sha256 r ≡ ok s
      → load_stored_subscription sha256
          (write_row a.token.key (set_release now r) db.rows)
          a.token.key
        ≡ ok (record { detail = released_detail now r.detail; controls = idle })
  unfolding load_stored_subscription load_found
  reload s found decoded =
      rw
        (find_row-write_row a.token.key (set_release now r) db.rows r
          (same_key now r ∙ find_row-key a.token.key db.rows r found) found)
        (decode_row-released sha256 now r s decoded)

  release-commits-row :
      find_row a.token.key db.rows ≡ some r
      → satisfies_checks r ≡ true
      → decode_row sha256 r ≡ ok at_row
      → load_stored_subscription sha256 db.rows a.token.key ≡ ok at_row
      → where_live a now r ≡ true
      → ltb now a.lease_until ≡ true
      → leb now i64_max ≡ true
      → leb a.lease_until i64_max ≡ true
      → leb (r.detail.head.revision + 1) i64_max ≡ true
      → release sha256 now db a.token
        ≡ ok (
          append_audit release_attempt now a
              (released_detail now r.detail)
              (write_row a.token.key (set_release now r) db.rows)
              db,
          released_detail now r.detail,
        )
  unfolding release
  release-commits-row found checks decoded loads running_live live clock lease revision =
      rw
        (
          load_live-live loads live clock,
          next_revision-fits r.detail.head.revision revision,
          integer_fits a.lease_until lease,
          update_released a.token.key a now db.rows r found running_live checks,
          reload at_row found decoded,
          verify_released-holds sha256 now db r.detail.head,
          verify_preserved_detail-released now r.detail,
          verify_immutable-released now r.detail,
        )
        refl

-- A release of the attempt that a row runs, whose lease has not ended and whose row satisfies the CHECK
-- clauses, commits if the clock, the lease and the next revision fit an `i64`: the row is
-- freed, one audit entry is appended, and no check after the write fails.
pub release-commits :
    (sha256 : List ℕ → List ℕ) (now : ℕ) (db : Db) (token : ExecutionAttemptToken)
    (stored : StoredSubscription) (r : Row)
    → find_row token.key db.rows ≡ some r
    → satisfies_checks r ≡ true
    → load_stored_subscription sha256 db.rows token.key ≡ ok stored
    → (a : Attempt) → stored.controls ≡ running a
    → a.token ≡ token
    → ltb now a.lease_until ≡ true
    → leb now i64_max ≡ true
    → leb a.lease_until i64_max ≡ true
    → leb (r.detail.head.revision + 1) i64_max ≡ true
    → release sha256 now db token
      ≡ ok (
        append_audit release_attempt now a
            (released_detail now r.detail)
            (write_row token.key (set_release now r) db.rows)
            db,
        released_detail now r.detail,
      )
release-commits sha256 now db token stored r found checks loads a runs of_token live clock lease
      revision =
    let (r1, found1, decoded1) = load-row sha256 db.rows token.key stored loads in
    let same_row : r1 ≡ r = some-injective found1 found in
    let decoded : decode_row sha256 r ≡ ok stored =
      subst (λ x. decode_row sha256 x ≡ ok stored) same_row decoded1 in
    let (same_detail, controls) = decode_row-ControlsOf sha256 r stored decoded in
    let same_stored = stored_eq stored r.detail (running a) same_detail runs in
    subst
      (λ t.
        release sha256 now db t
        ≡ ok (
          append_audit release_attempt now a (released_detail now r.detail)
              (write_row t.key (set_release now r) db.rows) db,
          released_detail now r.detail,
        ))
      of_token
      (release-commits-row sha256 now db r a
        (subst (λ t. find_row t.key db.rows ≡ some r) (sym of_token) found) checks
        (decoded ∙ ap ok same_stored)
        (subst (λ t. load_stored_subscription sha256 db.rows t.key ≡ ok stored) (sym of_token) loads
          ∙ ap ok same_stored)
        (runs_live r a now (subst (ControlsOf r.detail.head r) runs controls) live) live clock lease
        revision)
