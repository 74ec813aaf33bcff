-- ===== src/Detail/Exclusive.antt =====
-- An update with an outdated revision does not commit, whatever happened in between.
use tmdb_mteam_hub.Common.{
  >>=-eq-ok, List, ap, arith, guard, not, ok, some, some-injective, subst, ℕ, ◌==◌, ◌≡◌, ◌≢◌,
}
use tmdb_mteam_hub.Repository.Operation.{i64_max}
use tmdb_mteam_hub.Repository.Errors.{check_number, command_integer, invalid_input}
use tmdb_mteam_hub.Repository.Source.{SubscriptionProjection, from_source}
use tmdb_mteam_hub.Repository.Head.{SubscriptionDetail}
use tmdb_mteam_hub.Claim.Table.{Db, Row, find_row}
use tmdb_mteam_hub.Claim.Steps.{Steps}
use tmdb_mteam_hub.Claim.Steps.Invariant.{Steps-grows}
use tmdb_mteam_hub.Detail.{UpdateSubscriptionDetailCommand, update_detail}
use tmdb_mteam_hub.Detail.Swap.{Swaps, swap_detail-Swaps}

-- A commit of an optimistic update has found the row at the expected revision. The row that replaces
-- it satisfies the CHECK clauses and has the new projection, tags and payload under the next
-- revision; the time of its last update does not go back. Its other columns, those of the schedule,
-- the retries and the attempt among them, every other row and the audit log are as they were. A
-- running row had the same tags, as a set, and the same reason to skip. The detail that is returned
-- is the new row's.
pub update_detail-Swaps :
    (sha256 : List ℕ → List ℕ) (db db' : Db) (command : UpdateSubscriptionDetailCommand)
    (detail : SubscriptionDetail)
    → update_detail sha256 db command ≡ ok (db', detail)
    → (projection : SubscriptionProjection) × (from_source command.payload.source ≡ ok projection)
      × ((r : Row) × (r' : Row) × Swaps db command projection db' detail r r')
unfolding update_detail
update_detail-Swaps sha256 db db' command detail h =
    let (e, f1, h1) =
      >>=-eq-ok (command_integer "expected_revision" command.expected_revision) _ h in
    let (u2, f2, h2) =
      >>=-eq-ok (guard (not (e == i64_max)) (invalid_input "expected_revision")) _ h1 in
    let (at, f3, h3) = >>=-eq-ok (command_integer "updated_at" command.updated_at) _ h2 in
    let (projection, f4, h4) = >>=-eq-ok (from_source command.payload.source) _ h3 in
    let (u5, f5, h5) =
      >>=-eq-ok
        (check_number (command_integer "payload.source.douban_sort_time")
          projection.douban_sort_time)
        _ h4 in
    (projection, f4, swap_detail-Swaps sha256 db db' command projection detail h5)

-- After an optimistic update has committed, and after any number of claims, extensions, finishes,
-- failures and releases, no update of the same subscription that expects the same revision commits:
-- no update is lost.
pub update_detail-Exclusive :
    (sha256 : List ℕ → List ℕ) (db db' db'' : Db) (first second : UpdateSubscriptionDetailCommand)
    (detail : SubscriptionDetail) (result : Db × SubscriptionDetail)
    → update_detail sha256 db first ≡ ok (db', detail)
    → Steps sha256 db' db''
    → second.key ≡ first.key
    → second.expected_revision ≡ first.expected_revision
    → update_detail sha256 db'' second ≢ ok result
update_detail-Exclusive sha256 db db' db'' first second detail result h steps same_key same_revision
      k =
    let (p, e, (r, r', swapped)) = update_detail-Swaps sha256 db db' first detail h in
    let (q, e', (s, s', swapped')) = update_detail-Swaps sha256 db'' result.0 second result.1 k in
    let grown = Steps-grows sha256 db' db'' first.key r' steps swapped.4.0 in
    let same_row : grown.0.0 ≡ s =
      some-injective grown.0.1 (subst (λ x. find_row x db''.rows ≡ some s) same_key swapped'.0) in
    omega (
      arith,
      grown.0.2,
      swapped.1,
      swapped.3.0,
      swapped'.1,
      same_revision,
      ap (λ x. x.detail.head.revision) same_row,
    )
