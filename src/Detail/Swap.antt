-- ===== src/Detail/Swap.antt =====
-- A commit is a compare-and-swap on the revision.
use tmdb_mteam_hub.Common.{
  ==_iff, >>=-eq-ok, List, Option-cases, ap, arith, err, guard, guard-true, inl, inr, ok,
  ok-injective, refl, some, some-injective, subst, sym, true, ℕ, ◌==◌, ◌∙◌, ◌≡◌, ◌+◌, max,
}
use tmdb_mteam_hub.Repository.Operation.{SubscriptionKey}
use tmdb_mteam_hub.Repository.Errors.{
  RepositoryResult, execution_gate_conflict, not_found, revision_conflict,
}
use tmdb_mteam_hub.Repository.Source.{SubscriptionProjection}
use tmdb_mteam_hub.Repository.Head.{
  SubscriptionDetail, validate_payload_media_kind, SubscriptionHead,
}
use tmdb_mteam_hub.Claim.Table.{
  Db, Row, Update, changed, check_violation, find_row, row_key, unique_violation, update_row,
}
use tmdb_mteam_hub.Claim.Table.Rows.{update_row-Written}
use tmdb_mteam_hub.Claim.Table.Consistent.{Installs, Written-Installs}
use tmdb_mteam_hub.Claim.Load.Decoded.{decode_detail-same}
use tmdb_mteam_hub.Detail.{
  UpdateSubscriptionDetailCommand, expect_detail_update, gate_open, load_detail, load_detail_found,
  set_detail, swap_detail,
}

-- A head but for its revision and the time of its last update.
abbrev pub head_but : ℕ → ℕ → SubscriptionHead → SubscriptionHead
head_but revision at head = record head { revision = revision; updated_at = at }

-- A row before and after a commit: the tags, the payload and the projection are the new ones, the
-- revision is the next one, and every other column is as it was.
abbrev pub NewDetail : UpdateSubscriptionDetailCommand → SubscriptionProjection → Row → Row → Type 0
NewDetail command projection r r' =
    (r'.detail.head.revision ≡ r.detail.head.revision + 1)
    × (r'.detail.head.updated_at ≡ max r.detail.head.updated_at command.updated_at)
    × (head_but r.detail.head.revision r.detail.head.updated_at r'.detail.head ≡ r.detail.head)
    × (r'.detail.projection ≡ projection)
    × (r'.detail.attention_tags ≡ command.attention_tags)
    × (r'.detail.payload ≡ command.payload)
    × (r'.claimed_operation ≡ r.claimed_operation)
    × (r'.attempt_id ≡ r.attempt_id)
    × (r'.lease_until ≡ r.lease_until)

set_detail-NewDetail :
    (command : UpdateSubscriptionDetailCommand) (projection : SubscriptionProjection) (r : Row)
    → NewDetail command projection r (set_detail command projection r)
unfolding set_detail
set_detail-NewDetail command projection r = (refl, refl, refl, refl, refl, refl, refl, refl, refl)

-- What a commit has found and written: the row r at the expected revision, which lets the change
-- through, is replaced by the row r' with the new detail.
abbrev pub Swaps :
    Db
    → UpdateSubscriptionDetailCommand
    → SubscriptionProjection
    → Db
    → SubscriptionDetail
    → Row
    → Row
    → Type 0
Swaps db command projection db' detail r r' =
    (find_row command.key db.rows ≡ some r)
    × (r.detail.head.revision ≡ command.expected_revision)
    × (gate_open r.detail command ≡ true)
    × NewDetail command projection r r'
    × Installs command.key r' db.rows db'.rows
    × (detail ≡ r'.detail)
    × (db'.logs ≡ db.logs)

not_loaded :
    (key : SubscriptionKey) (detail : SubscriptionDetail)
    → ◌≡◌ {A = RepositoryResult SubscriptionDetail} (err (not_found key)) (ok detail)
    → ⊥
not_loaded key detail h = cc

-- A detail that loads is the row's.
pub load_detail-Found :
    (sha256 : List ℕ → List ℕ) (rows : List Row) (key : SubscriptionKey)
    (detail : SubscriptionDetail)
    → load_detail sha256 rows key ≡ ok detail
    → (r : Row) × (find_row key rows ≡ some r) × (detail ≡ r.detail)
unfolding load_detail load_detail_found
load_detail-Found sha256 rows key detail h = elim (Option-cases (find_row key rows)) [
  | inl gone ↦ absurd (not_loaded key detail (sym (ap (load_detail_found sha256 key) gone) ∙ h))
  | inr (r, found) ↦ (
    r,
    found,
    decode_detail-same sha256 r.detail detail (sym (ap (load_detail_found sha256 key) found) ∙ h),
  )
]

expect_detail_update-changed :
    (key : SubscriptionKey) (expected : ℕ) (rows rows' : List Row) (u : Update)
    → expect_detail_update key expected rows u ≡ ok rows'
    → (n : ℕ) × (u ≡ changed n rows') × ((n == 1) ≡ true)
unfolding expect_detail_update
expect_detail_update-changed key expected rows rows' unique_violation h = cc
expect_detail_update-changed key expected rows rows' check_violation h = cc
expect_detail_update-changed key expected rows rows' (changed n written_rows) h =
    (n, ground arith, ground arith)

set_detail-key :
    (command : UpdateSubscriptionDetailCommand) (projection : SubscriptionProjection) (r : Row)
    → row_key (set_detail command projection r) ≡ row_key r
unfolding set_detail
set_detail-key command projection r = refl

pub swap_detail-Swaps :
    (sha256 : List ℕ → List ℕ) (db db' : Db) (command : UpdateSubscriptionDetailCommand)
    (projection : SubscriptionProjection) (detail : SubscriptionDetail)
    → swap_detail sha256 db command projection ≡ ok (db', detail)
    → (r : Row) × (r' : Row) × Swaps db command projection db' detail r r'
unfolding swap_detail
swap_detail-Swaps sha256 db db' command projection detail h =
    let (current, f1, h1) = >>=-eq-ok (load_detail sha256 db.rows command.key) _ h in
    let (u2, f2, h2) =
      >>=-eq-ok
        (guard (current.head.revision == command.expected_revision)
          (revision_conflict command.key command.expected_revision current.head.revision))
        _ h1 in
    let (u3, f3, h3) =
      >>=-eq-ok (validate_payload_media_kind current.head.media_kind command.payload) _ h2 in
    let (u4, f4, h4) =
      >>=-eq-ok (guard (gate_open current command) (execution_gate_conflict command.key)) _ h3 in
    let (rows, f5, h5) =
      >>=-eq-ok
        (expect_detail_update command.key command.expected_revision db.rows (
          update_row command.key (λ r. r.detail.head.revision == command.expected_revision)
            (set_detail command projection) db.rows))
        _ h4 in
    let (after, f6, h6) = >>=-eq-ok (load_detail sha256 rows command.key) _ h5 in
    let (n, u, one) =
      expect_detail_update-changed command.key command.expected_revision db.rows rows
        (update_row command.key (λ r. r.detail.head.revision == command.expected_revision)
          (set_detail command projection) db.rows)
        f5 in
    let w =
      update_row-Written command.key (λ r. r.detail.head.revision == command.expected_revision)
        (set_detail command projection) db.rows rows n u one in
    let installed =
      Written-Installs command.key (λ r. r.detail.head.revision == command.expected_revision)
        (set_detail command projection) db.rows rows (set_detail-key command projection) w in
    let (r0, found0, same0) = load_detail-Found sha256 db.rows command.key current f1 in
    let (r1, found1, same1) = load_detail-Found sha256 rows command.key after f6 in
    let same_row : r0 ≡ w.0 = some-injective found0 w.1 in
    let result = ok-injective h6 in
    (
      w.0,
      set_detail command projection w.0,
      (
        w.1,
        (==_iff w.0.detail.head.revision command.expected_revision).0 w.2,
        subst (λ d. gate_open d command ≡ true) (same0 ∙ ap (λ x. x.detail) same_row)
            (guard-true _ _ f4),
        set_detail-NewDetail command projection w.0,
        subst (λ d. Installs command.key (set_detail command projection w.0) db.rows d.rows)
            (ap (λ p. p.0) result) installed,
        sym (ap (λ p. p.1) result) ∙ same1 ∙ ap (λ x. x.detail) (some-injective found1 installed.0),
        sym (ap (λ p. p.0.logs) result),
      ),
    )
