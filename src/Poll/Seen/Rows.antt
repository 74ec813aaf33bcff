-- ===== src/Poll/Seen/Rows.antt =====
-- Rows that one record of a snapshot writes.
use tmdb_mteam_hub.Common.{
  ℕ, ◌≡◌, ◌⊎◌, refl, ap, List, [], ◌∷◌, ◌++◌, true, false, Option, none, some, Text, Bool-cases,
  inl, inr, Result, ok, err, >>=-eq-ok, ok-injective, arith,
}
use tmdb_mteam_hub.Repository.Operation.{SubscriptionKey, key_eq}
use tmdb_mteam_hub.Repository.Errors.{RepositoryError}
use tmdb_mteam_hub.Repository.Head.{detail_validate}
use tmdb_mteam_hub.Repository.Poll.{SnapshotRecord}
use tmdb_mteam_hub.Claim.Table.{
  Row, Update, changed, unique_violation, check_violation, row_key, find_row, satisfies_checks,
}
use tmdb_mteam_hub.Claim.Table.Rows.{key_eq_iff}
use tmdb_mteam_hub.Poll.Existing.{decode_existing, check_columns, check_head_texts}
use tmdb_mteam_hub.Poll.Merged.{written, insert_found}
use tmdb_mteam_hub.Claim.Load.{persisted}
use tmdb_mteam_hub.Claim.Table.Consistent.{Installs}

-- The row of a subject that the snapshot has.
abbrev pub IsSeen : Text → Row → Type 0
IsSeen snapshot_id r =
    (r.detail.head.active ≡ true) × (r.detail.head.last_seen_snapshot_id ≡ some snapshot_id)

abbrev pub SeenAt : SubscriptionKey → Text → List Row → Type 0
SeenAt key snapshot_id rows = (r : Row) × (find_row key rows ≡ some r) × IsSeen snapshot_id r

abbrev pub key_of : Text → SnapshotRecord → SubscriptionKey
key_of account observed = record { account_key = account; subject_id = observed.subject_id }

-- One record of the snapshot: its row is written, or it was as it should be.
abbrev pub Sees : SubscriptionKey → Text → List Row → List Row → Type 0
Sees key snapshot_id rows rows' =
    ((new : Row) × Installs key new rows rows' × IsSeen snapshot_id new)
    ⊎ ((rows ≡ rows') × SeenAt key snapshot_id rows')

pub err-ne-ok {ℓ} :
    {A : Type ℓ} {e : RepositoryError} {a : A}
    → ◌≡◌ {A = Result RepositoryError A} (err e) (ok a)
    → ⊥
err-ne-ok h = cc

pub decode_existing-same :
    (sha256 : List ℕ → List ℕ) (r existing : Row)
    → decode_existing sha256 r ≡ ok existing
    → r ≡ existing
unfolding decode_existing
decode_existing-same sha256 r existing h =
    let (u, e, h1) = >>=-eq-ok (check_columns r) _ h in
    let (u1, e1, h2) = >>=-eq-ok (check_head_texts r) _ h1 in
    let (u2, e2, h3) = >>=-eq-ok (persisted (detail_validate sha256 r.detail)) _ h2 in
    ok-injective h3

pub find_row-append :
    (key : SubscriptionKey) (new : Row) (rows : List Row)
    → row_key new ≡ key
    → find_row key rows ≡ none
    → find_row key (rows ++ new ∷ []) ≡ some new
unfolding find_row
find_row-append key new [] h k = ground (arith, key_eq_iff (row_key new) key)
find_row-append key new (x ∷ rows) h k = ground (arith, find_row-append key new rows h)

pub find_row-append-other :
    (key other : SubscriptionKey) (new : Row) (rows : List Row)
    → row_key new ≡ key
    → key_eq key other ≡ false
    → find_row other (rows ++ new ∷ []) ≡ find_row other rows
unfolding find_row
find_row-append-other key other new [] h k =
    ground (arith, key_eq_iff (row_key new) other, key_eq_iff key other)
find_row-append-other key other new (x ∷ rows) h k =
    ground (arith, find_row-append-other key other new rows h k)

-- An INSERT that commits had no row of the key.
pub insert_found-Written :
    (new : Row) (rows : List Row) (found : Option Row) (result : ℕ × List Row)
    → written (insert_found new rows found) ≡ ok result
    → (found ≡ none) × (satisfies_checks new ≡ true) × (rows ++ new ∷ [] ≡ result.1)
unfolding insert_found written
insert_found-Written new rows none result h = elim (Bool-cases (satisfies_checks new)) [
  | inl valid ↦ (refl, valid, ap (λ p. p.1) (ok-injective (rw valid at h)))
  | inr wrong ↦ absurd (err-ne-ok (rw wrong at h))
]
insert_found-Written new rows (some r) result h = absurd (err-ne-ok h)

pub written-changed :
    (update : Update) (result : ℕ × List Row)
    → written update ≡ ok result
    → update ≡ changed result.0 result.1
unfolding written
written-changed (changed n rows) result h = ap (λ p. changed p.0 p.1) (ok-injective h)
written-changed unique_violation result h = absurd (err-ne-ok h)
written-changed check_violation result h = absurd (err-ne-ok h)
