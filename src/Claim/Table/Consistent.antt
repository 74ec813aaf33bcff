-- ===== src/Claim/Table/Consistent.antt =====
-- The write of one row, and the rows that it leaves.
use tmdb_mteam_hub.Common.{Bool, ◌≡◌, ap, ◌∙◌, List, true, false, some}
use tmdb_mteam_hub.Repository.Operation.{SubscriptionKey, key_eq}
use tmdb_mteam_hub.Claim.Table.{Row, row_key, find_row, attempt_taken, satisfies_checks}
use tmdb_mteam_hub.Claim.Table.Rows.{
  Written, find_row-key, find_row-write_row, find_row-write_row-other,
}

-- Only the row of one key changed.
abbrev pub KeepsOthers : SubscriptionKey → List Row → List Row → Type 0
KeepsOthers key rows rows' =
    (other : SubscriptionKey)
    → key_eq key other ≡ false
    → find_row other rows' ≡ find_row other rows

-- A row is written under the key: it satisfies the CHECK clauses, and its attempt is no other's.
abbrev pub Installs : SubscriptionKey → Row → List Row → List Row → Type 0
Installs key new rows rows' =
    (find_row key rows' ≡ some new)
    × KeepsOthers key rows rows'
    × (satisfies_checks new ≡ true)
    × (attempt_taken key new.attempt_id rows ≡ false)

-- The statement writes the row under its key.
pub Written-Installs :
    (key : SubscriptionKey) (where_clause : Row → Bool) (set : Row → Row) (rows rows' : List Row)
    → ((r : Row) → row_key (set r) ≡ row_key r)
    → (w : Written key where_clause set rows rows') → Installs key (set w.0) rows rows'
Written-Installs key where_clause set rows rows' keeps (r, found, tested, checks, free, same_rows) =
    let at : row_key (set r) ≡ key = keeps r ∙ find_row-key key rows r found in
    (
      ap (find_row key) same_rows ∙ find_row-write_row key (set r) rows r at found,
      (λ other ne.
          ap (find_row other) same_rows ∙ find_row-write_row-other key other (set r) rows at ne),
      checks,
      free,
    )
