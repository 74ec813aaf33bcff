-- ===== src/Claim/Table/Rows.antt =====
-- Rows of the table after an UPDATE by the primary key.
use tmdb_mteam_hub.Common.{
  ℕ, ◌≡◌, refl, ◌↔◌, List, [], ◌∷◌, Bool, true, false, ◌==◌, Option, none, some, text_eq_iff, arith,
}
use tmdb_mteam_hub.Repository.Operation.{SubscriptionKey, key_eq}
use tmdb_mteam_hub.Claim.Table.{
  Row, changed, row_key, find_row, write_row, attempt_taken, satisfies_checks, update_row,
  update_found,
}

pub key_eq_iff : (a b : SubscriptionKey) → (key_eq a b ≡ true) ↔ (a ≡ b)
unfolding key_eq
key_eq_iff a b =
    ground (arith, text_eq_iff a.account_key b.account_key, text_eq_iff a.subject_id b.subject_id)

-- The row that a search by the key finds has the key.
pub find_row-key :
    (key : SubscriptionKey) (rows : List Row) (r : Row)
    → find_row key rows ≡ some r
    → row_key r ≡ key
unfolding find_row
find_row-key key [] r h = cc
find_row-key key (x ∷ rows) r h =
    ground (arith, find_row-key key rows r, key_eq_iff (row_key x) key)

-- The written row is the one that its key finds.
pub find_row-write_row :
    (key : SubscriptionKey) (new : Row) (rows : List Row) (r : Row)
    → row_key new ≡ key
    → find_row key rows ≡ some r
    → find_row key (write_row key new rows) ≡ some new
unfolding find_row write_row
find_row-write_row key new [] r h k = cc
find_row-write_row key new (x ∷ rows) r h k =
    ground (arith, find_row-write_row key new rows r, key_eq_iff (row_key new) key)

-- A row with another key is as it was.
pub find_row-write_row-other :
    (key other : SubscriptionKey) (new : Row) (rows : List Row)
    → row_key new ≡ key
    → key_eq key other ≡ false
    → find_row other (write_row key new rows) ≡ find_row other rows
unfolding find_row write_row
find_row-write_row-other key other new [] h k = refl
find_row-write_row-other key other new (x ∷ rows) h k = ground (
  arith,
  find_row-write_row-other key other new rows h k,
  key_eq_iff (row_key x) key,
  key_eq_iff (row_key new) other,
  key_eq_iff key other,
  key_eq_iff (row_key x) other,
)

-- What an UPDATE that changed one row has tested and done.
abbrev pub Written : SubscriptionKey → (Row → Bool) → (Row → Row) → List Row → List Row → Type 0
Written key where_clause set rows rows' =
    (r : Row) × (find_row key rows ≡ some r)
    × (where_clause r ≡ true)
    × (satisfies_checks (set r) ≡ true)
    × (attempt_taken key (set r).attempt_id rows ≡ false)
    × (rows' ≡ write_row key (set r) rows)

update_found-Written :
    (key : SubscriptionKey) (where_clause : Row → Bool) (set : Row → Row) (rows rows' : List Row)
    (found : Option Row)
    → find_row key rows ≡ found
    → (n : ℕ) → update_found key where_clause set rows found ≡ changed n rows'
    → (n == 1) ≡ true
    → Written key where_clause set rows rows'
unfolding update_found
update_found-Written key where_clause set rows rows' none e n h k = ground arith
update_found-Written key where_clause set rows rows' (some r) e n h k =
    (r, e, ground arith, ground arith, ground arith, ground arith)

pub update_row-Written :
    (key : SubscriptionKey) (where_clause : Row → Bool) (set : Row → Row) (rows rows' : List Row)
    (n : ℕ)
    → update_row key where_clause set rows ≡ changed n rows'
    → (n == 1) ≡ true
    → Written key where_clause set rows rows'
unfolding update_row
update_row-Written key where_clause set rows rows' n h k =
    update_found-Written key where_clause set rows rows' (find_row key rows) refl n h k
