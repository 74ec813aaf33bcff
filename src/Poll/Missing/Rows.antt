-- ===== src/Poll/Missing/Rows.antt =====
-- What the deactivation does to the table.
use tmdb_mteam_hub.Common.{
  ℕ, suc, ◌+◌, ◌≡◌, ◌≢◌, ◌⊎◌, refl, sym, ap, ◌∙◌, List, [], ◌∷◌, true, false, Option, none, some,
  Option-cases, Text, text_eq, text_eq_iff, text_eq_refl, Bool-cases, inl, inr, ok, >>=-eq-ok,
  ok-injective, if◌then◌else◌, arith,
}
use tmdb_mteam_hub.Model.{SubscriptionExecutionState}
use tmdb_mteam_hub.Repository.Operation.{SubscriptionKey}
use tmdb_mteam_hub.Claim.Table.{Row, row_key, find_row, satisfies_checks}
use tmdb_mteam_hub.Claim.Table.Rows.{find_row-key}
use tmdb_mteam_hub.Poll.Seen.Rows.{IsSeen, SeenAt, err-ne-ok}
use tmdb_mteam_hub.Poll.Missing.{
  is_seen, where_missing, set_deactivated, deactivate_row, deactivate_missing,
}

-- What the deactivation makes of one row.
abbrev pub deactivated : Text → Text → ℕ → Option Row → Option Row
deactivated account snapshot_id at none = none
deactivated account snapshot_id at (some r) =
    some (if where_missing account snapshot_id r then set_deactivated at r else r)

set_deactivated-key : (at : ℕ) (r : Row) → row_key (set_deactivated at r) ≡ row_key r
unfolding set_deactivated
set_deactivated-key at r = refl

-- One row of the deactivation: it is left, or it is deactivated and satisfies the CHECK clauses.
abbrev pub Deactivates : Text → Text → ℕ → Row → ℕ × List Row → ℕ × List Row → Type 0
Deactivates account snapshot_id at x rest r =
    ((where_missing account snapshot_id x ≡ false) × (r ≡ (rest.0, x ∷ rest.1)))
    ⊎ ((where_missing account snapshot_id x ≡ true)
        × (satisfies_checks (set_deactivated at x) ≡ true)
        × (r ≡ (suc rest.0, set_deactivated at x ∷ rest.1)))

pub deactivate_row-Deactivates :
    (account snapshot_id : Text) (at : ℕ) (x : Row) (rest r : ℕ × List Row)
    → deactivate_row account snapshot_id at x rest ≡ ok r
    → Deactivates account snapshot_id at x rest r
unfolding deactivate_row
deactivate_row-Deactivates account snapshot_id at x rest r h =
    elim (Bool-cases (where_missing account snapshot_id x)) [
      | inl missing ↦ elim (Bool-cases (satisfies_checks (set_deactivated at x))) [
        | inl valid ↦ inr (missing, valid, sym (ok-injective (rw (missing, valid) at h)))
        | inr wrong ↦ absurd (err-ne-ok (rw (missing, wrong) at h))
      ]
      | inr kept ↦ inl (kept, sym (ok-injective (rw kept at h)))
    ]

find_row-Deactivates :
    (account snapshot_id : Text) (at : ℕ) (key : SubscriptionKey) (x : Row) (rows : List Row)
    (rest r : ℕ × List Row)
    → Deactivates account snapshot_id at x rest r
    → find_row key rest.1 ≡ deactivated account snapshot_id at (find_row key rows)
    → find_row key r.1 ≡ deactivated account snapshot_id at (find_row key (x ∷ rows))
unfolding find_row
find_row-Deactivates account snapshot_id at key x rows rest r (inl (kept, same_rows)) ih =
    rw same_rows (ground (arith, ih, kept))
find_row-Deactivates account snapshot_id at key x rows rest r (inr (missing, valid, same_rows)) ih =
    rw same_rows (ground (arith, ih, missing, set_deactivated-key at x))

pub find_row-deactivate_missing :
    (account snapshot_id : Text) (at : ℕ) (key : SubscriptionKey) (rows : List Row)
    (r : ℕ × List Row)
    → deactivate_missing account snapshot_id at rows ≡ ok r
    → find_row key r.1 ≡ deactivated account snapshot_id at (find_row key rows)
unfolding deactivate_missing find_row
find_row-deactivate_missing account snapshot_id at key [] r h =
    ap (λ p. find_row key p.1) (sym (ok-injective h))
find_row-deactivate_missing account snapshot_id at key (x ∷ rows) r h =
    let (rest, e, h1) = >>=-eq-ok (deactivate_missing account snapshot_id at rows) _ h in
    find_row-Deactivates account snapshot_id at key x rows rest r
      (deactivate_row-Deactivates account snapshot_id at x rest r h1)
      (find_row-deactivate_missing account snapshot_id at key rows rest e)

-- A row of the account that the snapshot leaves out: one that was active under another id is inactive
-- and free, under the next revision and with its payload; any other is as it was.
abbrev pub LeftOut : Text → Text → ℕ → Row → Row → Type 0
LeftOut account snapshot_id at r r' =
    ((r' ≡ r)
      × ((r.detail.head.active ≡ false) ⊎ (r.detail.head.last_seen_snapshot_id ≡ some snapshot_id)))
    ⊎ ((r'.detail.head.active ≡ false)
        × (r'.detail.head.inactive_at ≡ some at)
        × (r'.detail.head.execution_state ≡ SubscriptionExecutionState.idle)
        × (r'.attempt_id ≡ none)
        × (r'.detail.head.next_attempt_at ≡ none)
        × (r'.detail.head.revision ≡ r.detail.head.revision + 1)
        × (r'.detail.payload ≡ r.detail.payload)
        × (r.detail.head.active ≡ true))

seen-is_seen : (id : Text) (last : Option Text) → is_seen id last ≡ true → last ≡ some id
seen-is_seen id none h = cc
seen-is_seen id (some x) h = ap some ((text_eq_iff x id).0 h)

missing-active :
    (account snapshot_id : Text) (r : Row)
    → where_missing account snapshot_id r ≡ true
    → r.detail.head.active ≡ true
unfolding where_missing
missing-active account snapshot_id r h = ground arith

not_missing :
    (account snapshot_id : Text) (r : Row)
    → r.detail.head.key.account_key ≡ account
    → where_missing account snapshot_id r ≡ false
    → (r.detail.head.active ≡ false) ⊎ (r.detail.head.last_seen_snapshot_id ≡ some snapshot_id)
unfolding where_missing
not_missing account snapshot_id r at_account h =
    elim (Bool-cases (is_seen snapshot_id r.detail.head.last_seen_snapshot_id)) [
      | inl seen ↦ inr (seen-is_seen snapshot_id r.detail.head.last_seen_snapshot_id seen)
      | inr other ↦
          inl (ground (arith, (text_eq_iff r.detail.head.key.account_key account).1 at_account))
    ]

pub kept-LeftOut :
    (account snapshot_id : Text) (at : ℕ) (r : Row)
    → r.detail.head.key.account_key ≡ account
    → LeftOut account snapshot_id at r
        (if where_missing account snapshot_id r then set_deactivated at r else r)
unfolding set_deactivated
kept-LeftOut account snapshot_id at r at_account =
    elim (Bool-cases (where_missing account snapshot_id r)) [
      | inl missing ↦ rw missing (
          inr (
            refl,
            refl,
            refl,
            refl,
            refl,
            refl,
            refl,
            missing-active account snapshot_id r missing,
          ))
      | inr kept ↦ rw kept (inl (refl, not_missing account snapshot_id r at_account kept))
    ]

other_account :
    (account snapshot_id : Text) (at : ℕ) (r : Row)
    → r.detail.head.key.account_key ≢ account
    → where_missing account snapshot_id r ≡ false
unfolding where_missing
other_account account snapshot_id at r ne =
    elim (Bool-cases (text_eq r.detail.head.key.account_key account)) [
      | inl e ↦ absurd (ne ((text_eq_iff r.detail.head.key.account_key account).0 e))
      | inr e ↦ rw e
    ]

seen-not-missing :
    (account snapshot_id : Text) (r : Row)
    → IsSeen snapshot_id r
    → where_missing account snapshot_id r ≡ false
unfolding where_missing
seen-not-missing account snapshot_id r (active, seen) =
    let known : is_seen snapshot_id r.detail.head.last_seen_snapshot_id ≡ true =
      ap (is_seen snapshot_id) seen ∙ text_eq_refl snapshot_id in
    ground (arith, known)

pub SeenAt-deactivated :
    (account snapshot_id : Text) (at : ℕ) (key : SubscriptionKey) (rows rows' : List Row)
    → SeenAt key snapshot_id rows
    → find_row key rows' ≡ deactivated account snapshot_id at (find_row key rows)
    → SeenAt key snapshot_id rows'
SeenAt-deactivated account snapshot_id at key rows rows' (r, found, seen) h = (
  r,
  h
      ∙ ap (deactivated account snapshot_id at) found
      ∙ ap (λ b. some (if b then set_deactivated at r else r))
          (seen-not-missing account snapshot_id r seen),
  seen,
)

pub listed_row :
    (account snapshot_id : Text) (at : ℕ) (key : SubscriptionKey) (rows : List Row)
    → (key.account_key ≢ account) ⊎ (find_row key rows ≡ none)
    → deactivated account snapshot_id at (find_row key rows) ≡ find_row key rows
listed_row account snapshot_id at key rows (inr absent) = rw absent
listed_row account snapshot_id at key rows (inl ne) = elim (Option-cases (find_row key rows)) [
  | inl absent ↦ rw absent
  | inr (r, found) ↦
      let at_key : row_key r ≡ key = find_row-key key rows r found in
      rw (
        found,
        other_account account snapshot_id at r (λ e. ne (sym (ap (λ k. k.account_key) at_key) ∙ e)),
      )
]
