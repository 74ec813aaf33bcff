-- ===== src/Poll/Seen/Loop.antt =====
-- What the loop over a snapshot's records does to the table.
use tmdb_mteam_hub.Common.{
  ℕ, ◌≡◌, ◌⊎◌, refl, sym, ap, ◌∙◌, subst, List, ◌∷◌, Bool, true, false, Text, any, Bool-cases, inl,
  inr, ok, >>=-eq-ok, ok-injective, arith, [],
}
use tmdb_mteam_hub.Repository.Operation.{SubscriptionKey, key_eq}
use tmdb_mteam_hub.Repository.Poll.{SnapshotRecord, NewRecordPolicy}
use tmdb_mteam_hub.Claim.Table.{Row, Db, find_row}
use tmdb_mteam_hub.Claim.Table.Rows.{key_eq_iff}
use tmdb_mteam_hub.Poll.Existing.{PollFenceContext}
use tmdb_mteam_hub.Poll.Seen.{SeenEffects, apply_seen_found, apply_seen_records}
use tmdb_mteam_hub.Poll.Seen.Rows.{SeenAt, Sees, key_of}
use tmdb_mteam_hub.Poll.Seen.Step.{apply_seen_found-Step}

-- The snapshot has a record for the key.
abbrev pub listed : Text → SubscriptionKey → List SnapshotRecord → Bool
listed account key records = any (λ observed. key_eq (key_of account observed) key) records

Sees-other :
    (key other : SubscriptionKey) (snapshot_id : Text) (rows rows' : List Row)
    → Sees key snapshot_id rows rows'
    → key_eq key other ≡ false
    → find_row other rows' ≡ find_row other rows
Sees-other key other snapshot_id rows rows' (inl (new, written, seen)) ne = written.1 other ne
Sees-other key other snapshot_id rows rows' (inr (kept, seen)) ne = ap (find_row other) (sym kept)

Sees-SeenAt :
    (key : SubscriptionKey) (snapshot_id : Text) (rows rows' : List Row)
    → Sees key snapshot_id rows rows'
    → SeenAt key snapshot_id rows'
Sees-SeenAt key snapshot_id rows rows' (inl (new, written, seen)) = (new, written.0, seen)
Sees-SeenAt key snapshot_id rows rows' (inr (kept, seen)) = seen

-- What was seen under the id stays so.
SeenAt-kept :
    (key other : SubscriptionKey) (snapshot_id : Text) (rows rows' : List Row)
    → Sees key snapshot_id rows rows'
    → SeenAt other snapshot_id rows
    → SeenAt other snapshot_id rows'
SeenAt-kept key other snapshot_id rows rows' sees (r, found, seen) =
    elim (Bool-cases (key_eq key other)) [
      | inl same_key ↦
          subst (λ k. SeenAt k snapshot_id rows') ((key_eq_iff key other).0 same_key)
            (Sees-SeenAt key snapshot_id rows rows' sees)
      | inr ne ↦ (r, Sees-other key other snapshot_id rows rows' sees ne ∙ found, seen)
    ]

module _ (sha256 : List ℕ → List ℕ) (account : Text) (fence : PollFenceContext) (at : ℕ)
    (bootstrap : Bool) (policy : NewRecordPolicy) where
  -- The loop keeps what was seen, sees what is listed, and leaves the other rows.
  pub apply_seen_records-Sees :
      (key : SubscriptionKey) (db : Db) (records : List SnapshotRecord) (effects : SeenEffects)
      (r : Db × SeenEffects)
      → apply_seen_records sha256 account fence at db bootstrap policy records effects ≡ ok r
      → ((listed account key records ≡ true) ⊎ SeenAt key fence.token.snapshot_id db.rows
          → SeenAt key fence.token.snapshot_id r.0.rows)
        × (listed account key records ≡ false → find_row key r.0.rows ≡ find_row key db.rows)
  unfolding apply_seen_records
  apply_seen_records-Sees key db [] effects r h =
      let kept : db ≡ r.0 = ap (λ p. p.0) (ok-injective h) in
      (
        λ case. elim case [
          | inl e ↦ absurd (cc)
          | inr seen ↦ subst (λ d. SeenAt key fence.token.snapshot_id d.rows) kept seen
        ],
        λ e. ap (λ d. find_row key d.rows) (sym kept),
      )
  apply_seen_records-Sees key db (observed ∷ records) effects r h =
      let at_key = key_of account observed in
      let id = fence.token.snapshot_id in
      let found = find_row at_key db.rows in
      let (p, e, h1) =
        >>=-eq-ok
          (apply_seen_found sha256 account fence at db bootstrap policy observed effects found) _
          h in
      let sees =
        apply_seen_found-Step sha256 account fence at db bootstrap policy observed effects found p
          refl e in
      let (seen, others) = apply_seen_records-Sees key p.0 records p.1 r h1 in
      (
        λ case. elim case [
          | inl e ↦ elim (Bool-cases (key_eq at_key key)) [
            | inl same_key ↦ seen (
                inr (
                  subst (λ k. SeenAt k id p.0.rows) ((key_eq_iff at_key key).0 same_key)
                    (Sees-SeenAt at_key id db.rows p.0.rows sees)))
            | inr ne ↦ seen (inl (rw ne at e))
          ]
          | inr before ↦ seen (inr (SeenAt-kept at_key key id db.rows p.0.rows sees before))
        ],
        λ e.
            let ne : key_eq at_key key ≡ false = ground arith in
            let rest : listed account key records ≡ false = ground arith in
            others rest ∙ Sees-other at_key key id db.rows p.0.rows sees ne,
      )
