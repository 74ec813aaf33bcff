-- ===== src/Backfill/Keeps.antt =====
-- What a repair of titles keeps.
use tmdb_mteam_hub.Common.{
  >>=-eq-ok, Bool, Bool-cases, List, Option, Text, ap, arith, err, false, guard, if◌then◌else◌, inl,
  inr, is_empty, map, none, not, ok, ok-injective, refl, retain, some, some-injective, subst, sym,
  trim, true, ℕ, ◌==◌, ◌∙◌, ◌∷◌, ◌≡◌, ◌≤◌, [],
}
use tmdb_mteam_hub.Repository.Operation.{SubscriptionKey, i64_max, key_eq}
use tmdb_mteam_hub.Repository.Errors.{
  RepositoryResult, command_integer, corrupt_data, internal, key_try_new,
}
use tmdb_mteam_hub.Repository.Payload.{SubscriptionPayload}
use tmdb_mteam_hub.Repository.Source.{SubscriptionProjection, from_source}
use tmdb_mteam_hub.Repository.Head.{SubscriptionHead}
use tmdb_mteam_hub.Claim.Table.{
  Db, Row, Update, changed, check_violation, find_row, row_key, unique_violation, update_row,
}
use tmdb_mteam_hub.Claim.Table.Rows.{key_eq_iff, update_row-Written}
use tmdb_mteam_hub.Claim.Table.Consistent.{Installs, Written-Installs}
use tmdb_mteam_hub.Detail.{load_detail}
use tmdb_mteam_hub.Detail.Swap.{load_detail-Found}
use tmdb_mteam_hub.Backfill.{
  backfill_loop, backfill_metadata_titles, backfill_one, expect_title_update, lacks_title,
  repair_title, set_title, titled, write_title,
}

abbrev pub head_as : ℕ → SubscriptionHead → SubscriptionHead
head_as revision head = record head { revision = revision }

abbrev pub titled_as : Option Text → SubscriptionPayload → SubscriptionPayload
titled_as title payload = record payload { source = record payload.source { detail_title = title } }

abbrev pub projected_as : Text → SubscriptionProjection → SubscriptionProjection
projected_as title projection = record projection { title = title }

-- A row before and after: only the title, the detail title and the revision may differ, and the
-- revision does not go back.
abbrev pub Keeps : Row → Row → Type 0
Keeps r r' =
    (r'.claimed_operation ≡ r.claimed_operation)
    × (r'.attempt_id ≡ r.attempt_id)
    × (r'.lease_until ≡ r.lease_until)
    × (head_as r.detail.head.revision r'.detail.head ≡ r.detail.head)
    × (r.detail.head.revision ≤ r'.detail.head.revision)
    × (r'.detail.attention_tags ≡ r.detail.attention_tags)
    × (titled_as r.detail.payload.source.detail_title r'.detail.payload ≡ r.detail.payload)
    × (projected_as r.detail.projection.title r'.detail.projection ≡ r.detail.projection)

Keeps-refl : (r : Row) → Keeps r r
Keeps-refl r = (refl, refl, refl, refl, omega arith, refl, refl, refl)

Keeps-trans : (r s t : Row) → Keeps r s → Keeps s t → Keeps r t
Keeps-trans r s t (a, b, c, d, e, f, g, p) (a', b', c', d', e', f', g', p') = (
  a' ∙ a,
  b' ∙ b,
  c' ∙ c,
  ap (head_as r.detail.head.revision) d' ∙ d,
  omega (arith, e, e'),
  f' ∙ f,
  ap (titled_as r.detail.payload.source.detail_title) g' ∙ g,
  ap (projected_as r.detail.projection.title) p' ∙ p,
)

-- Every row is kept.
abbrev pub KeepsRows : List Row → List Row → Type 0
KeepsRows rows rows' =
    (k : SubscriptionKey) (r : Row)
    → find_row k rows ≡ some r
    → (r' : Row) × (find_row k rows' ≡ some r') × Keeps r r'

KeepsRows-refl : (rows : List Row) → KeepsRows rows rows
KeepsRows-refl rows = λ k r found. (r, found, Keeps-refl r)

KeepsRows-trans : (a b c : List Row) → KeepsRows a b → KeepsRows b c → KeepsRows a c
KeepsRows-trans a b c keep keep' = λ k r found.
    let (s, found', first) = keep k r found in
    let (t, found'', second) = keep' k s found' in (t, found'', Keeps-trans r s t first second)

Installs-KeepsRows :
    (key : SubscriptionKey) (r r' : Row) (rows rows' : List Row)
    → find_row key rows ≡ some r
    → Keeps r r'
    → Installs key r' rows rows'
    → KeepsRows rows rows'
Installs-KeepsRows key r r' rows rows' found keep installed = λ k s at.
    elim (Bool-cases (key_eq key k)) [
      | inl here ↦
          let same_key : key ≡ k = (key_eq_iff key k).0 here in
          let same_row : r ≡ s =
            some-injective found (subst (λ x. find_row x rows ≡ some s) (sym same_key) at) in
          (
            r',
            subst (λ x. find_row x rows' ≡ some r') same_key installed.0,
            subst (λ x. Keeps x r') same_row keep,
          )
      | inr other ↦ (s, installed.1 k other ∙ at, Keeps-refl s)
    ]

expect_title_update-changed :
    (rows' : List Row) (u : Update)
    → expect_title_update u ≡ ok rows'
    → (n : ℕ) × (u ≡ changed n rows') × ((n == 1) ≡ true)
unfolding expect_title_update
expect_title_update-changed rows' unique_violation h = cc
expect_title_update-changed rows' check_violation h = cc
expect_title_update-changed rows' (changed n written_rows) h = (n, ground arith, ground arith)

set_title-Keeps :
    (projection : SubscriptionProjection) (title : Text) (r : Row)
    → Keeps r (set_title projection (titled title r.detail.payload) r)
unfolding set_title
set_title-Keeps projection title r = (refl, refl, refl, refl, omega arith, refl, refl, refl)

set_title-key :
    (projection : SubscriptionProjection) (payload : SubscriptionPayload) (r : Row)
    → row_key (set_title projection payload r) ≡ row_key r
unfolding set_title
set_title-key projection payload r = refl

write_title-KeepsRows :
    (rows : List Row) (key : SubscriptionKey) (r : Row) (title : Text) (done : List Row × ℕ)
    → find_row key rows ≡ some r
    → write_title rows key r.detail title ≡ ok done
    → KeepsRows rows done.0
unfolding write_title
write_title-KeepsRows rows key r title done found h =
    let payload = titled title r.detail.payload in
    let (projection, f1, h1) = >>=-eq-ok (from_source payload.source) _ h in
    let (rows', f2, h2) =
      >>=-eq-ok
        (expect_title_update (
          update_row key (λ s. s.detail.head.revision == r.detail.head.revision)
            (set_title projection payload) rows))
        _ h1 in
    let (n, u, one) = expect_title_update-changed rows' _ f2 in
    let w =
      update_row-Written key (λ s. s.detail.head.revision == r.detail.head.revision)
        (set_title projection payload) rows rows' n u one in
    let installed =
      Written-Installs key (λ s. s.detail.head.revision == r.detail.head.revision)
        (set_title projection payload) rows rows' (set_title-key projection payload) w in
    let same_row : w.0 ≡ r = some-injective w.1 found in
    subst (λ d. KeepsRows rows d.0) (ok-injective h2)
      (Installs-KeepsRows key r (set_title projection payload r) rows rows' found
        (set_title-Keeps projection title r)
        (subst (λ x. Installs key (set_title projection payload x) rows rows') same_row installed))

skipped-KeepsRows :
    (empty : Bool) (rows : List Row) (written_rows : RepositoryResult (List Row × ℕ))
    (done : List Row × ℕ)
    → (if empty then ok (rows, 0) else written_rows) ≡ ok done
    → (written_rows ≡ ok done → KeepsRows rows done.0)
    → KeepsRows rows done.0
skipped-KeepsRows true rows written_rows done h keeps =
    subst (λ d. KeepsRows rows d.0) (ok-injective h) (KeepsRows-refl rows)
skipped-KeepsRows false rows written_rows done h keeps = keeps h

no_title :
    (done : List Row × ℕ) → ◌≡◌ {A = RepositoryResult (List Row × ℕ)} (err internal) (ok done) → ⊥
no_title done h = cc

repair_title-KeepsRows :
    (rows : List Row) (key : SubscriptionKey) (r : Row) (original : Option Text)
    (done : List Row × ℕ)
    → find_row key rows ≡ some r
    → repair_title rows key r.detail original ≡ ok done
    → KeepsRows rows done.0
unfolding repair_title
repair_title-KeepsRows rows key r none done found h = absurd (no_title done h)
repair_title-KeepsRows rows key r (some original) done found h =
    skipped-KeepsRows (is_empty (trim original)) rows
      (write_title rows key r.detail (trim original)) done h
      (write_title-KeepsRows rows key r (trim original) done found)

module _ (sha256 : List ℕ → List ℕ) where
  backfill_one-KeepsRows :
      (rows : List Row) (candidate : SubscriptionKey) (done : List Row × ℕ)
      → backfill_one sha256 rows candidate ≡ ok done
      → KeepsRows rows done.0
  unfolding backfill_one
  backfill_one-KeepsRows rows candidate done h =
      let (key, f1, h1) = >>=-eq-ok (key_try_new candidate.account_key candidate.subject_id) _ h in
      let (current, f2, h2) = >>=-eq-ok (load_detail sha256 rows key) _ h1 in
      let (revision, f3, h3) = >>=-eq-ok (command_integer "revision" current.head.revision) _ h2 in
      let (u, f4, h4) = >>=-eq-ok (guard (not (revision == i64_max)) corrupt_data) _ h3 in
      let (r, found, same_detail) = load_detail-Found sha256 rows key current f2 in
      repair_title-KeepsRows rows key r current.payload.source.original_title done found (
        subst (λ d. repair_title rows key d current.payload.source.original_title ≡ ok done)
          same_detail h4)

  backfill_loop-KeepsRows :
      (keys : List SubscriptionKey) (rows : List Row) (done : List Row × ℕ)
      → backfill_loop sha256 keys rows ≡ ok done
      → KeepsRows rows done.0
  unfolding backfill_loop
  backfill_loop-KeepsRows [] rows done h =
      subst (λ d. KeepsRows rows d.0) (ok-injective h) (KeepsRows-refl rows)
  backfill_loop-KeepsRows (key ∷ keys) rows done h =
      let (first, f1, h1) = >>=-eq-ok (backfill_one sha256 rows key) _ h in
      let (others, f2, h2) = >>=-eq-ok (backfill_loop sha256 keys first.0) _ h1 in
      subst (λ d. KeepsRows rows d.0) (ok-injective h2)
        (KeepsRows-trans rows first.0 others.0 (backfill_one-KeepsRows rows key first f1)
          (backfill_loop-KeepsRows keys first.0 others f2))

  -- A repair of titles that commits keeps every row. In a row that was there only the title, the
  -- payload's detail title and the revision may differ, and the revision does not go back: the other
  -- columns of the projection, the head, the payload, the tags and the attempt are as they were, and
  -- so is the audit log.
  pub backfill_metadata_titles-Keeps :
      (db db' : Db) (repaired : ℕ)
      → backfill_metadata_titles sha256 db ≡ ok (db', repaired)
      → KeepsRows db.rows db'.rows × (db'.logs ≡ db.logs)
  unfolding backfill_metadata_titles
  backfill_metadata_titles-Keeps db db' repaired h =
      let (done, f, h1) =
        >>=-eq-ok (backfill_loop sha256 (map row_key (retain lacks_title db.rows)) db.rows) _ h in
      let result = ok-injective h1 in
      (
        subst (λ d. KeepsRows db.rows d.rows) (ap (λ p. p.0) result)
            (backfill_loop-KeepsRows (map row_key (retain lacks_title db.rows)) db.rows done f),
        sym (ap (λ p. p.0.logs) result),
      )
