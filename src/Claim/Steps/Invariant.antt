-- ===== src/Claim/Steps/Invariant.antt =====
-- What any number of operations leaves of the rows and of the audit log.
use tmdb_mteam_hub.Common.{
  some-injective, ℕ, ◌+◌, ◌≤◌, ◌≡◌, refl, sym, ap, subst, ◌∙◌, inl, inr, List, ◌∷◌, ◌++◌, true,
  false, some, Bool-cases, arith, [],
}
use tmdb_mteam_hub.Repository.Operation.{SubscriptionKey, key_eq}
use tmdb_mteam_hub.Claim.Table.{Row, Db, AuditEntry, find_row, attempt_taken, satisfies_checks}
use tmdb_mteam_hub.Claim.Table.Rows.{key_eq_iff}
use tmdb_mteam_hub.Claim.Table.Changes.{Replaces}
use tmdb_mteam_hub.Claim.Exclusive.{claim_one-Claims}
use tmdb_mteam_hub.Claim.Due.{claim_due-Claims}
use tmdb_mteam_hub.Claim.Terminal.Extend.{extend_lease-Extends}
use tmdb_mteam_hub.Claim.Terminal.Fence.{execute-Exclusive, token_of}
use tmdb_mteam_hub.Claim.Steps.{Step, claims_one, claims_due, extends, ends, Steps, here, step}

-- One row is replaced by a row that satisfies the CHECK clauses, with an attempt id that is free.
abbrev Changed : Db → Db → Type 0
Changed db db' =
    (key : SubscriptionKey) × (r : Row) × (r' : Row) × Replaces key r r' db db'
    × (satisfies_checks r' ≡ true)
    × (attempt_taken key r'.attempt_id db.rows ≡ false)
    × (r'.detail.head.revision ≡ r.detail.head.revision + 1)
    × ((entry : AuditEntry) × (db'.logs ≡ db.logs ++ entry ∷ []))

append_nil : (xs : List AuditEntry) → xs ≡ xs ++ []
append_nil [] = refl
append_nil (x ∷ xs) = ap (λ l. x ∷ l) (append_nil xs)

append_one :
    (xs : List AuditEntry) (y : AuditEntry) (ys : List AuditEntry)
    → (xs ++ y ∷ []) ++ ys ≡ xs ++ y ∷ ys
append_one [] y ys = refl
append_one (x ∷ xs) y ys = ap (λ l. x ∷ l) (append_one xs y ys)

module _ (sha256 : List ℕ → List ℕ) where
  Step-Changed : (db db' : Db) → Step sha256 db db' → Changed db db'
  unfolding attempt_taken
  Step-Changed db db' (claims_one deps key ttl c h) =
      let (r, r', before, free, checks, running, o, i, l, lease, k, next, d, replaced, logs) =
        claim_one-Claims sha256 deps db db' key ttl c h in
      (
        key,
        r,
        r',
        replaced,
        checks,
        ap (λ x. attempt_taken key x db.rows) i ∙ free,
        next,
        (logs.0, logs.1),
      )
  Step-Changed db db' (claims_due deps account metadata_only ttl c h) =
      let (
        key,
        a,
        (r, r', before, free, checks, running, o, i, l, lease, k, next, d, replaced, logs),
      ) =
        claim_due-Claims sha256 deps db db' account metadata_only ttl c h in
      (
        key,
        r,
        r',
        replaced,
        checks,
        ap (λ x. attempt_taken key x db.rows) i ∙ free,
        next,
        (logs.0, logs.1),
      )
  Step-Changed db db' (extends now token ttl revision a h) =
      let (r, r', held, longer, l, i, o, running, state, p, next, free, checks, replaced, logs) =
        extend_lease-Extends sha256 now db db' token ttl revision a h in
      (token.key, r, r', replaced, checks, free, next, (logs.0, logs.1))
  Step-Changed db db' (ends now command detail h) =
      let (r, r', held, is_free, next, u, d, checks, replaced, logs) =
        execute-Exclusive sha256 now db db' command detail h in
      (
        (token_of command).key,
        r,
        r',
        replaced,
        checks,
        ap (λ x. attempt_taken (token_of command).key x db.rows) is_free.2,
        next,
        (logs.0, logs.1),
      )

  Changed-grows :
      (db db' : Db) (k : SubscriptionKey) (r : Row)
      → Changed db db'
      → find_row k db.rows ≡ some r
      → (r' : Row) × (find_row k db'.rows ≡ some r')
        × (r.detail.head.revision ≤ r'.detail.head.revision)
  Changed-grows db db' k r (key, r0, r0', (found, found', others), checks, free, next, log) f =
      elim (Bool-cases (key_eq key k)) [
        | inl at_k ↦
            let same_key : key ≡ k = (key_eq_iff key k).0 at_k in
            let same_row : r ≡ r0 =
              some-injective (subst (λ z. find_row z db.rows ≡ some r) (sym same_key) f) found in
            (
              r0',
              subst (λ z. find_row z db'.rows ≡ some r0') same_key found',
              omega (arith, next, ap (λ x. x.detail.head.revision) same_row),
            )
        | inr other ↦ (r, others k other ∙ f, omega arith)
      ]

  -- Claims, extensions, finishes, failures and releases, in any order and any number, remove no row,
  -- take no row's revision back, and only append to the audit log.
  pub Steps-grows :
      (db db' : Db) (k : SubscriptionKey) (r : Row)
      → Steps sha256 db db'
      → find_row k db.rows ≡ some r
      → ((r' : Row) × (find_row k db'.rows ≡ some r')
          × (r.detail.head.revision ≤ r'.detail.head.revision))
        × ((more : List AuditEntry) × (db'.logs ≡ db.logs ++ more))
  Steps-grows db db' k r here f = ((r, f, omega arith), ([], append_nil db.logs))
  Steps-grows db db'' k r (step {db' = db'} s rest) f =
      let changed = Step-Changed db db' s in
      let (r', f', le) = Changed-grows db db' k r changed f in
      let ((r'', f'', le'), (more, log')) = Steps-grows db' db'' k r' rest f' in
      (
        (r'', f'', omega (arith, le, le')),
        (
          changed.7.0 ∷ more,
          log' ∙ ap (λ l. l ++ more) changed.7.1 ∙ append_one db.logs changed.7.0 more,
        ),
      )
