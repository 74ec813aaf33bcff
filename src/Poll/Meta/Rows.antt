-- ===== src/Poll/Meta/Rows.antt =====
-- Rows of subscription_meta after a write, and what a consumed token leaves.
use tmdb_mteam_hub.Common.{
  ℕ, ◌≡◌, refl, ap, ◌∙◌, List, [], ◌∷◌, ◌++◌, Bool, true, false, ◌==◌, Option, none, some, Text,
  text_eq, text_eq_iff, ok, err, ◌>>=◌, Bool-cases, inl, inr, ltb, arith,
}
use tmdb_mteam_hub.Repository.Operation.{PollAttemptToken}
use tmdb_mteam_hub.Repository.Errors.{RepositoryError, RepositoryResult, internal}
use tmdb_mteam_hub.Poll.Meta.{
  Meta, find_meta, write_meta, meta_satisfies, update_meta, update_meta_found, require_consumed,
  insert_meta, read_current_found,
}

pub find_meta-account :
    (account : Text) (metas : List Meta) (m : Meta)
    → find_meta account metas ≡ some m
    → m.account_key ≡ account
unfolding find_meta
find_meta-account account [] m h = cc
find_meta-account account (x ∷ metas) m h =
    ground (arith, find_meta-account account metas m, text_eq_iff x.account_key account)

pub find_meta-write_meta :
    (account : Text) (new m : Meta) (metas : List Meta)
    → new.account_key ≡ account
    → find_meta account metas ≡ some m
    → find_meta account (write_meta account new metas) ≡ some new
unfolding find_meta write_meta
find_meta-write_meta account new m [] h k = cc
find_meta-write_meta account new m (x ∷ metas) h k =
    ground (arith, find_meta-write_meta account new m metas h, text_eq_iff new.account_key account)

pub find_meta-write_meta-other :
    (account other : Text) (new : Meta) (metas : List Meta)
    → new.account_key ≡ account
    → text_eq account other ≡ false
    → find_meta other (write_meta account new metas) ≡ find_meta other metas
unfolding find_meta write_meta
find_meta-write_meta-other account other new [] h k = refl
find_meta-write_meta-other account other new (x ∷ metas) h k = ground (
  arith,
  find_meta-write_meta-other account other new metas h k,
  text_eq_iff x.account_key account,
  text_eq_iff new.account_key other,
  text_eq_iff account other,
  text_eq_iff x.account_key other,
)

pub find_meta-append :
    (account : Text) (new : Meta) (metas : List Meta)
    → new.account_key ≡ account
    → find_meta account metas ≡ none
    → find_meta account (metas ++ new ∷ []) ≡ some new
unfolding find_meta
find_meta-append account new [] h k = ground (arith, text_eq_iff new.account_key account)
find_meta-append account new (x ∷ metas) h k = ground (arith, find_meta-append account new metas h)

pub find_meta-append-other :
    (account other : Text) (new : Meta) (metas : List Meta)
    → new.account_key ≡ account
    → text_eq account other ≡ false
    → find_meta other (metas ++ new ∷ []) ≡ find_meta other metas
unfolding find_meta
find_meta-append-other account other new [] h k =
    ground (arith, text_eq_iff new.account_key other, text_eq_iff account other)
find_meta-append-other account other new (x ∷ metas) h k =
    ground (arith, find_meta-append-other account other new metas h k)

-- What an UPDATE that changed one row has tested and done.
abbrev pub WrittenMeta : Text → (Meta → Bool) → (Meta → Meta) → List Meta → List Meta → Type 0
WrittenMeta account where_clause set metas metas' =
    (m : Meta) × (find_meta account metas ≡ some m)
    × (where_clause m ≡ true)
    × (meta_satisfies (set m) ≡ true)
    × (metas' ≡ write_meta account (set m) metas)

update_meta_found-Written :
    (account : Text) (where_clause : Meta → Bool) (set : Meta → Meta) (metas : List Meta)
    (found : Option Meta) (n : ℕ) (metas' : List Meta)
    → find_meta account metas ≡ found
    → update_meta_found account where_clause set metas found ≡ ok (n, metas')
    → (n == 1) ≡ true
    → WrittenMeta account where_clause set metas metas'
unfolding update_meta_found
update_meta_found-Written account where_clause set metas none n metas' e h k = ground arith
update_meta_found-Written account where_clause set metas (some m) n metas' e h k =
    (m, e, ground arith, ground arith, ground arith)

pub update_meta-Written :
    (account : Text) (where_clause : Meta → Bool) (set : Meta → Meta) (metas : List Meta) (n : ℕ)
    (metas' : List Meta)
    → update_meta account where_clause set metas ≡ ok (n, metas')
    → (n == 1) ≡ true
    → WrittenMeta account where_clause set metas metas'
unfolding update_meta
update_meta-Written account where_clause set metas n metas' h k =
    update_meta_found-Written account where_clause set metas (find_meta account metas) n metas' refl
      h k

err-ne-ok : (e : RepositoryError) → ◌≡◌ {A = RepositoryResult Unit} (err e) (ok tt) → ⊥
err-ne-ok e h = ground arith

never_ok :
    (r : RepositoryResult (Option PollAttemptToken)) (e : Option PollAttemptToken → RepositoryError)
    → ◌≡◌ {A = RepositoryResult Unit} (r >>= λ current. err (e current)) (ok tt)
    → ⊥
never_ok (err fault) e h = ground arith
never_ok (ok current) e h = ground arith

pub require_consumed-one :
    (metas : List Meta) (n : ℕ) (account : Text) (token : PollAttemptToken)
    → require_consumed metas n account token ≡ ok tt
    → (n == 1) ≡ true
unfolding require_consumed read_current_found
require_consumed-one metas n account token h = elim (Bool-cases (n == 1)) [
  | inl one ↦ one
  | inr other ↦ elim (Bool-cases (ltb 1 n)) [
    | inl many ↦ absurd (err-ne-ok internal (rw (other, many) at h))
    | inr zero ↦ absurd (never_ok _ _ (rw (other, zero) at h))
  ]
]

pub insert_meta-Written :
    (m : Meta) (metas : List Meta) (n : ℕ) (metas' : List Meta)
    → insert_meta m metas ≡ ok (n, metas')
    → (meta_satisfies m ≡ true) × (metas' ≡ metas ++ m ∷ [])
unfolding insert_meta
insert_meta-Written m metas n metas' h = (ground arith, ground arith)

-- What neither a begin of a poll nor its failure changes of an account's row.
abbrev pub KeepsColumns : Meta → Meta → Type 0
KeepsColumns m m' =
    (m'.account_key ≡ m.account_key)
    × (m'.state_version ≡ m.state_version)
    × (m'.bootstrap_completed ≡ m.bootstrap_completed)
    × (m'.created_at ≡ m.created_at)
    × (m'.last_poll_success_at ≡ m.last_poll_success_at)
    × (m'.last_incomplete ≡ m.last_incomplete)
    × (m'.last_complete_snapshot_id ≡ m.last_complete_snapshot_id)

-- The row of one account is replaced; the others are as they were.
abbrev pub ReplacesMeta : Text → Meta → List Meta → List Meta → Type 0
ReplacesMeta account m' metas metas' =
    (find_meta account metas' ≡ some m')
    × ((other : Text)
        → text_eq account other ≡ false
        → find_meta other metas' ≡ find_meta other metas)

pub Written-ReplacesMeta :
    (account : Text) (where_clause : Meta → Bool) (set : Meta → Meta) (metas metas' : List Meta)
    → ((m : Meta) → (set m).account_key ≡ m.account_key)
    → (w : WrittenMeta account where_clause set metas metas')
    → ReplacesMeta account (set w.0) metas metas'
Written-ReplacesMeta account where_clause set metas metas' keeps (m, found, tested, checks, rows) =
    let at : (set m).account_key ≡ account = keeps m ∙ find_meta-account account metas m found in
    (
      ap (find_meta account) rows ∙ find_meta-write_meta account (set m) m metas at found,
      λ other ne.
          ap (find_meta other) rows ∙ find_meta-write_meta-other account other (set m) metas at ne,
    )
