-- ===== src/Effects/Link/Plan.antt =====
-- What a hardlink plan does.
use tmdb_mteam_hub.Effects.Paths.{path_eq, has_path, path_eq_refl, path_eq_sym}
use tmdb_mteam_hub.Common.{
  ◌≡◌, refl, sym, ap, ◌≢◌, ◌∙◌, inl, inr, all, ==_iff, List, [], ◌∷◌, map, Bool, true, false, not,
  ◌&&◌, ◌==◌, if◌then◌else◌, Option, none, some, Text, length, Result, ok, err, arith, Bool-cases,
  ◌||◌,
}
use tmdb_mteam_hub.Effects.Link.{
  LinkFileEffect, LinkFileProbe, LinkFileAction, LinkFileOutcome, PlannedLinkFile, LinkPlanError,
  FileIdentity, plan_files, plan_link_retry, choose_action, create, fail, skip_verified,
  accept_existing, source_missing, target_conflict, duplicate_target, observation_count_mismatch,
  identity_eq, is_linked,
}

identity_eq-eq : (a b : FileIdentity) → identity_eq a b ≡ true → a ≡ b
unfolding identity_eq
identity_eq-eq a b h = ground arith

pub identity_eq_refl : (a : FileIdentity) → identity_eq a a ≡ true
unfolding identity_eq
identity_eq_refl a = ground arith

-- The only action permitted for a persisted outcome and what was probed at the source and at the
-- target: a link is created only where there is a source and no target.
abbrev pub Permits :
    LinkFileOutcome → Option FileIdentity → Option FileIdentity → LinkFileAction → Type 0
Permits o s t create = (f : FileIdentity) × (s ≡ some f) × (t ≡ none)
Permits o s t (fail source_missing) = s ≡ none
Permits o s t (fail (target_conflict a b)) = (s ≡ some a) × (t ≡ some b) × (identity_eq a b ≡ false)
Permits o s t skip_verified =
    (f : FileIdentity) × (s ≡ some f) × (t ≡ some f) × (is_linked o ≡ true)
Permits o s t accept_existing =
    (f : FileIdentity) × (s ≡ some f) × (t ≡ some f) × (is_linked o ≡ false)

choose_action-Permits :
    (o : LinkFileOutcome) (s t : Option FileIdentity) → Permits o s t (choose_action o s t)
unfolding choose_action
choose_action-Permits o none t = refl
choose_action-Permits o (some s) none = (s, refl, refl)
choose_action-Permits o (some s) (some t) = go (identity_eq s t) refl (is_linked o) refl
  where
    go :
        (b : Bool)
        → identity_eq s t ≡ b
        → (l : Bool) → is_linked o ≡ l
        → Permits o (some s) (some t) (
            if b
            then (if l then skip_verified else accept_existing)
            else fail (target_conflict s t))
    go false e l k = (refl, refl, e)
    go true e true k = (s, refl, ap some (sym (identity_eq-eq s t e)), k)
    go true e false k = (s, refl, ap some (sym (identity_eq-eq s t e)), k)

-- A plan has one entry for each file, in order, with the file's own paths and a permitted action.
abbrev pub Follows : List LinkFileEffect → List LinkFileProbe → List PlannedLinkFile → Type 0
Follows [] [] [] = Unit
Follows (f ∷ fs) (p ∷ ps) (q ∷ qs) =
    (q.source_path ≡ f.source_path)
    × (q.target_path ≡ f.target_path)
    × Permits f.persisted_outcome p.source p.target q.action
    × Follows fs ps qs
Follows _ _ _ = ⊥

-- No target is one of `targets` or stands twice, by its components.
abbrev pub fresh_targets : List Text → List LinkFileEffect → Bool
fresh_targets targets [] = true
fresh_targets targets (f ∷ fs) =
    not (has_path f.target_path targets) && fresh_targets (f.target_path ∷ targets) fs

plan_files-Follows :
    (targets : List Text) (fs : List LinkFileEffect) (ps : List LinkFileProbe)
    → length fs ≡ length ps
    → fresh_targets targets fs ≡ true
    → (plan : List PlannedLinkFile) × (plan_files targets fs ps ≡ ok plan) × Follows fs ps plan
unfolding plan_files
plan_files-Follows targets [] [] l h = ([], refl, tt)
plan_files-Follows targets [] (p ∷ ps) l h = absurd (omega arith)
plan_files-Follows targets (f ∷ fs) [] l h = absurd (omega arith)
plan_files-Follows targets (f ∷ fs) (p ∷ ps) l h =
    let (plan, e, follows) =
      plan_files-Follows (f.target_path ∷ targets) fs ps (omega arith) (ground arith) in
    (
      record {
        source_path = f.source_path;
        target_path = f.target_path;
        action = choose_action f.persisted_outcome p.source p.target;
      }
          ∷ plan,
      ground (arith, e),
      (refl, refl, choose_action-Permits f.persisted_outcome p.source p.target, follows),
    )

abbrev pub targets_of : List LinkFileEffect → List Text
targets_of fs = map (λ f. f.target_path) fs

-- No path stands twice.
abbrev pub distinct : List Text → Bool
distinct [] = true
distinct (t ∷ ts) = not (has_path t ts) && distinct ts

apart-path :
    (t : Text) (acc ts : List Text)
    → all (λ u. not (path_eq u t || has_path u acc)) ts
      ≡ (not (has_path t ts) && all (λ u. not (has_path u acc)) ts)
apart-path t acc [] = refl
apart-path t acc (u ∷ ts) = ground (arith, apart-path t acc ts, path_eq_sym t u)

fresh_targets-eq-distinct :
    (acc : List Text) (fs : List LinkFileEffect)
    → fresh_targets acc fs
      ≡ (distinct (targets_of fs) && all (λ u. not (has_path u acc)) (targets_of fs))
fresh_targets-eq-distinct acc [] = refl
fresh_targets-eq-distinct acc (f ∷ fs) = ground (
  arith,
  fresh_targets-eq-distinct (f.target_path ∷ acc) fs,
  apart-path f.target_path acc (targets_of fs),
)

all-true : (ts : List Text) → all (λ u. true) ts ≡ true
all-true [] = refl
all-true (t ∷ ts) = all-true ts

fresh-distinct : (fs : List LinkFileEffect) → fresh_targets [] fs ≡ distinct (targets_of fs)
fresh-distinct fs = ground (arith, fresh_targets-eq-distinct [] fs, all-true (targets_of fs))

-- A target that stands twice stops the plan, at its second place.
plan_files-duplicate :
    (targets : List Text) (fs : List LinkFileEffect) (ps : List LinkFileProbe)
    → length fs ≡ length ps
    → fresh_targets targets fs ≡ false
    → (t : Text) × (plan_files targets fs ps ≡ err (duplicate_target t))
      × (has_path t (targets_of fs) ≡ true)
unfolding plan_files
plan_files-duplicate targets [] ps l h = cc
plan_files-duplicate targets (f ∷ fs) [] l h = absurd (omega arith)
plan_files-duplicate targets (f ∷ fs) (p ∷ ps) l h =
    elim (Bool-cases (has_path f.target_path targets)) [
      | inl seen ↦ (f.target_path, rw seen, ground (arith, path_eq_refl f.target_path))
      | inr new ↦
          let (t, e, at) =
            plan_files-duplicate (f.target_path ∷ targets) fs ps (omega arith) (ground arith) in
          (t, rw (new, e), ground (arith, at))
    ]

-- Why there is no plan.
abbrev pub Explains : List LinkFileEffect → List LinkFileProbe → LinkPlanError → Type 0
Explains fs ps (observation_count_mismatch m n) = (m ≡ length fs) × (n ≡ length ps) × (m ≢ n)
Explains fs ps (duplicate_target t) =
    (length fs ≡ length ps)
    × (distinct (targets_of fs) ≡ false)
    × (has_path t (targets_of fs) ≡ true)
Explains fs ps _ = ⊥

-- The result of a plan, on every branch.
abbrev pub Planned :
    List LinkFileEffect → List LinkFileProbe → Result LinkPlanError (List PlannedLinkFile) → Type 0
Planned fs ps (ok plan) =
    (length fs ≡ length ps) × (distinct (targets_of fs) ≡ true) × Follows fs ps plan
Planned fs ps (err e) = Explains fs ps e

plan_files-Planned :
    (fs : List LinkFileEffect) (ps : List LinkFileProbe)
    → length fs ≡ length ps
    → Planned fs ps (plan_files [] fs ps)
plan_files-Planned fs ps l = elim (Bool-cases (fresh_targets [] fs)) [
  | inl fresh ↦
      let (plan, e, follows) = plan_files-Follows [] fs ps l fresh in
      rw e (l, sym (fresh-distinct fs) ∙ fresh, follows)
  | inr again ↦
      let (t, e, at) = plan_files-duplicate [] fs ps l again in
      rw e (l, sym (fresh-distinct fs) ∙ again, at)
]

-- A plan is made exactly if there is one probe for each file and no two files have one target, as
-- paths are equal: by their components. It
-- then has each file's own paths, in order, and the one permitted action: a link is created only
-- where the source exists and the target does not. Otherwise the error says which of the two fails.
pub plan_link_retry-Planned :
    (fs : List LinkFileEffect) (ps : List LinkFileProbe) → Planned fs ps (plan_link_retry fs ps)
unfolding plan_link_retry
plan_link_retry-Planned fs ps = go (length fs == length ps) refl
  where
    go :
        (b : Bool)
        → (length fs == length ps) ≡ b
        → Planned fs ps (
            if not b
            then err (observation_count_mismatch (length fs) (length ps))
            else plan_files [] fs ps)
    go true e = plan_files-Planned fs ps ((==_iff (length fs) (length ps)).0 e)
    go false e = (refl, refl, ground arith)
