-- ===== src/Effects/Link.antt =====
-- The plan of a per-file hardlink retry (src/subscription/effects.rs). Paths are texts, which are
-- compared by their components.
pub mod Plan
use tmdb_mteam_hub.Effects.Paths.{path_eq, has_path}
use tmdb_mteam_hub.Common.{
  ℕ, zero, suc, List, [], ◌∷◌, Bool, true, false, not, ◌&&◌, ◌==◌, if◌then◌else◌, Option, none,
  some, Text, is_empty, length, Result, ok, err, ◌>>=◌,
}

pub data LinkFileOutcome : Type 0 where
  pending linked failed missing conflict : LinkFileOutcome

pub record FileIdentity : Type 0 where
  pub namespace : ℕ
  pub object : ℕ

unfoldable pub identity_eq : FileIdentity → FileIdentity → Bool
identity_eq a b = (a.namespace == b.namespace) && (a.object == b.object)

pub record LinkFileEffect : Type 0 where
  pub source_path : Text
  pub target_path : Text
  pub persisted_outcome : LinkFileOutcome

pub data LinkPlanError : Type 0 where
  empty_source_path empty_target_path source_equals_target : LinkPlanError
  observation_count_mismatch : ℕ → ℕ → LinkPlanError
  duplicate_target : Text → LinkPlanError

-- `LinkFileEffect::try_new`
unfoldable pub effect_try_new : Text → Text → LinkFileOutcome → Result LinkPlanError LinkFileEffect
unfolding path_eq
effect_try_new source target outcome =
    if is_empty source
    then err empty_source_path
    else if is_empty target
    then err empty_target_path
    else if path_eq source target
    then err source_equals_target
    else ok (record { source_path = source; target_path = target; persisted_outcome = outcome })

pub record LinkFileProbe : Type 0 where
  pub source : Option FileIdentity
  pub target : Option FileIdentity

pub data LinkFileFailure : Type 0 where
  source_missing : LinkFileFailure
  target_conflict : FileIdentity → FileIdentity → LinkFileFailure

pub data LinkFileAction : Type 0 where
  skip_verified accept_existing create : LinkFileAction
  fail : LinkFileFailure → LinkFileAction

pub record PlannedLinkFile : Type 0 where
  pub source_path : Text
  pub target_path : Text
  pub action : LinkFileAction

-- `PlannedLinkFile::resulting_outcome`
unfoldable pub resulting_outcome : LinkFileAction → LinkFileOutcome
resulting_outcome skip_verified = linked
resulting_outcome accept_existing = linked
resulting_outcome create = pending
resulting_outcome (fail source_missing) = missing
resulting_outcome (fail (target_conflict s t)) = conflict

unfoldable pub is_linked : LinkFileOutcome → Bool
is_linked linked = true
is_linked _ = false

unfoldable pub choose_action :
    LinkFileOutcome → Option FileIdentity → Option FileIdentity → LinkFileAction
unfolding identity_eq is_linked
choose_action outcome none target = fail source_missing
choose_action outcome (some source) none = create
choose_action outcome (some source) (some target) =
    if identity_eq source target
    then (if is_linked outcome then skip_verified else accept_existing)
    else fail (target_conflict source target)

-- The loop of `plan_link_retry`; `targets` are those of the files before, which the code keeps in an
-- ordered set.
unfoldable pub plan_files :
    List Text
    → List LinkFileEffect
    → List LinkFileProbe
    → Result LinkPlanError (List PlannedLinkFile)
unfolding choose_action path_eq
plan_files targets [] probes = ok []
plan_files targets (file ∷ files) [] = ok []
plan_files targets (file ∷ files) (probe ∷ probes) =
    let rest = plan_files (file.target_path ∷ targets) files probes in
    if has_path file.target_path targets then err (duplicate_target file.target_path) else do
      planned ← rest
      ok (
          record {
            source_path = file.source_path;
            target_path = file.target_path;
            action = choose_action file.persisted_outcome probe.source probe.target;
          }
          ∷ planned)

unfoldable pub plan_link_retry :
    List LinkFileEffect → List LinkFileProbe → Result LinkPlanError (List PlannedLinkFile)
unfolding plan_files
plan_link_retry files probes =
    if not (length files == length probes)
    then err (observation_count_mismatch (length files) (length probes))
    else plan_files [] files probes
