-- ===== src/Repository/Delta.antt =====
-- `ExecutionPayloadDelta`: what one execution attempt changes in the latest payload
-- (src/subscription/repository.rs).
pub mod Merge
use tmdb_mteam_hub.Common.{
  ℕ, List, [], ◌∷◌, true, false, not, if◌then◌else◌, Option, none, some, String, Text, text_eq, map,
  same, contains, insert_set, ok, err, ◌>>=◌, ◌>>◌, guard,
}
use tmdb_mteam_hub.Repository.Operation.{
  SubscriptionKey, ExecutionOperation, meta, search, progress, link, Operation-discrete,
  ExecutionAttemptToken,
}
use tmdb_mteam_hub.Repository.Errors.{RepositoryResult, invalid_input, check_text}
use tmdb_mteam_hub.Repository.Payload.{
  WantedSource, TvDetail, CandidateMatch, DownloadArtifact, LinkArtifact, SubscriptionPayload,
}
use tmdb_mteam_hub.Repository.Payload.Validate.{validate_source}
use tmdb_mteam_hub.Repository.Payload.Keys.{validate_for}
use tmdb_mteam_hub.Repository.Source.{merge_source_observation}

pub data ExecutionPayloadDelta : Type 0 where
  replacement_cleaned : ExecutionPayloadDelta
  replacement_prepared : List DownloadArtifact → ExecutionPayloadDelta
  unchanged_meta : ExecutionPayloadDelta
  movie_meta : WantedSource → ExecutionPayloadDelta
  tv_meta : TvDetail → Option WantedSource → ExecutionPayloadDelta
  searched : Option (List CandidateMatch) → List DownloadArtifact → ExecutionPayloadDelta
  progressed : List DownloadArtifact → ExecutionPayloadDelta
  linked : List DownloadArtifact → List LinkArtifact → ExecutionPayloadDelta

unfoldable pub delta_operation : ExecutionPayloadDelta → ExecutionOperation
delta_operation unchanged_meta = meta
delta_operation (movie_meta source) = meta
delta_operation (tv_meta tv source) = meta
delta_operation (searched candidates downloads) = search
delta_operation replacement_cleaned = search
delta_operation (replacement_prepared downloads) = search
delta_operation (progressed downloads) = progress
delta_operation (linked downloads links) = link

-- `validate_unique_execution_updates`; `seen` are the keys before.
unfoldable pub validate_unique_updates : String → List Text → List Text → RepositoryResult Unit
validate_unique_updates field seen [] = ok tt
validate_unique_updates field seen (key ∷ rest) =
    let next = validate_unique_updates field (insert_set key seen) rest in
    do check_text field key; guard (not (contains key seen)) (invalid_input field); next

abbrev pub download_keys : List DownloadArtifact → List Text
download_keys downloads = map (λ d. d.idempotency_key) downloads

abbrev pub link_keys : List LinkArtifact → List Text
link_keys links = map (λ l. l.idempotency_key) links

unfoldable pub validate_shape : ExecutionPayloadDelta → RepositoryResult Unit
unfolding validate_unique_updates
validate_shape unchanged_meta = ok tt
validate_shape (tv_meta tv source) = ok tt
validate_shape replacement_cleaned = ok tt
validate_shape (movie_meta source) = validate_source source
validate_shape (searched candidates downloads) =
    validate_unique_updates "payload_delta.download_updates" [] (download_keys downloads)
validate_shape (replacement_prepared downloads) =
    validate_unique_updates "payload_delta.download_updates" [] (download_keys downloads)
validate_shape (progressed downloads) =
    validate_unique_updates "payload_delta.download_updates" [] (download_keys downloads)
validate_shape (linked downloads links) = do
  validate_unique_updates "payload_delta.download_updates" [] (download_keys downloads)
  validate_unique_updates "payload_delta.link_updates" [] (link_keys links)

-- `validate_execution_result_operation`
unfoldable pub validate_execution_result_operation :
    ExecutionAttemptToken → ExecutionOperation → ExecutionPayloadDelta → RepositoryResult Unit
unfolding validate_shape delta_operation
validate_execution_result_operation token operation delta = do
  guard (same Operation-discrete token.operation operation) (invalid_input "execution_disposition")
  guard (same Operation-discrete token.operation (delta_operation delta))
      (invalid_input "payload_delta")
  validate_shape delta

-- The first entry with the key of `update` becomes `update`; with none, it is pushed.
unfoldable pub upsert {ℓ} : {A : Type ℓ} → (A → Text) → A → List A → List A
upsert key update [] = update ∷ []
upsert key update (x ∷ xs) =
    let rest = upsert key update xs in
    if text_eq (key x) (key update) then update ∷ xs else x ∷ rest

unfoldable pub merge_updates {ℓ} : {A : Type ℓ} → (A → Text) → List A → List A → List A
merge_updates key current [] = current
merge_updates key current (update ∷ rest) = merge_updates key (upsert key update current) rest

unfoldable pub merge_download_updates :
    List DownloadArtifact → List DownloadArtifact → List DownloadArtifact
unfolding merge_updates upsert
merge_download_updates current updates = merge_updates (λ d. d.idempotency_key) current updates

unfoldable pub merge_link_updates : List LinkArtifact → List LinkArtifact → List LinkArtifact
unfolding merge_updates upsert
merge_link_updates current updates = merge_updates (λ l. l.idempotency_key) current updates

abbrev pub with_downloads : SubscriptionPayload → List DownloadArtifact → SubscriptionPayload
with_downloads p updates = record p {
  artifacts = record p.artifacts {
    downloads = merge_download_updates p.artifacts.downloads updates;
  };
}

abbrev pub with_source : SubscriptionPayload → Option WantedSource → SubscriptionPayload
with_source p none = p
with_source p (some source) = record p { source = merge_source_observation p.source source }

abbrev pub with_candidates :
    SubscriptionPayload → Option (List CandidateMatch) → SubscriptionPayload
with_candidates p none = p
with_candidates p (some candidates) = record p { candidates = candidates }

-- The `match` of `apply_to_latest`.
unfoldable pub apply_delta :
    ExecutionPayloadDelta → SubscriptionPayload → RepositoryResult SubscriptionPayload
unfolding merge_download_updates merge_link_updates
apply_delta unchanged_meta p = ok p
apply_delta (replacement_prepared downloads) p =
    if not p.replacement_pending
    then err (invalid_input "replacement")
    else ok (record (with_downloads p downloads) { replacement_prepared = true })
apply_delta replacement_cleaned p =
    if not p.replacement_pending
    then err (invalid_input "replacement")
    else ok (record p {
      artifacts = record { downloads = []; links = [] };
      issues = [];
      skip_reason = none;
      replacement_pending = false;
      replacement_prepared = false;
    })
apply_delta (movie_meta source) p = ok (with_source p (some source))
apply_delta (tv_meta tv source) p = ok (record (with_source p source) { tv = some tv })
apply_delta (searched candidates downloads) p =
    ok (with_downloads (with_candidates p candidates) downloads)
apply_delta (progressed downloads) p = ok (with_downloads p downloads)
apply_delta (linked downloads links) p =
    let q = with_downloads p downloads in
    ok (record q {
      artifacts = record q.artifacts { links = merge_link_updates q.artifacts.links links };
    })

-- `ExecutionPayloadDelta::apply_to_latest`
unfoldable pub apply_to_latest :
    (List ℕ → List ℕ)
    → ExecutionPayloadDelta
    → SubscriptionKey
    → SubscriptionPayload
    → RepositoryResult SubscriptionPayload
unfolding apply_delta validate_shape
apply_to_latest sha256 delta key latest = do
  validate_shape delta
  merged ← apply_delta delta latest
  validate_for sha256 key.account_key key.subject_id merged
  ok merged
