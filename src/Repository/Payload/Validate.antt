-- ===== src/Repository/Payload/Validate.antt =====
-- `SubscriptionPayload::validate` and `validate_for`, with the checks that they call
-- (src/subscription/repository/payload.rs).
use tmdb_mteam_hub.Common.{
  ℕ, List, [], ◌∷◌, Bool, true, false, not, ◌&&◌, ◌||◌, if◌then◌else◌, ltb, ◌==◌, suc, Option, none,
  some, is_some, is_none, String, Text, any, length, same, contains, insert_set, ok, err, ◌>>=◌,
  ◌>>◌, guard,
}
use tmdb_mteam_hub.Effects.Link.{LinkFileOutcome, failed, missing, conflict, is_linked}
use tmdb_mteam_hub.Repository.Errors.{
  RepositoryResult, invalid_input, check_text, check_optional, for_each,
}
use tmdb_mteam_hub.Repository.Payload.{
  F64, is_finite, in_unit_range, WantedSource, Observation, ArtifactKind, download, link,
  IssueOwner, parent, artifact, tv_lane, tv_episode, Issue, CandidateMatch, TvEpisodeDetail,
  TvDetail, DownloadFile, DownloadArtifact, LinkFile, LinkArtifactState, planned, partial,
  completed, LinkArtifact, Artifacts, SubscriptionPayload, LinkState-discrete,
}

unfoldable pub validate_source : WantedSource → RepositoryResult Unit
validate_source source = do
  check_text "source.title" source.title
  elim source.rating_value [
    | none ↦ ok tt
    | some rating ↦
        if not (is_finite rating) then err (invalid_input "source.rating_value") else ok tt
  ]

unfoldable pub validate_observation : Observation → RepositoryResult Unit
validate_observation o =
    if (o.created_at == 0)
      || (o.first_seen_at == 0)
      || (o.last_seen_at == 0)
      || ltb o.first_seen_at o.created_at
      || ltb o.last_seen_at o.first_seen_at
    then err (invalid_input "payload.observation")
    else ok tt

unfoldable pub validate_candidate : CandidateMatch → RepositoryResult Unit
validate_candidate c = do
  check_text "payload.candidates.candidate.torrent_id" c.candidate.torrent_id
  check_text "payload.candidates.candidate.title" c.candidate.title

-- The loop over the episodes; `seen` are the identities before.
unfoldable pub validate_episodes :
    TvDetail → List (ℕ × ℕ) → List TvEpisodeDetail → RepositoryResult Unit
validate_episodes tv seen [] = ok tt
validate_episodes tv seen (e ∷ rest) =
    let next = validate_episodes tv ((e.season_number, e.episode_number) ∷ seen) rest in
    if not (e.season_number == tv.season_number)
      || (e.episode_number == 0)
      || ltb tv.episode_total e.episode_number
    then err (invalid_input "payload.tv.episodes")
    else if any (λ k. (k.0 == e.season_number) && (k.1 == e.episode_number)) seen
    then err (invalid_input "payload.tv.episodes")
    else do check_text "payload.tv.episodes.label" e.label; next

unfoldable pub validate_tv_detail : TvDetail → RepositoryResult Unit
unfolding validate_episodes
validate_tv_detail tv =
    if (tv.season_number == 0)
      || (tv.episode_total == 0)
      || (tv.target_start_episode == 0)
      || ltb tv.target_end_episode tv.target_start_episode
      || ltb tv.episode_total tv.target_end_episode
    then err (invalid_input "payload.tv")
    else validate_episodes tv [] tv.episodes

unfoldable pub validate_progress : String → Option F64 → RepositoryResult Unit
validate_progress field none = ok tt
validate_progress field (some value) =
    if not (is_finite value) || not (in_unit_range value) then err (invalid_input field) else ok tt

abbrev pub is_zero : Option ℕ → Bool
is_zero none = false
is_zero (some n) = n == 0

-- `start.zip(end).is_some_and(|(start, end)| end < start)`
abbrev pub ends_before : Option ℕ → Option ℕ → Bool
ends_before (some start) (some end) = ltb end start
ends_before _ _ = false

unfoldable pub validate_file_episode_range :
    String → Option ℕ → Option ℕ → Option ℕ → Option Text → RepositoryResult Unit
validate_file_episode_range field season start end label =
    if is_zero season
      || is_zero start
      || is_zero end
      || (is_some end && is_none start)
      || ends_before start end
    then err (invalid_input field)
    else check_optional (check_text field) label

unfoldable pub validate_download_file : DownloadFile → RepositoryResult Unit
validate_download_file f = do
  check_text "payload.artifacts.downloads.files.name" f.name
  validate_progress "payload.artifacts.downloads.files.progress" (some f.progress)
  validate_file_episode_range "payload.artifacts.downloads.files" f.season_number f.episode_number
      f.episode_end_number f.episode_label

-- The loop over the downloads; it returns `download_ids`.
unfoldable pub validate_downloads : List Text → List DownloadArtifact → RepositoryResult (List Text)
unfolding validate_download_file validate_progress validate_file_episode_range
validate_downloads ids [] = ok ids
validate_downloads ids (d ∷ rest) =
    let next = validate_downloads (insert_set d.idempotency_key ids) rest in
    do
      check_text "payload.artifacts.downloads.idempotency_key" d.idempotency_key
      check_text "payload.artifacts.downloads.torrent_id" d.torrent_id
      check_text "payload.artifacts.downloads.qb_server_id" d.qb_server_id
      check_text "payload.artifacts.downloads.qb_category" d.qb_category
      check_text "payload.artifacts.downloads.qb_save_dir_name" d.qb_save_dir_name
      guard (not (contains d.idempotency_key ids)) (invalid_input "payload.artifacts.downloads")
      validate_progress "payload.artifacts.downloads.progress" d.progress
      for_each validate_download_file d.files
      next

unfoldable pub validate_link_file : LinkFile → RepositoryResult Unit
validate_link_file f = do
  check_text "payload.artifacts.links.files.source_path" f.source_path
  check_text "payload.artifacts.links.files.target_path" f.target_path
  validate_file_episode_range "payload.artifacts.links.files" f.season_number f.episode_number
      f.episode_end_number f.episode_label

unfoldable pub count_linked : List LinkFile → ℕ
unfolding is_linked
count_linked [] = 0
count_linked (f ∷ rest) = let n = count_linked rest in if is_linked f.outcome then suc n else n

abbrev pub is_failure : LinkFileOutcome → Bool
is_failure failed = true
is_failure missing = true
is_failure conflict = true
is_failure _ = false

unfoldable pub derive_link_state : List LinkFile → LinkArtifactState
unfolding count_linked
derive_link_state files =
    if count_linked files == length files
    then completed
    else if ltb 0 (count_linked files)
    then partial
    else if any (λ f. is_failure f.outcome) files
    then LinkArtifactState.failed
    else planned

unfoldable pub validate_link_state : LinkArtifact → RepositoryResult Unit
unfolding derive_link_state
validate_link_state l =
    if not (length l.files == 0)
      && not (same LinkState-discrete l.state (derive_link_state l.files))
    then err (invalid_input "payload.artifacts.links.state")
    else ok tt

-- The loop over the links; it returns `link_ids`.
unfoldable pub validate_links :
    List Text → List Text → List LinkArtifact → RepositoryResult (List Text)
unfolding validate_link_file validate_link_state validate_file_episode_range
validate_links downloads ids [] = ok ids
validate_links downloads ids (l ∷ rest) =
    let next = validate_links downloads (insert_set l.idempotency_key ids) rest in
    do
      check_text "payload.artifacts.links.idempotency_key" l.idempotency_key
      guard (not (contains l.idempotency_key ids)) (invalid_input "payload.artifacts.links")
      check_text "payload.artifacts.links.download.artifact_id" l.download.artifact_id
      guard (contains l.download.artifact_id downloads)
          (invalid_input "payload.artifacts.links.download.artifact_id")
      for_each validate_link_file l.files
      validate_link_state l
      next

unfoldable pub validate_artifacts : Artifacts → RepositoryResult (List Text × List Text)
unfolding validate_downloads validate_links
validate_artifacts a = do
  downloads ← validate_downloads [] a.downloads
  links ← validate_links downloads [] a.links
  ok (downloads, links)

abbrev pub ids_of : ArtifactKind → List Text → List Text → List Text
ids_of download downloads links = downloads
ids_of link downloads links = links

abbrev pub has_episode : ℕ → ℕ → Option TvDetail → Bool
has_episode season episode none = false
has_episode season episode (some tv) =
    any (λ e. (e.season_number == season) && (e.episode_number == episode)) tv.episodes

unfoldable pub validate_owner :
    Option TvDetail → List Text → List Text → IssueOwner → RepositoryResult Unit
validate_owner tv downloads links parent = ok tt
validate_owner tv downloads links (artifact kind id) =
    if not (contains id (ids_of kind downloads links))
    then err (invalid_input "payload.issues.owner.artifact_id")
    else ok tt
validate_owner tv downloads links (tv_lane lane) =
    if is_none tv then err (invalid_input "payload.issues.owner") else ok tt
validate_owner tv downloads links (tv_episode season episode) =
    if not (has_episode season episode tv)
    then err (invalid_input "payload.issues.owner")
    else ok tt

unfoldable pub validate_issue :
    Option TvDetail → List Text → List Text → Issue → RepositoryResult Unit
unfolding validate_owner
validate_issue tv downloads links i = do
  check_text "payload.issues.message" i.message
  check_optional (check_text "payload.issues.operation") i.operation
  check_optional (check_text "payload.issues.error_type") i.error_type
  validate_owner tv downloads links i.owner

unfoldable pub validate_tv : Option TvDetail → RepositoryResult Unit
unfolding validate_tv_detail
validate_tv none = ok tt
validate_tv (some tv) = validate_tv_detail tv

-- `SubscriptionPayload::validate`
unfoldable pub validate : SubscriptionPayload → RepositoryResult Unit
unfolding validate_source validate_observation validate_candidate validate_tv validate_artifacts
    validate_issue
validate p = do
  validate_source p.source
  validate_observation p.observation
  check_optional (check_text "payload.skip_reason") p.skip_reason
  for_each validate_candidate p.candidates
  validate_tv p.tv
  ids ← validate_artifacts p.artifacts
  for_each (validate_issue p.tv ids.0 ids.1) p.issues
