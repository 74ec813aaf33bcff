-- ===== src/Repository/Payload/Keys.antt =====
-- The stable keys of a payload's artifacts, and `validate_for`
-- (src/subscription/repository/payload.rs).
use tmdb_mteam_hub.Common.{
  ℕ, List, [], ◌∷◌, ◌++◌, not, if◌then◌else◌, Text, text, text_eq, hex, ok, err, ◌>>◌,
}
use tmdb_mteam_hub.Effects.Identity.{frame_components, stable_qb_idempotency_key}
use tmdb_mteam_hub.Repository.Errors.{RepositoryResult, invalid_input, check_text, for_each}
use tmdb_mteam_hub.Repository.Payload.{DownloadArtifact, LinkArtifact, SubscriptionPayload}
use tmdb_mteam_hub.Repository.Payload.Validate.{validate}

-- SHA-256 is the crate `ring`'s, and a parameter.
module _ (sha256 : List ℕ → List ℕ) where
  unfoldable pub stable_artifact_key : List ℕ → Text → List Text → Text
  stable_artifact_key domain prefix components =
      prefix ++ hex (sha256 (domain ++ frame_components components))

  unfoldable pub stable_resolved_link_artifact_key : Text → Text → Text → Text
  unfolding stable_artifact_key
  stable_resolved_link_artifact_key account subject artifact_id =
      stable_artifact_key (text "tmdb-mteam-hub/link-artifact/v1" ++ 0 ∷ []) (text "link:v1:")
        (account ∷ subject ∷ text "resolved" ∷ artifact_id ∷ [])

  unfoldable pub check_download_key : Text → Text → DownloadArtifact → RepositoryResult Unit
  check_download_key account subject d =
      if not
        (text_eq d.idempotency_key (stable_qb_idempotency_key sha256 account subject d.torrent_id))
      then err (invalid_input "payload.artifacts.downloads.idempotency_key")
      else ok tt

  unfoldable pub check_link_key : Text → Text → LinkArtifact → RepositoryResult Unit
  unfolding stable_resolved_link_artifact_key
  check_link_key account subject l =
      if not (
        text_eq l.idempotency_key
          (stable_resolved_link_artifact_key account subject l.download.artifact_id))
      then err (invalid_input "payload.artifacts.links.idempotency_key")
      else ok tt

  -- `SubscriptionPayload::validate_for`
  unfoldable pub validate_for : Text → Text → SubscriptionPayload → RepositoryResult Unit
  unfolding validate check_download_key check_link_key
  validate_for account subject p = do
    check_text "account_key" account
    check_text "subject_id" subject
    validate p
    for_each (check_download_key account subject) p.artifacts.downloads
    for_each (check_link_key account subject) p.artifacts.links
