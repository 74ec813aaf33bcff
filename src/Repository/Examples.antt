-- ===== src/Repository/Examples.antt =====
-- Concrete downloads and a retry policy, with the theorems applied to them.
use tmdb_mteam_hub.Common.{
  ◌+◌, ◌-◌, ◌*◌, ◌^◌, ◌≤◌, min, ◌≡◌, refl, List, [], ◌∷◌, true, none, Text, text, text_eq, find,
  arith,
}
use tmdb_mteam_hub.Repository.Payload.{DownloadArtifact, DownloadArtifactState, pushed, missing}
use tmdb_mteam_hub.Repository.Delta.{merge_download_updates}
use tmdb_mteam_hub.Repository.Delta.Merge.{
  latest, distinct_keys, download_key, merge_download_updates-latest,
}
use tmdb_mteam_hub.Repository.Retry.{
  u64_max, PollRetryPolicy, policy_try_new, delay_secs, next_poll_at,
}
use tmdb_mteam_hub.Repository.Retry.Closed.{delay_secs-closed}

abbrev download : Text → DownloadArtifactState → DownloadArtifact
download key state = record {
  idempotency_key = key;
  torrent_id = text "t";
  torrent_title = text "T";
  qb_server_id = text "q";
  qb_server_name = none;
  qb_category = text "c";
  qb_save_dir_name = text "d";
  qb_identifier = none;
  qb_hash = none;
  qb_name = none;
  qb_state = none;
  torrent_download_url = none;
  mteam_torrent_url = none;
  state = state;
  progress = none;
  total_size = none;
  files = [];
  pushed_at = none;
  checked_at = none;
  completed_at = none;
}

abbrev current : List DownloadArtifact
current = download (text "a") pushed ∷ download (text "b") pushed ∷ []

abbrev updates : List DownloadArtifact
updates = download (text "b") missing ∷ []

merge_download_updates-latest_example :
    (find (λ d. text_eq d.idempotency_key (text "b")) (merge_download_updates current updates)
      ≡ latest download_key
          (text "b")
          updates
          (find (λ d. text_eq d.idempotency_key (text "b")) current))
    × (distinct_keys download_key (merge_download_updates current updates) ≡ true)
merge_download_updates-latest_example =
    merge_download_updates-latest current updates (text "b") (unfold text_eq in refl)

abbrev policy : PollRetryPolicy
policy = record { initial_delay_secs = 30; max_delay_secs = 600 }

delay_secs-closed_example :
    (delay_secs policy 3 ≡ min (30 * 2 ^ (3 - 1)) 600)
    × (30 ≤ delay_secs policy 3)
    × (delay_secs policy 3 ≤ 600)
    × (next_poll_at policy 1000 3 ≡ min (1000 + delay_secs policy 3) u64_max)
    × (1000 ≤ next_poll_at policy 1000 3)
delay_secs-closed_example =
    delay_secs-closed 30 600 3 1000 policy (unfold policy_try_new in refl) (omega arith)
      (omega arith)
