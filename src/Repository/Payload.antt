-- ===== src/Repository/Payload.antt =====
-- The JSON-owned detail of a subscription (src/subscription/repository/payload.rs). Names of the
-- source keep their words without the ending `Payload`, but for the whole.
pub mod Validate
pub mod Keys
use tmdb_mteam_hub.Common.{
  ℕ, ◌^◌, ◌/◌, ◌%◌, List, Bool, true, false, not, ◌&&◌, ◌||◌, ltb, leb, ◌==◌, Option, none, some,
  Text, text, text_eq, ℕ_discrete,
}
use tmdb_mteam_hub.Effects.Link.{LinkFileOutcome}

-- An `f64` as its bit pattern (IEEE 754 binary64).
abbrev pub F64 : Type 0
F64 = ℕ

-- `f64::is_finite`: the exponent is not all ones.
unfoldable pub is_finite : F64 → Bool
is_finite x = not (x / 2 ^ 52 % 2 ^ 11 == 2047)

-- `(0.0..=1.0).contains(&x)`: a positive pattern up to that of 1.0, or the negative zero.
unfoldable pub in_unit_range : F64 → Bool
in_unit_range x = leb x 0x3ff0000000000000 || (x == 2 ^ 63)

pub record WantedSource : Type 0 where
  pub title : Text
  pub detail_title : Option Text
  pub release_year : Option ℕ
  pub poster_url : Text
  pub cover_url : Text
  pub original_title : Option Text
  pub aka : List Text
  pub languages : List Text
  pub countries : List Text
  pub genres : List Text
  pub directors : List Text
  pub actors : List Text
  pub date_published : Option Text
  pub duration : Option Text
  pub summary : Option Text
  pub rating_value : Option F64
  pub rating_count : Option ℕ
  pub category_text : Option Text
  pub tags : List Text
  pub douban_date : Option Text
  pub douban_sort_time : Option ℕ
  pub douban_return_order : Option ℕ

pub record Observation : Type 0 where
  pub created_at : ℕ
  pub first_seen_at : ℕ
  pub last_seen_at : ℕ

pub data ArtifactKind : Type 0 where
  download link : ArtifactKind

pub data TvLane : Type 0 where
  search progress link : TvLane

pub data IssueOwner : Type 0 where
  parent : IssueOwner
  artifact : ArtifactKind → Text → IssueOwner
  tv_lane : TvLane → IssueOwner
  tv_episode : ℕ → ℕ → IssueOwner

pub record Issue : Type 0 where
  pub owner : IssueOwner
  pub operation : Option Text
  pub error_type : Option Text
  pub message : Text
  pub occurred_at : Option ℕ

pub record Candidate : Type 0 where
  pub torrent_id : Text
  pub title : Text
  pub subtitle : Text
  pub source : Text
  pub search_query : Text
  pub size : Option Text
  pub seeders : Option ℕ
  pub leechers : Option ℕ
  pub uploaded_at : Option Text

-- `priority` is an `i32`, as its bit pattern.
pub record CandidateRuleEvaluation : Type 0 where
  pub rule_name : Text
  pub priority : ℕ
  pub mode : Text
  pub matched : Bool
  pub matched_keywords : List Text
  pub missing_keywords : List Text
  pub excluded_reason : Option Text

pub record CandidateMatch : Type 0 where
  pub candidate : Candidate
  pub selected : Bool
  pub user_confirmed : Bool
  pub matched_rule_name : Option Text
  pub matched_priority : Option ℕ
  pub matched_keywords : List Text
  pub excluded_reason : Option Text
  pub rule_evaluations : List CandidateRuleEvaluation

unfoldable pub download_authorized : CandidateMatch → Bool
download_authorized c =
    c.user_confirmed
    || text_eq c.candidate.source (text "douban")
    || text_eq c.candidate.source (text "imdb")

pub data TvEpisodeIntent : Type 0 where
  target skipped : TvEpisodeIntent

pub record TvEpisodeDetail : Type 0 where
  pub season_number : ℕ
  pub episode_number : ℕ
  pub label : Text
  pub intent : TvEpisodeIntent

pub record TvDetail : Type 0 where
  pub localized_title : Text
  pub season_number : ℕ
  pub episode_total : ℕ
  pub target_start_episode : ℕ
  pub target_end_episode : ℕ
  pub episodes : List TvEpisodeDetail

-- A file of a download, with the episodes that it covers.
pub record DownloadFile : Type 0 where
  pub name : Text
  pub size : ℕ
  pub progress : F64
  pub priority : ℕ
  pub season_number : Option ℕ
  pub episode_number : Option ℕ
  pub episode_end_number : Option ℕ
  pub episode_label : Option Text

pub data DownloadArtifactState : Type 0 where
  pushed downloading downloaded missing failed ignored superseded : DownloadArtifactState

pub record DownloadArtifact : Type 0 where
  pub idempotency_key : Text
  pub torrent_id : Text
  pub torrent_title : Text
  pub qb_server_id : Text
  pub qb_server_name : Option Text
  pub qb_category : Text
  pub qb_save_dir_name : Text
  pub qb_identifier : Option Text
  pub qb_hash : Option Text
  pub qb_name : Option Text
  pub qb_state : Option Text
  pub torrent_download_url : Option Text
  pub mteam_torrent_url : Option Text
  pub state : DownloadArtifactState
  pub progress : Option F64
  pub total_size : Option ℕ
  pub files : List DownloadFile
  pub pushed_at : Option ℕ
  pub checked_at : Option ℕ
  pub completed_at : Option ℕ

pub record LinkFile : Type 0 where
  pub source_path : Text
  pub target_path : Text
  pub size : ℕ
  pub outcome : LinkFileOutcome
  pub season_number : Option ℕ
  pub episode_number : Option ℕ
  pub episode_end_number : Option ℕ
  pub episode_label : Option Text
  pub error : Option Text

pub data LinkArtifactState : Type 0 where
  planned partial completed failed : LinkArtifactState

pub record LinkDownloadRef : Type 0 where
  pub artifact_id : Text

pub record LinkArtifact : Type 0 where
  pub idempotency_key : Text
  pub download : LinkDownloadRef
  pub state : LinkArtifactState
  pub source_path : Option Text
  pub target_dir : Option Text
  pub checked_at : ℕ
  pub completed_at : Option ℕ
  pub files : List LinkFile

pub record Artifacts : Type 0 where
  pub downloads : List DownloadArtifact
  pub links : List LinkArtifact

pub record SubscriptionPayload : Type 0 where
  pub replacement_pending : Bool
  pub replacement_prepared : Bool
  pub source : WantedSource
  pub observation : Observation
  pub issues : List Issue
  pub skip_reason : Option Text
  pub candidates : List CandidateMatch
  pub tv : Option TvDetail
  pub artifacts : Artifacts

unfoldable pub LinkState-discrete : Discrete LinkArtifactState
LinkState-discrete = hlevel

unfoldable pub Payload-discrete : Discrete SubscriptionPayload
unfolding ℕ_discrete
Payload-discrete = hlevel ℕ_discrete
