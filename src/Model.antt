-- ===== src/Model.antt =====
-- The states of a subscription: src/subscription/model.rs.
use tmdb_mteam_hub.Common.{
  List, Bool, ◌||◌, if◌then◌else◌, Text, text, text_eq, trim, to_ascii_lowercase, any,
}

pub data SubscriptionLifecycleState : Type 0 where
  queued meta searching downloading linking completed : SubscriptionLifecycleState

pub data SubscriptionExecutionState : Type 0 where
  idle running : SubscriptionExecutionState

pub data SubscriptionAttentionTag : Type 0 where
  waiting_release needs_confirmation failed retry_blocked skipped needs_reconciliation :
      SubscriptionAttentionTag

pub data SubscriptionMediaKind : Type 0 where
  movie tv : SubscriptionMediaKind

unfoldable pub Lifecycle-discrete : Discrete SubscriptionLifecycleState
Lifecycle-discrete = hlevel

unfoldable pub Execution-discrete : Discrete SubscriptionExecutionState
Execution-discrete = hlevel

unfoldable pub Attention-discrete : Discrete SubscriptionAttentionTag
Attention-discrete = hlevel

unfoldable pub Media-discrete : Discrete SubscriptionMediaKind
Media-discrete = hlevel

unfoldable pub lifecycle_as_str : SubscriptionLifecycleState → Text
lifecycle_as_str queued = text "queued"
lifecycle_as_str meta = text "meta"
lifecycle_as_str searching = text "searching"
lifecycle_as_str downloading = text "downloading"
lifecycle_as_str linking = text "linking"
lifecycle_as_str completed = text "completed"

unfoldable pub media_as_str : SubscriptionMediaKind → Text
media_as_str movie = text "movie"
media_as_str tv = text "tv"

unfoldable pub is_tv_tag : Text → Bool
is_tv_tag tag =
    let label = to_ascii_lowercase (trim tag) in
    text_eq label (text "tv")
    || text_eq label (text "剧集")
    || text_eq label (text "电视剧")
    || text_eq label (text "番剧")

-- `SubscriptionMediaKind::from_tags`
unfoldable pub from_tags : List Text → SubscriptionMediaKind
unfolding is_tv_tag
from_tags tags = if any is_tv_tag tags then tv else movie
