-- ===== src/Repository/Listing.antt =====
-- The list contract: the filter, the ordering key where a page ends, and the command
-- (src/subscription/repository.rs).
use tmdb_mteam_hub.Common.{ℕ, Bool, Option, Text, leb, ◌&&◌, ok, ◌>>=◌, ◌>>◌, guard}
use tmdb_mteam_hub.Model.{
  SubscriptionAttentionTag, SubscriptionLifecycleState, SubscriptionMediaKind,
}
use tmdb_mteam_hub.Repository.Errors.{RepositoryResult, invalid_input, validated_text}

pub record ListCursor : Type 0 where
  pub douban_sort_time : Option ℕ
  pub subject_id : Text

-- `ListCursor::try_new`
unfoldable pub list_cursor_try_new : Option ℕ → Text → RepositoryResult ListCursor
unfolding validated_text
list_cursor_try_new sort_time subject = do
  subject' ← validated_text "cursor.subject_id" subject
  ok (record { douban_sort_time = sort_time; subject_id = subject' })

pub record SubscriptionListFilter : Type 0 where
  pub active : Option Bool
  pub media_kind : Option SubscriptionMediaKind
  pub lifecycle_state : Option SubscriptionLifecycleState
  pub attention_tag : Option SubscriptionAttentionTag

pub record ListSubscriptionsCommand : Type 0 where
  pub account_key : Text
  pub filter : SubscriptionListFilter
  pub cursor : Option ListCursor
  pub limit : ℕ

-- `ListSubscriptionsCommand::try_new`
unfoldable pub list_try_new :
    Text
    → SubscriptionListFilter
    → Option ListCursor
    → ℕ
    → RepositoryResult ListSubscriptionsCommand
unfolding validated_text
list_try_new account filter cursor limit = do
  guard (leb 1 limit && leb limit 100) (invalid_input "limit")
  account' ← validated_text "account_key" account
  ok (record { account_key = account'; filter = filter; cursor = cursor; limit = limit })
