-- ===== src/Listing.antt =====
-- A page of an account's subscriptions: list_summaries and the bounded queries of
-- src/storage/subscription_repo.rs.
use tmdb_mteam_hub.Common.{
  Bool, List, Option, Text, [], err, false, guard, if◌then◌else◌, is_none, is_some, leb, length,
  ltb, map, none, ok, retain, same, some, sort_by, suc, take, text_eq, text_lt, true, ℕ, ◌&&◌, ◌++◌,
  ◌==◌, ◌>>=◌, ◌>>◌, ◌||◌, ◌∷◌,
}
use tmdb_mteam_hub.Model.{Lifecycle-discrete, Media-discrete, SubscriptionAttentionTag}
use tmdb_mteam_hub.Repository.Operation.{i64_max}
use tmdb_mteam_hub.Repository.Errors.{RepositoryResult, internal, invalid_input}
use tmdb_mteam_hub.Repository.Head.{SubscriptionHead, bool_eq, has_tag}
use tmdb_mteam_hub.Repository.Source.{SubscriptionProjection}
use tmdb_mteam_hub.Repository.Listing.{
  ListCursor, ListSubscriptionsCommand, SubscriptionListFilter, list_cursor_try_new,
}
use tmdb_mteam_hub.Claim.Table.{Row}
use tmdb_mteam_hub.Claim.Load.{decode_summary, persisted}
pub mod Order
pub mod Wanted
pub mod Merge
pub mod Page
pub mod Strict
pub mod Traversal
mod Examples

-- What a query reads of a row, without the payload.
pub record SubscriptionSummary : Type 0 where
  pub head : SubscriptionHead
  pub projection : SubscriptionProjection
  pub attention_tags : List SubscriptionAttentionTag

abbrev pub summary_of : Row → SubscriptionSummary
summary_of r = record {
  head = r.detail.head;
  projection = r.detail.projection;
  attention_tags = r.detail.attention_tags;
}

abbrev pub summary_key : SubscriptionSummary → ListCursor
summary_key s = record {
  douban_sort_time = s.projection.douban_sort_time;
  subject_id = s.head.key.subject_id;
}

abbrev pub row_list_key : Row → ListCursor
row_list_key r = summary_key (summary_of r)

-- `Option<u64>` as it is compared: an absent time is the least.
unfoldable pub later_time : Option ℕ → Option ℕ → Bool
later_time none b = false
later_time (some a) none = true
later_time (some a) (some b) = ltb b a

unfoldable pub same_time : Option ℕ → Option ℕ → Bool
same_time none none = true
same_time none (some b) = false
same_time (some a) none = false
same_time (some a) (some b) = a == b

-- The order of `sort_by`, and of ORDER BY douban_sort_time DESC, subject_id DESC.
unfoldable pub key_before : ListCursor → ListCursor → Bool
unfolding later_time same_time
key_before a b =
    later_time a.douban_sort_time b.douban_sort_time
    || (same_time a.douban_sort_time b.douban_sort_time && text_lt b.subject_id a.subject_id)

-- `SortSegment`
pub data SortSegment : Type 0 where
  non_null : Option (ℕ × Text) → SortSegment
  null : Option Text → SortSegment

-- One query: a partition of `active` and a segment.
pub record ListQuery : Type 0 where
  pub in_active : Bool
  pub segment : SortSegment

unfoldable pub check_time : Option ℕ → RepositoryResult (Option ℕ)
check_time none = ok none
check_time (some time) =
    if leb time i64_max then ok (some time) else err (invalid_input "cursor.douban_sort_time")

-- `i64::try_from` of the cursor's sort time.
unfoldable pub cursor_time : Option ListCursor → RepositoryResult (Option ℕ)
unfolding check_time
cursor_time none = ok none
cursor_time (some c) = check_time c.douban_sort_time

unfoldable pub segments_at : Option ℕ → Text → List SortSegment
segments_at (some time) subject = non_null (some (time, subject)) ∷ null none ∷ []
segments_at none subject = null (some subject) ∷ []

-- The segments behind a cursor.
unfoldable pub segments_of : Option ListCursor → List SortSegment
unfolding segments_at
segments_of none = non_null none ∷ null none ∷ []
segments_of (some c) = segments_at c.douban_sort_time c.subject_id

abbrev pub active_partitions : Option Bool → List Bool
active_partitions none = true ∷ false ∷ []
active_partitions (some active) = active ∷ []

abbrev pub queries_of : List Bool → List SortSegment → List ListQuery
queries_of [] segments = []
queries_of (active ∷ rest) segments =
    map (λ segment. record { in_active = active; segment = segment }) segments
    ++ queries_of rest segments

-- `build_list_queries`
unfoldable pub build_list_queries : ListSubscriptionsCommand → RepositoryResult (List ListQuery)
unfolding cursor_time segments_of
build_list_queries command = do
  time ← cursor_time command.cursor
  ok (queries_of (active_partitions command.filter.active) (segments_of command.cursor))

abbrev pub allows {ℓ} : {A : Type ℓ} → (A → Bool) → Option A → Bool
allows test none = true
allows test (some wanted) = test wanted

-- The predicates of the filter.
unfoldable pub passes_filter : SubscriptionListFilter → Row → Bool
passes_filter filter r =
    allows (λ kind. same Media-discrete r.detail.head.media_kind kind) filter.media_kind
    && allows (λ state. same Lifecycle-discrete r.detail.head.lifecycle_state state)
        filter.lifecycle_state
    && allows (λ tag. has_tag tag r.detail.attention_tags) filter.attention_tag

unfoldable pub before_time : Option ℕ → Text → ℕ → Text → Bool
before_time none subject time after = false
before_time (some t) subject time after = ltb t time || ((t == time) && text_lt subject after)

-- `(w.douban_sort_time, w.subject_id) < (?, ?)` and `w.subject_id < ?`, with their IS NULL.
unfoldable pub in_segment : SortSegment → ListCursor → Bool
unfolding before_time
in_segment (non_null none) key = is_some key.douban_sort_time
in_segment (non_null (some (time, subject))) key =
    before_time key.douban_sort_time key.subject_id time subject
in_segment (null none) key = is_none key.douban_sort_time
in_segment (null (some subject)) key =
    is_none key.douban_sort_time && text_lt key.subject_id subject

-- The WHERE of `build_list_segment`
unfoldable pub query_selects : ListSubscriptionsCommand → ListQuery → Row → Bool
unfolding passes_filter in_segment
query_selects command query r =
    text_eq r.detail.head.key.account_key command.account_key
    && bool_eq r.detail.head.active query.in_active
    && passes_filter command.filter r
    && in_segment query.segment (row_list_key r)

-- ORDER BY of a segment
unfoldable pub segment_before : SortSegment → ListCursor → ListCursor → Bool
unfolding key_before
segment_before (non_null cursor) a b = key_before a b
segment_before (null subject) a b = text_lt b.subject_id a.subject_id

-- The rows of a query: WHERE, ORDER BY and LIMIT.
unfoldable pub run_query : List Row → ListSubscriptionsCommand → ListQuery → List Row
unfolding query_selects segment_before
run_query rows command query = take (suc command.limit) (
    sort_by (λ a b. segment_before query.segment (row_list_key a) (row_list_key b))
      (retain (query_selects command query) rows))

-- `RawSummaryRow::try_into_summary` of each row
unfoldable pub decode_summaries : List Row → RepositoryResult (List SubscriptionSummary)
unfolding decode_summary
decode_summaries [] = ok []
decode_summaries (r ∷ rows) =
    let rest = decode_summaries rows in
    do decode_summary r.detail; items ← rest; ok (summary_of r ∷ items)

-- `read_list_segment` for each query
unfoldable pub read_segments :
    List Row
    → ListSubscriptionsCommand
    → List ListQuery
    → RepositoryResult (List SubscriptionSummary)
unfolding run_query decode_summaries
read_segments rows command [] = ok []
read_segments rows command (query ∷ queries) =
    let rest = read_segments rows command queries in
    do items ← decode_summaries (run_query rows command query); others ← rest; ok (items ++ others)

pub record SubscriptionListPage : Type 0 where
  pub items : List SubscriptionSummary
  pub next_cursor : Option ListCursor

abbrev pub last {ℓ} : {A : Type ℓ} → List A → Option A
last [] = none
last (x ∷ []) = some x
last (x ∷ y ∷ xs) = last (y ∷ xs)

-- The continuation cursor; a page that has more is never empty, and the source panics there.
unfoldable pub continuation : Option SubscriptionSummary → RepositoryResult (Option ListCursor)
unfolding list_cursor_try_new
continuation none = err internal
continuation (some item) = do
  cursor ← persisted (list_cursor_try_new item.projection.douban_sort_time item.head.key.subject_id)
  ok (some cursor)

unfoldable pub cut_page : List SubscriptionSummary → RepositoryResult SubscriptionListPage
unfolding continuation
cut_page items = do
  next ← continuation (last items)
  ok (record { items = items; next_cursor = next })

-- What follows the bounded merge.
unfoldable pub finish_page : ℕ → List SubscriptionSummary → RepositoryResult SubscriptionListPage
unfolding cut_page
finish_page limit items =
    if ltb limit (length items)
    then cut_page (take limit items)
    else ok (record { items = items; next_cursor = none })

-- `list_summaries`
unfoldable pub list_summaries :
    List Row → ListSubscriptionsCommand → RepositoryResult SubscriptionListPage
unfolding build_list_queries read_segments finish_page key_before
list_summaries rows command = do
  guard (leb 1 command.limit && leb command.limit 100) (invalid_input "limit")
  queries ← build_list_queries command
  items ← read_segments rows command queries
  finish_page command.limit
      (take (suc command.limit) (sort_by (λ a b. key_before (summary_key a) (summary_key b)) items))
