-- ===== src/Listing/Examples.antt =====
-- Concrete pages of an account with four subscriptions, with the theorem applied to them.
use tmdb_mteam_hub.Common.{
  Every, List, Option, Text, [], ap, arith, contains_nul, false, is_blank, is_whitespace, length,
  map, none, ok, refl, retain, some, text, text_eq, text_eq_iff, text_lt, true, ℕ, ◌∷◌, ◌≡◌, ◌≢◌,
}
use tmdb_mteam_hub.Model.{
  Lifecycle-discrete, Media-discrete, SubscriptionExecutionState, movie, searching,
}
use tmdb_mteam_hub.Repository.Errors.{
  check_optional, check_text, key_try_new, revision_try_new, validated_text,
}
use tmdb_mteam_hub.Repository.Listing.{ListCursor, ListSubscriptionsCommand, list_cursor_try_new}
use tmdb_mteam_hub.Repository.Head.{head_validate, retries_exhausted, validate_attention_tags}
use tmdb_mteam_hub.Claim.Table.{Row}
use tmdb_mteam_hub.Claim.Load.{checked_required_text, checked_text, decode_head, decode_summary}
use tmdb_mteam_hub.Claim.Scenario.{payload}
use tmdb_mteam_hub.Listing.{
  SubscriptionListPage, SubscriptionSummary, before_time, build_list_queries, check_time,
  continuation, cursor_time, cut_page, decode_summaries, finish_page, in_segment, key_before,
  later_time, list_summaries, passes_filter, query_selects, read_segments, row_list_key, run_query,
  same_time, segment_before, segments_at, segments_of, summary_key, summary_of,
}
use tmdb_mteam_hub.Listing.Wanted.{is_wanted, listing}
use tmdb_mteam_hub.Listing.Merge.{Decodes}
use tmdb_mteam_hub.Listing.Page.{IsPage, list_summaries-IsPage}
use tmdb_mteam_hub.Listing.Strict.{Distinct}
use tmdb_mteam_hub.Listing.Traversal.{TimeFits, behind, traverse, traverse-Complete}

-- A row of the account `a`.
abbrev row_at : Text → Option ℕ → Row
row_at subject time = record {
  detail = record {
    head = record {
      key = record { account_key = text "a"; subject_id = subject };
      revision = 7;
      active = true;
      inactive_at = none;
      last_seen_snapshot_id = none;
      media_kind = movie;
      schedulable = true;
      blocked_reason = none;
      lifecycle_state = searching;
      execution_state = SubscriptionExecutionState.idle;
      next_attempt_at = some 50;
      retry_count = 0;
      max_retries = 3;
      retry_blocked = false;
      force_eligible_once = false;
      updated_at = 60;
    };
    projection = record {
      title = text "T";
      release_year = some 1999;
      poster_url = [];
      category_text = none;
      douban_sort_time = time;
    };
    attention_tags = [];
    payload = payload;
  };
  claimed_operation = none;
  attempt_id = none;
  lease_until = none;
}

abbrev four_rows : List Row
four_rows =
    row_at (text "p") none
    ∷ row_at (text "q") (some 20)
    ∷ row_at (text "r") (some 30)
    ∷ row_at (text "s") (some 20)
    ∷ []

abbrev command_from : Option ListCursor → ListSubscriptionsCommand
command_from cursor = record {
  account_key = text "a";
  filter = record {
    active = none;
    media_kind = some movie;
    lifecycle_state = none;
    attention_tag = none;
  };
  cursor = cursor;
  limit = 2;
}

abbrev key_at : Text → Option ℕ → ListCursor
key_at subject time = record { douban_sort_time = time; subject_id = subject }

abbrev page_of : List Row → Option ListCursor → SubscriptionListPage
page_of rows next = record { items = map summary_of rows; next_cursor = next }

first_page :
    list_summaries four_rows (command_from none)
    ≡ ok (
        page_of
          (row_at (text "r") (some 30) ∷ row_at (text "s") (some 20) ∷ [])
          (some (key_at (text "s") (some 20))))
unfolding list_summaries build_list_queries cursor_time check_time segments_of segments_at
    read_segments run_query query_selects passes_filter in_segment before_time segment_before
    key_before later_time same_time decode_summaries decode_summary decode_head
    checked_required_text checked_text finish_page cut_page continuation list_cursor_try_new
    validated_text check_optional check_text key_try_new revision_try_new head_validate
    retries_exhausted validate_attention_tags is_blank is_whitespace contains_nul text_eq text_lt
    Media-discrete Lifecycle-discrete
first_page = refl

second_page :
    list_summaries four_rows (command_from (some (key_at (text "s") (some 20))))
    ≡ ok (page_of (row_at (text "q") (some 20) ∷ row_at (text "p") none ∷ []) none)
unfolding list_summaries build_list_queries cursor_time check_time segments_of segments_at
    read_segments run_query query_selects passes_filter in_segment before_time segment_before
    key_before later_time same_time decode_summaries decode_summary decode_head
    checked_required_text checked_text finish_page cut_page continuation list_cursor_try_new
    validated_text check_optional check_text key_try_new revision_try_new head_validate
    retries_exhausted validate_attention_tags is_blank is_whitespace contains_nul text_eq text_lt
    Media-discrete Lifecycle-discrete
second_page = refl

four_rows-Decodes : Every Decodes four_rows
unfolding list_summaries build_list_queries cursor_time check_time segments_of segments_at
    read_segments run_query query_selects passes_filter in_segment before_time segment_before
    key_before later_time same_time decode_summaries decode_summary decode_head
    checked_required_text checked_text finish_page cut_page continuation list_cursor_try_new
    validated_text check_optional check_text key_try_new revision_try_new head_validate
    retries_exhausted validate_attention_tags is_blank is_whitespace contains_nul text_eq text_lt
    Media-discrete Lifecycle-discrete
four_rows-Decodes = (refl, (refl, (refl, (refl, tt))))

list_summaries-IsPage_example :
    (page : SubscriptionListPage) × (list_summaries four_rows
        (command_from (some (key_at (text "s") (some 20))))
      ≡ ok page)
    × IsPage four_rows (command_from (some (key_at (text "s") (some 20)))) page
list_summaries-IsPage_example =
    list_summaries-IsPage four_rows (command_from (some (key_at (text "s") (some 20))))
      four_rows-Decodes (omega arith) (omega arith) (unfold check_time in refl)

four_rows-TimeFits : Every TimeFits four_rows
unfolding check_time
four_rows-TimeFits = (refl, (refl, (refl, (refl, tt))))

apart : (k l : ListCursor) → text_eq k.subject_id l.subject_id ≡ false → k ≢ l
apart k l h e = ground (arith, (text_eq_iff k.subject_id l.subject_id).1 (ap (λ c. c.subject_id) e))

four_rows-Distinct :
    Distinct (map row_list_key (retain (is_wanted (behind (command_from none) none)) four_rows))
unfolding passes_filter text_eq Media-discrete
four_rows-Distinct = (
  (apart _ _ refl, (apart _ _ refl, (apart _ _ refl, tt))),
  ((apart _ _ refl, (apart _ _ refl, tt)), ((apart _ _ refl, tt), (tt, tt))),
)

four_rows-length : length (listing four_rows (behind (command_from none) none)) ≡ 4
unfolding key_before later_time same_time text_lt passes_filter text_eq Media-discrete
four_rows-length = refl

traverse-Complete_example :
    (items : List SubscriptionSummary) × (traverse 5 four_rows (behind (command_from none) none)
      ≡ ok items)
    × (map summary_key items ≡ listing four_rows (behind (command_from none) none))
traverse-Complete_example =
    traverse-Complete 5 four_rows (command_from none) four_rows-Decodes four_rows-TimeFits
      (omega arith) (omega arith) four_rows-Distinct (omega (arith, four_rows-length))
