-- ===== src/Listing/Merge.antt =====
-- The bounded merge of the queries has the first keys of the listing.
use tmdb_mteam_hub.Common.{
  Bool, Every, Every-map, Every-retain, Every-sort_by, Every-take, Every-weaken, List, Option, Text,
  [], any-map, ap, arith, concat, is_none, map, map-append, map-map, map-sort_by, map-take, none,
  ok, refl, retain, retain-Every, retain_cong, some, sort_by, sort_by-parts, sort_by_agree, suc,
  sym, take, take-sort_by-concat, true, ℕ, ◌∙◌, ◌∷◌, ◌≡◌,
}
use tmdb_mteam_hub.Repository.Listing.{ListCursor, ListSubscriptionsCommand}
use tmdb_mteam_hub.Claim.Table.{Row}
use tmdb_mteam_hub.Claim.Load.{decode_summary}
use tmdb_mteam_hub.Listing.{
  ListQuery, SortSegment, active_partitions, decode_summaries, in_segment, key_before, later_time,
  non_null, null, queries_of, query_selects, read_segments, row_list_key, run_query, same_time,
  segment_before, segments_of, summary_of,
}
use tmdb_mteam_hub.Listing.Order.{key_before-IsOrder}
use tmdb_mteam_hub.Listing.Wanted.{listing, queries-Apart, selects-wanted}

-- The rows can be decoded.
abbrev pub Decodes : Row → Type 0
Decodes r = decode_summary r.detail ≡ ok tt

decode_summaries-ok :
    (rows : List Row) → Every Decodes rows → decode_summaries rows ≡ ok (map summary_of rows)
unfolding decode_summaries
decode_summaries-ok [] h = refl
decode_summaries-ok (r ∷ rows) h = rw (h.0, decode_summaries-ok rows h.1) refl

is_none-none : (t : Option ℕ) → is_none t ≡ true → t ≡ none
is_none-none none h = refl
is_none-none (some t) h = cc

null-time :
    (command : ListSubscriptionsCommand) (active : Bool) (subject : Option Text) (r : Row)
    → query_selects command (record { in_active = active; segment = null subject }) r ≡ true
    → r.detail.projection.douban_sort_time ≡ none
unfolding query_selects in_segment
null-time command active none r h =
    ground (arith, is_none-none r.detail.projection.douban_sort_time)
null-time command active (some subject) r h =
    ground (arith, is_none-none r.detail.projection.douban_sort_time)

module _ (rows : List Row) (command : ListSubscriptionsCommand) where
  abbrev pub bound : ℕ
  bound = suc command.limit

  -- The keys of the rows that a query selects.
  abbrev part : ListQuery → List ListCursor
  part query = map row_list_key (retain (query_selects command query) rows)

  pub run_query-Every :
      (P : Row → Type 0) (query : ListQuery)
      → Every P (retain (query_selects command query) rows)
      → Every P (run_query rows command query)
  unfolding run_query
  run_query-Every P query h =
      Every-take P bound _ (
        Every-sort_by P (λ a b. segment_before query.segment (row_list_key a) (row_list_key b)) _ h)

  pub read_segments-ok :
      Every Decodes rows
      → (queries : List ListQuery)
      → read_segments rows command queries
        ≡ ok (map summary_of (concat (map (run_query rows command) queries)))
  unfolding read_segments
  read_segments-ok h [] = refl
  read_segments-ok h (query ∷ queries) =
      rw
        (
          decode_summaries-ok (run_query rows command query) (
              run_query-Every Decodes query
                (Every-retain Decodes (query_selects command query) rows h)),
          read_segments-ok h queries,
        )
        (ap ok (sym (map-append summary_of (run_query rows command query) _)))

  selected-null :
      (subject : Option Text) (active : Bool)
      → Every
          (λ key. key.douban_sort_time ≡ none)
          (part (record { in_active = active; segment = null subject }))
  selected-null subject active =
      let query : ListQuery = record { in_active = active; segment = null subject } in
      Every-map (λ key. key.douban_sort_time ≡ none) row_list_key
        (retain (query_selects command query) rows)
        (Every-weaken (λ r. query_selects command query r ≡ true)
          (λ r. r.detail.projection.douban_sort_time ≡ none) _ (null-time command active subject)
          (retain-Every (query_selects command query) rows))

  -- The order of a segment is the order of the listing.
  segment-sort :
      (active : Bool) (segment : SortSegment)
      → sort_by (segment_before segment) (part (record { in_active = active; segment = segment }))
        ≡ sort_by key_before (part (record { in_active = active; segment = segment }))
  unfolding segment_before key_before later_time same_time
  segment-sort active (non_null cursor) = refl
  segment-sort active (null subject) =
      sort_by_agree (λ key. key.douban_sort_time ≡ none) (segment_before (null subject)) key_before
        (λ a b ha hb. rw (ha, hb) refl)
        (part (record { in_active = active; segment = null subject }))
        (selected-null subject active)

  run_query-keys :
      (query : ListQuery)
      → map row_list_key (run_query rows command query)
        ≡ take bound (sort_by key_before (part query))
  unfolding run_query
  run_query-keys query =
      map-take row_list_key bound _
      ∙ ap (take bound) (
          map-sort_by (segment_before query.segment) row_list_key
            (retain (query_selects command query) rows)
          ∙ segment-sort query.in_active query.segment)

  concat-keys :
      (queries : List ListQuery)
      → map row_list_key (concat (map (run_query rows command) queries))
        ≡ concat (map (λ keys. take bound (sort_by key_before keys)) (map part queries))
  concat-keys [] = refl
  concat-keys (query ∷ queries) =
      map-append row_list_key (run_query rows command query) _
      ∙ cc (run_query-keys query, concat-keys queries)

  abbrev pub all_queries : List ListQuery
  all_queries = queries_of (active_partitions command.filter.active) (segments_of command.cursor)

  -- The bounded merge has the first keys of the listing.
  pub merged-keys :
      take bound
        (sort_by key_before (map row_list_key (concat (map (run_query rows command) all_queries))))
      ≡ take bound (listing rows command)
  merged-keys =
      ap (λ keys. take bound (sort_by key_before keys)) (concat-keys all_queries)
      ∙ take-sort_by-concat key_before key_before-IsOrder bound (map part all_queries)
      ∙ ap (λ parts. take bound (sort_by key_before (concat parts)))
          (sym
            (map-map (λ p. map row_list_key (retain p rows)) (query_selects command) all_queries))
      ∙ ap (take bound) (
          sort_by-parts key_before key_before-IsOrder row_list_key
            (map (query_selects command) all_queries) rows (queries-Apart command))
      ∙ ap (λ kept. take bound (sort_by key_before (map row_list_key kept)))
          (retain_cong _ _ rows (λ r.
            any-map (λ p. p r) (query_selects command) all_queries ∙ selects-wanted command r))
