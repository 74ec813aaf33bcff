-- ===== src/Listing/Wanted.antt =====
-- The specification of a page, and the queries against it: each row that is wanted is selected by one
-- query, and no row by two.
use tmdb_mteam_hub.Common.{
  Apart, Bool, List, Option, Text, [], any, ap, arith, false, is_none, is_some, map, none, refl,
  retain, some, sort_by, text_eq, text_lt, true, ℕ, ◌&&◌, ◌++◌, ◌||◌, ◌∙◌, ◌∷◌, ◌≡◌,
}
use tmdb_mteam_hub.Repository.Listing.{ListCursor, ListSubscriptionsCommand}
use tmdb_mteam_hub.Repository.Head.{bool_eq}
use tmdb_mteam_hub.Claim.Table.{Row}
use tmdb_mteam_hub.Listing.{
  ListQuery, SortSegment, active_partitions, allows, before_time, in_segment, key_before,
  later_time, non_null, null, passes_filter, queries_of, query_selects, row_list_key, same_time,
  segments_at, segments_of,
}

-- Behind the cursor, in the order of the listing.
abbrev pub is_after : Option ListCursor → ListCursor → Bool
is_after none key = true
is_after (some c) key = key_before c key

-- The rows that a listing is about.
abbrev pub is_wanted : ListSubscriptionsCommand → Row → Bool
is_wanted command r =
    text_eq r.detail.head.key.account_key command.account_key
    && allows (bool_eq r.detail.head.active) command.filter.active
    && passes_filter command.filter r
    && is_after command.cursor (row_list_key r)

-- The keys of all wanted rows, in order.
abbrev pub listing : List Row → ListSubscriptionsCommand → List ListCursor
listing rows command = sort_by key_before (map row_list_key (retain (is_wanted command) rows))

later_time-before :
    (time : ℕ) (subject after : Text) (t : Option ℕ)
    → (before_time t after time subject || is_none t)
      ≡ key_before
          (record { douban_sort_time = some time; subject_id = subject })
          (record { douban_sort_time = t; subject_id = after })
unfolding before_time key_before later_time same_time
later_time-before time subject after none = refl
later_time-before time subject after (some t) = ground arith

null-before :
    (subject after : Text) (t : Option ℕ)
    → (is_none t && text_lt after subject)
      ≡ key_before
          (record { douban_sort_time = none; subject_id = subject })
          (record { douban_sort_time = t; subject_id = after })
unfolding key_before later_time same_time
null-before subject after none = refl
null-before subject after (some t) = refl

or_false : (b : Bool) → (b || false) ≡ b
or_false true = refl
or_false false = refl

segments_at-cover :
    (time : Option ℕ) (subject : Text) (key : ListCursor)
    → any (λ s. in_segment s key) (segments_at time subject)
      ≡ key_before (record { douban_sort_time = time; subject_id = subject }) key
unfolding segments_at in_segment
segments_at-cover none subject key =
    or_false (is_none key.douban_sort_time && text_lt key.subject_id subject)
    ∙ null-before subject key.subject_id key.douban_sort_time
segments_at-cover (some time) subject key =
    ap (λ b. before_time key.douban_sort_time key.subject_id time subject || b)
      (or_false (is_none key.douban_sort_time))
    ∙ later_time-before time subject key.subject_id key.douban_sort_time

some_or_none : (t : Option ℕ) → (is_some t || (is_none t || false)) ≡ true
some_or_none none = refl
some_or_none (some t) = refl

-- The segments behind a cursor hold the keys behind it.
segments-cover :
    (cursor : Option ListCursor) (key : ListCursor)
    → any (λ s. in_segment s key) (segments_of cursor) ≡ is_after cursor key
unfolding segments_of in_segment
segments-cover none key = some_or_none key.douban_sort_time
segments-cover (some c) key = segments_at-cover c.douban_sort_time c.subject_id key

-- Two segments of a cursor share no key.
null-apart :
    (cursor : Option (ℕ × Text)) (t : Option ℕ) (subject : Text)
    → (in_segment (non_null cursor) (record { douban_sort_time = t; subject_id = subject })
        && is_none t)
      ≡ false
unfolding in_segment before_time
null-apart none none subject = refl
null-apart none (some t) subject = refl
null-apart (some (time, after)) none subject = refl
null-apart (some (time, after)) (some t) subject = ground arith

-- The segments that a cursor leads to: both, or the second.
data Shape : List SortSegment → Type 0 where
  both : (cursor : Option (ℕ × Text)) → Shape (non_null cursor ∷ null none ∷ [])
  last_one : (subject : Text) → Shape (null (some subject) ∷ [])

segments_at-Shape : (time : Option ℕ) (subject : Text) → Shape (segments_at time subject)
unfolding segments_at
segments_at-Shape none subject = last_one subject
segments_at-Shape (some time) subject = both (some (time, subject))

segments_of-Shape : (cursor : Option ListCursor) → Shape (segments_of cursor)
unfolding segments_of
segments_of-Shape none = both none
segments_of-Shape (some c) = segments_at-Shape c.douban_sort_time c.subject_id

any-append :
    {A : Type 0} (p : A → Bool) (xs ys : List A) → any p (xs ++ ys) ≡ (any p xs || any p ys)
any-append p [] ys = refl
any-append p (x ∷ xs) ys = ground (arith, any-append p xs ys)

-- The tests of one row, with the gates that all queries share.
module _ (gate pass : Bool) (active : Bool) (key : ListCursor) where
  abbrev selected : ListQuery → Bool
  selected query = gate && bool_eq active query.in_active && pass && in_segment query.segment key

  any-selected :
      (partition : Bool) (segments : List SortSegment)
      → any selected (map (λ segment. record { in_active = partition; segment = segment }) segments)
        ≡ (gate && bool_eq active partition && pass && any (λ s. in_segment s key) segments)
  any-selected partition [] = ground arith
  any-selected partition (s ∷ segments) = ground (arith, any-selected partition segments)

  queries-cover :
      (partitions : List Bool) (segments : List SortSegment)
      → any selected (queries_of partitions segments)
        ≡ (gate && any (bool_eq active) partitions && pass && any (λ s. in_segment s key) segments)
  queries-cover [] segments = ground arith
  queries-cover (p ∷ partitions) segments =
      any-append selected (map (λ segment. record { in_active = p; segment = segment }) segments)
        (queries_of partitions segments)
      ∙ ground (arith, any-selected p segments, queries-cover partitions segments)

  partitions-cover :
      (wanted : Option Bool)
      → any (bool_eq active) (active_partitions wanted) ≡ allows (bool_eq active) wanted
  partitions-cover none = ground arith
  partitions-cover (some b) = or_false (bool_eq active b)

pub selects-wanted :
    (command : ListSubscriptionsCommand) (r : Row)
    → any
        (λ query. query_selects command query r)
        (queries_of (active_partitions command.filter.active) (segments_of command.cursor))
      ≡ is_wanted command r
unfolding query_selects
selects-wanted command r =
    let gate = text_eq r.detail.head.key.account_key command.account_key in
    let pass = passes_filter command.filter r in
    let active = r.detail.head.active in
    let key = row_list_key r in
    queries-cover gate pass active key (active_partitions command.filter.active)
      (segments_of command.cursor)
    ∙ cc (
      partitions-cover gate pass active key command.filter.active,
      segments-cover command.cursor key,
    )

module _ (command : ListSubscriptionsCommand) where
  abbrev query_of : Bool → SortSegment → ListQuery
  query_of active segment = record { in_active = active; segment = segment }

  -- Two queries of one partition have different segments.
  same_partition-apart :
      (active : Bool) (cursor : Option (ℕ × Text)) (r : Row)
      → (query_selects command (query_of active (non_null cursor)) r
          && query_selects command (query_of active (null none)) r)
        ≡ false
  unfolding query_selects in_segment
  same_partition-apart active cursor r =
      ground
        (arith, null-apart cursor r.detail.projection.douban_sort_time r.detail.head.key.subject_id)

  -- A row is in one partition.
  other_partition-apart :
      (first second : SortSegment) (r : Row)
      → (query_selects command (query_of true first) r
          && query_selects command (query_of false second) r)
        ≡ false
  unfolding query_selects
  other_partition-apart first second r = ground arith

  partitions-Apart :
      (wanted : Option Bool) (segments : List SortSegment)
      → Shape segments
      → Apart (map (query_selects command) (queries_of (active_partitions wanted) segments))
  partitions-Apart (some active) _ (last_one subject) = ((λ r. ground arith), tt)
  partitions-Apart (some active) _ (both cursor) =
      ((λ r. ground (arith, same_partition-apart active cursor r)), ((λ r. ground arith), tt))
  partitions-Apart none _ (last_one subject) = (
    (λ r. ground (arith, other_partition-apart (null (some subject)) (null (some subject)) r)),
    ((λ r. ground arith), tt),
  )
  partitions-Apart none _ (both cursor) = (
    (λ r. ground (
      arith,
      same_partition-apart true cursor r,
      other_partition-apart (non_null cursor) (non_null cursor) r,
      other_partition-apart (non_null cursor) (null none) r,
    )),
    (
      (λ r. ground (
        arith,
        other_partition-apart (null none) (non_null cursor) r,
        other_partition-apart (null none) (null none) r,
      )),
      ((λ r. ground (arith, same_partition-apart false cursor r)), ((λ r. ground arith), tt)),
    ),
  )

  pub queries-Apart : Apart (
      map
        (query_selects command)
        (queries_of (active_partitions command.filter.active) (segments_of command.cursor)))
  queries-Apart =
      partitions-Apart command.filter.active (segments_of command.cursor)
        (segments_of-Shape command.cursor)
