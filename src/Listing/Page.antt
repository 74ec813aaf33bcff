-- ===== src/Listing/Page.antt =====
-- `list_summaries` returns the page that the specification says.
use tmdb_mteam_hub.Common.{
  >>=-eq-ok, Among, Bool, Bool-cases, Every, Every-Among, Every-append, Every-map, Every-sort_by,
  Every-take, Every-weaken, List, Option, Option-cases, Text, [], any, ap, arith, concat, guard,
  if◌then◌else◌, inl, inr, length, length-map, length-take, le→leb, ltb, ltb→lt, map, map-map,
  map-sort_by, map-take, none, ok, refl, retain, some, sort_by, subst, suc, sym, take, take-all,
  take-take-suc, true, ℕ, ◌∙◌, ◌∷◌, ◌≡◌, ◌≤◌,
}
use tmdb_mteam_hub.Repository.Operation.{SubscriptionKey}
use tmdb_mteam_hub.Repository.Errors.{check_optional, corrupt_data, key_try_new, validated_text}
use tmdb_mteam_hub.Repository.Listing.{ListCursor, ListSubscriptionsCommand, list_cursor_try_new}
use tmdb_mteam_hub.Repository.Source.{year_in_range}
use tmdb_mteam_hub.Claim.Table.{Row}
use tmdb_mteam_hub.Claim.Load.{
  checked_required_text, checked_text, decode_head, decode_summary, persisted,
}
use tmdb_mteam_hub.Listing.{
  ListQuery, SubscriptionListPage, SubscriptionSummary, active_partitions, build_list_queries,
  check_time, continuation, cursor_time, cut_page, finish_page, key_before, last, list_summaries,
  queries_of, query_selects, run_query, segments_of, summary_key, summary_of,
}
use tmdb_mteam_hub.Listing.Wanted.{is_wanted, listing, selects-wanted}
use tmdb_mteam_hub.Listing.Merge.{
  Decodes, all_queries, merged-keys, read_segments-ok, run_query-Every,
}

-- A summary that is read from a wanted row.
abbrev pub IsWantedItem : List Row → ListSubscriptionsCommand → SubscriptionSummary → Type 0
IsWantedItem rows command item =
    (r : Row) × Among r rows × (is_wanted command r ≡ true) × (summary_of r ≡ item)

-- What a page promises: the first keys behind the cursor in the order of the listing, each with the
-- summary of a wanted row, and a cursor at the last key if there are more.
abbrev pub IsPage : List Row → ListSubscriptionsCommand → SubscriptionListPage → Type 0
IsPage rows command page =
    (map summary_key page.items ≡ take command.limit (listing rows command))
    × Every (IsWantedItem rows command) page.items
    × (page.next_cursor ≡ (
        if ltb command.limit (length (listing rows command))
        then last (take command.limit (listing rows command))
        else none))

-- The cursor's sort time fits SQLite's integers.
abbrev pub CursorFits : Option ListCursor → Type 0
CursorFits none = Unit
CursorFits (some c) = check_time c.douban_sort_time ≡ ok c.douban_sort_time

abbrev pub ContinuesAt : SubscriptionSummary → Type 0
ContinuesAt item =
    list_cursor_try_new item.projection.douban_sort_time item.head.key.subject_id
    ≡ ok (summary_key item)

pub last-none : {A : Type 0} (xs : List A) → last xs ≡ none → length xs ≡ 0
last-none [] h = refl
last-none (x ∷ []) h = cc
last-none (x ∷ y ∷ xs) h = absurd (omega (arith, last-none (y ∷ xs) h))

last-map :
    {A B : Type 0} (f : A → B) (xs : List A) (x : A)
    → last xs ≡ some x
    → last (map f xs) ≡ some (f x)
last-map f [] x h = cc
last-map f (y ∷ []) x h = cc h
last-map f (y ∷ z ∷ xs) x h = last-map f (z ∷ xs) x h

pub last-Among : {A : Type 0} (xs : List A) (x : A) → last xs ≡ some x → Among x xs
last-Among [] x h = cc
last-Among (y ∷ []) x h = inl (cc h)
last-Among (y ∷ z ∷ xs) x h = inr (last-Among (z ∷ xs) x h)

module _ (limit : ℕ) (items : List SubscriptionSummary) (keys : List ListCursor)
    (same_keys : map summary_key items ≡ take (suc limit) keys) where
  more_iff : ltb limit (length items) ≡ ltb limit (length keys)
  more_iff =
      let size =
        sym (length-map summary_key items) ∙ ap length same_keys ∙ length-take (suc limit) keys in
      ground (arith, size)

  first_keys : map summary_key (take limit items) ≡ take limit keys
  first_keys =
      map-take summary_key limit items ∙ ap (take limit) same_keys ∙ take-take-suc limit keys

  finish_page-ok :
      1 ≤ limit
      → Every ContinuesAt items
      → (page : SubscriptionListPage) × (finish_page limit items ≡ ok page)
        × (page.items ≡ take limit items)
        × (page.next_cursor ≡ (if ltb limit (length keys) then last (take limit keys) else none))
  unfolding finish_page cut_page continuation
  finish_page-ok positive good = elim (Bool-cases (ltb limit (length items))) [
    | inl more ↦ elim (Option-cases (last (take limit items))) [
      | inl gone ↦ absurd (
          omega (
            arith,
            last-none (take limit items) gone,
            length-take limit items,
            positive,
            ltb→lt limit (length items) more,
          ))
      | inr (item, found) ↦ (
        record { items = take limit items; next_cursor = some (summary_key item) },
        rw
            (
              more,
              found,
              Every-Among ContinuesAt (take limit items) item
                  (Every-take ContinuesAt limit items good)
                  (last-Among (take limit items) item found),
            )
            refl,
        refl,
        rw (sym more_iff, more)
            (sym (ap last (sym first_keys) ∙ last-map summary_key (take limit items) item found)),
      )
    ]
    | inr whole ↦ (
      record { items = items; next_cursor = none },
      rw whole refl,
      sym (take-all limit items (ground (arith, whole))),
      rw (sym more_iff, whole) refl,
    )
  ]

key_try_new-continues :
    (account subject : Text) (key : SubscriptionKey) (time : Option ℕ)
    → persisted (key_try_new account subject) ≡ ok key
    → list_cursor_try_new time subject
      ≡ ok (record { douban_sort_time = time; subject_id = subject })
unfolding key_try_new list_cursor_try_new validated_text
key_try_new-continues account subject key time h = ground arith

-- A row that decodes has a subject that a cursor may name.
Decodes-ContinuesAt : (r : Row) → Decodes r → ContinuesAt (summary_of r)
unfolding decode_summary decode_head
Decodes-ContinuesAt r h =
    let d = r.detail in
    let (u1, f1, h1) = >>=-eq-ok (checked_required_text d.projection.title) _ h in
    let (u2, f2, h2) = >>=-eq-ok (checked_text d.projection.poster_url) _ h1 in
    let (u3, f3, h3) = >>=-eq-ok (check_optional checked_text d.projection.category_text) _ h2 in
    let (u4, f4, h4) =
      >>=-eq-ok (guard (year_in_range d.projection.release_year) corrupt_data) _ h3 in
    let (u5, f5, h5) = >>=-eq-ok (decode_head d.head) _ h4 in
    let (key, f6, h6) =
      >>=-eq-ok (persisted (key_try_new d.head.key.account_key d.head.key.subject_id)) _ f5 in
    key_try_new-continues d.head.key.account_key d.head.key.subject_id key
      d.projection.douban_sort_time f6

cursor_time-ok :
    (cursor : Option ListCursor)
    → CursorFits cursor
    → (time : Option ℕ) × (cursor_time cursor ≡ ok time)
unfolding cursor_time
cursor_time-ok none h = (none, refl)
cursor_time-ok (some c) h = (c.douban_sort_time, h)

build_list_queries-ok :
    (command : ListSubscriptionsCommand)
    → CursorFits command.cursor
    → build_list_queries command
      ≡ ok (queries_of (active_partitions command.filter.active) (segments_of command.cursor))
unfolding build_list_queries
build_list_queries-ok command h = rw ((cursor_time-ok command.cursor h).1) refl

Every-concat :
    {A B : Type 0} (P : B → Type 0) (f : A → List B) (xs : List A)
    → ((x : A) → Among x xs → Every P (f x))
    → Every P (concat (map f xs))
Every-concat P f [] h = tt
Every-concat P f (x ∷ xs) h =
    Every-append P (f x) (concat (map f xs)) (h x (inl refl))
      (Every-concat P f xs (λ y k. h y (inr k)))

any-Among :
    {A : Type 0} (p : A → Bool) (xs : List A) (x : A) → Among x xs → p x ≡ true → any p xs ≡ true
any-Among p [] x k h = absurd k
any-Among p (y ∷ xs) x (inl e) h = cc (ap p e, h)
any-Among p (y ∷ xs) x (inr k) h = ground (arith, any-Among p xs x k h)

retain-Among :
    {A : Type 0} (p : A → Bool) (xs : List A) → Every (λ x. Among x xs × (p x ≡ true)) (retain p xs)
retain-Among p [] = tt
retain-Among p (x ∷ xs) =
    let rest =
      Every-weaken _ (λ y. Among y (x ∷ xs) × (p y ≡ true)) _ (λ y found. (inr found.0, found.1))
        (retain-Among p xs) in
    elim (Bool-cases (p x)) [ inl k ↦ rw k ((inl refl, k), rest) | inr k ↦ rw k rest ]

module _ (rows : List Row) (command : ListSubscriptionsCommand) (decodes : Every Decodes rows) where
  abbrev queries : List ListQuery
  queries = all_queries rows command

  abbrev GoodRow : Row → Type 0
  GoodRow r = Among r rows × (is_wanted command r ≡ true) × Decodes r

  abbrev selected : List Row
  selected = concat (map (run_query rows command) queries)

  selected-GoodRow : Every GoodRow selected
  selected-GoodRow = Every-concat GoodRow (run_query rows command) queries (λ query among.
      run_query-Every rows command GoodRow query (
        Every-weaken _ GoodRow _
          (λ r found. (
            found.0,
            sym (selects-wanted command r)
                ∙ any-Among (λ q. query_selects command q r) queries query among found.1,
            Every-Among Decodes rows r decodes found.0,
          ))
          (retain-Among (query_selects command query) rows)))

  abbrev merged : List SubscriptionSummary
  merged =
      take (suc command.limit)
        (sort_by (λ a b. key_before (summary_key a) (summary_key b)) (map summary_of selected))

  merged-Every :
      (P : SubscriptionSummary → Type 0)
      → ((r : Row) → GoodRow r → P (summary_of r))
      → Every P merged
  merged-Every P f = Every-take P (suc command.limit) _ (
      Every-sort_by P (λ a b. key_before (summary_key a) (summary_key b)) (map summary_of selected)
        (Every-map P summary_of selected
          (Every-weaken GoodRow (λ r. P (summary_of r)) selected f selected-GoodRow)))

  merged-listing : map summary_key merged ≡ take (suc command.limit) (listing rows command)
  merged-listing =
      map-take summary_key (suc command.limit) _
      ∙ ap (take (suc command.limit)) (
          map-sort_by key_before summary_key (map summary_of selected)
          ∙ ap (sort_by key_before) (map-map summary_key summary_of selected))
      ∙ merged-keys rows command

-- Where every row of the table decodes: a listing with a limit from 1 to 100, from the start or
-- behind a cursor whose time fits, returns a page. Its keys are the first of all wanted rows' keys,
-- in the order of the listing, at most as many as the limit; each item is the summary of a wanted
-- row; and there is a next cursor, the page's last key, exactly if more rows are wanted. So the
-- merge of bounded queries loses nothing.
pub list_summaries-IsPage :
    (rows : List Row) (command : ListSubscriptionsCommand)
    → Every Decodes rows
    → 1 ≤ command.limit
    → command.limit ≤ 100
    → CursorFits command.cursor
    → (page : SubscriptionListPage) × (list_summaries rows command ≡ ok page)
      × IsPage rows command page
unfolding list_summaries
list_summaries-IsPage rows command decodes positive small fits =
    let (page, done, same_items, same_next) =
      finish_page-ok command.limit (merged rows command decodes) (listing rows command)
        (merged-listing rows command decodes) positive
        (merged-Every rows command decodes ContinuesAt (λ r good. Decodes-ContinuesAt r good.2)) in
    (
      page,
      rw
          (
            le→leb 1 command.limit positive,
            le→leb command.limit 100 small,
            build_list_queries-ok command fits,
            read_segments-ok rows command decodes (all_queries rows command),
          )
          done,
      (
        ap (map summary_key) same_items
            ∙ first_keys command.limit (merged rows command decodes) (listing rows command)
                (merged-listing rows command decodes),
        subst (Every (IsWantedItem rows command)) (sym same_items) (
            Every-take (IsWantedItem rows command) command.limit _ (
              merged-Every rows command decodes (IsWantedItem rows command)
                (λ r good. (r, good.0, good.1, refl)))),
        same_next,
      ),
    )
