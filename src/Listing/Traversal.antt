-- ===== src/Listing/Traversal.antt =====
-- A client that follows the next cursor sees every wanted row once, in order, and comes to an end.
use tmdb_mteam_hub.Common.{
  Bool-cases, Every, Every-Among, Every-map, Every-retain, Every-sort_by, Every-take, List, Option,
  Option-cases, [], ap, arith, err, if◌then◌else◌, inl, inr, length, length-take, ltb, ltb→lt, map,
  map-append, none, ok, refl, retain, retain_cong, some, sort_by, subst, suc, sym, take, take-all,
  true, zero, ℕ, ◌&&◌, ◌++◌, ◌+◌, ◌-◌, ◌<◌, ◌>>=◌, ◌∙◌, ◌∷◌, ◌≡◌, ◌≤◌,
}
use tmdb_mteam_hub.Repository.Errors.{RepositoryResult, unavailable}
use tmdb_mteam_hub.Repository.Listing.{ListCursor, ListSubscriptionsCommand}
use tmdb_mteam_hub.Claim.Table.{Row}
use tmdb_mteam_hub.Listing.{
  SubscriptionListPage, SubscriptionSummary, key_before, last, list_summaries, row_list_key,
  summary_key,
}
use tmdb_mteam_hub.Listing.Wanted.{is_wanted, listing}
use tmdb_mteam_hub.Listing.Merge.{Decodes}
use tmdb_mteam_hub.Listing.Page.{CursorFits, last-Among, last-none, list_summaries-IsPage}
use tmdb_mteam_hub.Listing.Strict.{Distinct, drop, retain-drop, retain-sort_by, sort_by-Strict}

-- The command with another cursor.
abbrev pub behind : ListSubscriptionsCommand → Option ListCursor → ListSubscriptionsCommand
behind command cursor = record {
  account_key = command.account_key;
  filter = command.filter;
  cursor = cursor;
  limit = command.limit;
}

-- What a client does with a page.
abbrev pub go_on :
    (ListSubscriptionsCommand → RepositoryResult (List SubscriptionSummary))
    → ListSubscriptionsCommand
    → List SubscriptionSummary
    → Option ListCursor
    → RepositoryResult (List SubscriptionSummary)
go_on next command items none = ok items
go_on next command items (some c) = do others ← next (behind command (some c)); ok (items ++ others)

-- The pages that a client reads, one after another; it gives up after `n` pages.
unfoldable pub traverse :
    ℕ → List Row → ListSubscriptionsCommand → RepositoryResult (List SubscriptionSummary)
unfolding list_summaries
traverse zero rows command = err unavailable
traverse (suc n) rows command = do
  page ← list_summaries rows command
  go_on (traverse n rows) command page.items page.next_cursor

traverse-end :
    (n : ℕ) (rows : List Row) (command : ListSubscriptionsCommand) (page : SubscriptionListPage)
    → list_summaries rows command ≡ ok page
    → page.next_cursor ≡ none
    → traverse (suc n) rows command ≡ ok page.items
unfolding traverse
traverse-end n rows command page done end =
    rw done (ap (go_on (traverse n rows) command page.items) end)

traverse-next :
    (n : ℕ) (rows : List Row) (command : ListSubscriptionsCommand) (page : SubscriptionListPage)
    (c : ListCursor) (others : List SubscriptionSummary)
    → list_summaries rows command ≡ ok page
    → page.next_cursor ≡ some c
    → traverse n rows (behind command (some c)) ≡ ok others
    → traverse (suc n) rows command ≡ ok (page.items ++ others)
unfolding traverse
traverse-next n rows command page c others done next read =
    rw done (ap (go_on (traverse n rows) command page.items) next ∙ rw read refl)

zero_plus : (n : ℕ) → n ≡ 0 + n
zero_plus n = omega arith

suc_plus : (m n : ℕ) → suc (m + n) ≡ suc m + n
suc_plus m n = omega arith

drop-empty : (n : ℕ) → [] ≡ drop n []
drop-empty zero = refl
drop-empty (suc n) = refl

drop-drop : (m n : ℕ) (keys : List ListCursor) → drop n (drop m keys) ≡ drop (m + n) keys
drop-drop zero n keys = ap (λ k. drop k keys) (zero_plus n)
drop-drop (suc m) n [] = sym (drop-empty n) ∙ drop-empty (suc m + n)
drop-drop (suc m) n (k ∷ keys) = drop-drop m n keys ∙ ap (λ l. drop l (k ∷ keys)) (suc_plus m n)

last-cons :
    (k : ListCursor) (keys : List ListCursor) (c : ListCursor)
    → last keys ≡ some c
    → last (k ∷ keys) ≡ some c
last-cons k [] c e = cc
last-cons k (l ∷ keys) c e = e

last-take-empty : (n : ℕ) (c : ListCursor) → last (take n []) ≡ some c → ⊥
last-take-empty zero c e = cc
last-take-empty (suc n) c e = cc

last-take-drop :
    (m n : ℕ) (keys : List ListCursor) (c : ListCursor)
    → last (take n (drop m keys)) ≡ some c
    → last (take (m + n) keys) ≡ some c
last-take-drop zero n keys c e = subst (λ k. last (take k keys) ≡ some c) (zero_plus n) e
last-take-drop (suc m) n [] c e = absurd (last-take-empty n c e)
last-take-drop (suc m) n (k ∷ keys) c e =
    subst (λ l. last (take l (k ∷ keys)) ≡ some c) (suc_plus m n)
      (last-cons k (take (m + n) keys) c (last-take-drop m n keys c e))

take-append-drop : (n : ℕ) (keys : List ListCursor) → take n keys ++ drop n keys ≡ keys
take-append-drop zero keys = refl
take-append-drop (suc n) [] = refl
take-append-drop (suc n) (k ∷ keys) = ap (λ r. k ∷ r) (take-append-drop n keys)

length-drop : (n : ℕ) (keys : List ListCursor) → length (drop n keys) ≡ length keys - n
length-drop zero keys = omega arith
length-drop (suc n) [] = omega arith
length-drop (suc n) (k ∷ keys) = omega (arith, length-drop n keys)

append_cong : {a b c d : List ListCursor} → a ≡ b → c ≡ d → a ++ c ≡ b ++ d
append_cong h k = cc (h, k)

-- Behind a key of the listing, the listing goes on behind it.
listing-behind :
    (rows : List Row) (command : ListSubscriptionsCommand) (n : ℕ) (c : ListCursor)
    → Distinct (map row_list_key (retain (is_wanted (behind command none)) rows))
    → last (take n (listing rows (behind command none))) ≡ some c
    → listing rows (behind command (some c)) ≡ drop n (listing rows (behind command none))
listing-behind rows command n c distinct e =
    ap (λ kept. sort_by key_before (map row_list_key kept))
      (retain_cong (is_wanted (behind command (some c)))
        (λ r. is_wanted (behind command none) r && key_before c (row_list_key r)) rows
        (λ r. ground arith))
    ∙ retain-sort_by row_list_key (is_wanted (behind command none)) (key_before c) rows distinct
    ∙ retain-drop n (listing rows (behind command none)) c
        (sort_by-Strict (map row_list_key (retain (is_wanted (behind command none)) rows)) distinct)
        e

-- The times of all rows fit SQLite's integers.
abbrev pub TimeFits : Row → Type 0
TimeFits r = CursorFits (some (row_list_key r))

module _ (rows : List Row) (command : ListSubscriptionsCommand) (decodes : Every Decodes rows)
    (times : Every TimeFits rows) (positive : 1 ≤ command.limit) (small : command.limit ≤ 100)
    (distinct : Distinct (map row_list_key (retain (is_wanted (behind command none)) rows))) where
  abbrev whole : List ListCursor
  whole = listing rows (behind command none)

  whole-fits : Every (λ k. CursorFits (some k)) whole
  whole-fits =
      Every-sort_by _ key_before (map row_list_key (retain (is_wanted (behind command none)) rows))
        (Every-map _ row_list_key _
          (Every-retain TimeFits (is_wanted (behind command none)) rows times))

  -- A next cursor at the last key of a page leads to what follows the page.
  next-here :
      (m : ℕ) (c : ListCursor)
      → last (take command.limit (drop m whole)) ≡ some c
      → (listing rows (behind command (some c)) ≡ drop (m + command.limit) whole)
        × CursorFits (some c)
  next-here m c found =
      let found' = last-take-drop m command.limit whole c found in
      (
        listing-behind rows command (m + command.limit) c distinct found',
        Every-Among (λ k. CursorFits (some k)) (take (m + command.limit) whole) c
            (Every-take _ (m + command.limit) whole whole-fits)
            (last-Among (take (m + command.limit) whole) c found'),
      )

  last-exists :
      (keys : List ListCursor)
      → ltb command.limit (length keys) ≡ true
      → (c : ListCursor) × (last (take command.limit keys) ≡ some c)
  last-exists keys more = elim (Option-cases (last (take command.limit keys))) [
    | inl gone ↦ absurd (
        omega (
          arith,
          last-none (take command.limit keys) gone,
          length-take command.limit keys,
          positive,
          ltb→lt command.limit (length keys) more,
        ))
    | inr found ↦ found
  ]

  -- From the place `m` on.
  traverse-from :
      (fuel m : ℕ) (cursor : Option ListCursor)
      → listing rows (behind command cursor) ≡ drop m whole
      → CursorFits cursor
      → length (drop m whole) < fuel
      → (items : List SubscriptionSummary) × (traverse fuel rows (behind command cursor) ≡ ok items)
        × (map summary_key items ≡ drop m whole)
  traverse-from zero m cursor here fits enough = absurd (omega arith)
  traverse-from (suc fuel) m cursor here fits enough =
      let (page, done, (same_keys, good, same_next)) =
        list_summaries-IsPage rows (behind command cursor) decodes positive small fits in
      let keys = drop m whole in
      let page_keys : map summary_key page.items ≡ take command.limit keys =
        same_keys ∙ ap (take command.limit) here in
      let next =
        same_next
        ∙ ap (λ k. if ltb command.limit (length k) then last (take command.limit k) else none)
            here in
      elim (Bool-cases (ltb command.limit (length keys))) [
        | inr all_read ↦
            let end : page.next_cursor ≡ none = next ∙ rw all_read refl in
            (
              page.items,
              traverse-end fuel rows (behind command cursor) page done end,
              page_keys ∙ take-all command.limit keys (ground (arith, all_read)),
            )
        | inl more ↦
            let (c, found) = last-exists keys more in
            let continues : page.next_cursor ≡ some c = next ∙ rw more found in
            let (here', fits') = next-here m c found in
            let (others, read, other_keys) =
              traverse-from fuel (m + command.limit) (some c) here' fits' (
                omega (
                  arith,
                  enough,
                  positive,
                  ltb→lt command.limit (length keys) more,
                  length-drop m whole,
                  length-drop (m + command.limit) whole,
                )) in
            (
              page.items ++ others,
              traverse-next fuel rows (behind command cursor) page c others done continues read,
              map-append summary_key page.items others
                  ∙ append_cong page_keys (other_keys ∙ sym (drop-drop m command.limit whole))
                  ∙ take-append-drop command.limit keys,
            )
      ]

-- A client lists an account's rows from the start, and follows the next cursors; the rows decode,
-- their times fit, and no two wanted rows have the same key. After fewer pages than there are wanted
-- rows, and one more, no cursor is given; the summaries of all pages together have the keys of all
-- wanted rows, each once, in the order of the listing.
pub traverse-Complete :
    (fuel : ℕ) (rows : List Row) (command : ListSubscriptionsCommand)
    → Every Decodes rows
    → Every TimeFits rows
    → 1 ≤ command.limit
    → command.limit ≤ 100
    → Distinct (map row_list_key (retain (is_wanted (behind command none)) rows))
    → length (listing rows (behind command none)) < fuel
    → (items : List SubscriptionSummary) × (traverse fuel rows (behind command none) ≡ ok items)
      × (map summary_key items ≡ listing rows (behind command none))
traverse-Complete fuel rows command decodes times positive small distinct enough =
    traverse-from rows command decodes times positive small distinct fuel 0 none refl tt enough
