-- ===== src/Claim/Terminal/Issues.antt =====
-- The attention tags and the issues that a finished or failed attempt leaves
-- (src/storage/subscription_repo/claim.rs).
use tmdb_mteam_hub.Common.{
  ℕ, List, [], ◌∷◌, ◌++◌, Bool, true, false, not, ◌&&◌, ◌||◌, if◌then◌else◌, ltb, ◌==◌, Option,
  none, some, Text, text, text_eq, retain, any,
}
use tmdb_mteam_hub.Model.{
  SubscriptionAttentionTag, waiting_release, needs_confirmation, failed, retry_blocked, skipped,
  needs_reconciliation,
}
use tmdb_mteam_hub.Repository.Operation.{
  ExecutionOperation, meta, search, progress, link, operation_label,
}
use tmdb_mteam_hub.Repository.Payload.{
  SubscriptionPayload, Issue, IssueOwner, parent, CandidateMatch, download_authorized,
}

-- The derived order of the tags.
abbrev pub tag_rank : SubscriptionAttentionTag → ℕ
tag_rank waiting_release = 0
tag_rank needs_confirmation = 1
tag_rank failed = 2
tag_rank retry_blocked = 3
tag_rank skipped = 4
tag_rank needs_reconciliation = 5

-- `BTreeSet::insert`
unfoldable pub insert_tag :
    SubscriptionAttentionTag → List SubscriptionAttentionTag → List SubscriptionAttentionTag
insert_tag t [] = t ∷ []
insert_tag t (u ∷ s) =
    let rest = insert_tag t s in
    if tag_rank t == tag_rank u
    then u ∷ s
    else if ltb (tag_rank t) (tag_rank u)
    then t ∷ u ∷ s
    else u ∷ rest

abbrev pub is_skipped_tag : SubscriptionAttentionTag → Bool
is_skipped_tag skipped = true
is_skipped_tag _ = false

unfoldable pub collect_kept :
    List SubscriptionAttentionTag → List SubscriptionAttentionTag → List SubscriptionAttentionTag
unfolding insert_tag
collect_kept set [] = set
collect_kept set (t ∷ tags) = collect_kept (if is_skipped_tag t then insert_tag t set else set) tags

abbrev pub insert_if :
    Bool → SubscriptionAttentionTag → List SubscriptionAttentionTag → List SubscriptionAttentionTag
insert_if b t s = if b then insert_tag t s else s

unfoldable pub terminal_attention_tags :
    List SubscriptionAttentionTag → Bool → Bool → Bool → List SubscriptionAttentionTag
unfolding collect_kept insert_tag
terminal_attention_tags current waiting failure blocked =
    insert_if blocked retry_blocked
      (insert_if failure failed (insert_if waiting waiting_release (collect_kept [] current)))

abbrev pub short_label : ExecutionOperation → Text
short_label meta = text "meta"
short_label search = text "search"
short_label progress = text "progress"
short_label link = text "link"

unfoldable pub execution_issue_matches : ExecutionOperation → Text → Bool
execution_issue_matches operation value =
    text_eq value (operation_label operation) || text_eq value (short_label operation)

abbrev pub is_parent : IssueOwner → Bool
is_parent parent = true
is_parent _ = false

abbrev pub matches_operation : ExecutionOperation → Option Text → Bool
matches_operation operation none = false
matches_operation operation (some value) = execution_issue_matches operation value

-- An issue of the subscription itself that the operation left.
abbrev pub is_execution_issue : ExecutionOperation → Issue → Bool
is_execution_issue operation issue =
    is_parent issue.owner && matches_operation operation issue.operation

unfoldable pub clear_execution_issue :
    SubscriptionPayload → ExecutionOperation → SubscriptionPayload
clear_execution_issue p operation = record p {
  issues = retain (λ i. not (is_execution_issue operation i)) p.issues;
}

unfoldable pub replace_execution_issue :
    SubscriptionPayload → ExecutionOperation → Text → Text → ℕ → SubscriptionPayload
unfolding clear_execution_issue
replace_execution_issue p operation error_type message occurred_at =
    let q = clear_execution_issue p operation in
    record q {
      issues =
          q.issues
          ++ (record {
            owner = parent;
            operation = some (operation_label operation);
            error_type = some error_type;
            message = message;
            occurred_at = some occurred_at;
          })
            ∷ [];
    }

-- A candidate that waits for the user's confirmation.
abbrev pub awaits_confirmation : CandidateMatch → Bool
awaits_confirmation c = not (download_authorized c) && not (text_eq c.candidate.torrent_id [])

abbrev pub is_waiting_release : SubscriptionAttentionTag → Bool
is_waiting_release waiting_release = true
is_waiting_release _ = false

-- The tags of a finished attempt: an unconfirmed candidate turns the wait into a confirmation.
unfoldable pub finish_tags :
    List SubscriptionAttentionTag → Bool → List CandidateMatch → List SubscriptionAttentionTag
unfolding terminal_attention_tags
finish_tags current waiting candidates =
    let tags = terminal_attention_tags current waiting false false in
    if waiting && any awaits_confirmation candidates
    then retain (λ t. not (is_waiting_release t)) tags ++ needs_confirmation ∷ []
    else tags
