-- ===== src/Http/Cursor/Scope.antt =====
-- The scope of a cursor: what is hashed determines the account and the filter, so a cursor does not
-- serve another list, unless two inputs of SHA-256 collide.
use tmdb_mteam_hub.Common.{
  Bool, Bool-cases, List, Option, Text, append-cancel, arith, as_bytes, as_bytes-injective, err,
  if◌then◌else◌, inl, inr, leb, ok, sym, text_eq, text_eq_iff, ℕ, ◌∙◌, ◌≡◌, ◌≢◌, ◌≤◌, ◌⊎◌,
}
use tmdb_mteam_hub.Model.{
  SubscriptionAttentionTag, SubscriptionLifecycleState, SubscriptionMediaKind,
}
use tmdb_mteam_hub.Repository.Listing.{ListCursor, SubscriptionListFilter}
use tmdb_mteam_hub.Http.Cursor.{
  ListCursorScope, active_scope_code, attention_scope_code, lifecycle_scope_code, list_cursor_scope,
  media_scope_code, oversized, scope_domain, scope_input, scope_mismatch,
}
use tmdb_mteam_hub.Effects.Identity.{frame}
use tmdb_mteam_hub.Effects.Identity.Framing.{Fits, frame-injective}
use tmdb_mteam_hub.Http.Cursor.Coding.{IsCursor, IsScope, encode-decode, token_size, travel}

active_scope_code-injective :
    (a b : Option Bool) → active_scope_code a ≡ active_scope_code b → a ≡ b
unfolding active_scope_code
active_scope_code-injective a b e = ground arith

media_scope_code-injective :
    (a b : Option SubscriptionMediaKind) → media_scope_code a ≡ media_scope_code b → a ≡ b
unfolding media_scope_code
media_scope_code-injective a b e = ground arith

lifecycle_scope_code-injective :
    (a b : Option SubscriptionLifecycleState)
    → lifecycle_scope_code a ≡ lifecycle_scope_code b
    → a ≡ b
unfolding lifecycle_scope_code
lifecycle_scope_code-injective a b e = ground arith

attention_scope_code-injective :
    (a b : Option SubscriptionAttentionTag)
    → attention_scope_code a ≡ attention_scope_code b
    → a ≡ b
unfolding attention_scope_code
attention_scope_code-injective a b e = ground arith

-- The code of a filter determines it.
filter_of_codes :
    (f g : SubscriptionListFilter)
    → active_scope_code f.active ≡ active_scope_code g.active
    → media_scope_code f.media_kind ≡ media_scope_code g.media_kind
    → lifecycle_scope_code f.lifecycle_state ≡ lifecycle_scope_code g.lifecycle_state
    → attention_scope_code f.attention_tag ≡ attention_scope_code g.attention_tag
    → f ≡ g
filter_of_codes f g a m l t = cc (
  active_scope_code-injective f.active g.active a,
  media_scope_code-injective f.media_kind g.media_kind m,
  lifecycle_scope_code-injective f.lifecycle_state g.lifecycle_state l,
  attention_scope_code-injective f.attention_tag g.attention_tag t,
)

scope_input-injective :
    (account account' : Text) (filter filter' : SubscriptionListFilter)
    → Fits account
    → Fits account'
    → scope_input account filter ≡ scope_input account' filter'
    → (account ≡ account') × (filter ≡ filter')
unfolding scope_input frame
scope_input-injective a a' f f' h h' e =
    let (same_bytes, codes) =
      frame-injective (as_bytes a) (as_bytes a') _ _ h.1 h'.1 (append-cancel scope_domain _ _ e) in
    (
      as_bytes-injective a a' h.0 h'.0 same_bytes,
      filter_of_codes f f' (cc codes) (cc codes) (cc codes) (cc codes),
    )

accepted :
    (size : ℕ) (scope expected : ListCursorScope) (cursor received : ListCursor)
    → (if leb size 4096
        then (if text_eq scope expected then ok cursor else err scope_mismatch)
        else err (oversized 4096))
      ≡ ok received
    → (size ≤ 4096) × (scope ≡ expected) × (received ≡ cursor)
accepted size scope expected cursor received e = ground (arith, text_eq_iff scope expected)

-- Where a digest has 32 bytes: if a cursor of one account and filter is accepted for an account and
-- a filter, they are the same, or the digest of two different inputs is the same; the cursor is the
-- one that was sent, and its token has at most 4096 bytes.
pub travel-SameList :
    (sha256 : List ℕ → List ℕ) (cursor received : ListCursor) (account account' : Text)
    (filter filter' : SubscriptionListFilter)
    → ((input : List ℕ) → IsScope (sha256 input))
    → IsCursor cursor
    → Fits account
    → Fits account'
    → travel cursor
        (list_cursor_scope sha256 account filter)
        (list_cursor_scope sha256 account' filter')
      ≡ ok received
    → (received ≡ cursor)
      × (token_size cursor ≤ 4096)
      × (((account ≡ account') × (filter ≡ filter'))
          ⊎ ((scope_input account filter ≢ scope_input account' filter')
              × (sha256 (scope_input account filter) ≡ sha256 (scope_input account' filter'))))
unfolding list_cursor_scope
travel-SameList sha256 c r a a' f f' digest hc h h' e =
    let s = scope_input a f in
    let s' = scope_input a' f' in
    let answer = sym (encode-decode c (sha256 s) (sha256 s') (digest s) hc) ∙ e in
    let (short, same_scope, same_cursor) =
      accepted (token_size c) (sha256 s) (sha256 s') c r answer in
    (
      same_cursor,
      short,
      elim (Bool-cases (text_eq s s')) [
        | inl equal ↦ inl (scope_input-injective a a' f f' h h' ((text_eq_iff s s').0 equal))
        | inr other ↦
            inr ((λ same_input. ground (arith, (text_eq_iff s s').1 same_input)), same_scope)
      ],
    )
