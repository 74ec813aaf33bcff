-- ===== src/Http/Cursor.antt =====
-- The opaque list cursor of the HTTP interface: src/http/dto/subscriptions/cursor.rs. A token is the
-- hexadecimal text of a scope and of the ordering key where a page ended. SHA-256 is the crate
-- `ring`'s, and a parameter.
pub mod Coding
pub mod Scope
pub mod Bounds
use tmdb_mteam_hub.Common.{
  ℕ, zero, suc, ◌+◌, ◌-◌, ◌*◌, ◌^◌, Bool, true, false, ◌&&◌, not, if◌then◌else◌, ltb, leb, ◌==◌,
  ◌%◌, Option, none, some, is_some, List, [], ◌∷◌, ◌++◌, length, Text, text, text_eq, as_bytes,
  from_utf8, to_be_bytes, split_be_bytes, hex, Result, ok, err, ◌>>=◌, ◌>>◌, guard, map_err,
}
use tmdb_mteam_hub.Model.{
  SubscriptionAttentionTag, SubscriptionLifecycleState, SubscriptionMediaKind, queued, meta,
  searching, downloading, linking, completed, waiting_release, needs_confirmation, failed,
  retry_blocked, skipped, needs_reconciliation, movie, tv,
}
use tmdb_mteam_hub.Repository.Listing.{ListCursor, SubscriptionListFilter, list_cursor_try_new}

pub data CursorCodecError : Type 0 where
  unsupported_version : Text → CursorCodecError
  invalid_encoding invalid_payload scope_mismatch : CursorCodecError
  oversized : ℕ → CursorCodecError

abbrev pub Coded : Type 0 → Type 0
Coded A = Result CursorCodecError A

abbrev pub max_cursor_token_len : ℕ
max_cursor_token_len = 4096

abbrev pub cursor_scope_bytes : ℕ
cursor_scope_bytes = 32

-- `SCOPE_DOMAIN`
abbrev pub scope_domain : List ℕ
scope_domain = text "tmdb-mteam-hub/subscription-list-cursor-scope/v2" ++ 0 ∷ []

unfoldable pub active_scope_code : Option Bool → ℕ
active_scope_code none = 0
active_scope_code (some false) = 1
active_scope_code (some true) = 2

unfoldable pub media_scope_code : Option SubscriptionMediaKind → ℕ
media_scope_code none = 0
media_scope_code (some movie) = 1
media_scope_code (some tv) = 2

unfoldable pub lifecycle_scope_code : Option SubscriptionLifecycleState → ℕ
lifecycle_scope_code none = 0
lifecycle_scope_code (some queued) = 1
lifecycle_scope_code (some meta) = 2
lifecycle_scope_code (some searching) = 3
lifecycle_scope_code (some downloading) = 4
lifecycle_scope_code (some linking) = 5
lifecycle_scope_code (some completed) = 6

unfoldable pub attention_scope_code : Option SubscriptionAttentionTag → ℕ
attention_scope_code none = 0
attention_scope_code (some waiting_release) = 1
attention_scope_code (some failed) = 2
attention_scope_code (some retry_blocked) = 3
attention_scope_code (some skipped) = 4
attention_scope_code (some needs_reconciliation) = 5
attention_scope_code (some needs_confirmation) = 6

-- What `ListCursorScope::new` feeds to the digest.
unfoldable pub scope_input : Text → SubscriptionListFilter → List ℕ
unfolding active_scope_code media_scope_code lifecycle_scope_code attention_scope_code
scope_input account filter =
    scope_domain
    ++ (to_be_bytes (length (as_bytes account))
        ++ (as_bytes account
            ++ (active_scope_code filter.active
                ∷ media_scope_code filter.media_kind
                ∷ lifecycle_scope_code filter.lifecycle_state
                ∷ attention_scope_code filter.attention_tag
                ∷ [])))

-- The 32 bytes of a digest.
abbrev pub ListCursorScope : Type 0
ListCursorScope = List ℕ

-- `ListCursorScope::new`
unfoldable pub list_cursor_scope :
    (List ℕ → List ℕ) → Text → SubscriptionListFilter → ListCursorScope
unfolding scope_input
list_cursor_scope sha256 account filter = sha256 (scope_input account filter)

pub record OpaqueListCursor : Type 0 where
  pub token : Text
  pub scope : ListCursorScope
  pub cursor : ListCursor

unfoldable pub decode_hex_nibble : ℕ → Coded ℕ
decode_hex_nibble value =
    if leb b'0' value && leb value b'9'
    then ok (value - b'0')
    else if leb b'a' value && leb value b'f'
    then ok (value - b'a' + 10)
    else if leb b'A' value && leb value b'F'
    then ok (value - b'A' + 10)
    else err invalid_encoding

-- The pairs of `chunks_exact(2)`, which leaves out a last odd byte.
unfoldable pub decode_pairs : List ℕ → Coded (List ℕ)
unfolding decode_hex_nibble
decode_pairs [] = ok []
decode_pairs (a ∷ []) = ok []
decode_pairs (a ∷ b ∷ rest) =
    let others = decode_pairs rest in
    do
      high ← decode_hex_nibble a
      low ← decode_hex_nibble b
      decoded ← others
      ok ((high * 16 + low) ∷ decoded)

unfoldable pub decode_hex : Text → Coded (List ℕ)
unfolding decode_pairs
decode_hex encoded = do
  guard (not (length (as_bytes encoded) == 0) && (length (as_bytes encoded) % 2 == 0))
      invalid_encoding
  decode_pairs (as_bytes encoded)

-- `str::split_once('.')`
abbrev pub push_front : ℕ → Option (Text × Text) → Option (Text × Text)
push_front c none = none
push_front c (some (before, after)) = some (c ∷ before, after)

unfoldable pub split_once : Text → Option (Text × Text)
split_once [] = none
split_once (c ∷ s) =
    let rest = split_once s in if c == b'.' then some ([], s) else push_front c rest

abbrev pub ok_or {ℓ} : {A : Type ℓ} → Option A → CursorCodecError → Result CursorCodecError A
ok_or none fault = err fault
ok_or (some a) fault = ok a

-- `payload.get(..n)` with what stands behind it.
abbrev pub push_byte : ℕ → Option (List ℕ × List ℕ) → Option (List ℕ × List ℕ)
push_byte b none = none
push_byte b (some (front, rest)) = some (b ∷ front, rest)

unfoldable pub split_bytes : ℕ → List ℕ → Option (List ℕ × List ℕ)
split_bytes zero bytes = some ([], bytes)
split_bytes (suc n) [] = none
split_bytes (suc n) (b ∷ bytes) = push_byte b (split_bytes n bytes)

unfoldable pub sort_part : Option (ℕ × List ℕ) → Coded (Option ℕ × List ℕ)
sort_part none = err invalid_payload
sort_part (some (sort_time, rest)) = ok (some sort_time, rest)

-- The tag, the sort time and the bytes of the subject.
unfoldable pub decode_key : List ℕ → Coded (Option ℕ × List ℕ)
unfolding sort_part
decode_key [] = err invalid_payload
decode_key (tag ∷ remainder) =
    if tag == 0
    then ok (none, remainder)
    else if tag == 1
    then sort_part (split_be_bytes remainder)
    else err invalid_payload

-- `decode_token`: a scope and a cursor.
unfoldable pub decode_token : Text → Coded (ListCursorScope × ListCursor)
unfolding split_once decode_hex split_bytes decode_key list_cursor_try_new
decode_token token = do
  guard (leb (length (as_bytes token)) max_cursor_token_len) (oversized max_cursor_token_len)
  parts ← ok_or (split_once token) invalid_encoding
  guard (text_eq parts.0 (text "v2")) (unsupported_version parts.0)
  payload ← decode_hex parts.1
  split ← ok_or (split_bytes cursor_scope_bytes payload) invalid_payload
  key ← decode_key split.1
  subject ← ok_or (from_utf8 key.1) invalid_payload
  cursor ← map_err (λ fault. invalid_payload) (list_cursor_try_new key.0 subject)
  ok (split.0, cursor)

-- `TryFrom` of both kinds of string, and `Deserialize`
unfoldable pub try_from : Text → Coded OpaqueListCursor
unfolding decode_token
try_from token = do
  decoded ← decode_token token
  ok (record { token = token; scope = decoded.0; cursor = decoded.1 })

-- `checked_add` and `checked_mul` on `usize`, of 64 bits, with the error of the chain.
unfoldable pub checked : ℕ → Coded ℕ
checked value = if ltb value (2 ^ 64) then ok value else err (oversized max_cursor_token_len)

unfoldable pub sort_bytes : Option ℕ → List ℕ
sort_bytes none = 0 ∷ []
sort_bytes (some sort_time) = 1 ∷ to_be_bytes sort_time

unfoldable pub cursor_payload : ListCursor → ListCursorScope → List ℕ
unfolding sort_bytes
cursor_payload cursor scope =
    scope ++ (sort_bytes cursor.douban_sort_time ++ as_bytes cursor.subject_id)

-- The length of the token, which is known before it is written.
unfoldable pub token_length : ListCursor → Coded ℕ
unfolding checked
token_length cursor = do
  tagged ← checked (cursor_scope_bytes + 1)
  timed ← checked (tagged + (if is_some cursor.douban_sort_time then 8 else 0))
  payload_len ← checked (timed + length (as_bytes cursor.subject_id))
  encoded_len ← checked (payload_len * 2)
  checked (encoded_len + 3)

-- `OpaqueListCursor::encode`
unfoldable pub encode : ListCursor → ListCursorScope → Coded OpaqueListCursor
unfolding token_length cursor_payload try_from
encode cursor scope = do
  token_len ← token_length cursor
  guard (leb token_len max_cursor_token_len) (oversized max_cursor_token_len)
  try_from (text "v2." ++ hex (cursor_payload cursor scope))

-- `OpaqueListCursor::decode`
unfoldable pub decode : OpaqueListCursor → ListCursorScope → Coded ListCursor
decode opaque expected =
    if text_eq opaque.scope expected then ok opaque.cursor else err scope_mismatch
