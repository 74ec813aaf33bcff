-- ===== src/Http/Examples.antt =====
-- Concrete cursors and scopes, with the theorems of the codec applied to them.
use tmdb_mteam_hub.Common.{
  List, [], all, arith, as_bytes, contains_nul, encode_char, err, false, if◌then◌else◌, is_blank,
  is_scalar, is_whitespace, leb, length, ltb, none, ok, refl, some, suc, text, text_eq, to_be_bytes,
  true, zero, ℕ, ◌%◌, ◌∷◌, ◌≡◌, ◌≢◌, ◌≤◌, ◌⊎◌,
}
use tmdb_mteam_hub.Model.{movie}
use tmdb_mteam_hub.Effects.Identity.Framing.{Fits, Fits-of_tests}
use tmdb_mteam_hub.Repository.Errors.{validated_text}
use tmdb_mteam_hub.Repository.Listing.{ListCursor, SubscriptionListFilter, list_cursor_try_new}
use tmdb_mteam_hub.Http.Cursor.{
  OpaqueListCursor, list_cursor_scope, oversized, scope_input, scope_mismatch, try_from,
}
use tmdb_mteam_hub.Http.Cursor.Coding.{
  Bytes, IsCursor, IsScope, decode_token-token_text, encode-decode, token_size, travel, token_text,
}
use tmdb_mteam_hub.Http.Cursor.Scope.{travel-SameList}
use tmdb_mteam_hub.Http.Cursor.Bounds.{try_from-Accepts}

Bytes-of_all : (bytes : List ℕ) → all (λ b. ltb b 256) bytes ≡ true → Bytes bytes
Bytes-of_all [] h = tt
Bytes-of_all (b ∷ bytes) h = ground (arith, Bytes-of_all bytes)

abbrev zeros : ℕ → List ℕ
zeros zero = []
zeros (suc n) = 0 ∷ zeros n

-- A function with digests of 32 bytes, in the place of SHA-256.
abbrev digest : List ℕ → List ℕ
digest input = (length input % 256) ∷ zeros 31

digest-IsScope : (input : List ℕ) → IsScope (digest input)
digest-IsScope input = (refl, (omega arith, Bytes-of_all (zeros 31) refl))

abbrev timed : ListCursor
timed = record { douban_sort_time = some 1700000000; subject_id = text "剧1292052" }

timed-IsCursor : IsCursor timed
unfolding list_cursor_try_new validated_text is_blank is_whitespace contains_nul
timed-IsCursor = (
  (omega arith),
  (Fits-of_tests timed.subject_id (unfold is_scalar in refl)
      (unfold as_bytes encode_char in refl)).0,
  refl,
)

abbrev films : SubscriptionListFilter
films = record {
  active = some true;
  media_kind = some movie;
  lifecycle_state = none;
  attention_tag = none;
}

encode-decode_example : travel timed (7 ∷ zeros 31) (7 ∷ zeros 31) ≡ (
    if leb (token_size timed) 4096
    then (if text_eq (7 ∷ zeros 31) (7 ∷ zeros 31) then ok timed else err scope_mismatch)
    else err (oversized 4096))
encode-decode_example =
    encode-decode timed (7 ∷ zeros 31) (7 ∷ zeros 31)
      (refl, (omega arith, Bytes-of_all (zeros 31) refl)) timed-IsCursor

anna-Fits : Fits (text "anna")
unfolding is_scalar as_bytes encode_char
anna-Fits = Fits-of_tests (text "anna") refl refl

anna_travels :
    travel timed
      (list_cursor_scope digest (text "anna") films)
      (list_cursor_scope digest (text "anna") films)
    ≡ ok timed
unfolding text_eq list_cursor_scope scope_input to_be_bytes as_bytes encode_char
anna_travels =
    encode-decode timed (list_cursor_scope digest (text "anna") films)
      (list_cursor_scope digest (text "anna") films)
      (digest-IsScope (scope_input (text "anna") films)) timed-IsCursor

travel-SameList_example :
    (timed ≡ timed)
    × (token_size timed ≤ 4096)
    × (((text "anna" ≡ text "anna") × (films ≡ films))
        ⊎ ((scope_input (text "anna") films ≢ scope_input (text "anna") films)
            × (digest (scope_input (text "anna") films)
                ≡ digest (scope_input (text "anna") films))))
travel-SameList_example =
    travel-SameList digest timed timed (text "anna") (text "anna") films films digest-IsScope
      timed-IsCursor anna-Fits anna-Fits anna_travels

abbrev written_timed : OpaqueListCursor
written_timed = record { token = token_text timed (digest []); scope = digest []; cursor = timed }

timed-is_accepted : try_from (token_text timed (digest [])) ≡ ok written_timed
unfolding try_from
timed-is_accepted =
    rw
      (decode_token-token_text timed (digest []) (digest-IsScope []) timed-IsCursor
        (unfold as_bytes encode_char in omega arith))
      refl

try_from-Accepts_example :
    (written_timed.token ≡ token_text timed (digest []))
    × (length (as_bytes (token_text timed (digest []))) ≤ 4096)
    × IsScope (digest [])
    × IsCursor timed
    × (is_blank timed.subject_id ≡ false)
    × (contains_nul timed.subject_id ≡ false)
try_from-Accepts_example =
    try_from-Accepts (token_text timed (digest [])) written_timed timed-is_accepted
