-- ===== src/Http/Cursor/Bounds.antt =====
-- What every token that is accepted carries, whoever wrote it.
use tmdb_mteam_hub.Common.{
  >>=-eq-ok, IsText, List, Option, Option-cases, Text, [], ap, arith, as_bytes, contains_nul, err,
  false, from_utf8, from_utf8-IsText, guard, guard-true, inl, inr, is_blank, leb, leb→le, length,
  map_err, none, ok, ok-injective, refl, some, some-injective, split_be_bytes, subst, suc, sym,
  text, text_eq, zero, ℕ, ◌<◌, ◌^◌, ◌∷◌, ◌≡◌, ◌≤◌,
}
use tmdb_mteam_hub.Repository.Errors.{RepositoryResult, validated_text}
use tmdb_mteam_hub.Repository.Listing.{ListCursor, list_cursor_try_new}
use tmdb_mteam_hub.Http.Cursor.{
  CursorCodecError, ListCursorScope, OpaqueListCursor, cursor_scope_bytes, decode_hex,
  decode_hex_nibble, decode_key, decode_pairs, decode_token, invalid_payload, max_cursor_token_len,
  ok_or, oversized, sort_part, split_bytes, split_once, try_from, unsupported_version,
}
use tmdb_mteam_hub.Http.Cursor.Coding.{Bytes, FitsU64, IsCursor, IsScope}

nibble-bound : (value n : ℕ) → decode_hex_nibble value ≡ ok n → n < 16
unfolding decode_hex_nibble
nibble-bound value n h = ground arith

decode_pairs-Bytes : (bytes decoded : List ℕ) → decode_pairs bytes ≡ ok decoded → Bytes decoded
unfolding decode_pairs
decode_pairs-Bytes [] decoded h = subst Bytes (ok-injective h) tt
decode_pairs-Bytes (a ∷ []) decoded h = subst Bytes (ok-injective h) tt
decode_pairs-Bytes (a ∷ b ∷ rest) decoded h =
    let (high, e1, h1) = >>=-eq-ok (decode_hex_nibble a) _ h in
    let (low, e2, h2) = >>=-eq-ok (decode_hex_nibble b) _ h1 in
    let (others, e3, h3) = >>=-eq-ok (decode_pairs rest) _ h2 in
    subst Bytes (ok-injective h3) (
      omega (arith, nibble-bound a high e1, nibble-bound b low e2),
      decode_pairs-Bytes rest others e3,
    )

split_bytes-Splits :
    (n : ℕ) (bytes front rest : List ℕ)
    → split_bytes n bytes ≡ some (front, rest)
    → Bytes bytes
    → (length front ≡ n) × Bytes front × Bytes rest
unfolding split_bytes
split_bytes-Splits zero bytes front rest e h = ground (arith, h)
split_bytes-Splits (suc n) [] front rest e h = ground arith
split_bytes-Splits (suc n) (b ∷ bytes) front rest e h = elim (Option-cases (split_bytes n bytes)) [
  | inl gone ↦ absurd (ground (arith, gone))
  | inr ((f, r), found) ↦
      let more = split_bytes-Splits n bytes f r found h.1 in
      let same_parts : (b ∷ f ≡ front) × (r ≡ rest) = ground (arith, found) in
      (
        omega (arith, more.0, ap length same_parts.0),
        subst Bytes same_parts.0 (h.0, more.1),
        subst Bytes same_parts.1 more.2,
      )
]

split_be_bytes-fits :
    (bytes rest : List ℕ) (n : ℕ) → split_be_bytes bytes ≡ some (n, rest) → Bytes bytes → n < 2 ^ 64
unfolding split_be_bytes
split_be_bytes-fits (a ∷ b ∷ c ∷ d ∷ f ∷ g ∷ k ∷ l ∷ more) rest n e h = omega (
  arith,
  ap (λ p. p.0) (some-injective refl e),
  h.0,
  h.1.0,
  h.1.1.0,
  h.1.1.1.0,
  h.1.1.1.1.0,
  h.1.1.1.1.1.0,
  h.1.1.1.1.1.1.0,
  h.1.1.1.1.1.1.1.0,
)
split_be_bytes-fits [] rest n e h = cc
split_be_bytes-fits (a ∷ []) rest n e h = cc
split_be_bytes-fits (a ∷ b ∷ []) rest n e h = cc
split_be_bytes-fits (a ∷ b ∷ c ∷ []) rest n e h = cc
split_be_bytes-fits (a ∷ b ∷ c ∷ d ∷ []) rest n e h = cc
split_be_bytes-fits (a ∷ b ∷ c ∷ d ∷ f ∷ []) rest n e h = cc
split_be_bytes-fits (a ∷ b ∷ c ∷ d ∷ f ∷ g ∷ []) rest n e h = cc
split_be_bytes-fits (a ∷ b ∷ c ∷ d ∷ f ∷ g ∷ k ∷ []) rest n e h = cc

decode_key-FitsU64 :
    (bytes rest : List ℕ) (sort_time : Option ℕ)
    → decode_key bytes ≡ ok (sort_time, rest)
    → Bytes bytes
    → FitsU64 sort_time
unfolding decode_key sort_part
decode_key-FitsU64 [] rest sort_time e h = cc
decode_key-FitsU64 (tag ∷ bytes) rest sort_time e h = elim (Option-cases (split_be_bytes bytes)) [
  | inl short ↦ ground (arith, short)
  | inr ((n, more), found) ↦ ground (arith, found, split_be_bytes-fits bytes more n found h.1)
]

try_new-fields :
    (sort_time : Option ℕ) (subject : Text) (cursor : ListCursor)
    → list_cursor_try_new sort_time subject ≡ ok cursor
    → (cursor.douban_sort_time ≡ sort_time) × (cursor.subject_id ≡ subject)
unfolding list_cursor_try_new validated_text
try_new-fields sort_time subject cursor e = (ground arith, ground arith)

ok_or-some {ℓ} :
    {A : Type ℓ} (o : Option A) (fault : CursorCodecError) (a : A)
    → ok_or o fault ≡ ok a
    → o ≡ some a
ok_or-some none fault a e = cc
ok_or-some (some b) fault a e = cc

map_err-ok :
    (r : RepositoryResult ListCursor) (cursor : ListCursor)
    → map_err (λ fault. invalid_payload) r ≡ ok cursor
    → r ≡ ok cursor
map_err-ok (err fault) cursor e = cc
map_err-ok (ok c) cursor e = cc

decode_hex-Bytes : (encoded : Text) (bytes : List ℕ) → decode_hex encoded ≡ ok bytes → Bytes bytes
unfolding decode_hex
decode_hex-Bytes encoded bytes e = decode_pairs-Bytes (as_bytes encoded) bytes (ground (arith, e))

decoded-IsCursor :
    (sort_time : Option ℕ) (subject : Text) (cursor : ListCursor)
    → FitsU64 sort_time
    → IsText subject
    → list_cursor_try_new sort_time subject ≡ ok cursor
    → IsCursor cursor
decoded-IsCursor sort_time subject cursor fits valid e =
    let (same_time, same_subject) = try_new-fields sort_time subject cursor e in
    (
      subst FitsU64 (sym same_time) fits,
      subst IsText (sym same_subject) valid,
      cc (same_time, same_subject, e),
    )

decode_token-Accepts :
    (token : Text) (scope : ListCursorScope) (cursor : ListCursor)
    → decode_token token ≡ ok (scope, cursor)
    → (length (as_bytes token) ≤ 4096) × IsScope scope × IsCursor cursor
unfolding decode_token
decode_token-Accepts token scope cursor e0 =
    let (d1, short, e1) =
      >>=-eq-ok
        (guard (leb (length (as_bytes token)) max_cursor_token_len)
          (oversized max_cursor_token_len))
        _ e0 in
    let (parts, f2, e2) = >>=-eq-ok (ok_or (split_once token) _) _ e1 in
    let (d3, f3, e3) =
      >>=-eq-ok (guard (text_eq parts.0 (text "v2")) (unsupported_version parts.0)) _ e2 in
    let (bytes, f4, e4) = >>=-eq-ok (decode_hex parts.1) _ e3 in
    let (split, f5, e5) = >>=-eq-ok (ok_or (split_bytes cursor_scope_bytes bytes) _) _ e4 in
    let (key, f6, e6) = >>=-eq-ok (decode_key split.1) _ e5 in
    let (subject, f7, e7) = >>=-eq-ok (ok_or (from_utf8 key.1) _) _ e6 in
    let (made, f8, e8) = >>=-eq-ok (map_err _ (list_cursor_try_new key.0 subject)) _ e7 in
    let splits =
      split_bytes-Splits 32 bytes split.0 split.1 (ok_or-some _ _ split f5)
        (decode_hex-Bytes parts.1 bytes f4) in
    let same_pair = ok-injective e8 in
    (
      leb→le _ _ (guard-true _ _ short),
      subst IsScope (ap (λ p. p.0) same_pair) (splits.0, splits.1),
      subst IsCursor (ap (λ p. p.1) same_pair) (
          decoded-IsCursor key.0 subject made (decode_key-FitsU64 split.1 key.1 key.0 f6 splits.2)
            (from_utf8-IsText key.1 subject (ok_or-some _ _ subject f7)) (map_err-ok _ made f8)),
    )

try_new-text :
    (sort_time : Option ℕ) (subject : Text) (cursor : ListCursor)
    → list_cursor_try_new sort_time subject ≡ ok cursor
    → (is_blank subject ≡ false) × (contains_nul subject ≡ false)
unfolding list_cursor_try_new validated_text
try_new-text sort_time subject cursor e = (ground arith, ground arith)

-- A token that is accepted, from whatever client, is kept as it is and has at most 4096 bytes. Its
-- scope has 32 bytes, its sort time fits a `u64`, and its subject is text that is not blank and
-- holds no NUL, which is what an encoded cursor needs to be read back.
pub try_from-Accepts :
    (token : Text) (opaque : OpaqueListCursor)
    → try_from token ≡ ok opaque
    → (opaque.token ≡ token)
      × (length (as_bytes token) ≤ 4096)
      × IsScope opaque.scope
      × IsCursor opaque.cursor
      × (is_blank opaque.cursor.subject_id ≡ false)
      × (contains_nul opaque.cursor.subject_id ≡ false)
unfolding try_from
try_from-Accepts token opaque e =
    let (decoded, e1, e2) = >>=-eq-ok (decode_token token) _ e in
    let (short, scope, made) = decode_token-Accepts token decoded.0 decoded.1 e1 in
    let same_opaque = ok-injective e2 in
    let valid = subst IsCursor (ap (λ o. o.cursor) same_opaque) made in
    let (filled, no_nul) = try_new-text _ opaque.cursor.subject_id opaque.cursor valid.2 in
    (
      sym (ap (λ o. o.token) same_opaque),
      short,
      subst IsScope (ap (λ o. o.scope) same_opaque) scope,
      valid,
      filled,
      no_nul,
    )
