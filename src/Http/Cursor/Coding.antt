-- ===== src/Http/Cursor/Coding.antt =====
-- The code of a cursor is read back: hexadecimal pairs, the scope, the sort time and the subject.
use tmdb_mteam_hub.Common.{
  Bool-cases, Every, Every-append, IsText, List, Option, Text, [], ap, arith, as_bytes, encode_char,
  err, from_utf8-as_bytes, hex, hex_digit, if◌then◌else◌, inl, inr, is_scalar, is_some, leb, leb→le,
  length, length-append, length-hex, le→leb, none, ok, refl, some, split_be_bytes-to_be_bytes,
  subst, text, text_eq, to_be_bytes, true, ℕ, ◌%◌, ◌*◌, ◌++◌, ◌+◌, ◌/◌, ◌<◌, ◌>>=◌, ◌^◌, ◌∷◌, ◌≡◌,
  ◌≤◌,
}
use tmdb_mteam_hub.Repository.Listing.{ListCursor, list_cursor_try_new}
use tmdb_mteam_hub.Http.Cursor.{
  Coded, ListCursorScope, checked, cursor_payload, decode, decode_hex, decode_hex_nibble,
  decode_key, decode_pairs, decode_token, encode, max_cursor_token_len, oversized, scope_mismatch,
  sort_bytes, sort_part, split_bytes, split_once, token_length, try_from,
}

abbrev pub Bytes : List ℕ → Type 0
Bytes bytes = Every (λ b. b < 256) bytes

nibble-hex_digit : (n : ℕ) → n < 16 → decode_hex_nibble (hex_digit n) ≡ ok n
unfolding decode_hex_nibble hex_digit
nibble-hex_digit n h = ground arith

hex_digit-ascii : (n : ℕ) → n < 16 → hex_digit n < 128
unfolding hex_digit
hex_digit-ascii n h = ground arith

decode_pairs-hex : (bytes : List ℕ) → Bytes bytes → decode_pairs (hex bytes) ≡ ok bytes
unfolding decode_pairs hex
decode_pairs-hex [] h = refl
decode_pairs-hex (b ∷ rest) h =
    rw
      (
        nibble-hex_digit (b / 16) (omega (arith, h.0)),
        nibble-hex_digit (b % 16) (omega arith),
        decode_pairs-hex rest h.1,
      )
      (ap (λ x. ok (x ∷ rest)) (omega arith))

encode_char-ascii : (c : ℕ) (rest : List ℕ) → c < 128 → encode_char c rest ≡ c ∷ rest
unfolding encode_char
encode_char-ascii c rest h = ground arith

-- The text of hexadecimal digits is its own code.
as_bytes-hex : (bytes : List ℕ) → Bytes bytes → as_bytes (hex bytes) ≡ hex bytes
unfolding as_bytes hex
as_bytes-hex [] h = refl
as_bytes-hex (b ∷ rest) h =
    rw
      (
        encode_char-ascii (hex_digit (b / 16)) _ (hex_digit-ascii (b / 16) (omega (arith, h.0))),
        encode_char-ascii (hex_digit (b % 16)) _ (hex_digit-ascii (b % 16) (omega arith)),
        as_bytes-hex rest h.1,
      )
      refl

encode_char-Bytes :
    (c : ℕ) (rest : List ℕ) → is_scalar c ≡ true → Bytes rest → Bytes (encode_char c rest)
unfolding encode_char is_scalar
encode_char-Bytes c rest h k = ground (arith, k)

as_bytes-Bytes : (s : Text) → IsText s → Bytes (as_bytes s)
unfolding as_bytes
as_bytes-Bytes [] h = tt
as_bytes-Bytes (c ∷ s) h = encode_char-Bytes c (as_bytes s) h.0 (as_bytes-Bytes s h.1)

to_be_bytes-Bytes : (n : ℕ) → Bytes (to_be_bytes n)
unfolding to_be_bytes
to_be_bytes-Bytes n = ground arith

split_bytes-append :
    (front rest : List ℕ) → split_bytes (length front) (front ++ rest) ≡ some (front, rest)
unfolding split_bytes
split_bytes-append [] rest = refl
split_bytes-append (b ∷ front) rest = rw (split_bytes-append front rest) refl

-- A sort time fits a `u64`.
abbrev pub FitsU64 : Option ℕ → Type 0
FitsU64 none = Unit
FitsU64 (some n) = n < 2 ^ 64

decode_key-sort_bytes :
    (sort_time : Option ℕ) (rest : List ℕ)
    → FitsU64 sort_time
    → decode_key (sort_bytes sort_time ++ rest) ≡ ok (sort_time, rest)
unfolding decode_key sort_bytes sort_part
decode_key-sort_bytes none rest h = refl
decode_key-sort_bytes (some n) rest h = rw (split_be_bytes-to_be_bytes n rest h) refl

sort_bytes-Bytes : (sort_time : Option ℕ) → Bytes (sort_bytes sort_time)
unfolding sort_bytes
sort_bytes-Bytes none = (omega arith, tt)
sort_bytes-Bytes (some n) = (omega arith, to_be_bytes-Bytes n)

length-sort_bytes :
    (sort_time : Option ℕ)
    → length (sort_bytes sort_time) ≡ 1 + (if is_some sort_time then 8 else 0)
unfolding sort_bytes to_be_bytes
length-sort_bytes none = refl
length-sort_bytes (some n) = refl

-- The length of a cursor's token.
abbrev pub token_size : ListCursor → ℕ
token_size cursor =
    3
    + 2
      * (33
          + ((if is_some cursor.douban_sort_time then 8 else 0)
              + length (as_bytes cursor.subject_id)))

token_length-fits :
    (cursor : ListCursor) → token_size cursor ≤ 4096 → token_length cursor ≡ ok (token_size cursor)
unfolding token_length checked
token_length-fits cursor h = ground arith

encode-large :
    (cursor : ListCursor) (scope : ListCursorScope)
    → 4096 < token_size cursor
    → encode cursor scope ≡ err (oversized 4096)
unfolding encode token_length checked
encode-large cursor scope h = ground arith

abbrev pub IsScope : ListCursorScope → Type 0
IsScope scope = (length scope ≡ 32) × Bytes scope

-- What a cursor is made of: its sort time fits, and its subject is text that `try_new` accepts.
abbrev pub IsCursor : ListCursor → Type 0
IsCursor cursor =
    FitsU64 cursor.douban_sort_time
    × IsText cursor.subject_id
    × (list_cursor_try_new cursor.douban_sort_time cursor.subject_id ≡ ok cursor)

abbrev pub token_text : ListCursor → ListCursorScope → Text
token_text cursor scope = text "v2." ++ hex (cursor_payload cursor scope)

module _ (cursor : ListCursor) (scope : ListCursorScope) (hs : IsScope scope)
    (hc : IsCursor cursor) where
  payload-Bytes : Bytes (cursor_payload cursor scope)
  unfolding cursor_payload
  payload-Bytes =
      Every-append (λ b. b < 256) scope _ hs.1
        (Every-append (λ b. b < 256) (sort_bytes cursor.douban_sort_time) _
          (sort_bytes-Bytes cursor.douban_sort_time) (as_bytes-Bytes cursor.subject_id hc.1))

  length-payload : 3 + 2 * length (cursor_payload cursor scope) ≡ token_size cursor
  unfolding cursor_payload
  length-payload = omega (
    arith,
    hs.0,
    length-append scope (sort_bytes cursor.douban_sort_time ++ as_bytes cursor.subject_id),
    length-append (sort_bytes cursor.douban_sort_time) (as_bytes cursor.subject_id),
    length-sort_bytes cursor.douban_sort_time,
  )

  as_bytes-token_text : as_bytes (token_text cursor scope) ≡ token_text cursor scope
  unfolding as_bytes encode_char
  as_bytes-token_text = rw (as_bytes-hex (cursor_payload cursor scope) payload-Bytes) refl

  decode_hex-payload :
      decode_hex (hex (cursor_payload cursor scope)) ≡ ok (cursor_payload cursor scope)
  unfolding decode_hex
  decode_hex-payload =
      rw
        (
          as_bytes-hex (cursor_payload cursor scope) payload-Bytes,
          length-hex (cursor_payload cursor scope),
          decode_pairs-hex (cursor_payload cursor scope) payload-Bytes,
        )
        (ground (arith, length-payload))

  split_bytes-payload :
      split_bytes 32 (cursor_payload cursor scope)
      ≡ some (scope, sort_bytes cursor.douban_sort_time ++ as_bytes cursor.subject_id)
  unfolding cursor_payload
  split_bytes-payload =
      subst
        (λ n.
          split_bytes n (cursor_payload cursor scope)
          ≡ some (scope, sort_bytes cursor.douban_sort_time ++ as_bytes cursor.subject_id))
        hs.0 (split_bytes-append scope _)

  token_text-short :
      token_size cursor ≤ 4096
      → leb (length (as_bytes (token_text cursor scope))) max_cursor_token_len ≡ true
  token_text-short h =
      rw as_bytes-token_text
        (le→leb _ 4096 (omega (arith, h, length-payload, length-hex (cursor_payload cursor scope))))

  pub decode_token-token_text :
      token_size cursor ≤ 4096 → decode_token (token_text cursor scope) ≡ ok (scope, cursor)
  unfolding decode_token split_once text_eq
  decode_token-token_text h =
      rw
        (
          token_text-short h,
          decode_hex-payload,
          split_bytes-payload,
          decode_key-sort_bytes cursor.douban_sort_time (as_bytes cursor.subject_id) hc.0,
          from_utf8-as_bytes cursor.subject_id hc.1,
          hc.2,
        )
        refl

-- The whole way of a cursor: it is encoded for a scope, its token is parsed, and the cursor is
-- decoded under the scope that is expected.
abbrev pub travel : ListCursor → ListCursorScope → ListCursorScope → Coded ListCursor
travel cursor scope expected = do
  sent ← encode cursor scope
  received ← try_from sent.token
  decode received expected

-- A cursor with a valid subject and a sort time that fits, encoded for a scope of 32 bytes: if its
-- token has at most 4096 bytes, the token is parsed and decodes to the cursor under that scope, and
-- is refused under any other; if the token would be longer, it is not written.
pub encode-decode :
    (cursor : ListCursor) (scope expected : ListCursorScope)
    → IsScope scope
    → IsCursor cursor
    → travel cursor scope expected ≡ (
        if leb (token_size cursor) 4096
        then (if text_eq scope expected then ok cursor else err scope_mismatch)
        else err (oversized 4096))
unfolding try_from encode decode
encode-decode cursor scope expected hs hc = elim (Bool-cases (leb (token_size cursor) 4096)) [
  | inl short ↦
      let le = leb→le (token_size cursor) 4096 short in
      rw
        (
          token_length-fits cursor le,
          short,
          decode_token-token_text cursor scope hs hc le,
          decode_token-token_text cursor scope hs hc le,
        )
        refl
  | inr long ↦ rw (encode-large cursor scope (ground arith), long) refl
]
