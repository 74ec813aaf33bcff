-- ===== src/Common/Utf8.antt =====
-- UTF-8, as `str::as_bytes` and `std::str::from_utf8` have it, and big-endian words.
use Prim.Native.Nat.{ℕ, zero, suc, ◌+◌, ◌-◌, ◌*◌, ◌/◌, ◌%◌, ◌^◌, ◌≤◌, ◌<◌}
use mathlib.Core.Path.{◌≡◌, refl, ap, subst}
use mathlib.Core.Logic.{inl, inr}
use mathlib.Core.Bool.{Bool, true, ◌&&◌, ◌||◌}
use mathlib.Core.Option.{Option, none, some}
use mathlib.Core.List.{List, [], ◌∷◌, ◌++◌}
use native.Mathlib.Omega.{arith}
use tmdb_mteam_hub.Common.Tests.{some-injective, Bool-cases, ltb, leb, if◌then◌else◌}
use tmdb_mteam_hub.Common.Lists.{Every}
use tmdb_mteam_hub.Common.Texts.{Text}

-- A Unicode scalar value: at most 0x10ffff, and no surrogate.
unfoldable pub is_scalar : ℕ → Bool
is_scalar c = ltb c 0xd800 || (leb 0xe000 c && leb c 0x10ffff)

abbrev pub IsText : Text → Type 0
IsText s = Every (λ c. is_scalar c ≡ true) s

-- The bytes of one scalar, in front of `rest`.
unfoldable pub encode_char : ℕ → List ℕ → List ℕ
encode_char c rest =
    if ltb c 0x80
    then c ∷ rest
    else if ltb c 0x800
    then (192 + c / 64) ∷ (128 + c % 64) ∷ rest
    else if ltb c 0x10000
    then (224 + c / 4096) ∷ (128 + c / 64 % 64) ∷ (128 + c % 64) ∷ rest
    else (240 + c / 262144) ∷ (128 + c / 4096 % 64) ∷ (128 + c / 64 % 64) ∷ (128 + c % 64) ∷ rest

-- `str::as_bytes`
unfoldable pub as_bytes : Text → List ℕ
unfolding encode_char
as_bytes [] = []
as_bytes (c ∷ s) = encode_char c (as_bytes s)

abbrev pub cons_some : ℕ → Option Text → Option Text
cons_some c none = none
cons_some c (some s) = some (c ∷ s)

-- `need` continuation bytes are open; `acc` holds the bits so far, and `least` the smallest scalar
-- that wants so many bytes.
unfoldable pub decode_from : ℕ → ℕ → ℕ → List ℕ → Option Text
unfolding is_scalar
decode_from zero acc least [] = some []
decode_from (suc need) acc least [] = none
decode_from zero acc least (b ∷ rest) =
    let one = cons_some b (decode_from 0 0 0 rest) in
    let two = decode_from 1 (b - 192) 0x80 rest in
    let three = decode_from 2 (b - 224) 0x800 rest in
    let four = decode_from 3 (b - 240) 0x10000 rest in
    if ltb b 0x80
    then one
    else if leb 0xc2 b && leb b 0xdf
    then two
    else if leb 0xe0 b && leb b 0xef
    then three
    else if leb 0xf0 b && leb b 0xf4
    then four
    else none
decode_from (suc zero) acc least (b ∷ rest) =
    let c = acc * 64 + (b - 128) in
    let done = cons_some c (decode_from 0 0 0 rest) in
    if leb 0x80 b && leb b 0xbf && leb least c && is_scalar c then done else none
decode_from (suc (suc need)) acc least (b ∷ rest) =
    let more = decode_from (suc need) (acc * 64 + (b - 128)) least rest in
    if leb 0x80 b && leb b 0xbf then more else none

-- `std::str::from_utf8`
unfoldable pub from_utf8 : List ℕ → Option Text
unfolding decode_from
from_utf8 bytes = decode_from 0 0 0 bytes

-- One continuation byte, which carries six bits.
decode_more :
    (need acc least low : ℕ) (rest : List ℕ)
    → low < 64
    → decode_from (suc (suc need)) acc least ((128 + low) ∷ rest)
      ≡ decode_from (suc need) (acc * 64 + low) least rest
unfolding decode_from
decode_more need acc least low rest h = ground arith

decode_last :
    (acc least low : ℕ) (rest : List ℕ)
    → low < 64
    → least ≤ acc * 64 + low
    → is_scalar (acc * 64 + low) ≡ true
    → decode_from 1 acc least ((128 + low) ∷ rest)
      ≡ cons_some (acc * 64 + low) (decode_from 0 0 0 rest)
unfolding decode_from
decode_last acc least low rest h k v = ground arith

lead_four :
    (high : ℕ) (rest : List ℕ)
    → high ≤ 4
    → decode_from 0 0 0 ((240 + high) ∷ rest) ≡ decode_from 3 high 0x10000 rest
unfolding decode_from
lead_four zero rest h = refl
lead_four (suc zero) rest h = refl
lead_four (suc (suc zero)) rest h = refl
lead_four (suc (suc (suc zero))) rest h = refl
lead_four (suc (suc (suc (suc zero)))) rest h = refl
lead_four (suc (suc (suc (suc (suc high))))) rest h = absurd (omega arith)

scalar_high : (c : ℕ) → is_scalar c ≡ true → c / 262144 ≤ 4
unfolding is_scalar
scalar_high c h = ground arith

four_bits : (c : ℕ) → ((c / 262144 * 64 + c / 4096 % 64) * 64 + c / 64 % 64) * 64 + c % 64 ≡ c
four_bits c = omega arith

-- One lemma for each length of the encoding.
module _ (c : ℕ) (rest : List ℕ) where
  decode_one : c < 0x80 → decode_from 0 0 0 (c ∷ rest) ≡ cons_some c (decode_from 0 0 0 rest)
  unfolding decode_from
  decode_one h = ground arith

  decode_two :
      0x80 ≤ c
      → c < 0x800
      → decode_from 0 0 0 ((192 + c / 64) ∷ (128 + c % 64) ∷ rest)
        ≡ cons_some c (decode_from 0 0 0 rest)
  unfolding decode_from
  decode_two h k = ground arith

  decode_three :
      0x800 ≤ c
      → c < 0x10000
      → is_scalar c ≡ true
      → decode_from 0 0 0 ((224 + c / 4096) ∷ (128 + c / 64 % 64) ∷ (128 + c % 64) ∷ rest)
        ≡ cons_some c (decode_from 0 0 0 rest)
  unfolding decode_from
  decode_three h k v = ground arith

  decode_four :
      0x10000 ≤ c
      → is_scalar c ≡ true
      → decode_from 0 0 0
          ((240 + c / 262144) ∷ (128 + c / 4096 % 64) ∷ (128 + c / 64 % 64) ∷ (128 + c % 64) ∷ rest)
        ≡ cons_some c (decode_from 0 0 0 rest)
  decode_four h v = rw (lead_four (c / 262144) _ (scalar_high c v)) (
      rw (decode_more 1 (c / 262144) 0x10000 (c / 4096 % 64) _ (omega arith)) (
        rw (decode_more 0 (c / 262144 * 64 + c / 4096 % 64) 0x10000 (c / 64 % 64) _ (omega arith)) (
          cc (
            decode_last ((c / 262144 * 64 + c / 4096 % 64) * 64 + c / 64 % 64) 0x10000 (c % 64) rest
                (omega arith) (rw (four_bits c) h) (rw (four_bits c) v),
            four_bits c,
          ))))

decode-encode_char :
    (c : ℕ) (rest : List ℕ)
    → is_scalar c ≡ true
    → decode_from 0 0 0 (encode_char c rest) ≡ cons_some c (decode_from 0 0 0 rest)
unfolding encode_char
decode-encode_char c rest h =
    ground (arith, decode_one c rest, decode_two c rest, decode_three c rest, decode_four c rest)

-- Every `String` is read back from its bytes.
pub from_utf8-as_bytes : (s : Text) → IsText s → from_utf8 (as_bytes s) ≡ some s
unfolding from_utf8 as_bytes
from_utf8-as_bytes [] h = refl
from_utf8-as_bytes (c ∷ s) h = cc (decode-encode_char c (as_bytes s) h.0, from_utf8-as_bytes s h.1)

pub as_bytes-injective : (s t : Text) → IsText s → IsText t → as_bytes s ≡ as_bytes t → s ≡ t
as_bytes-injective s t hs ht e =
    cc (from_utf8-as_bytes s hs, from_utf8-as_bytes t ht, ap from_utf8 e)

cons_some-IsText :
    (c : ℕ) (o : Option Text) (s : Text)
    → is_scalar c ≡ true
    → ((t : Text) → o ≡ some t → IsText t)
    → cons_some c o ≡ some s
    → IsText s
cons_some-IsText c none s h rest e = cc
cons_some-IsText c (some t) s h rest e = subst IsText (some-injective refl e) (h, rest t refl)

ascii-is_scalar : (b : ℕ) → ltb b 0x80 ≡ true → is_scalar b ≡ true
unfolding is_scalar
ascii-is_scalar b h = ground arith

last-IsText :
    (p q r : Bool) (c : ℕ) (o : Option Text) (s : Text)
    → ((t : Text) → o ≡ some t → IsText t)
    → (if p && q && r && is_scalar c then cons_some c o else none) ≡ some s
    → IsText s
last-IsText p q r c o s rest e = elim (Bool-cases (p && q && r && is_scalar c)) [
  | inl holds ↦ cons_some-IsText c o s (ground (arith, holds)) rest (ground (arith, holds, e))
  | inr fails ↦ absurd (ground (arith, fails, e))
]

decode_from-IsText :
    (need acc least : ℕ) (bytes : List ℕ) (s : Text)
    → decode_from need acc least bytes ≡ some s
    → IsText s
unfolding decode_from
decode_from-IsText zero acc least [] s e = subst IsText (some-injective refl e) tt
decode_from-IsText (suc need) acc least [] s e = cc
decode_from-IsText zero acc least (b ∷ rest) s e = ground (
  arith,
  ascii-is_scalar b,
  cons_some-IsText b (decode_from 0 0 0 rest) s,
  decode_from-IsText 0 0 0 rest,
  decode_from-IsText 1 (b - 192) 0x80 rest s,
  decode_from-IsText 2 (b - 224) 0x800 rest s,
  decode_from-IsText 3 (b - 240) 0x10000 rest s,
)
decode_from-IsText (suc zero) acc least (b ∷ rest) s e =
    last-IsText (leb 0x80 b) (leb b 0xbf) (leb least (acc * 64 + (b - 128))) (acc * 64 + (b - 128))
      (decode_from 0 0 0 rest) s (decode_from-IsText 0 0 0 rest) e
decode_from-IsText (suc (suc need)) acc least (b ∷ rest) s e =
    ground (arith, decode_from-IsText (suc need) (acc * 64 + (b - 128)) least rest s)

-- What `from_utf8` accepts is a list of scalars.
pub from_utf8-IsText : (bytes : List ℕ) (s : Text) → from_utf8 bytes ≡ some s → IsText s
unfolding from_utf8
from_utf8-IsText bytes s e = decode_from-IsText 0 0 0 bytes s e

-- `u64::to_be_bytes`: eight bytes, the highest first.
unfoldable pub to_be_bytes : ℕ → List ℕ
to_be_bytes n =
    (n / 2 ^ 56 % 256)
    ∷ (n / 2 ^ 48 % 256)
    ∷ (n / 2 ^ 40 % 256)
    ∷ (n / 2 ^ 32 % 256)
    ∷ (n / 2 ^ 24 % 256)
    ∷ (n / 2 ^ 16 % 256)
    ∷ (n / 2 ^ 8 % 256)
    ∷ (n % 256)
    ∷ []

-- `u64::from_be_bytes` of the first eight bytes, and what follows them.
unfoldable pub split_be_bytes : List ℕ → Option (ℕ × List ℕ)
split_be_bytes (a ∷ b ∷ c ∷ d ∷ e ∷ f ∷ g ∷ h ∷ rest) =
    some (((((((a * 256 + b) * 256 + c) * 256 + d) * 256 + e) * 256 + f) * 256 + g) * 256 + h, rest)
split_be_bytes _ = none

be_bytes_value :
    (n : ℕ)
    → n < 2 ^ 64
    → ((((((n / 2 ^ 56 % 256 * 256 + n / 2 ^ 48 % 256) * 256 + n / 2 ^ 40 % 256) * 256
                        + n / 2 ^ 32 % 256)
                      * 256
                    + n / 2 ^ 24 % 256)
                  * 256
                + n / 2 ^ 16 % 256)
              * 256
            + n / 2 ^ 8 % 256)
          * 256
        + n % 256
      ≡ n
be_bytes_value n h = omega arith

pub split_be_bytes-to_be_bytes :
    (n : ℕ) (rest : List ℕ) → n < 2 ^ 64 → split_be_bytes (to_be_bytes n ++ rest) ≡ some (n, rest)
unfolding split_be_bytes to_be_bytes
split_be_bytes-to_be_bytes n rest h = cc (be_bytes_value n h)
