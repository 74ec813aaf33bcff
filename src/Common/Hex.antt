-- ===== src/Common/Hex.antt =====
-- Lower-case hexadecimal text of bytes, as the format `{byte:02x}` writes it.
use Prim.Native.Nat.{ℕ, ◌+◌, ◌*◌, ◌/◌, ◌%◌}
use mathlib.Core.Path.{◌≡◌}
use mathlib.Core.List.{List, [], ◌∷◌}
use native.Mathlib.Omega.{arith}
use tmdb_mteam_hub.Common.Tests.{ltb, if◌then◌else◌}
use tmdb_mteam_hub.Common.Lists.{length}
use tmdb_mteam_hub.Common.Texts.{Text}

unfoldable pub hex_digit : ℕ → ℕ
hex_digit n = if ltb n 10 then b'0' + n else 87 + n

unfoldable pub hex : List ℕ → Text
unfolding hex_digit
hex [] = []
hex (b ∷ rest) = hex_digit (b / 16) ∷ hex_digit (b % 16) ∷ hex rest

pub length-hex : (bytes : List ℕ) → length (hex bytes) ≡ 2 * length bytes
unfolding hex
length-hex [] = omega arith
length-hex (b ∷ rest) = omega (arith, length-hex rest)
