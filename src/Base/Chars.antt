-- ===== src/Base/Chars.antt =====
-- The character classes of `ctype.h` in the C locale, over bytes.
use Prim.Native.Nat.{ℕ}
use mathlib.Core.Bool.{Bool, ◌&&◌, ◌||◌}
use blobio.Base.Tests.{leb}

abbrev within : ℕ → ℕ → ℕ → Bool
within lo hi c = leb lo c && leb c hi

unfoldable pub is_digit : ℕ → Bool
is_digit c = within b'0' b'9' c

unfoldable pub is_lower : ℕ → Bool
is_lower c = within b'a' b'z' c

unfoldable pub is_alpha : ℕ → Bool
is_alpha c = within b'a' b'z' c || within b'A' b'Z' c

unfoldable pub is_alnum : ℕ → Bool
unfolding is_alpha is_digit
is_alnum c = is_alpha c || is_digit c

-- `isgraph`: printable and no space.
unfoldable pub is_graph : ℕ → Bool
is_graph c = within 33 126 c

unfoldable pub is_print : ℕ → Bool
is_print c = within 32 126 c

unfoldable pub is_ascii : ℕ → Bool
is_ascii c = leb c 127
