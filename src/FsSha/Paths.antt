-- ===== src/FsSha/Paths.antt =====
-- The path of a blob and its digest: `make_path` and `fs_sha_is_digest` of bio4d/fs_sha.c, and
-- `decode_hex` of bio4d/req.c.
use Prim.Native.Nat.{bit_or}
use blobio.Base.{
  ℕ, zero, suc, ◌+◌, ◌-◌, ◌*◌, ◌%◌, Bool, true, false, not, ◌&&◌, ◌||◌, [], ◌∷◌, ◌++◌, Bytes, codes,
  take, drop, leb, is_digit, is_alpha, is_lower, bytes_eq, if◌then◌else◌,
}

abbrev pub fs_sha_root : Bytes
fs_sha_root = codes "data/fs_sha"

-- The buffers have room for the path of a digest of 40 characters.
unfoldable pub make_path : Bytes → Bytes → Bytes
make_path root digest =
    (root ++ b'/' ∷ take 3 digest ++ b'/' ∷ take 3 (drop 3 digest) ++ b'/' ∷ []) ++ digest

-- `nib` is an unsigned char: `c - 'a' + 10` wraps.
abbrev pub nibble : ℕ → ℕ
nibble c = if leb b'0' c && leb c b'9' then c - b'0' else (c + (256 - b'a') + 10) % 256

-- The bytes that `|=` leaves in a cleared buffer.
unfoldable pub decode_hex : Bytes → Bytes
decode_hex [] = []
decode_hex (high ∷ []) = nibble high * 16 % 256 ∷ []
decode_hex (high ∷ low ∷ hex) = bit_or (nibble high * 16 % 256) (nibble low) ∷ decode_hex hex

-- `c` passes the loop of `fs_sha_is_digest`.
unfoldable pub is_digest_char : ℕ → Bool
unfolding is_digit is_alpha is_lower
is_digest_char c =
    (is_digit c || (leb b'a' c && leb c b'f') || (leb b'A' c && leb c b'F'))
    && not (is_alpha c && not (is_lower c))

-- `n` characters are still to come, and then the null.
unfoldable pub is_digest_text : ℕ → Bytes → Bool
unfolding is_digest_char
is_digest_text zero [] = true
is_digest_text zero (c ∷ text) = false
is_digest_text (suc n) [] = false
is_digest_text (suc n) (c ∷ text) = is_digest_char c && is_digest_text n text

abbrev pub empty_ascii : Bytes
empty_ascii = codes "da39a3ee5e6b4b0d3255bfef95601890afd80709"

-- `fs_sha_is_digest`
unfoldable pub is_digest : Bytes → ℕ
unfolding is_digest_text
is_digest digest =
    if not (is_digest_text 40 digest)
    then 0
    else if bytes_eq (take 3 digest) (codes "da3") && bytes_eq digest empty_ascii
    then 2
    else 1
