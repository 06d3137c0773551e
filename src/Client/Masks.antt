-- ===== src/Client/Masks.antt =====
-- The mask of the records that the client logs: `brr_mask2ascii` and `brr_mask_is_set` of cli/blobio/brr.c.
use Prim.Native.Nat.{bit_or}
use blobio.Base.{
  ℕ, ◌+◌, ◌-◌, ◌*◌, ◌/◌, ◌%◌, ◌<◌, ◌≡◌, refl, ap, true, some, [], ◌∷◌, Bytes, ltb, ◌==◌,
  if◌then◌else◌, is_lower, all_below, below, arith,
}
use blobio.Qarg.{get_brr_mask, hex_value}

-- `hexmap[n]`
abbrev hexmap : ℕ → ℕ
hexmap n = if ltb n 10 then b'0' + n else b'a' + (n - 10)

unfoldable pub brr_mask2ascii : ℕ → Bytes
brr_mask2ascii mask = b'0' ∷ b'x' ∷ hexmap (mask / 16 % 16) ∷ hexmap (mask % 16) ∷ []

-- What `get_brr_mask` reads behind the `0x`.
abbrev read_back : ℕ → ℕ
read_back mask =
    bit_or (hex_value (hexmap (mask / 16 % 16)) * 16 % 256) (hex_value (hexmap (mask % 16)))

all_read_back : all_below 256 (λ mask. read_back mask == mask) ≡ true
unfolding all_below hex_value is_lower
all_read_back = refl

equal_numbers : (a b : ℕ) → (a == b) ≡ true → a ≡ b
equal_numbers a b h = ground arith

-- The mask that is read at the two digits that `brr_mask2ascii` writes behind the `0x` is the mask
-- that was written, for each unsigned char.
pub get_brr_mask-brr_mask2ascii :
    (mask : ℕ) → mask < 256 → get_brr_mask (brr_mask2ascii mask) (some 2) ≡ some mask
unfolding get_brr_mask brr_mask2ascii
get_brr_mask-brr_mask2ascii mask lt =
    let same : read_back mask ≡ mask =
      equal_numbers (read_back mask) mask
        (below 256 mask (λ mask. read_back mask == mask) all_read_back lt) in
    ap some same
