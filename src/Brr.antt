-- ===== src/Brr.antt =====
-- What `brr_send` of bio4d/brr.c decides of a record: whether the verb is logged, the wall duration, the text.
pub mod Mask
pub mod Duration
pub mod Format
pub mod Messages
pub mod Stamped
pub mod Sent
pub mod Taken
pub mod Numbers
pub mod Accepted
pub mod Logged
use Prim.Native.Nat.{bit_and}
use blobio.Base.{
  ℕ, ◌+◌, ◌-◌, Bool, true, false, not, List, [], ◌∷◌, Bytes, ltb, ◌==◌, if◌then◌else◌,
}
use blobio.Chat.{at}

has_bit : ℕ → ℕ → Bool
has_bit mask bit = not (bit_and mask bit == 0)

-- `at verb i` is 0 behind the end, the null of the string.
unfoldable pub brr_mask_is_set : Bytes → ℕ → Bool
unfolding has_bit
brr_mask_is_set verb mask =
    if at verb 0 == b'c'
    then has_bit mask 0x80
    else if at verb 0 == b'e'
    then has_bit mask 0x10
    else if at verb 0 == b'g'
    then if at verb 1 == b'e' then has_bit mask 0x01 else has_bit mask 0x08
    else if at verb 0 == b'p'
    then has_bit mask 0x04
    else if at verb 0 == b'r'
    then has_bit mask 0x40
    else if at verb 0 == b't'
    then has_bit mask 0x02
    else if at verb 0 == b'w'
    then has_bit mask 0x20
    else false

-- `struct timespec`, of times that are not negative.
pub record Timespec : Type 0 where
  pub tv_sec : ℕ
  pub tv_nsec : ℕ

abbrev pub nanos : ℕ
nanos = 1000000000

-- `sec` and `nsec`. A difference that is negative is set to 0, as `-` does.
unfoldable pub wall_duration : Timespec → Timespec → ℕ × ℕ
wall_duration start end =
    if ltb end.tv_nsec start.tv_nsec
    then (end.tv_sec - start.tv_sec - 1, nanos + end.tv_nsec - start.tv_nsec)
    else (end.tv_sec - start.tv_sec, end.tv_nsec - start.tv_nsec)

-- The same of `brr_service` in cli/blobio/brr.c, which sets both to 0 where the seconds are negative.
unfoldable pub client_duration : Timespec → Timespec → ℕ × ℕ
client_duration start end =
    if ltb end.tv_nsec start.tv_nsec
    then if ltb end.tv_sec (start.tv_sec + 1)
      then (0, 0)
      else (end.tv_sec - start.tv_sec - 1, nanos + end.tv_nsec - start.tv_nsec)
    else if ltb end.tv_sec start.tv_sec
    then (0, 0)
    else (end.tv_sec - start.tv_sec, end.tv_nsec - start.tv_nsec)
