-- ===== src/Udig/Query.antt =====
-- The casts of a digest to a generic udig, and the functions that ask about one udig.
use blobio.Base.{
  Bool, true, false, not, ◌&&◌, ◌||◌, Option, none, some, [], ◌∷◌, Bytes, ◌==◌, if◌then◌else◌,
  bytes_eq,
}
use blobio.Udig.{
  Udig, Datum, datum, ereport, error, panic, corrupted_type, empty_udig, unprintable, udig_sha_type,
  udig_bc160_type, udig_btc20_type, sha, bc160, btc20, Scanned, not_graphic, no_colon, scanned,
  scan_algorithm, hex2dig20,
}

unfoldable pub udig_sha_cast : Bytes → Udig
udig_sha_cast src = record { algorithm_type = udig_sha_type; digest = src }

unfoldable pub udig_bc160_cast : Bytes → Udig
udig_bc160_cast src = record { algorithm_type = udig_bc160_type; digest = src }

unfoldable pub udig_btc20_cast : Bytes → Udig
udig_btc20_cast src = record { algorithm_type = udig_btc20_type; digest = src }

unfoldable pub udig_algorithm : Udig → Datum Bytes
udig_algorithm a =
    if a.algorithm_type == udig_btc20_type
    then datum btc20
    else if a.algorithm_type == udig_sha_type
    then datum sha
    else if a.algorithm_type == udig_bc160_type
    then datum bc160
    else ereport panic corrupted_type

abbrev pub is_hex : Option Bytes → Bool
is_hex none = false
is_hex (some d20) = true

-- `strcmp("btc20", a8)` stands without `== 0`.
unfoldable pub can_cast_name : Bytes → Bool
can_cast_name a8 = not (bytes_eq btc20 a8) || bytes_eq sha a8 || bytes_eq bc160 a8

unfoldable pub can_cast_scanned : Scanned → Datum Bool
unfolding can_cast_name hex2dig20
can_cast_scanned not_graphic = ereport error unprintable
can_cast_scanned no_colon = ereport error empty_udig
can_cast_scanned (scanned a8 u) = datum (can_cast_name a8 && is_hex (hex2dig20 u))

unfoldable pub udig_can_cast : Bytes → Datum Bool
unfolding scan_algorithm can_cast_scanned
udig_can_cast udig = can_cast_scanned (scan_algorithm 8 udig)

-- The digests of the empty blob.
abbrev pub empty_sha : Bytes
empty_sha =
    0xda ∷ 0x39 ∷ 0xa3 ∷ 0xee ∷ 0x5e ∷ 0x6b ∷ 0x4b ∷ 0x0d ∷ 0x32 ∷ 0x55 ∷ 0xbf ∷ 0xef ∷ 0x95 ∷ 0x60
    ∷ 0x18 ∷ 0x90 ∷ 0xaf ∷ 0xd8 ∷ 0x07 ∷ 0x09 ∷ []

abbrev pub empty_bc160 : Bytes
empty_bc160 =
    0xb4 ∷ 0x72 ∷ 0xa2 ∷ 0x66 ∷ 0xd0 ∷ 0xbd ∷ 0x89 ∷ 0xc1 ∷ 0x37 ∷ 0x06 ∷ 0xa4 ∷ 0x13 ∷ 0x2c ∷ 0xcf
    ∷ 0xb1 ∷ 0x6f ∷ 0x7c ∷ 0x3b ∷ 0x9f ∷ 0xcb ∷ []

abbrev pub empty_btc20 : Bytes
empty_btc20 =
    0xfd ∷ 0x7b ∷ 0x15 ∷ 0xdc ∷ 0x5d ∷ 0xc2 ∷ 0x03 ∷ 0x95 ∷ 0x56 ∷ 0x69 ∷ 0x35 ∷ 0x55 ∷ 0xc2 ∷ 0xb8
    ∷ 0x1b ∷ 0x36 ∷ 0xc8 ∷ 0xde ∷ 0xec ∷ 0x15 ∷ []

-- `none` stands for the address of the text "corrupted udig": the `ereport` in the `switch` is not
-- reached.
unfoldable pub udig_is_empty : Udig → Option Bool
udig_is_empty a =
    if a.algorithm_type == udig_sha_type
    then some (bytes_eq a.digest empty_sha)
    else if a.algorithm_type == udig_bc160_type
    then some (bytes_eq a.digest empty_bc160)
    else if a.algorithm_type == udig_btc20_type
    then some (bytes_eq a.digest empty_btc20)
    else none

unfoldable pub udig_is_sha : Udig → Bool
udig_is_sha a = a.algorithm_type == udig_sha_type

unfoldable pub udig_is_bc160 : Udig → Bool
udig_is_bc160 a = a.algorithm_type == udig_bc160_type

unfoldable pub udig_is_btc20 : Udig → Bool
udig_is_btc20 a = a.algorithm_type == udig_btc20_type
