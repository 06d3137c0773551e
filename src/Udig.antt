-- ===== src/Udig.antt =====
-- The type udig of PostgreSQL: sync/pgsql/contrib/udig/udig.c. Its text format, casts and queries.
pub mod Compare
pub mod Query
pub mod Operators
pub mod CrossOperators
pub mod Hex
pub mod RoundTrip
pub mod Lexical
pub mod Order
pub mod Answers
pub mod Casts
pub mod CanCast
pub mod Digests
use blobio.Base.{
  ℕ, zero, suc, ◌+◌, ◌-◌, ◌*◌, ◌/◌, ◌%◌, Bool, true, false, not, ◌&&◌, ◌||◌, Option, none, some,
  List, [], ◌∷◌, ◌++◌, Bytes, codes, ltb, leb, ◌==◌, if◌then◌else◌, is_graph, bytes_eq,
}

-- What `ereport` raises: ERROR ends the statement, and PANIC the server.
pub data Error : Type 0 where
  unprintable empty_udig can_not_parse unknown_algorithm invalid_digest : Error
  corrupted_type : Error

pub data Level : Type 0 where
  error panic : Level

pub data Datum {ℓ} (A : Type ℓ) : Type ℓ where
  ereport : Level → Error → Datum A
  datum : A → Datum A

infixl 5 ◌>>=◌
abbrev pub ◌>>=◌ {ℓ κ} : {A : Type ℓ} {B : Type κ} → Datum A → (A → Datum B) → Datum B
ereport level why >>= next = ereport level why
datum a >>= next = next a

abbrev pub udig_sha_type : ℕ
udig_sha_type = 1

abbrev pub udig_bc160_type : ℕ
udig_bc160_type = 2

abbrev pub udig_btc20_type : ℕ
udig_btc20_type = 3

abbrev pub sha : Bytes
sha = codes "sha"

abbrev pub bc160 : Bytes
bc160 = codes "bc160"

abbrev pub btc20 : Bytes
btc20 = codes "btc20"

-- The data of a generic udig: the type byte and the digest. A udig_sha, a udig_bc160 and a udig_btc20
-- are the digest alone.
pub record Udig : Type 0 where
  pub algorithm_type : ℕ
  pub digest : Bytes

unfoldable pub hex_nibble : ℕ → Option ℕ
hex_nibble c =
    if leb b'0' c && leb c b'9'
    then some (c - b'0')
    else if leb b'a' c && leb c b'f'
    then some (c - b'a' + 10)
    else none

-- One byte of `d20`, from the characters at an even and at the next odd `i`. The byte was cleared, so
-- both `|=` add to it.
abbrev pub join_nibbles : Option ℕ → Option ℕ → Option ℕ
join_nibbles none low = none
join_nibbles (some h) none = none
join_nibbles (some h) (some l) = some (h * 16 + l)

abbrev pub cons_byte : Option ℕ → Option Bytes → Option Bytes
cons_byte none rest = none
cons_byte (some d) none = none
cons_byte (some d) (some ds) = some (d ∷ ds)

-- `n` bytes are still to come, and then the null; `none` is the result -1.
unfoldable pub hex2dig : ℕ → Bytes → Option Bytes
unfolding hex_nibble
hex2dig zero [] = some []
hex2dig zero (c ∷ text) = none
hex2dig (suc n) [] = none
hex2dig (suc n) (high ∷ []) = none
hex2dig (suc n) (high ∷ low ∷ text) =
    cons_byte (join_nibbles (hex_nibble high) (hex_nibble low)) (hex2dig n text)

unfoldable pub hex2dig20 : Bytes → Option Bytes
hex2dig20 = hex2dig 20

unfoldable pub nib2hex : ℕ → ℕ
nib2hex n = if ltb n 10 then b'0' + n else b'a' + (n - 10)

-- `dig2hex40` on a digest of any length: the loop ends with the bytes.
unfoldable pub dig2hex40 : Bytes → Bytes
dig2hex40 [] = []
dig2hex40 (d ∷ ds) = nib2hex (d / 16 % 16) ∷ nib2hex (d % 16) ∷ dig2hex40 ds

abbrev pub or_invalid : Option Bytes → Datum Bytes
or_invalid none = ereport error invalid_digest
or_invalid (some d20) = datum d20

-- `udig_sha_in`, `udig_bc160_in` and `udig_btc20_in` differ in the message alone.
unfoldable pub digest_in : Bytes → Datum Bytes
unfolding hex2dig20
digest_in hex40 = or_invalid (hex2dig20 hex40)

-- `a8` after the loop, and `u`: at most `n` bytes of the text are read.
pub data Scanned : Type 0 where
  not_graphic : Scanned
  no_colon : Scanned
  scanned : Bytes → Bytes → Scanned

unfoldable pub prefix : ℕ → Scanned → Scanned
prefix c (scanned a8 u) = scanned (c ∷ a8) u
prefix c not_graphic = not_graphic
prefix c no_colon = no_colon

unfoldable pub scan_algorithm : ℕ → Bytes → Scanned
unfolding prefix
scan_algorithm zero u = no_colon
scan_algorithm (suc n) [] = no_colon
scan_algorithm (suc n) (c ∷ u) =
    let rest = scan_algorithm n u in
    if not (is_graph c) then not_graphic else if c == b':' then scanned [] u else prefix c rest

-- The two tests of `udig_in` after the loop. The loop leaves `u` at the start of the text only where
-- the text is empty.
abbrev pub after_loop : Bytes → Scanned → Datum (Bytes × Bytes)
after_loop udig not_graphic = ereport error unprintable
after_loop [] no_colon = ereport error empty_udig
after_loop (c ∷ udig) no_colon = ereport error can_not_parse
after_loop udig (scanned a8 u) = datum (a8, u)

unfoldable pub parse_algorithm : Bytes → Datum (Bytes × Bytes)
unfolding scan_algorithm
parse_algorithm udig = after_loop udig (scan_algorithm 8 udig)

unfoldable pub type_byte : Bytes → Datum ℕ
type_byte a8 =
    if bytes_eq a8 btc20
    then datum udig_btc20_type
    else if bytes_eq a8 sha
    then datum udig_sha_type
    else if bytes_eq a8 bc160
    then datum udig_bc160_type
    else ereport error unknown_algorithm

unfoldable pub udig_in : Bytes → Datum Udig
unfolding parse_algorithm type_byte digest_in
udig_in udig = parse_algorithm udig >>= (λ (a8, u).
    type_byte a8
    >>= (λ type. digest_in u >>= (λ d. datum (record { algorithm_type = type; digest = d }))))

-- The first bytes of the text that `udig_out` writes, before the colon.
unfoldable pub algorithm_out : ℕ → Datum Bytes
algorithm_out type =
    if type == udig_sha_type
    then datum sha
    else if type == udig_bc160_type
    then datum bc160
    else if type == udig_btc20_type
    then datum btc20
    else ereport panic corrupted_type

unfoldable pub udig_out : Udig → Datum Bytes
unfolding algorithm_out dig2hex40
udig_out p = algorithm_out p.algorithm_type >>= (λ a. datum (a ++ b':' ∷ dig2hex40 p.digest))
